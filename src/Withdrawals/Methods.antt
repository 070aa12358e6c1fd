-- ===== src/Withdrawals/Methods.antt =====
-- The methods that write to the withdrawals, one by one, and the attempts that they leave alone.
use payd.Prelude.{
  List, ℕ, zero, suc, ◌+◌, Bool, true, false, not, ◌&&◌, ◌≡◌, refl, sym, ap, ◌∙◌, subst, Option,
  none, some, [], ◌∷◌, ◌++◌, map, find, select, find_before, count, exists, ok, >>=-eq-ok,
  ok-injective, or_error, guard, Bool-cases, Option-cases, inl, inr, ◌==◌, if◌then◌else◌, no_rows,
  holds, coalesce, source_unavailable, balance_drift, insufficient_funds, daily_limit,
  idempotency_reuse, withdrawal_state, invalid_amount, ℤ, pos, negsuc,
}
use payd.Decimal.{Text, set_string}
use payd.Schema.{
  Time, unix, Database, Withdrawal, WithdrawalStatus, EventConfig, Action, is_disabled, LogIndex,
  Price, EnergyPurchase, is_purchased,
}
use payd.Recalc.{is_balance_of}
use payd.Chain.Links.{recalculate_balance-SameBook}
use payd.Withdrawals.{
  CreateWithdrawal, create_withdrawal, claim_withdrawal, replay_or_insert, insert_withdrawal,
  inserted, is_same_request, source_of, covers, is_positive_usd, decimal_sum_within, counts_today,
  approve, approved_row, rejected_row, has_status, is_requested, is_other_holding, subtract_held,
  sum_rats, zero_rat,
}
use payd.Withdrawals.Transitions.{is_final}
use payd.Withdrawals.Outcome.{
  confirm_withdrawal, resolve_withdrawal, charge_fee, is_sent_unconfirmed, confirmed_row,
  energy_cost_of, burned, awaits_operator, resolved_row, not_resolvable, fee_row, trx, no_text,
}
use payd.Payments.{is_payment}
use payd.Rental.{
  complete_purchase, reconcile_energy, show_cost, has_purchase_status, is_purchased_for,
}
use payd.Withdrawals.Attempt.{
  KeepsAttempts, KeepsAttempts-refl, update-KeepsAttempts, announced-KeepsAttempts,
  announced-withdrawals,
}

-- What an insertion adds.
pub insert-adds :
    (r : CreateWithdrawal) (db : Database) {x : Withdrawal × Database}
    → insert_withdrawal r db ≡ ok x
    → (address_id : ℕ) × (x ≡ inserted r address_id db)
unfolding insert_withdrawal
insert-adds r db h =
    let ((a, b), _, h1) =
      >>=-eq-ok
        (or_error
          (source_of (find (λ a. a.address == r.from_address) db.addresses) db.balances r.asset)
          source_unavailable)
        _ h in
    let (_, _, h2) = >>=-eq-ok (guard (not (is_disabled a.state)) source_unavailable) _ h1 in
    let (_, _, h3) = >>=-eq-ok (guard (not b.drift_detected) balance_drift) _ h2 in
    let (_, _, h4) =
      >>=-eq-ok
        (guard (covers (set_string b.confirmed_raw) (set_string r.amount_raw)) insufficient_funds) _
        h3 in
    let (_, _, h5) =
      >>=-eq-ok
        (guard (is_positive_usd r.amount_usd && is_positive_usd r.daily_limit_usd) daily_limit) _
        h4 in
    let (within, _, h6) =
      >>=-eq-ok
        (decimal_sum_within (map (λ w. w.amount_usd) (select (counts_today r.now) db.withdrawals))
          r.amount_usd r.daily_limit_usd)
        _ h5 in
    let (_, _, h7) = >>=-eq-ok (guard within daily_limit) _ h6 in (a.id, sym (ok-injective h7))

insert-appends :
    (r : CreateWithdrawal) (db : Database) {w : Withdrawal} {db' : Database}
    → insert_withdrawal r db ≡ ok (w, db')
    → db'.withdrawals ≡ db.withdrawals ++ w ∷ []
insert-appends r db h =
    subst (λ x. x.1.withdrawals ≡ db.withdrawals ++ x.0 ∷ []) (sym (insert-adds r db h).1) refl

pub create-KeepsAttempts :
    (r : CreateWithdrawal) (db : Database) {x : Withdrawal × Bool × Database}
    → create_withdrawal r db ≡ ok x
    → KeepsAttempts db.withdrawals x.2.withdrawals
unfolding create_withdrawal
create-KeepsAttempts r db h =
    elim (Option-cases (find (λ w. w.idempotency_key == r.idempotency_key) db.withdrawals)) [
      | inr (w, e) ↦
          let (_, _, h1) =
            >>=-eq-ok (guard (is_same_request r w) idempotency_reuse) _
              (rw (e, replay_or_insert) at h) in
          subst (λ x. KeepsAttempts db.withdrawals x.2.withdrawals) (ok-injective h1)
            (KeepsAttempts-refl db.withdrawals)
      | inl e ↦
          let (x, e1, h1) = >>=-eq-ok (insert_withdrawal r db) _ (rw (e, replay_or_insert) at h) in
          let added = insert-appends r db {w = x.0} {db' = x.1} e1 in
          subst (λ x. KeepsAttempts db.withdrawals x.2.withdrawals) (ok-injective h1)
            λ id txid w found t. (
              w,
              subst (λ ws. find (λ w. w.id == id) ws ≡ some w) (sym added)
                  (find_before (λ w. w.id == id) db.withdrawals (x.0 ∷ []) w found),
              (refl, refl, refl, refl, refl),
            )
    ]

approve-KeepsAttempts :
    (w : Withdrawal) (stamp : ℕ) (db : Database)
    → KeepsAttempts db.withdrawals (approve w stamp db).1.withdrawals
approve-KeepsAttempts w stamp db =
    elim (Bool-cases (
      count (has_status w.id is_requested) db.withdrawals == 1
      && not (exists (is_other_holding w) db.withdrawals))) [
        | inl e ↦ rw e (
            update-KeepsAttempts (has_status w.id is_requested) (approved_row stamp) (λ x. refl)
              (λ x t y e. (refl, refl, refl, refl, refl)) db.withdrawals)
        | inr e ↦ rw e (KeepsAttempts-refl db.withdrawals)
      ]

pub claim-KeepsAttempts :
    (id : ℕ) (now : Time) (db : Database) {r : Bool × Database}
    → claim_withdrawal id now db ≡ ok r
    → KeepsAttempts db.withdrawals r.1.withdrawals
unfolding claim_withdrawal
claim-KeepsAttempts id now db h =
    let (w, _, h1) = >>=-eq-ok (or_error (find (λ w. w.id == id) db.withdrawals) no_rows) _ h in
    let (b, _, h2) =
      >>=-eq-ok
        (or_error
          (find (λ b. is_balance_of w.address_id w.asset b && not b.drift_detected) db.balances)
          no_rows)
        _ h1 in
    let (have, _, h3) = >>=-eq-ok (or_error (set_string b.confirmed_raw) invalid_amount) _ h2 in
    let (free, _, h4) =
      >>=-eq-ok
        (subtract_held have
          (select (λ v. is_other_holding w v && v.asset == w.asset) db.withdrawals))
        _ h3 in
    elim (Bool-cases (covers (some free) (set_string w.amount_raw))) [
      | inl e ↦
          subst (λ r. KeepsAttempts db.withdrawals r.1.withdrawals) (ok-injective (rw e at h4))
            (approve-KeepsAttempts w (unix now) db)
      | inr e ↦
          subst (λ r. KeepsAttempts db.withdrawals r.1.withdrawals) (ok-injective (rw e at h4))
            (update-KeepsAttempts (has_status w.id is_requested) (rejected_row (unix now))
              (λ x. refl) (λ x t y e. (refl, refl, refl, refl, refl)) db.withdrawals)
    ]

one_of-withdrawals :
    (b : Bool) (db next : Database)
    → next.withdrawals ≡ db.withdrawals
    → (if b then db else next).withdrawals ≡ db.withdrawals
one_of-withdrawals true db next h = refl
one_of-withdrawals false db next h = h

charge-withdrawals :
    (w : Withdrawal) (fee : Option ℤ) (height timestamp stamp : ℕ) (db : Database) {db' : Database}
    → charge_fee w fee height timestamp stamp db ≡ ok db'
    → db'.withdrawals ≡ db.withdrawals
unfolding charge_fee
charge-withdrawals w none height timestamp stamp db h =
    ap (λ d. d.withdrawals) (sym (ok-injective h))
charge-withdrawals w (some (negsuc n)) height timestamp stamp db h =
    ap (λ d. d.withdrawals) (sym (ok-injective h))
charge-withdrawals w (some (pos zero)) height timestamp stamp db h =
    ap (λ d. d.withdrawals) (sym (ok-injective h))
charge-withdrawals w (some (pos (suc n))) height timestamp stamp db h =
    let row = fee_row db.draws w (suc n) height timestamp stamp in
    let b = exists (is_payment row.txid LogIndex.fee) db.payments in
    let charged = record db { payments = db.payments ++ row ∷ []; draws = db.draws + 1 } in
    (recalculate_balance-SameBook (if b then db else charged) w.address_id trx h).0.3
    ∙ one_of-withdrawals b db charged refl

pub confirm-KeepsAttempts :
    (id : ℕ) (fee_raw : Text) (energy_used height timestamp : ℕ) (events : EventConfig) (now : Time)
    (db : Database) {db' : Database}
    → confirm_withdrawal id fee_raw energy_used height timestamp events now db ≡ ok db'
    → KeepsAttempts db.withdrawals db'.withdrawals
unfolding confirm_withdrawal
confirm-KeepsAttempts id fee_raw energy_used height timestamp events now db h =
    let (w, _, h1) = >>=-eq-ok (or_error (find (λ w. w.id == id) db.withdrawals) no_rows) _ h in
    let (cost, _, h2) = >>=-eq-ok (energy_cost_of (holds w.energy_source burned) fee_raw) _ h1 in
    announced-KeepsAttempts (is_sent_unconfirmed id)
      (confirmed_row fee_raw energy_used cost (unix now)) (λ x. refl)
      (λ x t y e. (refl, refl, refl, refl, refl)) _ _ db
      (λ d d' e.
        let (c, ec, e1) =
          >>=-eq-ok (charge_fee w (set_string fee_raw) height timestamp (unix now) d) _ e in
        ap (λ x. x.withdrawals) (sym (ok-injective e1))
        ∙ announced-withdrawals id _ _ Action.withdrawal_confirmed (coalesce w.txid no_text) events
            now c
        ∙ charge-withdrawals w (set_string fee_raw) height timestamp (unix now) d ec)
      h2

pub resolve-KeepsAttempts :
    (id : ℕ) (outcome : WithdrawalStatus) (reason actor : ℕ) (now : Time) (db : Database)
    {db' : Database}
    → resolve_withdrawal id outcome reason actor now db ≡ ok db'
    → KeepsAttempts db.withdrawals db'.withdrawals
unfolding resolve_withdrawal
resolve-KeepsAttempts id outcome reason actor now db h =
    let (_, _, h1) = >>=-eq-ok (guard (is_final outcome) withdrawal_state) _ h in
    elim (Bool-cases (count (awaits_operator id) db.withdrawals == 1)) [
      | inl e ↦
          subst (λ d. KeepsAttempts db.withdrawals d.withdrawals) (ok-injective (rw e at h1))
            (update-KeepsAttempts (awaits_operator id) (resolved_row outcome reason (unix now))
              (λ x. refl) (λ x t y e. (refl, refl, refl, refl, refl)) db.withdrawals)
      | inr e ↦ elim (Option-cases (find (λ w. w.id == id) db.withdrawals)) [
        | inl n ↦ let bad = rw (e, n, not_resolvable) at h1 in cc
        | inr (w, n) ↦ let bad = rw (e, n, not_resolvable) at h1 in cc
      ]
    ]

show_cost-KeepsAttempts :
    (p : Option EnergyPurchase) (ws : List Withdrawal) → KeepsAttempts ws (show_cost p ws)
show_cost-KeepsAttempts none ws = KeepsAttempts-refl ws
show_cost-KeepsAttempts (some p) ws =
    update-KeepsAttempts _ _ (λ x. refl) (λ x t y e. (refl, refl, refl, refl, refl)) ws

pub complete-KeepsAttempts :
    (id : ℕ) (actual : Option Price) (txid : Option ℕ) (now : Time) (db : Database)
    → KeepsAttempts db.withdrawals (complete_purchase id actual txid now db).withdrawals
unfolding complete_purchase
complete-KeepsAttempts id actual txid now db =
    elim (Bool-cases (count (has_purchase_status id is_purchased) db.purchases == 1)) [
      | inl e ↦ rw e (show_cost-KeepsAttempts _ db.withdrawals)
      | inr e ↦ rw e (KeepsAttempts-refl db.withdrawals)
    ]

pub reconcile-KeepsAttempts :
    (id : ℕ) (is_visible : Bool) (now : Time) (db : Database) {db' : Database}
    → reconcile_energy id is_visible now db ≡ ok db'
    → KeepsAttempts db.withdrawals db'.withdrawals
unfolding reconcile_energy
reconcile-KeepsAttempts id is_visible now db h =
    let (cost, _, h1) =
      >>=-eq-ok
        (sum_rats zero_rat (
          map (λ p. coalesce p.actual_trx p.quoted_trx)
            (select (is_purchased_for id) db.purchases)))
        _ h in
    elim (Bool-cases (count (is_purchased_for id) db.purchases == 0)) [
      | inl e ↦
          subst (λ d. KeepsAttempts db.withdrawals d.withdrawals) (ok-injective (rw e at h1))
            (KeepsAttempts-refl db.withdrawals)
      | inr e ↦
          subst (λ d. KeepsAttempts db.withdrawals d.withdrawals) (ok-injective (rw e at h1))
            (update-KeepsAttempts _ _ (λ x. refl) (λ x t y e. (refl, refl, refl, refl, refl))
              db.withdrawals)
    ]
