-- ===== src/Engine/Once/Withdrawing.antt =====
-- The store's methods on withdrawals, as the engine calls them.
use payd.Prelude.{
  ℕ, zero, suc, ◌+◌, Bool, true, ◌≡◌, refl, subst, Option, none, some, [], ◌∷◌, ◌++◌, arith,
  Bool-cases, inl, inr, ◌==◌, is_some, find, select, update, count, exists, coalesce, holds, ◌&&◌,
  not, Result, ok, ok-injective, >>=-eq-ok, or_error, no_rows, ℤ, pos, negsuc, invalid_amount,
}
use payd.Decimal.{Text, set_string}
use payd.Schema.{
  Time, unix, Database, Withdrawal, WithdrawalStatus, Resolver, Action, EventConfig, EventType,
  SequenceKey, Payload, LogIndex,
}
use payd.Recalc.{is_balance_of}
use payd.Payments.{is_payment}
use payd.Withdrawals.{
  claim_withdrawal, has_status, is_requested, rejected_row, approved_row, is_other_holding, covers,
  subtract_held, approve, reject,
}
use payd.Withdrawals.Transitions.{
  set_resource_state, record_broadcast, record_lookup, withdrawal_needs_operator, fail_absent,
  fail_resources, fail_where, where_changed, announced, may_need_operator, operator_row,
  is_attempted_open, broadcast_row, answered_row, unanswered_row, gives_up, failed_row,
  is_sent_open, is_unsent_awaiting,
}
use payd.Withdrawals.Outcome.{
  confirm_withdrawal, charge_fee, fee_row, energy_cost_of, burned, is_sent_unconfirmed,
  confirmed_row, trx, no_text,
}
use payd.Engine.Once.Advance.{
  Advances, Advances-refl, Advances-trans, Calm, Calm-trans, Calm-Advances,
  enqueue_global_event-Calm, recalculate_balance-Calm, withdrawals-Advances, where_changed-Advances,
}

pub set_resource_state-Advances :
    (id : ℕ) (from : WithdrawalStatus → Bool) (to : WithdrawalStatus) (energy bandwidth : Option ℕ)
    (now : Time) (db : Database)
    → Advances db (set_resource_state id from to energy bandwidth now db).1
unfolding set_resource_state
set_resource_state-Advances id from to energy bandwidth now db =
    withdrawals-Advances _ _ (λ x. refl) (λ x h. h) db

pub announced-Calm :
    (id : ℕ) (type : EventType) (payload : Payload) (action : Action) (detail : ℕ)
    (events : EventConfig) (now : Time) (db : Database)
    → Calm db (announced id type payload action detail events now db)
announced-Calm id type payload action detail events now db =
    enqueue_global_event-Calm db events (SequenceKey.withdrawal_key id) type payload now

-- An update of the withdrawals, and what is announced of it.
changed-Advances :
    (p : Withdrawal → Bool) (f : Withdrawal → Withdrawal)
    → ((x : Withdrawal) → (f x).id ≡ x.id)
    → ((x : Withdrawal) → is_some x.txid ≡ true → is_some (f x).txid ≡ true)
    → (b : Bool) (next : Database → Result Database) (db : Database) {db' : Database}
    → ((d d' : Database) → next d ≡ ok d' → Calm d d')
    → where_changed b next (record db { withdrawals = update p f db.withdrawals }) ≡ ok db'
    → Advances db db'
changed-Advances p f ids sent b next db {db'} calm h =
    let moved = record db { withdrawals = update p f db.withdrawals } in
    Advances-trans db moved db' (withdrawals-Advances p f ids sent db)
      (where_changed-Advances b next moved (λ d e. Calm-Advances moved d (calm moved d e)) h)

pub needs_operator-Advances :
    (id reason : ℕ) (now : Time) (events : EventConfig) (db : Database) {db' : Database}
    → withdrawal_needs_operator id reason now events db ≡ ok db'
    → Advances db db'
unfolding withdrawal_needs_operator
needs_operator-Advances id reason now events db h =
    changed-Advances (may_need_operator id) (operator_row reason (unix now)) (λ x. refl) (λ x t. t)
      _ _ db
      (λ d d' e.
        subst (Calm d) (ok-injective e)
          (announced-Calm id _ _ Action.withdrawal_needs_operator reason events now d))
      h

pub record_broadcast-Advances :
    (id response : ℕ) (now : Time) (db : Database) {db' : Database}
    → record_broadcast id response now db ≡ ok db'
    → Advances db db'
unfolding record_broadcast
record_broadcast-Advances id response now db h =
    changed-Advances (is_attempted_open id) (broadcast_row response (unix now)) (λ x. refl)
      (λ x t. t) _ _ db (λ d d' e. subst (Calm d) (ok-injective e) (refl, refl, refl, omega arith))
      h

fail_where-Advances :
    (p : Withdrawal → Bool) (resolver : Resolver) (id reason : ℕ) (now : Time)
    (events : EventConfig) (db : Database) {db' : Database}
    → fail_where p resolver id reason now events db ≡ ok db'
    → Advances db db'
fail_where-Advances p resolver id reason now events db h =
    changed-Advances p (failed_row resolver reason (unix now)) (λ x. refl) (λ x t. t) _ _ db
      (λ d d' e.
        subst (Calm d) (ok-injective e)
          (announced-Calm id _ _ Action.withdrawal_failed reason events now d))
      h

pub fail_absent-Advances :
    (id reason : ℕ) (now : Time) (events : EventConfig) (db : Database) {db' : Database}
    → fail_absent id reason now events db ≡ ok db'
    → Advances db db'
unfolding fail_absent
fail_absent-Advances id reason now events db h =
    fail_where-Advances (is_sent_open id) _ id reason now events db h

pub fail_resources-Advances :
    (id reason : ℕ) (now : Time) (events : EventConfig) (db : Database) {db' : Database}
    → fail_resources id reason now events db ≡ ok db'
    → Advances db db'
unfolding fail_resources
fail_resources-Advances id reason now events db h =
    fail_where-Advances (is_unsent_awaiting id) _ id reason now events db h

pub record_lookup-Advances :
    (id : ℕ) (found : Bool) (lookup_error : Option ℕ) (now : Time) (events : EventConfig)
    (db : Database) {db' : Database}
    → record_lookup id found lookup_error now events db ≡ ok db'
    → Advances db db'
unfolding record_lookup
record_lookup-Advances id found none now events db h = subst (Advances db) (ok-injective h) (
    withdrawals-Advances (λ w. w.id == id) (answered_row found (unix now)) (λ x. refl) (λ x t. t)
      db)
record_lookup-Advances id found (some message) now events db {db'} h =
    let ws = update (λ w. w.id == id) (unanswered_row message (unix now)) db.withdrawals in
    let next = record db { withdrawals = ws } in
    let moved =
      withdrawals-Advances (λ w. w.id == id) (unanswered_row message (unix now)) (λ x. refl)
        (λ x t. t) db in
    let (w, _, h1) = >>=-eq-ok (or_error (find (λ w. w.id == id) ws) no_rows) _ h in
    elim (Bool-cases (gives_up (some w))) [
      | inl y ↦
          Advances-trans db next db' moved
            (needs_operator-Advances id message now events next (rw y at h1))
      | inr y ↦ subst (Advances db) (ok-injective (rw y at h1)) moved
    ]

pub charge_fee-Calm :
    (w : Withdrawal) (fee : Option ℤ) (height timestamp stamp : ℕ) (db : Database) {db' : Database}
    → charge_fee w fee height timestamp stamp db ≡ ok db'
    → Calm db db'
unfolding charge_fee
charge_fee-Calm w none height timestamp stamp db h =
    subst (Calm db) (ok-injective h) (refl, refl, refl, omega arith)
charge_fee-Calm w (some (negsuc n)) height timestamp stamp db h =
    subst (Calm db) (ok-injective h) (refl, refl, refl, omega arith)
charge_fee-Calm w (some (pos zero)) height timestamp stamp db h =
    subst (Calm db) (ok-injective h) (refl, refl, refl, omega arith)
charge_fee-Calm w (some (pos (suc n))) height timestamp stamp db {db'} h =
    let row = fee_row db.draws w (suc n) height timestamp stamp in
    let charged = record db { payments = db.payments ++ row ∷ []; draws = db.draws + 1 } in
    elim (Bool-cases (exists (is_payment row.txid LogIndex.fee) db.payments)) [
      | inl y ↦ recalculate_balance-Calm db w.address_id trx (rw y at h)
      | inr y ↦
          Calm-trans db charged db' (refl, refl, refl, omega arith)
            (recalculate_balance-Calm charged w.address_id trx (rw y at h))
    ]

pub confirm_withdrawal-Advances :
    (id : ℕ) (fee_raw : Text) (energy_used height timestamp : ℕ) (events : EventConfig) (now : Time)
    (db : Database) {db' : Database}
    → confirm_withdrawal id fee_raw energy_used height timestamp events now db ≡ ok db'
    → Advances db db'
unfolding confirm_withdrawal
confirm_withdrawal-Advances id fee_raw energy_used height timestamp events now db h =
    let (w, _, h1) = >>=-eq-ok (or_error (find (λ w. w.id == id) db.withdrawals) no_rows) _ h in
    let (cost, _, h2) = >>=-eq-ok (energy_cost_of (holds w.energy_source burned) fee_raw) _ h1 in
    changed-Advances (is_sent_unconfirmed id) (confirmed_row fee_raw energy_used cost (unix now))
      (λ x. refl) (λ x t. t) _ _ db
      (λ d d' e.
        let (c, ec, e1) =
          >>=-eq-ok (charge_fee w (set_string fee_raw) height timestamp (unix now) d) _ e in
        Calm-trans d c d' (charge_fee-Calm w (set_string fee_raw) height timestamp (unix now) d ec)
          (subst (Calm c) (ok-injective e1) (
            announced-Calm id _ _ Action.withdrawal_confirmed (coalesce w.txid no_text) events now
              c)))
      h2

approve-Advances : (w : Withdrawal) (stamp : ℕ) (db : Database) → Advances db (approve w stamp db).1
approve-Advances w stamp db =
    elim (Bool-cases (
      count (has_status w.id is_requested) db.withdrawals == 1
      && not (exists (is_other_holding w) db.withdrawals))) [
        | inl e ↦
            let ws = update (has_status w.id is_requested) (approved_row stamp) db.withdrawals in
            let moved = record db { withdrawals = ws } in
            rw e (
              Advances-trans db moved _ (withdrawals-Advances _ _ (λ x. refl) (λ x t. t) db)
                (Calm-Advances moved _ (refl, refl, refl, omega arith)))
        | inr e ↦ rw e (Advances-refl db)
      ]

reject-Advances : (w : Withdrawal) (stamp : ℕ) (db : Database) → Advances db (reject w stamp db)
reject-Advances w stamp db =
    let ws = update (has_status w.id is_requested) (rejected_row stamp) db.withdrawals in
    let moved = record db { withdrawals = ws } in
    Advances-trans db moved _ (withdrawals-Advances _ _ (λ x. refl) (λ x t. t) db)
      (Calm-Advances moved _ (refl, refl, refl, omega arith))

pub claim-Advances :
    (id : ℕ) (now : Time) (db : Database) {r : Bool × Database}
    → claim_withdrawal id now db ≡ ok r
    → Advances db r.1
unfolding claim_withdrawal
claim-Advances id now db h =
    let (w, _, h1) = >>=-eq-ok (or_error (find (λ w. w.id == id) db.withdrawals) no_rows) _ h in
    let (b, _, h2) =
      >>=-eq-ok
        (or_error
          (find (λ b. is_balance_of w.address_id w.asset b && not b.drift_detected) db.balances)
          no_rows)
        _ h1 in
    let (have, _, h3) = >>=-eq-ok (or_error (set_string b.confirmed_raw) invalid_amount) _ h2 in
    let (free, _, h4) =
      >>=-eq-ok
        (subtract_held have
          (select (λ v. is_other_holding w v && v.asset == w.asset) db.withdrawals))
        _ h3 in
    elim (Bool-cases (covers (some free) (set_string w.amount_raw))) [
      | inl e ↦
          subst (λ r. Advances db r.1) (ok-injective (rw e at h4))
            (approve-Advances w (unix now) db)
      | inr e ↦
          subst (λ r. Advances db r.1) (ok-injective (rw e at h4)) (reject-Advances w (unix now) db)
    ]
