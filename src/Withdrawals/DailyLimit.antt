-- ===== src/Withdrawals/DailyLimit.antt =====
-- What a withdrawal that is accepted satisfies: its source, its balance and the daily limit.
use payd.Prelude.{
  ℕ, Bool, true, false, not, ◌&&◌, ◌≡◌, refl, sym, ap, ◌∙◌, subst, Option, some, List, [], ◌∷◌,
  ◌++◌, map, arith, find, select, ok, >>=-eq-ok, ok-injective, or_error, or_error-eq-ok, guard,
  guard-eq-ok, Bool-cases, Option-cases, inl, inr, ◌==◌, source_unavailable, balance_drift,
  insufficient_funds, daily_limit, idempotency_reuse, invalid_amount,
}
use payd.Decimal.{set_string}
use payd.Schema.{Database, Address, Balance, Rat, Withdrawal, is_disabled}
use payd.Withdrawals.{
  sum_rats, zero_rat, leb_rat, decimal_sum_within, withdrawal_usd_used, counts_today,
  CreateWithdrawal, create_withdrawal, replay_or_insert, insert_withdrawal, is_same_request,
  source_of, covers, is_positive_usd, requested_row,
}

select-append :
    (p : Withdrawal → Bool) (ws : List Withdrawal) (w : Withdrawal)
    → p w ≡ true
    → select p (ws ++ w ∷ []) ≡ select p ws ++ w ∷ []
select-append p [] w h = rw h refl
select-append p (x ∷ ws) w h = elim (Bool-cases (p x)) [
  | inl e ↦ rw (e, select-append p ws w h) refl
  | inr e ↦ rw (e, select-append p ws w h) refl
]

map-append :
    (ws : List Withdrawal) (w : Withdrawal)
    → map (λ (w : Withdrawal). w.amount_usd) (ws ++ w ∷ [])
      ≡ map (λ w. w.amount_usd) ws ++ w.amount_usd ∷ []
map-append [] w = refl
map-append (x ∷ ws) w = ap (λ rest. x.amount_usd ∷ rest) (map-append ws w)

within-total :
    (values : List (Option Rat)) (request limit : Option Rat)
    → decimal_sum_within values request limit ≡ ok true
    → (total : Rat) × (max : Rat) × (sum_rats zero_rat (values ++ request ∷ []) ≡ ok total)
      × (limit ≡ some max)
      × (leb_rat total max ≡ true)
unfolding decimal_sum_within
within-total values request limit h =
    let (total, e, h1) = >>=-eq-ok (sum_rats zero_rat (values ++ request ∷ [])) _ h in
    let (max, m, h2) = >>=-eq-ok (or_error limit invalid_amount) _ h1 in
    (total, max, e, or_error-eq-ok limit invalid_amount m, ok-injective h2)

-- What has been checked of a withdrawal that is new, and what has been stored.
pub record IsGranted (r : CreateWithdrawal) (db : Database) (w : Withdrawal) (db' : Database)
    : Type 0 where
  pub address : Address
  pub balance : Balance
  pub source :
      source_of (find (λ a. a.address == r.from_address) db.addresses) db.balances r.asset
      ≡ some (address, balance)
  pub usable : (is_disabled address.state ≡ false) × (balance.drift_detected ≡ false)
  pub funded : covers (set_string balance.confirmed_raw) (set_string r.amount_raw) ≡ true
  pub row : w ≡ requested_row db.draws address.id r
  pub stored : db'.withdrawals ≡ db.withdrawals ++ w ∷ []
  pub total : Rat
  pub max : Rat
  pub used_today : withdrawal_usd_used r.now db'.withdrawals ≡ ok total
  pub limit : r.daily_limit_usd ≡ some max
  pub within : leb_rat total max ≡ true

not-false : (b : Bool) → not b ≡ true → b ≡ false
not-false b h = ground arith

-- The day's use after the insertion is the sum that was compared with the limit.
used_after :
    (r : CreateWithdrawal) (address_id id : ℕ) (ws : List Withdrawal) (total : Rat)
    → sum_rats zero_rat
        (map (λ w. w.amount_usd) (select (counts_today r.now) ws) ++ r.amount_usd ∷ [])
      ≡ ok total
    → withdrawal_usd_used r.now (ws ++ requested_row id address_id r ∷ []) ≡ ok total
unfolding withdrawal_usd_used
used_after r address_id id ws total h =
    let w = requested_row id address_id r in
    let today : counts_today r.now w ≡ true = ground arith in
    let rows = select-append (counts_today r.now) ws w today in
    let amounts =
      ap (map (λ (w : Withdrawal). w.amount_usd)) rows
      ∙ map-append (select (counts_today r.now) ws) w in
    subst (λ ts. sum_rats zero_rat ts ≡ ok total) (sym amounts) h

insert-IsGranted :
    (r : CreateWithdrawal) (db : Database) {x : Withdrawal × Database}
    → insert_withdrawal r db ≡ ok x
    → IsGranted r db x.0 x.1
unfolding insert_withdrawal
insert-IsGranted r db h =
    let ((a, b), e1, h1) =
      >>=-eq-ok
        (or_error
          (source_of (find (λ a. a.address == r.from_address) db.addresses) db.balances r.asset)
          source_unavailable)
        _ h in
    let (_, g2, h2) = >>=-eq-ok (guard (not (is_disabled a.state)) source_unavailable) _ h1 in
    let (_, g3, h3) = >>=-eq-ok (guard (not b.drift_detected) balance_drift) _ h2 in
    let (_, g4, h4) =
      >>=-eq-ok
        (guard (covers (set_string b.confirmed_raw) (set_string r.amount_raw)) insufficient_funds) _
        h3 in
    let (_, _, h5) =
      >>=-eq-ok
        (guard (is_positive_usd r.amount_usd && is_positive_usd r.daily_limit_usd) daily_limit) _
        h4 in
    let values =
      map (λ (w : Withdrawal). w.amount_usd) (select (counts_today r.now) db.withdrawals) in
    let (within, e6, h6) =
      >>=-eq-ok (decimal_sum_within values r.amount_usd r.daily_limit_usd) _ h5 in
    let (_, g7, h7) = >>=-eq-ok (guard within daily_limit) _ h6 in
    let yes = e6 ∙ ap ok (guard-eq-ok within daily_limit g7) in
    let (total, max, summed, limit, le) = within-total values r.amount_usd r.daily_limit_usd yes in
    subst (λ x. IsGranted r db x.0 x.1) (ok-injective h7)
      (record {
        address = a;
        balance = b;
        source = or_error-eq-ok _ source_unavailable e1;
        usable = (
          not-false _ (guard-eq-ok _ source_unavailable g2),
          not-false _ (guard-eq-ok _ balance_drift g3),
        );
        funded = guard-eq-ok _ insufficient_funds g4;
        row = refl;
        stored = refl;
        total = total;
        max = max;
        used_today = used_after r a.id db.draws db.withdrawals total summed;
        limit = limit;
        within = le;
      })

-- What a request has brought about.
abbrev pub IsAnswered : CreateWithdrawal → Database → Withdrawal × Bool × Database → Type 0
IsAnswered r db (w, true, db') = IsGranted r db w db'
IsAnswered r db (w, false, db') =
    (find (λ w. w.idempotency_key == r.idempotency_key) db.withdrawals ≡ some w)
    × (is_same_request r w ≡ true)
    × (db' ≡ db)

-- A request that succeeds either finds the withdrawal with its key, which then asks for the same, and
-- changes nothing; or adds exactly one withdrawal, from an address that is not disabled, with a
-- balance that shows no drift and covers the amount, and after it the day's withdrawals, added up
-- exactly in USD, are still within the daily limit.
pub create_withdrawal-IsAnswered :
    (r : CreateWithdrawal) (db : Database) {x : Withdrawal × Bool × Database}
    → create_withdrawal r db ≡ ok x
    → IsAnswered r db x
unfolding create_withdrawal
create_withdrawal-IsAnswered r db h =
    elim (Option-cases (find (λ w. w.idempotency_key == r.idempotency_key) db.withdrawals)) [
      | inr (w, e) ↦
          let (_, g, h1) =
            >>=-eq-ok (guard (is_same_request r w) idempotency_reuse) _
              (rw (e, replay_or_insert) at h) in
          subst (IsAnswered r db) (ok-injective h1) (e, guard-eq-ok _ idempotency_reuse g, refl)
      | inl e ↦
          let (x, e1, h1) = >>=-eq-ok (insert_withdrawal r db) _ (rw (e, replay_or_insert) at h) in
          subst (IsAnswered r db) (ok-injective h1) (insert-IsGranted r db e1)
    ]
