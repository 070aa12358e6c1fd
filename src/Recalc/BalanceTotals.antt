-- ===== src/Recalc/BalanceTotals.antt =====
-- What a recalculation makes of a balance: the confirmed and the pending sum never mix, and no
-- payment is lost between them.
use payd.Prelude.{
  ℕ, Bool, true, false, ◌≡◌, refl, List, [], ◌∷◌, arith, if◌then◌else◌, ok, ℤ, pos, ◌+ℤ◌,
  false≢true, +ℤ_assoc, int_laws, ◌⊎◌, All, All-append, Bool-cases, inl, inr, select, Option, none,
  some, find, ◌==◌, map, map_option, exists, ap, ◌∙◌, >>=-eq-ok, ok-injective, sym, find-update,
  find_append, find-none,
}
use payd.Decimal.{parse_amount, set_string, to_string}
use payd.Decimal.RoundTrip.{set_string-to_string}
use payd.Schema.{Database, Balance, Payment, Address, is_orphaned}
use payd.Recalc.{
  is_own, is_received, as_incoming, received_rows, balance_payments, is_solid, is_waiting,
  signed_amount, add_row, balance_from, is_balance_of, store_balance, recalculate_balance,
}
use payd.Recalc.OrderTotals.{amount_of}

-- The amount of a row with property `q`, what goes out counted negative.
abbrev pub part : (Payment → Bool) → Payment → ℕ → ℤ
part q p n = if q p then signed_amount p n else pos 0

abbrev pub net : (Payment → Bool) → List Payment → ℤ
net q [] = pos 0
net q (p ∷ ps) = part q p (amount_of p) +ℤ net q ps

abbrev pub any_row : Payment → Bool
any_row p = true

zero_right : (a : ℤ) → a ≡ a +ℤ pos 0
zero_right a = omega int_laws

zero_left : (a : ℤ) → pos 0 +ℤ a ≡ a
zero_left a = omega int_laws

status_parts :
    (p : Payment)
    → (is_solid p ≡ true) × (is_waiting p ≡ false)
      ⊎ (is_solid p ≡ false) × (is_waiting p ≡ true)
      ⊎ (is_solid p ≡ false) × (is_waiting p ≡ false) × (is_orphaned p.status ≡ true)
status_parts p = ground arith

add_row-part :
    (acc : ℤ × ℤ) (p : Payment) (n : ℕ)
    → ((add_row acc p n).0 ≡ acc.0 +ℤ part is_waiting p n)
      × ((add_row acc p n).1 ≡ acc.1 +ℤ part is_solid p n)
unfolding add_row
add_row-part acc p n = elim (status_parts p) [
  | inl (a, b) ↦ rw (a, b) (zero_right acc.0, refl)
  | inr (inl (a, b)) ↦ rw (a, b) (refl, zero_right acc.1)
  | inr (inr (a, b, c)) ↦ rw (a, b) (zero_right acc.0, zero_right acc.1)
]

balance_from-net :
    (rows : List Payment) (acc sums : ℤ × ℤ)
    → balance_from acc rows ≡ ok sums
    → (sums.0 ≡ acc.0 +ℤ net is_waiting rows) × (sums.1 ≡ acc.1 +ℤ net is_solid rows)
unfolding balance_from
balance_from-net [] acc sums h =
    let e : acc ≡ sums = ok-injective h in
    (ap (λ s. s.0) (sym e) ∙ zero_right acc.0, ap (λ s. s.1) (sym e) ∙ zero_right acc.1)
balance_from-net (p ∷ ps) acc sums h =
    let (n, e, h') = >>=-eq-ok (parse_amount p.amount_raw) _ h in
    let (pending_rest, solid_rest) = balance_from-net ps (add_row acc p n) sums h' in
    let (pending_step, solid_step) = add_row-part acc p n in
    rw e (
      pending_rest ∙ (ap (λ t. t +ℤ net is_waiting ps) pending_step ∙ +ℤ_assoc acc.0 _ _),
      solid_rest ∙ (ap (λ t. t +ℤ net is_solid ps) solid_step ∙ +ℤ_assoc acc.1 _ _),
    )

unmix : (a w s t : ℤ) → w +ℤ s ≡ t → pos 0 +ℤ w +ℤ (a +ℤ s) ≡ a +ℤ t
unmix a w s t h = rw (← h) (omega int_laws)

unmix_left : (a w s t : ℤ) → w +ℤ s ≡ t → a +ℤ w +ℤ (pos 0 +ℤ s) ≡ a +ℤ t
unmix_left a w s t h = rw (← h) (omega int_laws)

-- Without orphaned rows nothing is lost between the two sums.
net-split :
    (rows : List Payment)
    → All (λ p. is_orphaned p.status ≡ false) rows
    → net is_waiting rows +ℤ net is_solid rows ≡ net any_row rows
net-split [] h = omega int_laws
net-split (p ∷ ps) h = elim (status_parts p) [
  | inl (a, b) ↦ rw (a, b) (unmix (signed_amount p (amount_of p)) _ _ _ (net-split ps h.1))
  | inr (inl (a, b)) ↦
      rw (a, b) (unmix_left (signed_amount p (amount_of p)) _ _ _ (net-split ps h.1))
  | inr (inr (a, b, c)) ↦ absurd (false≢true (sym h.0 ∙ c))
]

live_select :
    (q : Payment → Bool)
    → ((p : Payment) → q p ≡ true → is_orphaned p.status ≡ false)
    → (ps : List Payment) → All (λ p. is_orphaned p.status ≡ false) (select q ps)
live_select q live [] = tt
live_select q live (p ∷ ps) = elim (Bool-cases (q p)) [
  | inl e ↦ rw e (live p e, live_select q live ps)
  | inr e ↦ rw e (live_select q live ps)
]

live_map :
    (ps : List Payment)
    → All (λ p. is_orphaned p.status ≡ false) ps
    → All (λ p. is_orphaned p.status ≡ false) (map as_incoming ps)
live_map [] h = tt
live_map (p ∷ ps) h = (h.0, live_map ps h.1)

is_own_live : (i asset : ℕ) (p : Payment) → is_own i asset p ≡ true → is_orphaned p.status ≡ false
is_own_live i asset p h = ground arith

is_received_live :
    (a : Address) (asset : ℕ) (p : Payment)
    → is_received a asset p ≡ true
    → is_orphaned p.status ≡ false
is_received_live a asset p h = ground arith

received_rows_live :
    (a : Option Address) (asset : ℕ) (ps : List Payment)
    → All (λ p. is_orphaned p.status ≡ false) (received_rows a asset ps)
received_rows_live none asset ps = tt
received_rows_live (some a) asset ps =
    live_map _ (live_select (is_received a asset) (is_received_live a asset) ps)

balance_payments_live :
    (db : Database) (i asset : ℕ)
    → All (λ p. is_orphaned p.status ≡ false) (balance_payments db i asset)
unfolding balance_payments
balance_payments_live db i asset =
    All-append _ (select (is_own i asset) db.payments) _
      (live_select (is_own i asset) (is_own_live i asset) db.payments)
      (received_rows_live (find (λ a. a.id == i) db.addresses) asset db.payments)

exists-find :
    (q : Balance → Bool) (bs : List Balance)
    → exists q bs ≡ true
    → (b : Balance) × (find q bs ≡ some b)
exists-find q [] h = cc
exists-find q (x ∷ bs) h = elim (Bool-cases (q x)) [
  | inl e ↦ (x, rw e)
  | inr e ↦ rw e (exists-find q bs (rw e at h))
]

-- A balance row that holds these two sums.
pub record HoldsSums (b : Balance) (pending confirmed : ℤ) : Type 0 where
  pub pending_stored : set_string b.pending_raw ≡ some pending
  pub confirmed_stored : set_string b.confirmed_raw ≡ some confirmed

store_balance_found :
    (i asset : ℕ) (pending confirmed : ℤ) (bs : List Balance)
    → (b : Balance) × (find (is_balance_of i asset) (store_balance i asset pending confirmed bs)
        ≡ some b)
      × HoldsSums b pending confirmed
unfolding store_balance
store_balance_found i asset pending confirmed bs =
    elim (Bool-cases (exists (is_balance_of i asset) bs)) [
      | inl e ↦
          let f = λ (b : Balance). record b {
            confirmed_raw = to_string confirmed;
            pending_raw = to_string pending;
          } in
          let (b, eb) = exists-find (is_balance_of i asset) bs e in
          rw e (
            f b,
            find-update (is_balance_of i asset) f (λ x. refl) bs ∙ ap (map_option f) eb,
            record {
              pending_stored = set_string-to_string pending;
              confirmed_stored = set_string-to_string confirmed;
            },
          )
      | inr e ↦
          let b : Balance = record {
            address_id = i;
            asset = asset;
            confirmed_raw = to_string confirmed;
            pending_raw = to_string pending;
            drift_detected = false;
          } in
          rw e (
            b,
            find_append (is_balance_of i asset) bs b (find-none _ bs e) (ground arith),
            record {
              pending_stored = set_string-to_string pending;
              confirmed_stored = set_string-to_string confirmed;
            },
          )
    ]

-- After a recalculation that succeeds, the row of the address and asset holds as confirmed the sum
-- of the confirmed payments and the unattributed ones with a confirmation time, as pending the sum
-- of the other payments that are not orphaned, outgoing amounts negative in both; together they are
-- the sum of all rows of the query, so no payment is counted twice or lost between the two.
pub recalculate_balance-HoldsSums :
    (db : Database) (i asset : ℕ) {db' : Database}
    → recalculate_balance db i asset ≡ ok db'
    → let rows = balance_payments db i asset in
      (b : Balance) × (find (is_balance_of i asset) db'.balances ≡ some b)
      × HoldsSums b (net is_waiting rows) (net is_solid rows)
      × (net is_waiting rows +ℤ net is_solid rows ≡ net any_row rows)
unfolding recalculate_balance
recalculate_balance-HoldsSums db i asset {db'} h =
    let rows = balance_payments db i asset in
    let (sums, es, h') = >>=-eq-ok (balance_from (pos 0, pos 0) rows) _ h in
    let (p, c) = balance_from-net rows (pos 0, pos 0) sums es in
    let (b, eb, hb) = store_balance_found i asset sums.0 sums.1 db.balances in
    (
      b,
      ap (λ d. find (is_balance_of i asset) d.balances) (sym (ok-injective h')) ∙ eb,
      record {
        pending_stored = hb.pending_stored ∙ ap some (p ∙ zero_left _);
        confirmed_stored = hb.confirmed_stored ∙ ap some (c ∙ zero_left _);
      },
      net-split rows (balance_payments_live db i asset),
    )
