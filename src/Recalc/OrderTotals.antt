-- ===== src/Recalc/OrderTotals.antt =====
-- What a recalculation makes of an order: its totals, its status and whether it reverts.
use payd.Prelude.{
  ◌∙◌, ℕ, ◌+◌, ◌-◌, ◌≤◌, ◌<◌, Bool, true, ◌≡◌, refl, ◌↔◌, Option, some, List, [], ◌∷◌, arith,
  if◌then◌else◌, find, select, update, find-update, ok, ◌==◌, map_option, >>=-eq-ok, or_error,
  or_error-eq-ok, value_or, ok-injective, no_rows, ap, sym,
}
use payd.Decimal.{decimal, parse_amount}
use payd.Schema.{Database, Address, Order, Payment, OrderStatus, is_movable, Time, unix}
use payd.Recalc.{
  counts_for, sum_from, next_status, settle, recalculate_order_with_transition, recalculate_order,
  reverts,
}

-- The amount of a payment row, 0 where the text is none.
abbrev pub amount_of : Payment → ℕ
amount_of p = value_or 0 (parse_amount p.amount_raw)

-- What the payments that count for `o` add up to.
abbrev pub total_received : Order → Option ℕ → List Payment → ℕ
total_received o released [] = 0
total_received o released (p ∷ ps) =
    (if counts_for o released p then amount_of p else 0) + total_received o released ps

sum_from-total :
    (o : Order) (released : Option ℕ) (ps : List Payment) (acc n : ℕ)
    → sum_from acc (select (counts_for o released) ps) ≡ ok n
    → n ≡ acc + total_received o released ps
unfolding sum_from
sum_from-total o released [] acc n h = ground arith
sum_from-total o released (p ∷ ps) acc n h =
    ground (
      arith,
      sum_from-total o released ps acc n,
      sum_from-total o released ps (acc + amount_of p) n,
    )

-- The status that the totals of an order call for.
pub record IsStatusOf (status : OrderStatus) (received expected : ℕ) : Type 0 where
  pub paid_iff : (status ≡ OrderStatus.paid) ↔ (expected ≤ received)
  pub pending_iff : (status ≡ OrderStatus.pending) ↔ ((received < expected) × (received ≡ 0))
  pub partial_iff : (status ≡ OrderStatus.partial) ↔ ((received < expected) × (0 < received))

pub next_status-IsStatusOf :
    (old : OrderStatus) (received expected : ℕ)
    → is_movable old ≡ true
    → IsStatusOf (next_status old true received expected) received expected
unfolding next_status
next_status-IsStatusOf old received expected h = ground arith

abbrev pub by_id : ℕ → Order → Bool
by_id n o = o.id == n

-- A recalculation succeeds only on an order that is there.
pub recalculate-finds :
    (db : Database) (order_id : ℕ) (allow : Bool) (now : Time) {res : Bool × Database}
    → recalculate_order_with_transition db order_id allow now ≡ ok res
    → (o : Order) × (find (by_id order_id) db.orders ≡ some o)
unfolding recalculate_order_with_transition
recalculate-finds db order_id allow now h =
    let (o, eo, _) = >>=-eq-ok (or_error (find (by_id order_id) db.orders) no_rows) _ h in
    (o, or_error-eq-ok _ no_rows eo)

-- The end of the assignment window of the address of an order, if there is such an address.
abbrev pub window_end : Database → Order → Option (Option ℕ)
window_end db o = map_option (λ a. a.released_at) (find (λ a. a.id == o.address_id) db.addresses)

-- A recalculation of `o` that succeeds: the totals of its payments, and the row written.
pub record Recalculated (db : Database) (o : Order) (order_id : ℕ) (allow : Bool) (now : Time)
    (reverted : Bool) (db' : Database) : Type 0 where
  pub address : Address
  pub expected : ℕ
  pub address_found : find (λ a. a.id == o.address_id) db.addresses ≡ some address
  pub summed :
      sum_from 0 (select (counts_for o address.released_at) db.payments)
      ≡ ok (total_received o address.released_at db.payments)
  pub expected_read : parse_amount o.expected_raw ≡ ok expected
  pub flag :
      reverted
      ≡ reverts o.status
          (next_status o.status allow (total_received o address.released_at db.payments) expected)
  pub written : db' ≡ record db {
    orders =
        update
          (by_id order_id)
          (settle
            (total_received o address.released_at db.payments)
            expected
            (next_status o.status allow (total_received o address.released_at db.payments) expected)
            (unix now))
          db.orders;
  }

pub recalculate-Recalculated :
    (db : Database) (order_id : ℕ) (allow : Bool) (now : Time) {reverted : Bool} {db' : Database}
    (o : Order)
    → recalculate_order_with_transition db order_id allow now ≡ ok (reverted, db')
    → find (by_id order_id) db.orders ≡ some o
    → Recalculated db o order_id allow now reverted db'
unfolding recalculate_order_with_transition
recalculate-Recalculated db order_id allow now {reverted} {db'} o h eo =
    let h1 = rw (eo, or_error) at h in
    let (a, ea, h2) =
      >>=-eq-ok (or_error (find (λ a. a.id == o.address_id) db.addresses) no_rows) _ h1 in
    let (n, en, h3) =
      >>=-eq-ok (sum_from 0 (select (counts_for o a.released_at) db.payments)) _ h2 in
    let (x, ex, h4) = >>=-eq-ok (parse_amount o.expected_raw) _ h3 in
    let total : n ≡ total_received o a.released_at db.payments =
      omega (arith, sum_from-total o a.released_at db.payments 0 n en) in
    record {
      address = a;
      expected = x;
      address_found = or_error-eq-ok _ no_rows ea;
      summed = rw (← total) en;
      expected_read = ex;
      flag = rw (← total) (ap (λ p. p.0) (ok-injective (sym h4)));
      written = rw (← total) (ap (λ p. p.1) (ok-injective (sym h4)));
    }

-- An order as a recalculation leaves it, for the payments that counted at that time.
pub record IsRecalculated (o o' : Order) (received expected : ℕ) : Type 0 where
  pub received_stored : o'.received_raw ≡ decimal received
  pub overpaid_stored : o'.overpaid_raw ≡ decimal (received - expected)
  pub status_matches : IsStatusOf o'.status received expected
  pub same_id : o'.id ≡ o.id
  pub same_expected : o'.expected_raw ≡ o.expected_raw

-- A recalculation that succeeds on an order that is pending, partial, paid or confirmed stores the
-- sum of exactly the payments that count for it, stores what is above the expected amount as
-- overpaid (0 where nothing is), sets the status that these totals call for, and reports a
-- reversal exactly when the order was paid or confirmed and is now pending or partial.
pub recalculate_order-IsRecalculated :
    (db : Database) (order_id : ℕ) (now : Time) {reverted : Bool} {db' : Database} (o : Order)
    → recalculate_order db order_id now ≡ ok (reverted, db')
    → find (by_id order_id) db.orders ≡ some o
    → is_movable o.status ≡ true
    → (o' : Order) × (released : Option ℕ) × (expected : ℕ) × (find (by_id order_id) db'.orders
        ≡ some o')
      × (window_end db o ≡ some released)
      × (parse_amount o.expected_raw ≡ ok expected)
      × IsRecalculated o o' (total_received o released db.payments) expected
      × (reverted ≡ reverts o.status o'.status)
unfolding recalculate_order
recalculate_order-IsRecalculated db order_id now {reverted} {db'} o h eo mv =
    let r = recalculate-Recalculated db order_id true now o h eo in
    let n = total_received o r.address.released_at db.payments in
    let f = settle n r.expected (next_status o.status true n r.expected) (unix now) in
    (
      f o,
      r.address.released_at,
      r.expected,
      ap (λ d. find (by_id order_id) d.orders) r.written
          ∙ rw (find-update (by_id order_id) f (λ x. refl) db.orders, eo),
      ap (map_option (λ a. a.released_at)) r.address_found,
      r.expected_read,
      record {
        received_stored = refl;
        overpaid_stored = refl;
        status_matches = next_status-IsStatusOf o.status n r.expected mv;
        same_id = refl;
        same_expected = refl;
      },
      r.flag,
    )
