-- ===== src/Recalc/OrderStability.antt =====
-- Which orders a recalculation leaves as they are.
use payd.Prelude.{
  ℕ, Bool, false, ◌≡◌, refl, some, arith, subst, ◌⊎◌, find, update, update-update, ok, ap, ◌∙◌, sym,
  select, or_error, find-update, map_option, ◌==◌,
}
use payd.Schema.{Database, Address, Order, OrderStatus, is_movable, Time, unix}
use payd.Decimal.{parse_amount}
use payd.Recalc.{
  counts_for, sum_from, next_status, settle, recalculate_order_with_transition, reverts,
}
use payd.Recalc.OrderTotals.{by_id, total_received, recalculate-finds, recalculate-Recalculated}

-- The status that the totals call for is kept by the same totals.
next_status_stable :
    (old : OrderStatus) (allow : Bool) (received expected : ℕ)
    → next_status (next_status old allow received expected) allow received expected
      ≡ next_status old allow received expected
unfolding next_status
next_status_stable old allow received expected = ground arith

reverts_self : (s : OrderStatus) → reverts s s ≡ false
reverts_self OrderStatus.pending = refl
reverts_self _ = refl

next_status_fixed :
    (old : OrderStatus) (allow : Bool) (received expected : ℕ)
    → (allow ≡ false) ⊎ (is_movable old ≡ false)
    → next_status old allow received expected ≡ old
unfolding next_status
next_status_fixed old allow received expected h = ground arith

-- A recalculation that finds the order, the window and the totals gives exactly this.
recalculate_eq :
    (db : Database) (order_id : ℕ) (allow : Bool) (now : Time) (o : Order) (received expected : ℕ)
    (a : Address)
    → find (by_id order_id) db.orders ≡ some o
    → find (λ a. a.id == o.address_id) db.addresses ≡ some a
    → sum_from 0 (select (counts_for o a.released_at) db.payments) ≡ ok received
    → parse_amount o.expected_raw ≡ ok expected
    → recalculate_order_with_transition db order_id allow now
      ≡ ok (
        reverts o.status (next_status o.status allow received expected),
        record db {
          orders =
              update
                (by_id order_id)
                (settle received expected (next_status o.status allow received expected) (unix now))
                db.orders;
        },
      )
unfolding recalculate_order_with_transition
recalculate_eq db order_id allow now o received expected a eo ea es ex =
    rw (eo, or_error, ea, es, ex)

-- Recalculating an order again, at the same time and with nothing else changed, changes nothing and
-- reports no reversal.
pub recalculate_order_idempotent :
    (db : Database) (order_id : ℕ) (allow : Bool) (now : Time) {reverted : Bool} {db' : Database}
    → recalculate_order_with_transition db order_id allow now ≡ ok (reverted, db')
    → recalculate_order_with_transition db' order_id allow now ≡ ok (false, db')
recalculate_order_idempotent db order_id allow now {reverted} {db'} h =
    let (o, eo) = recalculate-finds db order_id allow now h in
    let r = recalculate-Recalculated db order_id allow now o h eo in
    let n = total_received o r.address.released_at db.payments in
    let s = next_status o.status allow n r.expected in
    let f = settle n r.expected s (unix now) in
    let first = record db { orders = update (by_id order_id) f db.orders } in
    let again =
      recalculate_eq first order_id allow now (f o) n r.expected r.address
        (find-update (by_id order_id) f (λ x. refl) db.orders ∙ ap (map_option f) eo)
        r.address_found r.summed r.expected_read in
    let settled : recalculate_order_with_transition first order_id allow now ≡ ok (false, first) =
      again
      ∙ rw (
        next_status_stable o.status allow n r.expected,
        reverts_self s,
        update-update (by_id order_id) f f (λ x. refl) (λ x. refl) db.orders,
      ) in
    subst (λ d. recalculate_order_with_transition d order_id allow now ≡ ok (false, d))
      (sym r.written) settled

-- The status of an order that is expired or cancelled survives every recalculation, whatever its
-- payments are: of its row only the two totals and the time of update change, no table but the
-- orders is written, and no reversal is reported. The same holds of any order in a recalculation
-- that allows no transition.
pub recalculate_keeps_status :
    (db : Database) (order_id : ℕ) (allow : Bool) (now : Time) {reverted : Bool} {db' : Database}
    (o : Order)
    → recalculate_order_with_transition db order_id allow now ≡ ok (reverted, db')
    → find (by_id order_id) db.orders ≡ some o
    → (allow ≡ false) ⊎ (is_movable o.status ≡ false)
    → (o' : Order) × (find (by_id order_id) db'.orders ≡ some o')
      × (o' ≡ record o {
        received_raw = o'.received_raw;
        overpaid_raw = o'.overpaid_raw;
        updated_at = unix now;
      })
      × (db' ≡ record db { orders = db'.orders })
      × (reverted ≡ false)
recalculate_keeps_status db order_id allow now {reverted} {db'} o h eo stays =
    let r = recalculate-Recalculated db order_id allow now o h eo in
    let n = total_received o r.address.released_at db.payments in
    let same = next_status_fixed o.status allow n r.expected stays in
    let f = settle n r.expected (next_status o.status allow n r.expected) (unix now) in
    (
      f o,
      ap (λ d. find (by_id order_id) d.orders) r.written
          ∙ (find-update (by_id order_id) f (λ x. refl) db.orders ∙ ap (map_option f) eo),
      ap (λ s. settle n r.expected s (unix now) o) same,
      subst (λ d. d ≡ record db { orders = d.orders }) (sym r.written) refl,
      r.flag ∙ (ap (reverts o.status) same ∙ reverts_self o.status),
    )
