-- ===== src/Lifecycle/Expiry.antt =====
-- What the expiry of one order does.
use payd.Prelude.{
  ℕ, ◌+◌, ◌<◌, ◌≤◌, Bool, true, false, ◌≡◌, refl, sym, ap, ◌∙◌, subst, Option, some, arith, find,
  find-update, map_option, ok, err, >>=-eq-ok, or_error, ok-injective, no_rows, Bool-cases, inl,
  inr, ◌==◌, ltb, ◌↔◌, update, find-holds,
}
use payd.Decimal.{decimal, format_units, parse_amount}
use payd.Decimal.RoundTrip.{parse_amount-decimal}
use payd.Schema.{
  Time, unix, Database, Order, OrderStatus, EventConfig, EventType, Payload, is_unpaid, is_paid,
  is_movable,
}
use payd.Recalc.{recalculate_order}
use payd.Recalc.OrderTotals.{
  by_id, total_received, window_end, IsRecalculated, recalculate_order-IsRecalculated,
}
use payd.Events.{enqueue_order_event, insert_outbox}
use payd.Pool.{cool_address}
use payd.Orders.{amount_positive}
use payd.Lifecycle.{expired_status, expired_row, close_order, expire_order}

enqueue-orders :
    (db : Database) (events : EventConfig) (id : ℕ) (type : EventType) (payload : Payload)
    (now : Time) {db' : Database}
    → enqueue_order_event db events id type payload now ≡ ok db'
    → (db'.orders ≡ db.orders) × (db'.addresses ≡ db.addresses)
unfolding enqueue_order_event insert_outbox
enqueue-orders db events id type payload now h =
    let (_, _, h1) = >>=-eq-ok (or_error (find (λ o. o.id == id) db.orders) no_rows) _ h in
    subst (λ d. (d.orders ≡ db.orders) × (d.addresses ≡ db.addresses)) (ok-injective h1)
      (refl, refl)

pub close_order-writes :
    (events : EventConfig) (cooldown now : Time) (o : Order) (db : Database) {db' : Database}
    → close_order events cooldown now o db ≡ ok db'
    → (db'.orders ≡ update (by_id o.id) (expired_row (expired_status o) (unix now)) db.orders)
      × (db'.addresses ≡ cool_address o.address_id (unix now) (unix (now + cooldown)) db.addresses)
unfolding close_order
close_order-writes events cooldown now o db h =
    let closed = record db {
      orders = update (by_id o.id) (expired_row (expired_status o) (unix now)) db.orders;
      addresses = cool_address o.address_id (unix now) (unix (now + cooldown)) db.addresses;
    } in
    let (received, _, h1) = >>=-eq-ok (format_units o.received_raw (events.decimals o.asset)) _ h in
    enqueue-orders closed events o.id EventType.order_expired _ now h1

-- How an order ends that is due: paid after all, or expired, funded exactly where something counts.
pub record IsSettledAtExpiry (received expected : ℕ) (expired : Bool) (o o' : Order) : Type 0 where
  pub same_id : o'.id ≡ o.id
  pub total_stored : o'.received_raw ≡ decimal received
  pub paid_iff : (expired ≡ false) ↔ (expected ≤ received)
  pub paid_status : expired ≡ false → o'.status ≡ OrderStatus.paid
  pub funded_status : expired ≡ true → 0 < received → o'.status ≡ OrderStatus.expired_funded
  pub plain_status : expired ≡ true → received ≡ 0 → o'.status ≡ OrderStatus.expired

decimal_positive : (n : ℕ) → amount_positive (decimal n) ≡ ltb 0 n
decimal_positive n = ap (λ r. elim r [ ok n ↦ ltb 0 n | err _ ↦ false ]) (parse_amount-decimal n)

close_order-stores :
    (events : EventConfig) (cooldown now : Time) (o : Order) (id : ℕ) (db : Database)
    {db' : Database}
    → close_order events cooldown now o db ≡ ok db'
    → find (by_id id) db.orders ≡ some o
    → find (by_id id) db'.orders ≡ some (expired_row (expired_status o) (unix now) o)
close_order-stores events cooldown now o id db {db'} h e =
    let f = expired_row (expired_status o) (unix now) in
    let o_id : o.id ≡ id = ground (arith, find-holds (by_id id) db.orders o e) in
    let written : db'.orders ≡ update (by_id id) f db.orders =
      subst (λ n. db'.orders ≡ update (by_id n) f db.orders) o_id
        (close_order-writes events cooldown now o db h).0 in
    subst (λ os. find (by_id id) os ≡ some (f o)) (sym written)
      (find-update (by_id id) f (λ x. refl) db.orders ∙ ap (map_option f) e)

paid_settled :
    (received expected : ℕ) (o m : Order)
    → IsRecalculated o m received expected
    → is_paid m.status ≡ true
    → IsSettledAtExpiry received expected false o m
paid_settled received expected o m done y =
    let m_paid : m.status ≡ OrderStatus.paid = ground arith in
    record {
      same_id = done.same_id;
      total_stored = done.received_stored;
      paid_iff = ((λ _. done.status_matches.paid_iff.0 m_paid), λ _. refl);
      paid_status = λ _. m_paid;
      funded_status = λ f. cc;
      plain_status = λ f. cc;
    }

unpaid_settled :
    (received expected stamp : ℕ) (o m : Order)
    → IsRecalculated o m received expected
    → is_paid m.status ≡ false
    → IsSettledAtExpiry received expected true o (expired_row (expired_status m) stamp m)
unpaid_settled received expected stamp o m done y =
    let not_paid : ¬ (expected ≤ received) =
      λ le. let p = done.status_matches.paid_iff.1 le in ground arith in
    let funded = ap amount_positive done.received_stored ∙ decimal_positive received in
    record {
      same_id = done.same_id;
      total_stored = done.received_stored;
      paid_iff = ((λ f. cc), λ le. absurd (not_paid le));
      paid_status = λ f. cc;
      funded_status = λ _ pos. ground arith;
      plain_status = λ _ z. ground arith;
    }

-- The order after the loop's body has dealt with it, and what it was judged by.
abbrev pub IsDealtWith : (id : ℕ) (db : Database) (o : Order) → Bool × Database → Type 0
IsDealtWith id db o r =
    (o' : Order) × (released : Option ℕ) × (expected : ℕ) × (find (by_id id) r.1.orders ≡ some o')
    × (window_end db o ≡ some released)
    × (parse_amount o.expected_raw ≡ ok expected)
    × IsSettledAtExpiry (total_received o released db.payments) expected r.0 o o'

-- An order that is due and still pending or partial is recalculated first: where its payments cover
-- it after all it becomes paid and does not expire; otherwise it ends as expired with funds exactly
-- where something was received, and as expired where nothing was, and the total is stored.
pub expire_order-IsDealtWith :
    (events : EventConfig) (cooldown now : Time) (id : ℕ) (db : Database) (o : Order)
    {res : Bool × Database}
    → expire_order events cooldown now id db ≡ ok res
    → find (by_id id) db.orders ≡ some o
    → is_unpaid o.status ≡ true
    → IsDealtWith id db o res
unfolding expire_order
expire_order-IsDealtWith events cooldown now id db o h e unpaid =
    let movable : is_movable o.status ≡ true = ground arith in
    let (r, e1, h1) = >>=-eq-ok (recalculate_order db id now) _ h in
    let (m, released, expected, found, window, read, done, _) =
      recalculate_order-IsRecalculated db id now {reverted = r.0} {db' = r.1} o e1 e movable in
    let received = total_received o released db.payments in
    let h2 = rw (found, or_error) at h1 in
    elim (Bool-cases (is_paid m.status)) [
      | inl y ↦
          subst (IsDealtWith id db o) (ok-injective (rw y at h2))
            (m, released, expected, found, window, read, paid_settled received expected o m done y)
      | inr y ↦
          let (closed, e3, h3) = >>=-eq-ok (close_order events cooldown now m r.1) _ (rw y at h2) in
          let stored = close_order-stores events cooldown now m id r.1 e3 found in
          subst (IsDealtWith id db o) (ok-injective h3) (
            expired_row (expired_status m) (unix now) m,
            released,
            expected,
            stored,
            window,
            read,
            unpaid_settled received expected (unix now) o m done y,
          )
    ]
