-- ===== src/Lifecycle.antt =====
-- The clock-driven transitions (internal/store/lifecycle.go: ExpireOrders;
-- internal/lifecycle/worker.go: Tick10).
pub mod Expiry
pub mod PoolLife
use payd.Prelude.{
  ℕ, ◌+◌, ◌-◌, ◌*◌, Bool, true, false, not, ◌&&◌, Option, none, some, List, [], ◌∷◌, leb, ltb, ◌==◌,
  if◌then◌else◌, find, select, update, Result, ok, err, no_rows, or_error, ◌>>=◌,
}
use payd.Decimal.{format_units}
use payd.Schema.{
  Time, unix, second, Database, Order, OrderStatus, EventConfig, EventType, Payload, is_unpaid,
  is_paid, is_funded_terminal,
}
use payd.Recalc.{recalculate_order}
use payd.Events.{enqueue_order_event}
use payd.Pool.{cool_address, release_cooled, top_up_pool}
use payd.Orders.{amount_positive, payers}

abbrev pub is_expiring : (stamp : ℕ) → Order → Bool
is_expiring stamp o = is_unpaid o.status && leb o.expires_at stamp

-- `ORDER BY expires_at`
unfoldable pub insert_by_expiry : Order → List Order → List Order
insert_by_expiry o [] = o ∷ []
insert_by_expiry o (p ∷ ps) =
    if leb o.expires_at p.expires_at then o ∷ p ∷ ps else p ∷ insert_by_expiry o ps

unfoldable pub by_expiry : List Order → List Order
unfolding insert_by_expiry
by_expiry [] = []
by_expiry (o ∷ os) = insert_by_expiry o (by_expiry os)

abbrev pub expired_status : Order → OrderStatus
expired_status o =
    if amount_positive o.received_raw then OrderStatus.expired_funded else OrderStatus.expired

abbrev pub expired_row : OrderStatus → (stamp : ℕ) → Order → Order
expired_row status stamp o = record o { status = status; updated_at = stamp }

-- One order that is still not paid after its recalculation.
unfoldable pub close_order :
    EventConfig → (cooldown now : Time) → Order → Database → Result Database
close_order events cooldown now o db = do
  let status = expired_status o
  let closed = record db {
    orders = update (λ r. r.id == o.id) (expired_row status (unix now)) db.orders;
    addresses = cool_address o.address_id (unix now) (unix (now + cooldown)) db.addresses;
  }
  received ← format_units o.received_raw (events.decimals o.asset)
  enqueue_order_event closed events o.id EventType.order_expired
      (Payload.order_expired o.id status received (is_funded_terminal status) (payers closed o.id)
        o.metadata)
      now

-- The body of the loop: whether the order was expired.
unfoldable pub expire_order :
    EventConfig → (cooldown now : Time) → (id : ℕ) → Database → Result (Bool × Database)
expire_order events cooldown now id db = do
  r ← recalculate_order db id now
  o ← or_error (find (λ o. o.id == id) r.1.orders) no_rows
  if is_paid o.status
      then ok (false, r.1)
      else close_order events cooldown now o r.1 >>= λ closed. ok (true, closed)

unfoldable pub expire_from :
    EventConfig → (cooldown now : Time) → List Order → ℕ → Database → Result (ℕ × Database)
expire_from events cooldown now [] expired db = ok (expired, db)
expire_from events cooldown now (o ∷ os) expired db =
    expire_order events cooldown now o.id db >>= λ r.
    expire_from events cooldown now os (if r.0 then expired + 1 else expired) r.1

-- `ExpireOrders`
unfoldable pub expire_orders :
    EventConfig → (cooldown now : Time) → Database → Result (ℕ × Database)
expire_orders events cooldown now db =
    expire_from events cooldown now (by_expiry (select (is_expiring (unix now)) db.orders)) 0 db

-- `Tick10`: expiry, and then the release of what has cooled.
unfoldable pub tick10 : EventConfig → (cooldown now : Time) → Database → Result Database
tick10 events cooldown now db =
    expire_orders events cooldown now db >>= λ r. ok (release_cooled now r.1).1
