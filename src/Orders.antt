-- ===== src/Orders.antt =====
-- Orders (internal/store/orders.go: CreateOrder, Order, ExtendOrder, CancelOrder,
-- ResolveFundedOrder, FundedTerminalOrders, UnattributedPayments, AttributePayment). A call that
-- fails rolls its transaction back: it returns an error, and the caller keeps the database it had.
pub mod Created
pub mod Claims
pub mod Replay
pub mod Closing
use payd.Prelude.{
  ℕ, ◌+◌, ◌-◌, ◌/◌, Bool, true, false, not, ◌&&◌, ◌||◌, Option, none, some, List, [], ◌∷◌, ◌++◌,
  leb, ltb, ◌==◌, if◌then◌else◌, holds, coalesce, find, select, update, count, exists, first_by,
  Result, ok, err, Error, pool_exhausted, external_ref_conflict, order_not_found,
  order_requires_force, order_terminal, order_lifetime, payment_not_found, concurrent_change,
  or_error, ◌>>=◌, ◌>>◌, guard, is_none, refuse,
}
use payd.Decimal.{Text, text_eq, decimal, parse_amount}
use payd.Schema.{
  Time, unix, second, Database, Address, AddressState, Order, OrderStatus, Payment, PaymentStatus,
  Resolution, Action, is_free, is_pending, is_closed, is_settled, is_funded_terminal,
  is_unattributed, is_orphaned, is_in,
}
use payd.Recalc.{recalculate_order, recalculate_balance}
use payd.Pool.{free_address, insert_next_address, in_pool, cool_address}

pub record CreateOrderParams : Type 0 where
  pub external_ref : Option ℕ
  pub asset : ℕ
  pub expected_raw : Text
  pub metadata : Option ℕ
  pub consumer : Option ℕ
  pub expires_at : ℕ
  pub price_usd : Option ℕ
  pub price_at : Option ℕ

-- The text `{}`, for metadata that is empty.
abbrev pub empty_object : ℕ
empty_object = 0

-- The address that a new order would take, whether the pool is exhausted, and the transaction's
-- state. Where it is exhausted the first address stands in, so that a replay still resolves.
abbrev pub placeholder : Database → Result (Address × Bool × Database)
placeholder db = or_error (first_by (λ a. a.hd_index) in_pool db.addresses) pool_exhausted >>= λ a.
    ok (a, true, db)

abbrev pub or_placeholder :
    Database → Result (Address × Database) → Result (Address × Bool × Database)
or_placeholder db (ok (a, db')) = ok (a, false, db')
or_placeholder db (err pool_exhausted) = placeholder db
or_placeholder db (err e) = err e

unfoldable pub pick_address :
    (derive : ℕ → Result ℕ) (pool_max : ℕ) (now : Time)
    → Database
    → Result (Address × Bool × Database)
pick_address derive pool_max now db = elim (free_address db) [
  | some a ↦ ok (a, false, db)
  | none ↦ or_placeholder db (insert_next_address derive pool_max now db)
]

abbrev pub new_order : (id : ℕ) → Address → CreateOrderParams → (created : ℕ) → Order
new_order id a params created = record {
  id = id;
  external_ref = params.external_ref;
  address_id = a.id;
  address = a.address;
  asset = params.asset;
  expected_raw = params.expected_raw;
  received_raw = decimal 0;
  overpaid_raw = decimal 0;
  status = OrderStatus.pending;
  resolution = none;
  resolution_note = none;
  resolved_at = none;
  price_usd = params.price_usd;
  price_at = params.price_at;
  metadata = coalesce params.metadata empty_object;
  consumer = params.consumer;
  expires_at = params.expires_at;
  created_at = created;
  updated_at = created;
}

abbrev pub option_eq : Option ℕ → Option ℕ → Bool
option_eq none none = true
option_eq none (some b) = false
option_eq (some a) none = false
option_eq (some a) (some b) = a == b

-- `external_ref` is a unique index over the rows where it is not null.
abbrev pub has_ref : Option ℕ → Order → Bool
has_ref none o = false
has_ref (some r) o = holds o.external_ref r

-- A replay returns the order that is there, if it asks for the same, and writes nothing.
unfoldable pub replay : Order → CreateOrderParams → Database → Result (Order × Bool × Database)
replay existing params db =
    let asset = not (existing.asset == params.asset) in
    let expected = not (text_eq existing.expected_raw params.expected_raw) in
    let consumer = not (option_eq existing.consumer params.consumer) in
    if asset || (expected || consumer)
    then err (external_ref_conflict asset expected consumer)
    else ok (existing, false, db)

abbrev pub claimable : Address → Address → Bool
claimable a b = b.id == a.id && (b.hd_index == a.hd_index && is_free b.state)

abbrev pub claimed : (order_id created : ℕ) → Address → Address
claimed order_id created a = record a {
  state = AddressState.assigned;
  assigned_order_id = some order_id;
  assigned_at = some created;
  released_at = none;
  cooling_until = none;
}

-- The guarded claim, after the order is inserted.
unfoldable pub claim : Address → Order → Database → Result (Order × Bool × Database)
claim a order db =
    if count (claimable a) db.addresses == 1
    then ok (
      order,
      true,
      record db {
        addresses = update (claimable a) (claimed order.id order.created_at) db.addresses;
        orders = db.orders ++ order ∷ [];
        draws = db.draws + 1;
      },
    )
    else err concurrent_change

-- The insertion of the order, which an existing external reference turns into a replay.
unfoldable pub place_order :
    CreateOrderParams
    → (now : Time) → Database
    → Address
    → (exhausted : Bool) → Database
    → Result (Order × Bool × Database)
place_order params now db a exhausted db' = elim (find (has_ref params.external_ref) db'.orders) [
  | some existing ↦ replay existing params db
  | none ↦
      if exhausted
      then err pool_exhausted
      else claim a (new_order db'.draws a params (unix now)) db'
]

-- `CreateOrder`
unfoldable pub create_order :
    (derive : ℕ → Result ℕ) (pool_max : ℕ)
    → CreateOrderParams
    → (now : Time) → Database
    → Result (Order × Bool × Database)
create_order derive pool_max params now db = pick_address derive pool_max now db >>= λ picked.
    place_order params now db picked.0 picked.1 picked.2

-- `Order`
unfoldable pub order_by_id : Database → ℕ → Result Order
order_by_id db id = or_error (find (λ o. o.id == id) db.orders) order_not_found

abbrev pub max_int64 : ℕ
max_int64 = 9_223_372_036_854_775_807

-- the statuses that `ExtendOrder` refuses
abbrev pub is_terminal : OrderStatus → Bool
is_terminal OrderStatus.pending = false
is_terminal OrderStatus.partial = false
is_terminal OrderStatus.paid = false
is_terminal _ = true

-- `ExtendOrder`. A duration that is not positive is 0 here. The update is guarded by `updated_at`,
-- which one transaction cannot see changed.
unfoldable pub extend_order :
    (id : ℕ) (ttl max_lifetime now : Time) → Database → Result (Order × Database)
extend_order id ttl max_lifetime now db = do
  guard (ltb 0 ttl && ltb 0 max_lifetime) order_lifetime
  o ← or_error (find (λ o. o.id == id) db.orders) order_not_found
  guard (not (is_terminal o.status)) order_terminal
  let seconds = ttl / second
  guard (ltb 0 seconds && leb (o.expires_at + seconds) max_int64) order_lifetime
  let expires = o.expires_at + seconds
  guard (leb expires (o.created_at + max_lifetime / second)) order_lifetime
  let extended = λ (r : Order). record r { expires_at = expires; updated_at = unix now }
  ok (
    extended o,
    record db {
      orders = update (λ r. r.id == id && r.updated_at == o.updated_at) extended db.orders;
    },
  )

-- `amountPositive`
abbrev pub amount_positive : Text → Bool
amount_positive t = elim (parse_amount t) [ ok n ↦ ltb 0 n | err _ ↦ false ]

-- Why a cancellation is refused, if it is.
abbrev pub cancel_refusal : OrderStatus → (force : Bool) → Option Error
cancel_refusal status force =
    if not (is_pending status) && not force
    then if is_closed status then some order_terminal else some order_requires_force
    else if is_closed status
    then some order_terminal
    else none

-- `CancelOrder`
unfoldable pub cancel_order :
    (id : ℕ) (force : Bool) (cooldown now : Time) → Database → Result (Order × Database)
cancel_order id force cooldown now db = do
  o ← or_error (find (λ o. o.id == id) db.orders) order_not_found
  refuse (cancel_refusal o.status force)
  let status =
      if amount_positive o.received_raw then OrderStatus.cancelled_funded else OrderStatus.cancelled
  let cancelled = λ (r : Order). record r { status = status; updated_at = unix now }
  ok (
    cancelled o,
    record db {
      orders = update (λ r. r.id == id) cancelled db.orders;
      addresses = cool_address o.address_id (unix now) (unix (now + cooldown)) db.addresses;
    },
  )

abbrev pub is_resolvable : ℕ → Order → Bool
is_resolvable id o = o.id == id && (is_funded_terminal o.status && is_none o.resolution)

-- `ResolveFundedOrder`; the three resolutions that it accepts are the type's.
unfoldable pub resolve_funded_order :
    (id : ℕ) → Resolution → (note actor : ℕ) (now : Time) → Database → Result Database
resolve_funded_order id resolution note actor now db =
    if count (is_resolvable id) db.orders == 1
    then ok (record db {
      orders =
          update (is_resolvable id)
            (λ o. record o {
              resolution = some resolution;
              resolution_note = some note;
              resolved_at = some (unix now);
              updated_at = unix now;
            })
            db.orders;
      audit =
          db.audit
          ++ record {
            actor = actor;
            action = Action.order_resolve;
            subject = id;
            detail = note;
            created_at = unix now;
          }
            ∷ [];
    })
    else err order_not_found

-- The payers of an order: `SELECT DISTINCT from_address … ORDER BY from_address`.
unfoldable pub insert_sorted : ℕ → List ℕ → List ℕ
insert_sorted x [] = x ∷ []
insert_sorted x (y ∷ ys) =
    if ltb x y then x ∷ y ∷ ys else if x == y then y ∷ ys else y ∷ insert_sorted x ys

abbrev pub pays : ℕ → Payment → Bool
pays order_id p = holds p.order_id order_id && (is_in p.direction && not (is_orphaned p.status))

unfoldable pub payers_of : List Payment → List ℕ
unfolding insert_sorted
payers_of [] = []
payers_of (p ∷ ps) = insert_sorted p.from_address (payers_of ps)

unfoldable pub payers : Database → (order_id : ℕ) → List ℕ
unfolding payers_of
payers db order_id = payers_of (select (pays order_id) db.payments)

-- `UnattributedPayments`
unfoldable pub unattributed_payments : Database → List Payment
unattributed_payments db = select (λ p. is_unattributed p.status) db.payments

abbrev pub is_open_payment : ℕ → Payment → Bool
is_open_payment id p = p.id == id && is_unattributed p.status

abbrev pub attributed : ℕ → Payment → Payment
attributed order_id p = record p {
  order_id = some order_id;
  status = if is_none p.confirmed_at then PaymentStatus.seen else PaymentStatus.confirmed;
}

abbrev pub rebalance : Database → Option ℕ → ℕ → Result Database
rebalance db none asset = ok db
rebalance db (some address_id) asset = recalculate_balance db address_id asset

-- `AttributePayment`
unfoldable pub attribute_payment :
    (payment_id order_id : ℕ) (now : Time) → Database → Result Database
attribute_payment payment_id order_id now db = do
  _ ← or_error (find (λ o. o.id == order_id) db.orders) order_not_found
  p ← or_error (find (is_open_payment payment_id) db.payments) payment_not_found
  let bound = record db {
    payments = update (is_open_payment payment_id) (attributed order_id) db.payments;
  }
  (_, counted) ← recalculate_order bound order_id now
  balanced ← rebalance counted p.address_id p.asset
  ok (record balanced {
    orders =
        update (λ o. o.id == order_id) (λ o. record o { updated_at = unix now }) balanced.orders;
  })
