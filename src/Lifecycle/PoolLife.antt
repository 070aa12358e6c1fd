-- ===== src/Lifecycle/PoolLife.antt =====
-- The address pool through the life of orders: whatever happens to orders, payments and blocks.
use payd.Prelude.{
  ℕ, ◌+◌, Bool, true, ◌≡◌, sym, subst, List, [], ◌∷◌, ◌++◌, some, find, select, update, collect,
  distinct_by, map_option, Result, ok, >>=-eq-ok, ok-injective, or_error, no_rows, guard,
  bad_argument, ltb, ◌==◌, if◌then◌else◌, Bool-cases, inl, inr,
}
use payd.Schema.{Time, unix, Database, Order, OrderStatus, EventConfig, EventType, is_paid}
use payd.Recalc.{recalculate_order}
use payd.Pool.{top_up_pool, release_cooled, cool_address, disable_address}
use payd.Pool.Rows.{
  IsPool, top_up_pool-IsPool, release_cooled-IsPool, cool_address-IsPool, disable_address-IsPool,
}
use payd.Orders.{CreateOrderParams, create_order, cancel_order}
use payd.Orders.Claims.{create_order-IsPlaced}
use payd.Orders.Closing.{cancel_order-IsCancelled}
use payd.Payments.{PaymentRecord}
use payd.Matcher.{match_payment}
use payd.Matcher.Attribution.{match_payment-SameChain}
use payd.Chain.{rebalance_all, key_same}
use payd.Chain.Links.{
  recalculate_order-SameBook, enqueue_order_event-SameBook, rebalance_all-SameBook,
}
use payd.Confirm.{
  apply_solidified_height, ConfirmationResult, promote_paid_orders, confirm_orders, confirm_order,
  payloads_of, is_confirmed_for, is_settleable, recheck_orders, raise_head, is_mismatched,
  is_promotable, canonical, reviewed, touched_balances,
}
use payd.Confirm.Depth.{recheck-SameBook}
use payd.Lifecycle.{close_order, expire_order, expire_from, expire_orders, is_expiring, by_expiry}
use payd.Lifecycle.Expiry.{close_order-writes}

-- An operation on the database that keeps the pool well formed.
abbrev KeepsPool : Database → Database → Type 0
KeepsPool db db' = IsPool db.addresses → IsPool db'.addresses

same-KeepsPool : (db db' : Database) → db'.addresses ≡ db.addresses → KeepsPool db db'
same-KeepsPool db db' e p = subst IsPool (sym e) p

expire_order-KeepsPool :
    (events : EventConfig) (cooldown now : Time) (id : ℕ) (db : Database) {r : Bool × Database}
    → expire_order events cooldown now id db ≡ ok r
    → KeepsPool db r.1
unfolding expire_order
expire_order-KeepsPool events cooldown now id db h p =
    let (r, e1, h1) = >>=-eq-ok (recalculate_order db id now) _ h in
    let (o, _, h2) = >>=-eq-ok (or_error (find (λ o. o.id == id) r.1.orders) no_rows) _ h1 in
    let p1 = same-KeepsPool db r.1 (recalculate_order-SameBook db id now e1).0.2 p in
    elim (Bool-cases (is_paid o.status)) [
      | inl y ↦ subst (λ r. IsPool r.1.addresses) (ok-injective (rw y at h2)) p1
      | inr y ↦
          let (closed, e3, h3) = >>=-eq-ok (close_order events cooldown now o r.1) _ (rw y at h2) in
          let cooled = (close_order-writes events cooldown now o r.1 e3).1 in
          subst (λ r. IsPool r.1.addresses) (ok-injective h3)
            (subst IsPool (sym cooled) (
              cool_address-IsPool o.address_id (unix now) (unix (now + cooldown)) r.1.addresses p1))
    ]

expire_from-KeepsPool :
    (events : EventConfig) (cooldown now : Time) (os : List Order) (expired : ℕ) (db : Database)
    {r : ℕ × Database}
    → expire_from events cooldown now os expired db ≡ ok r
    → KeepsPool db r.1
unfolding expire_from
expire_from-KeepsPool events cooldown now [] expired db h p =
    subst (λ r. IsPool r.1.addresses) (ok-injective h) p
expire_from-KeepsPool events cooldown now (o ∷ os) expired db h p =
    let (r, e, h1) = >>=-eq-ok (expire_order events cooldown now o.id db) _ h in
    expire_from-KeepsPool events cooldown now os (if r.0 then expired + 1 else expired) r.1 h1
      (expire_order-KeepsPool events cooldown now o.id db e p)

expire_orders-KeepsPool :
    (events : EventConfig) (cooldown now : Time) (db : Database) {r : ℕ × Database}
    → expire_orders events cooldown now db ≡ ok r
    → KeepsPool db r.1
unfolding expire_orders
expire_orders-KeepsPool events cooldown now db h p =
    expire_from-KeepsPool events cooldown now
      (by_expiry (select (is_expiring (unix now)) db.orders)) 0 db h p

confirm_order-KeepsPool :
    (events : EventConfig) (last : ℕ) (cooldown now : Time) (o : Order) (db : Database)
    {db' : Database}
    → confirm_order events last cooldown now o db ≡ ok db'
    → KeepsPool db db'
unfolding confirm_order
confirm_order-KeepsPool events last cooldown now o db {db'} h p =
    let moved = record db {
      orders =
          update (λ r. r.id == o.id)
            (λ r. record r { status = OrderStatus.confirmed; updated_at = unix now }) db.orders;
      addresses = cool_address o.address_id (unix now) (unix (now + cooldown)) db.addresses;
    } in
    let (ps, _, h1) =
      >>=-eq-ok
        (payloads_of (events.decimals o.asset) last
          (select (is_confirmed_for o.id o.asset) db.payments))
        _ h in
    same-KeepsPool moved db'
      (enqueue_order_event-SameBook moved events o.id EventType.order_confirmed _ now h1).0.2
      (cool_address-IsPool o.address_id (unix now) (unix (now + cooldown)) db.addresses p)

confirm_orders-KeepsPool :
    (events : EventConfig) (last : ℕ) (cooldown now : Time) (os : List Order) (db : Database)
    {db' : Database}
    → confirm_orders events last cooldown now os db ≡ ok db'
    → KeepsPool db db'
unfolding confirm_orders
confirm_orders-KeepsPool events last cooldown now [] db h p =
    subst (λ d. IsPool d.addresses) (ok-injective h) p
confirm_orders-KeepsPool events last cooldown now (o ∷ os) db h p =
    let (next, e, h1) = >>=-eq-ok (confirm_order events last cooldown now o db) _ h in
    confirm_orders-KeepsPool events last cooldown now os next h1
      (confirm_order-KeepsPool events last cooldown now o db e p)

promote-KeepsPool :
    (events : EventConfig) (last : ℕ) (cooldown now : Time) (db : Database) {r : ℕ × Database}
    → promote_paid_orders events last cooldown now db ≡ ok r
    → KeepsPool db r.1
unfolding promote_paid_orders
promote-KeepsPool events last cooldown now db h p =
    let (next, e, h1) =
      >>=-eq-ok (confirm_orders events last cooldown now (select (is_settleable db) db.orders) db) _
        h in
    subst (λ r. IsPool r.1.addresses) (ok-injective h1)
      (confirm_orders-KeepsPool events last cooldown now _ db e p)

solidify-KeepsPool :
    (height required : ℕ) (cooldown : Time) (events : EventConfig) (now : Time) (db : Database)
    {r : ConfirmationResult × Database}
    → apply_solidified_height height required cooldown events now db ≡ ok r
    → KeepsPool db r.1
unfolding apply_solidified_height
solidify-KeepsPool height required cooldown events now db h p =
    let (_, _, h1) = >>=-eq-ok (guard (ltb 0 required) bad_argument) _ h in
    let raised = map_option (raise_head height (unix now)) db.crawler in
    let (c, _, h2) = >>=-eq-ok (or_error raised no_rows) _ h1 in
    let orphaned = select (is_mismatched db.blocks c.solidified_height) db.payments in
    let promotable =
      select
        (is_promotable (canonical db.blocks c.last_height) db.blocks c.last_height
          c.solidified_height required c.reorg_suspected_from)
        db.payments in
    let written = record db {
      crawler = raised;
      payments = reviewed (unix now) orphaned promotable db.payments;
    } in
    let (balanced, e3, h3) =
      >>=-eq-ok
        (rebalance_all
          (distinct_by key_same (touched_balances db.addresses (orphaned ++ promotable))) written)
        _ h2 in
    let (rechecked, e4, h4) =
      >>=-eq-ok
        (recheck_orders events now (distinct_by ◌==◌ (collect (λ p. p.order_id) orphaned)) balanced)
        _ h3 in
    let (settled, e5, h5) =
      >>=-eq-ok (promote_paid_orders events c.last_height cooldown now rechecked) _ h4 in
    let p1 = same-KeepsPool written balanced (rebalance_all-SameBook _ written e3).0.2 p in
    let p2 = same-KeepsPool balanced rechecked (recheck-SameBook events now _ balanced e4).0.2 p1 in
    subst (λ r. IsPool r.1.addresses) (ok-injective h5)
      (promote-KeepsPool events c.last_height cooldown now rechecked e5 p2)

-- One operation that touches addresses or runs beside those that do.
pub data PoolStep : Database → Database → Type 0 where
  creates :
      (derive : ℕ → Result ℕ) (pool_max : ℕ) (params : CreateOrderParams) (now : Time)
      (db db' : Database) (o : Order)
      → create_order derive pool_max params now db ≡ ok (o, true, db')
      → PoolStep db db'
  tops_up :
      (derive : ℕ → Result ℕ) (min_free target pool_max : ℕ) (now : Time) (db : Database)
      (r : ℕ × Database)
      → top_up_pool derive min_free target pool_max now db ≡ ok r
      → PoolStep db r.1
  releases : (now : Time) (db : Database) → PoolStep db (release_cooled now db).1
  disables :
      (address actor ip : ℕ) (now : Time) (db db' : Database)
      → disable_address address actor ip now db ≡ ok db'
      → PoolStep db db'
  cancels :
      (id : ℕ) (force : Bool) (cooldown now : Time) (db db' : Database) (o o' : Order)
      → cancel_order id force cooldown now db ≡ ok (o', db')
      → find (λ r. r.id == id) db.orders ≡ some o
      → PoolStep db db'
  expires :
      (events : EventConfig) (cooldown now : Time) (db : Database) (r : ℕ × Database)
      → expire_orders events cooldown now db ≡ ok r
      → PoolStep db r.1
  solidifies :
      (height required : ℕ) (cooldown : Time) (events : EventConfig) (now : Time) (db : Database)
      (r : ConfirmationResult × Database)
      → apply_solidified_height height required cooldown events now db ≡ ok r
      → PoolStep db r.1
  matches :
      (events : EventConfig) (clock : Time) (r : PaymentRecord) (db db' : Database)
      → match_payment events clock r db ≡ ok db'
      → PoolStep db db'

pub data PoolSteps : Database → Database → Type 0 where
  stays : (db : Database) → PoolSteps db db
  follows : (a b c : Database) → PoolSteps a b → PoolStep b c → PoolSteps a c

step-KeepsPool : (a b : Database) → PoolStep a b → KeepsPool a b
step-KeepsPool a b (creates derive pool_max params now db db' o e) p =
    (create_order-IsPlaced derive pool_max params now db e p).pool
step-KeepsPool a b (tops_up derive min_free target pool_max now db r e) p =
    top_up_pool-IsPool derive min_free target pool_max now db e p
step-KeepsPool a b (releases now db) p = release_cooled-IsPool now db p
step-KeepsPool a b (disables address actor ip now db db' e) p =
    disable_address-IsPool address actor ip now db e p
step-KeepsPool a b (cancels id force cooldown now db db' o o' e f) p =
    (cancel_order-IsCancelled id force cooldown now db o e f).pool p
step-KeepsPool a b (expires events cooldown now db r e) p =
    expire_orders-KeepsPool events cooldown now db e p
step-KeepsPool a b (solidifies height required cooldown events now db r e) p =
    solidify-KeepsPool height required cooldown events now db e p
step-KeepsPool a b (matches events clock r db db' e) p =
    same-KeepsPool db db' (match_payment-SameChain events clock r db e).2 p

-- Whatever orders are made, cancelled, expired or confirmed, and whatever is matched, topped up,
-- released or disabled in between, in whatever order: no derivation index is used twice, and the
-- assignment of each address agrees with its state, so that a free address has no order and an
-- assigned or cooling one has.
pub steps-IsPool : (a b : Database) → PoolSteps a b → IsPool a.addresses → IsPool b.addresses
steps-IsPool a b (stays db) p = p
steps-IsPool a b (follows x m y steps last) p = step-KeepsPool m y last (steps-IsPool x m steps p)
