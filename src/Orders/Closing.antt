-- ===== src/Orders/Closing.antt =====
-- Cancellation, extension and resolution of an order.
use payd.Prelude.{
  List, [], ◌∷◌, update, some-injective, sym, Bool-cases, inl, inr, ==_self, ℕ, ◌+◌, ◌/◌, ◌≤◌, ◌<◌,
  Bool, true, false, not, ◌&&◌, ◌≡◌, refl, none, some, arith, find, find-update, map_option, ok,
  err, Error, >>=-eq-ok, >>=-eq-err, ok-injective, or_error, order_terminal, order_requires_force,
  order_lifetime, guard, refuse, refuse-eq-ok, guard-eq-ok, ◌==◌, ◌⊎◌, ap, ◌∙◌, subst, ltb, leb,
  if◌then◌else◌,
}
use payd.Schema.{Time, unix, second, Database, Order, OrderStatus, is_closed, is_pending}
use payd.Pool.{cool_address}
use payd.Pool.Rows.{IsPool, cool_address-IsPool}
use payd.Orders.{
  cancel_order, cancel_refusal, amount_positive, extend_order, is_terminal, max_int64,
}

-- What a cancellation that succeeds has done to the order and to the pool.
pub record IsCancelled (id : ℕ) (db : Database) (o : Order) (force : Bool) (cooldown now : Time)
    (o' : Order) (db' : Database) : Type 0 where
  pub allowed : (is_closed o.status ≡ false) × ((o.status ≡ OrderStatus.pending) ⊎ (force ≡ true))
  pub status_set : o'.status ≡ (
      if amount_positive o.received_raw
      then OrderStatus.cancelled_funded
      else OrderStatus.cancelled)
  pub totals_kept : (o'.received_raw ≡ o.received_raw) × (o'.expected_raw ≡ o.expected_raw)
  pub stored : find (λ r. r.id == id) db'.orders ≡ some o'
  pub cools :
      db'.addresses ≡ cool_address o.address_id (unix now) (unix (now + cooldown)) db.addresses
  pub payments_kept : db'.payments ≡ db.payments
  pub pool : IsPool db.addresses → IsPool db'.addresses

cancel_allowed :
    (status : OrderStatus) (force : Bool)
    → cancel_refusal status force ≡ none
    → (is_closed status ≡ false) × ((status ≡ OrderStatus.pending) ⊎ (force ≡ true))
cancel_allowed status force h = ground arith

-- A cancellation succeeds only on an order that is not expired or cancelled yet, and without force
-- only on a pending one. It then keeps the totals, marks the order funded exactly where something
-- was received, puts the address into cooling if it is still assigned, and keeps the payments.
pub cancel_order-IsCancelled :
    (id : ℕ) (force : Bool) (cooldown now : Time) (db : Database) (o : Order) {o' : Order}
    {db' : Database}
    → cancel_order id force cooldown now db ≡ ok (o', db')
    → find (λ r. r.id == id) db.orders ≡ some o
    → IsCancelled id db o force cooldown now o' db'
unfolding cancel_order
cancel_order-IsCancelled id force cooldown now db o {o'} {db'} h e =
    let (_, allowed, h') =
      >>=-eq-ok (refuse (cancel_refusal o.status force)) _ (rw (e, or_error) at h) in
    let status =
      if amount_positive o.received_raw
      then OrderStatus.cancelled_funded
      else OrderStatus.cancelled in
    let f = λ (r : Order). record r { status = status; updated_at = unix now } in
    subst (λ r. IsCancelled id db o force cooldown now r.0 r.1) (ok-injective h')
      (record {
        allowed = cancel_allowed o.status force (refuse-eq-ok _ allowed);
        status_set = refl;
        totals_kept = (refl, refl);
        stored = find-update (λ r. r.id == id) f (λ r. refl) db.orders ∙ ap (map_option f) e;
        cools = refl;
        payments_kept = refl;
        pool = cool_address-IsPool o.address_id (unix now) (unix (now + cooldown)) db.addresses;
      })

-- What a cancellation is refused with.
abbrev pub refusal_of : OrderStatus → Error
refusal_of status = if is_closed status then order_terminal else order_requires_force

-- Without force, every order that is not pending is refused: a closed one as terminal, any other
-- because it needs force. With force, every closed one is refused.
pub cancel_order_refused :
    (id : ℕ) (force : Bool) (cooldown now : Time) (db : Database) (o : Order)
    → find (λ r. r.id == id) db.orders ≡ some o
    → ((force ≡ false) × (is_pending o.status ≡ false)) ⊎ (is_closed o.status ≡ true)
    → cancel_order id force cooldown now db ≡ err (refusal_of o.status)
unfolding cancel_order
cancel_order_refused id force cooldown now db o e why =
    let r : cancel_refusal o.status force ≡ some (refusal_of o.status) = ground arith in
    rw (e, or_error) (>>=-eq-err (refuse (cancel_refusal o.status force)) _ (ap refuse r))

not-true : (b : Bool) → not b ≡ true → b ≡ false
not-true b h = ground arith

-- The row that a search finds, after an update with a further condition that this row meets.
find-guarded :
    (p g : Order → Bool) (f : Order → Order)
    → ((r : Order) → p (f r) ≡ p r)
    → (os : List Order) (o : Order) → find p os ≡ some o
    → g o ≡ true
    → find p (update (λ r. p r && g r) f os) ≡ some (f o)
find-guarded p g f keeps [] o h k = cc
find-guarded p g f keeps (x ∷ os) o h k = elim (Bool-cases (p x)) [
  | inl e ↦
      let same = some-injective (rw e at h) in
      let met : g x ≡ true = subst (λ y. g y ≡ true) (sym same) k in
      rw (e, met, keeps x, e) (ap (λ y. some (f y)) same)
  | inr e ↦ rw (e, e) (find-guarded p g f keeps os o (rw e at h) k)
]

-- What an extension that succeeds has done.
pub record IsExtended (id : ℕ) (ttl max_lifetime now : Time) (db : Database) (o o' : Order)
    (db' : Database) : Type 0 where
  pub live : is_terminal o.status ≡ false
  pub later : o'.expires_at ≡ o.expires_at + ttl / second
  pub strictly : o.expires_at < o'.expires_at
  pub capped : o'.expires_at ≤ o.created_at + max_lifetime / second
  pub no_overflow : o'.expires_at ≤ max_int64
  pub stored : find (λ r. r.id == id) db'.orders ≡ some o'
  pub row_kept : o' ≡ record o { expires_at = o'.expires_at; updated_at = unix now }
  pub rest_kept : db' ≡ record db { orders = db'.orders }

-- An extension that succeeds moves the expiry of a pending, partial or paid order later by the whole
-- seconds of the ttl, never past the lifetime counted from its creation and never past the range of
-- int64. The store then has the order that is returned; of its row only the expiry and the time of
-- update change, and no other table is written.
pub extend_order-IsExtended :
    (id : ℕ) (ttl max_lifetime now : Time) (db : Database) (o : Order) {o' : Order} {db' : Database}
    → extend_order id ttl max_lifetime now db ≡ ok (o', db')
    → find (λ r. r.id == id) db.orders ≡ some o
    → IsExtended id ttl max_lifetime now db o o' db'
unfolding extend_order
extend_order-IsExtended id ttl max_lifetime now db o h e =
    let (_, _, h1) = >>=-eq-ok (guard (ltb 0 ttl && ltb 0 max_lifetime) order_lifetime) _ h in
    let (_, g2, h2) =
      >>=-eq-ok (guard (not (is_terminal o.status)) order_terminal) _ (rw (e, or_error) at h1) in
    let (_, g3, h3) =
      >>=-eq-ok
        (guard (ltb 0 (ttl / second) && leb (o.expires_at + ttl / second) max_int64) order_lifetime)
        _ h2 in
    let (_, g4, h4) =
      >>=-eq-ok
        (guard (leb (o.expires_at + ttl / second) (o.created_at + max_lifetime / second))
          order_lifetime)
        _ h3 in
    let positive = guard-eq-ok _ order_lifetime g3 in
    let bounded = guard-eq-ok _ order_lifetime g4 in
    let extended =
      λ (r : Order). record r { expires_at = o.expires_at + ttl / second; updated_at = unix now } in
    subst (λ r. IsExtended id ttl max_lifetime now db o r.0 r.1) (ok-injective h4)
      (record {
        live = not-true _ (guard-eq-ok _ order_terminal g2);
        later = refl;
        strictly = ground arith;
        capped = ground arith;
        no_overflow = ground arith;
        stored =
            find-guarded (λ r. r.id == id) (λ r. r.updated_at == o.updated_at) extended (λ r. refl)
              db.orders o e (==_self o.updated_at);
        row_kept = refl;
        rest_kept = refl;
      })
