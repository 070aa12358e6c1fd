-- ===== src/Orders/Claims.antt =====
-- What a new order holds, and what its creation leaves alone.
use payd.Prelude.{
  first_by-holds, or_error-eq-ok, some, none, List, In, In-append, In-update_kept, All, All-In,
  update, coalesce, ◌⊎◌, ℕ, Bool, true, false, ◌&&◌, ◌≡◌, refl, [], ◌∷◌, ◌++◌, arith, holds, exists,
  exists-update, Bool-cases, Option-cases, inl, inr, Result, ok, err, >>=-eq-ok, ok-injective, ap,
  sym, ◌∙◌, subst, ◌==◌, leb, length, or_error, first_by, pool_exhausted,
}
use payd.Schema.{Time, unix, Database, Address, Order, OrderStatus, is_assigned, is_free}
use payd.Decimal.{decimal}
use payd.Pool.{
  free_address, insert_address, insert_next_address, pool_indexes, next_pool_index, in_pool,
}
use payd.Pool.Rows.{IsPool, insert_next_address-IsPool, update-IsPool}
use payd.Orders.{
  CreateOrderParams, placeholder, or_placeholder, pick_address, new_order, claimable, claimed,
  empty_object, create_order,
}
use payd.Orders.Created.{create_order-Claimed, claim-IsClaim}

-- Nothing but addresses and identifiers differs, and no row of an address is lost or changed.
pub record SameBooks (before after : Database) : Type 0 where
  pub orders_same : after.orders ≡ before.orders
  pub payments_same : after.payments ≡ before.payments
  pub rows_kept : (a : Address) → In a before.addresses → In a after.addresses

SameBooks-refl : (db : Database) → SameBooks db db
SameBooks-refl db = record { orders_same = refl; payments_same = refl; rows_kept = λ a i. i }

insert_address-SameBooks :
    (db : Database) (index address : ℕ) (now : Time) {r : Address × Database}
    → insert_address db index address now ≡ ok r
    → SameBooks db r.1
unfolding insert_address
insert_address-SameBooks db index address now h =
    elim (Bool-cases (exists (λ a. a.hd_index == index) db.addresses)) [
      | inl used ↦ let bad = rw used at h in cc
      | inr fresh ↦ elim (Bool-cases (exists (λ a. a.address == address) db.addresses)) [
        | inl taken ↦ let bad = rw (fresh, taken) at h in cc
        | inr free ↦
            subst (λ q. SameBooks db q.1) (ok-injective (rw (fresh, free) at h))
              (record {
                orders_same = refl;
                payments_same = refl;
                rows_kept = λ a i. In-append a db.addresses _ i;
              })
      ]
    ]

insert_next_address-SameBooks :
    (derive : ℕ → Result ℕ) (pool_max : ℕ) (now : Time) (db : Database) {r : Address × Database}
    → insert_next_address derive pool_max now db ≡ ok r
    → SameBooks db r.1
unfolding insert_next_address
insert_next_address-SameBooks derive pool_max now db h =
    let index = next_pool_index (pool_indexes db) in
    elim (Bool-cases (leb pool_max (length (pool_indexes db)))) [
      | inl full ↦ let bad = rw full at h in cc
      | inr room ↦ elim (Bool-cases (leb 1000 index)) [
        | inl none_left ↦ let bad = rw (room, none_left) at h in cc
        | inr found ↦
            let (address, _, inserted) = >>=-eq-ok (derive index) _ (rw (room, found) at h) in
            insert_address-SameBooks db index address now inserted
      ]
    ]

free_address-in_pool : (db : Database) (a : Address) → free_address db ≡ some a → in_pool a ≡ true
unfolding free_address
free_address-in_pool db a h =
    let both =
      first_by-holds (λ a. a.hd_index) (λ a. is_free a.state && in_pool a) db.addresses a h in
    ground arith

inserted-index :
    (db : Database) (index address : ℕ) (now : Time) {r : Address × Database}
    → insert_address db index address now ≡ ok r
    → r.0.hd_index ≡ index
unfolding insert_address
inserted-index db index address now h =
    elim (Bool-cases (exists (λ a. a.hd_index == index) db.addresses)) [
      | inl used ↦ let bad = rw used at h in cc
      | inr fresh ↦ elim (Bool-cases (exists (λ a. a.address == address) db.addresses)) [
        | inl taken ↦ let bad = rw (fresh, taken) at h in cc
        | inr free ↦ ap (λ q. q.0.hd_index) (sym (ok-injective (rw (fresh, free) at h)))
      ]
    ]

below_bound : (n : ℕ) → leb 1000 n ≡ false → leb n 999 ≡ true
below_bound n h = ground arith

insert_next_address-in_pool :
    (derive : ℕ → Result ℕ) (pool_max : ℕ) (now : Time) (db : Database) {r : Address × Database}
    → insert_next_address derive pool_max now db ≡ ok r
    → in_pool r.0 ≡ true
unfolding insert_next_address
insert_next_address-in_pool derive pool_max now db {r} h =
    let index = next_pool_index (pool_indexes db) in
    elim (Bool-cases (leb pool_max (length (pool_indexes db)))) [
      | inl full ↦ let bad = rw full at h in cc
      | inr room ↦ elim (Bool-cases (leb 1000 index)) [
        | inl none_left ↦ let bad = rw (room, none_left) at h in cc
        | inr found ↦
            let (address, _, e) = >>=-eq-ok (derive index) _ (rw (room, found) at h) in
            let same = inserted-index db index address now e in
            subst (λ n. leb n 999 ≡ true) (sym same) (below_bound index found)
      ]
    ]

-- A picked address comes with a state whose pool is still well formed.
pub record IsPick (db : Database) (r : Address × Bool × Database) : Type 0 where
  pub books : SameBooks db r.2
  pub pool : IsPool db.addresses → IsPool r.2.addresses
  pub from_pool : in_pool r.0 ≡ true

placeholder-IsPick :
    (db : Database) {r : Address × Bool × Database} → placeholder db ≡ ok r → IsPick db r
placeholder-IsPick db h =
    let first = first_by (λ a. a.hd_index) in_pool db.addresses in
    let (a, found, e) = >>=-eq-ok (or_error first pool_exhausted) _ h in
    subst (IsPick db) (ok-injective e) (record {
      books = SameBooks-refl db;
      pool = λ p. p;
      from_pool =
          first_by-holds (λ a. a.hd_index) in_pool db.addresses a
            (or_error-eq-ok first pool_exhausted found);
    })

or_placeholder-IsPick :
    (db : Database) (s : Result (Address × Database)) {r : Address × Bool × Database}
    → ((q : Address × Database) → s ≡ ok q → IsPick db (q.0, false, q.1))
    → or_placeholder db s ≡ ok r
    → IsPick db r
or_placeholder-IsPick db (ok (a, db')) good h =
    subst (IsPick db) (ok-injective h) (good (a, db') refl)
or_placeholder-IsPick db (err pool_exhausted) good h = placeholder-IsPick db h
or_placeholder-IsPick db (err e) good h = cc

pub pick_address-IsPick :
    (derive : ℕ → Result ℕ) (pool_max : ℕ) (now : Time) (db : Database)
    {r : Address × Bool × Database}
    → pick_address derive pool_max now db ≡ ok r
    → IsPick db r
unfolding pick_address
pick_address-IsPick derive pool_max now db h = elim (Option-cases (free_address db)) [
  | inl empty ↦
      or_placeholder-IsPick db (insert_next_address derive pool_max now db)
        (λ q e. record {
          books = insert_next_address-SameBooks derive pool_max now db e;
          pool = insert_next_address-IsPool derive pool_max now db e;
          from_pool = insert_next_address-in_pool derive pool_max now db e;
        })
        (rw (empty, pick_address) at h)
  | inr (a, e) ↦
      subst (IsPick db) (ok-injective (rw (e, pick_address) at h)) (record {
        books = SameBooks-refl db;
        pool = λ p. p;
        from_pool = free_address-in_pool db a e;
      })
]

-- The row of the address of `o` after an assignment to it.
abbrev pub is_assigned_to : Order → Address → Bool
is_assigned_to o a = a.id == o.address_id && (is_assigned a.state && holds a.assigned_order_id o.id)

claimed-in_pool : (a r : Address) → in_pool a ≡ true → claimable a r ≡ true → in_pool r ≡ true
claimed-in_pool a r h k = ground arith

-- A new order, its address and the rest of the books.
pub record IsPlaced (params : CreateOrderParams) (now : Time) (before after : Database) (o : Order)
    : Type 0 where
  pub is_pending : o.status ≡ OrderStatus.pending
  pub asks_asset : o.asset ≡ params.asset
  pub asks_amount : o.expected_raw ≡ params.expected_raw
  pub asks_ref : o.external_ref ≡ params.external_ref
  pub asks_consumer : o.consumer ≡ params.consumer
  pub asks_price : (o.price_usd ≡ params.price_usd) × (o.price_at ≡ params.price_at)
  pub asks_metadata : o.metadata ≡ coalesce params.metadata empty_object
  pub window : (o.created_at ≡ unix now) × (o.expires_at ≡ params.expires_at)
  pub nothing_received : (o.received_raw ≡ decimal 0) × (o.overpaid_raw ≡ decimal 0)
  pub unresolved : o.resolution ≡ none
  pub orders_grow : after.orders ≡ before.orders ++ o ∷ []
  pub payments_kept : after.payments ≡ before.payments
  pub assigned : exists (is_assigned_to o) after.addresses ≡ true
  pub others_kept : All (λ a. (is_free a.state ≡ true) ⊎ In a after.addresses) before.addresses
  pub pool : IsPool after.addresses

claimed_row :
    (a : Address) (order : Order) (r : Address)
    → order.address_id ≡ a.id
    → claimable a r ≡ true
    → is_assigned_to order (claimed order.id order.created_at r) ≡ true
claimed_row a order r e h = ground arith

-- After a new order the pool has an address: that of the order.
pub create_order_leaves_address :
    (derive : ℕ → Result ℕ) (pool_max : ℕ) (params : CreateOrderParams) (now : Time) (db : Database)
    {o : Order} {db' : Database}
    → create_order derive pool_max params now db ≡ ok (o, true, db')
    → exists in_pool db'.addresses ≡ true
create_order_leaves_address derive pool_max params now db h =
    let c = create_order-Claimed derive pool_max params now db h in
    let order = new_order c.picked.draws c.address params (unix now) in
    let pick = pick_address-IsPick derive pool_max now db c.pick_ok in
    let done = claim-IsClaim c.address order c.picked c.claim_ok in
    ap (exists in_pool) done.addresses_claimed
    ∙ exists-update (claimable c.address) in_pool (claimed order.id order.created_at)
        (λ r e. claimed-in_pool c.address r pick.from_pool e) c.picked.addresses 0 done.one_row

-- The claim passes over every address that is not free.
not_claimable : (a r : Address) → is_free r.state ≡ false → claimable a r ≡ false
not_claimable a r h = ground arith

free_or_kept :
    (a : Address) (order : Order) (r : Address) (rows rows' : List Address)
    → rows' ≡ update (claimable a) (claimed order.id order.created_at) rows
    → In r rows
    → (is_free r.state ≡ true) ⊎ In r rows'
free_or_kept a order r rows rows' e i = elim (Bool-cases (is_free r.state)) [
  | inl y ↦ inl y
  | inr y ↦ inr (
      subst (In r) (sym e) (
        In-update_kept (claimable a) (claimed order.id order.created_at) r rows
          (not_claimable a r y) i))
]

-- A call that reports a new order has appended exactly that order: pending, with nothing received
-- and no resolution, from now to the expiry that was asked for, and with the asset, the amount, the
-- reference, the consumer, the price and the metadata that were asked for. Its address is assigned
-- to it, the row of every address that was not free is as it was, and so are the payments; the pool
-- stays well formed: no derivation index twice, and every row's assignment agrees with its state.
pub create_order-IsPlaced :
    (derive : ℕ → Result ℕ) (pool_max : ℕ) (params : CreateOrderParams) (now : Time) (db : Database)
    {o : Order} {db' : Database}
    → create_order derive pool_max params now db ≡ ok (o, true, db')
    → IsPool db.addresses
    → IsPlaced params now db db' o
create_order-IsPlaced derive pool_max params now db {o} {db'} h p =
    let c = create_order-Claimed derive pool_max params now db h in
    let order = new_order c.picked.draws c.address params (unix now) in
    let pick = pick_address-IsPick derive pool_max now db c.pick_ok in
    let done = claim-IsClaim c.address order c.picked c.claim_ok in
    subst (IsPlaced params now db db') (sym c.order_new) (record {
      is_pending = refl;
      asks_asset = refl;
      asks_amount = refl;
      asks_ref = refl;
      asks_consumer = refl;
      asks_price = (refl, refl);
      asks_metadata = refl;
      window = (refl, refl);
      nothing_received = (refl, refl);
      unresolved = refl;
      orders_grow = done.orders_grow ∙ ap (λ os. os ++ order ∷ []) pick.books.orders_same;
      payments_kept = done.payments_kept ∙ pick.books.payments_same;
      assigned =
          ap (exists (is_assigned_to order)) done.addresses_claimed
          ∙ exists-update (claimable c.address) (is_assigned_to order)
              (claimed order.id order.created_at) (λ r. claimed_row c.address order r refl)
              c.picked.addresses 0 done.one_row;
      others_kept = All-In db.addresses (λ a i.
          free_or_kept c.address order a c.picked.addresses db'.addresses done.addresses_claimed
            (pick.books.rows_kept a i));
      pool = subst IsPool (sym done.addresses_claimed) (
          update-IsPool (claimable c.address) (claimed order.id order.created_at) (λ a. refl)
            (λ a e k. (refl, refl, refl)) c.picked.addresses (pick.pool p));
    })
