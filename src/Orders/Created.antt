-- ===== src/Orders/Created.antt =====
-- Creation of an order: the claim of an address, and the replay by external reference.
use payd.Prelude.{
  ℕ, Bool, true, false, ◌≡◌, refl, none, [], ◌∷◌, ◌++◌, arith, find, update, count, Bool-cases,
  Option-cases, inl, inr, Result, ok, >>=-eq-ok, ok-injective, ap, ◌∙◌, subst, ◌==◌, ==_iff,
}
use payd.Schema.{Time, unix, Database, Address, Order}
use payd.Orders.{
  CreateOrderParams, pick_address, new_order, has_ref, replay, claim, claimable, claimed,
  place_order, create_order,
}

-- What `CreateOrder` went through when it reports a new order.
pub record Claimed (derive : ℕ → Result ℕ) (pool_max : ℕ) (params : CreateOrderParams) (now : Time)
    (db : Database) (o : Order) (db' : Database) : Type 0 where
  pub address : Address
  pub picked : Database
  pub pick_ok : pick_address derive pool_max now db ≡ ok (address, false, picked)
  pub no_replay : find (has_ref params.external_ref) picked.orders ≡ none
  pub order_new : o ≡ new_order picked.draws address params (unix now)
  pub claim_ok :
      claim address (new_order picked.draws address params (unix now)) picked ≡ ok (o, true, db')

replay_not_new :
    (existing : Order) (params : CreateOrderParams) (db : Database) {o : Order} {db' : Database}
    → replay existing params db ≡ ok (o, true, db')
    → ⊥
unfolding replay
replay_not_new existing params db h = ground arith

claim_same_order :
    (a : Address) (order : Order) (db : Database) {o : Order} {made : Bool} {db' : Database}
    → claim a order db ≡ ok (o, made, db')
    → o ≡ order
unfolding claim
claim_same_order a order db h = ground arith

place_order-new :
    (params : CreateOrderParams) (now : Time) (db : Database) (a : Address) (exhausted : Bool)
    (picked : Database) {o : Order} {db' : Database}
    → place_order params now db a exhausted picked ≡ ok (o, true, db')
    → (exhausted ≡ false)
      × (find (has_ref params.external_ref) picked.orders ≡ none)
      × (claim a (new_order picked.draws a params (unix now)) picked ≡ ok (o, true, db'))
unfolding place_order
place_order-new params now db a exhausted picked h =
    elim (Option-cases (find (has_ref params.external_ref) picked.orders)) [
      | inl fresh ↦ elim (Bool-cases exhausted) [
        | inl full ↦ let bad = rw (fresh, full, place_order) at h in cc
        | inr room ↦ (room, fresh, rw (fresh, room, place_order) at h)
      ]
      | inr (existing, e) ↦ absurd (replay_not_new existing params db (rw (e, place_order) at h))
    ]

pub create_order-Claimed :
    (derive : ℕ → Result ℕ) (pool_max : ℕ) (params : CreateOrderParams) (now : Time) (db : Database)
    {o : Order} {db' : Database}
    → create_order derive pool_max params now db ≡ ok (o, true, db')
    → Claimed derive pool_max params now db o db'
unfolding create_order
create_order-Claimed derive pool_max params now db {o} {db'} h =
    let (p, ep, h1) = >>=-eq-ok (pick_address derive pool_max now db) _ h in
    let (room, fresh, e) = place_order-new params now db p.0 p.1 p.2 h1 in
    let same = claim_same_order p.0 _ p.2 e in
    record {
      address = p.0;
      picked = p.2;
      pick_ok = ep ∙ ap (λ b. ok (p.0, b, p.2)) room;
      no_replay = fresh;
      order_new = same;
      claim_ok = e;
    }

-- Only rows of the claimed address with the same id and index change.
pub record IsClaim (a : Address) (o : Order) (before after : Database) : Type 0 where
  pub orders_grow : after.orders ≡ before.orders ++ o ∷ []
  pub payments_kept : after.payments ≡ before.payments
  pub addresses_claimed :
      after.addresses ≡ update (claimable a) (claimed o.id o.created_at) before.addresses
  pub one_row : count (claimable a) before.addresses ≡ 1

pub claim-IsClaim :
    (a : Address) (order : Order) (db : Database) {o : Order} {db' : Database}
    → claim a order db ≡ ok (o, true, db')
    → IsClaim a order db db'
unfolding claim
claim-IsClaim a order db h = elim (Bool-cases (count (claimable a) db.addresses == 1)) [
  | inl one ↦
      subst (λ r. IsClaim a order db r.2) (ok-injective (rw one at h))
        (record {
          orders_grow = refl;
          payments_kept = refl;
          addresses_claimed = refl;
          one_row = (==_iff _ 1).0 one;
        })
  | inr other ↦ let bad = rw other at h in cc
]
