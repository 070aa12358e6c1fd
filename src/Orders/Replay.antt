-- ===== src/Orders/Replay.antt =====
-- Creation by an external reference that is already there.
use payd.Prelude.{
  first_by-none, Error, pool_exhausted, first_by, Option-cases, ◌⊎◌, ℕ, Bool, true, false, not,
  ◌&&◌, ◌≡◌, refl, Option, none, some, [], ◌∷◌, arith, find, find_append, Result, ok, err,
  external_ref_conflict, ap, ◌∙◌, ◌==◌, ==_self, if◌then◌else◌, inl, inr, Bool-cases,
}
use payd.Decimal.{Text, text_eq}
use payd.Schema.{Time, unix, Database, Address, Order}
use payd.Pool.{free_address, insert_next_address, in_pool}
use payd.Orders.{
  or_placeholder, CreateOrderParams, pick_address, new_order, has_ref, replay, create_order,
  place_order, option_eq,
}
use payd.Orders.Created.{create_order-Claimed, claim-IsClaim}
use payd.Orders.Claims.{pick_address-IsPick, create_order_leaves_address}

text_eq_self : (t : Text) → text_eq t t ≡ true
text_eq_self [] = refl
text_eq_self (c ∷ t) = rw (==_self c) (text_eq_self t)

option_eq_self : (o : Option ℕ) → option_eq o o ≡ true
option_eq_self none = refl
option_eq_self (some a) = ==_self a

-- What a replay answers, in terms of what the request asks for.
abbrev pub asks_same : Order → CreateOrderParams → Bool
asks_same o params =
    o.asset == params.asset
    && (text_eq o.expected_raw params.expected_raw && option_eq o.consumer params.consumer)

replay_same :
    (o : Order) (params : CreateOrderParams) (db : Database)
    → asks_same o params ≡ true
    → replay o params db ≡ ok (o, false, db)
unfolding replay
replay_same o params db h = ground arith

replay_other :
    (o : Order) (params : CreateOrderParams) (db : Database)
    → asks_same o params ≡ false
    → replay o params db
      ≡ err (
          external_ref_conflict
            (not (o.asset == params.asset))
            (not (text_eq o.expected_raw params.expected_raw))
            (not (option_eq o.consumer params.consumer)))
unfolding replay
replay_other o params db h = ground arith

-- What a call answers that finds an order under its reference.
abbrev pub answer_from : Order → CreateOrderParams → Database → Result (Order × Bool × Database)
answer_from existing params db =
    if asks_same existing params
    then ok (existing, false, db)
    else err (
        external_ref_conflict (not (existing.asset == params.asset))
          (not (text_eq existing.expected_raw params.expected_raw))
          (not (option_eq existing.consumer params.consumer)))

replay-answers :
    (existing : Order) (params : CreateOrderParams) (db : Database)
    → replay existing params db ≡ answer_from existing params db
replay-answers existing params db = elim (Bool-cases (asks_same existing params)) [
  | inl same ↦ rw same (replay_same existing params db same)
  | inr other ↦ rw other (replay_other existing params db other)
]

abbrev pub is_exhausted : Error → Bool
is_exhausted pool_exhausted = true
is_exhausted _ = false

-- A call that should answer `answer` fails instead with `e`: no address is free, none can be derived
-- either, for that reason, and if the reason is that the pool is full, it has no address at all.
pub record FailsToPick (derive : ℕ → Result ℕ) (pool_max : ℕ) (now : Time) (db : Database)
    (result : Result (Order × Bool × Database)) : Type 0 where
  pub reason : Error
  pub none_free : free_address db ≡ none
  pub underivable : insert_next_address derive pool_max now db ≡ err reason
  pub no_placeholder :
      (is_exhausted reason ≡ false) ⊎ (first_by (λ a. a.hd_index) in_pool db.addresses ≡ none)
  pub failed : result ≡ err reason

-- The choice of the address, seen by how it ends.
or_placeholder-cases :
    (db : Database) (s : Result (Address × Database))
    → ((picked : Address × Bool × Database) × (or_placeholder db s ≡ ok picked))
      ⊎ ((e : Error) × (s ≡ err e)
          × ((is_exhausted e ≡ false) ⊎ (first_by (λ a. a.hd_index) in_pool db.addresses ≡ none))
          × (or_placeholder db s ≡ err e))
or_placeholder-cases db (ok (a, db')) = inl ((a, false, db'), refl)
or_placeholder-cases db (err pool_exhausted) =
    elim (Option-cases (first_by (λ a. a.hd_index) in_pool db.addresses)) [
      | inl e ↦ inr (pool_exhausted, refl, inr e, rw e refl)
      | inr (a, e) ↦ inl ((a, true, db), rw e refl)
    ]
or_placeholder-cases db (err e) = inr (e, refl, inl refl, refl)

abbrev Picks : (ℕ → Result ℕ) → ℕ → Time → Database → Type 0
Picks derive pool_max now db =
    (picked : Address × Bool × Database) × (pick_address derive pool_max now db ≡ ok picked)

create_order_fails :
    (derive : ℕ → Result ℕ) (pool_max : ℕ) (now : Time) (params : CreateOrderParams) (db : Database)
    (e : Error)
    → pick_address derive pool_max now db ≡ err e
    → create_order derive pool_max params now db ≡ err e
unfolding create_order
create_order_fails derive pool_max now params db e h = rw h refl

pick_address-cases :
    (derive : ℕ → Result ℕ) (pool_max : ℕ) (now : Time) (params : CreateOrderParams) (db : Database)
    → Picks derive pool_max now db
      ⊎ FailsToPick derive pool_max now db (create_order derive pool_max params now db)
unfolding pick_address
pick_address-cases derive pool_max now params db = elim (Option-cases (free_address db)) [
  | inr (a, e) ↦ inl ((a, false, db), rw (e, pick_address) refl)
  | inl empty ↦ elim (or_placeholder-cases db (insert_next_address derive pool_max now db)) [
    | inl (picked, y) ↦ inl (picked, rw (empty, pick_address) y)
    | inr (e, y, why, z) ↦ inr (record {
      reason = e;
      none_free = empty;
      underivable = y;
      no_placeholder = why;
      failed = create_order_fails derive pool_max now params db e (rw (empty, pick_address) z);
    })
  ]
]

replays_after_pick :
    (derive : ℕ → Result ℕ) (pool_max : ℕ) (params : CreateOrderParams) (now : Time) (db : Database)
    (existing : Order) {picked : Address × Bool × Database}
    → find (has_ref params.external_ref) db.orders ≡ some existing
    → pick_address derive pool_max now db ≡ ok picked
    → create_order derive pool_max params now db ≡ answer_from existing params db
unfolding create_order place_order
replays_after_pick derive pool_max params now db existing {picked} e pick =
    let there : find (has_ref params.external_ref) picked.2.orders ≡ some existing =
      ap (find (has_ref params.external_ref))
        (pick_address-IsPick derive pool_max now db pick).books.orders_same
      ∙ e in
    rw (pick, there, place_order) (replay-answers existing params db)

-- With an order under its reference, a request gets that order back where it asks for the same
-- asset, amount and consumer, and is told which of them differ otherwise; in both cases nothing is
-- written, and a full pool is no obstacle. The one exception: an address is looked for first, so
-- where none is free and none can be derived, the call fails with the reason of that; a pool that is
-- full is such a reason only if it has no address at all.
pub create_order_replays :
    (derive : ℕ → Result ℕ) (pool_max : ℕ) (params : CreateOrderParams) (now : Time) (db : Database)
    (existing : Order)
    → find (has_ref params.external_ref) db.orders ≡ some existing
    → (create_order derive pool_max params now db ≡ answer_from existing params db)
      ⊎ FailsToPick derive pool_max now db (create_order derive pool_max params now db)
create_order_replays derive pool_max params now db existing e =
    elim (pick_address-cases derive pool_max now params db) [
      | inl (picked, pick) ↦
          inl (replays_after_pick derive pool_max params now db existing {picked = picked} e pick)
      | inr failure ↦ inr failure
    ]

new_order_asks :
    (id : ℕ) (a : Address) (params : CreateOrderParams) (created : ℕ)
    → asks_same (new_order id a params created) params ≡ true
new_order_asks id a params created =
    rw (==_self params.asset, text_eq_self params.expected_raw, option_eq_self params.consumer)

has_own_ref :
    (ref : Option ℕ) (r : ℕ) (o : Order)
    → ref ≡ some r
    → o.external_ref ≡ some r
    → has_ref ref o ≡ true
has_own_ref ref r o e e' = rw (e, e', ==_self r)

-- A request with an external reference that has made an order can be sent again, at another time and
-- under another bound of the pool, full or not: it gets the same order, reports that nothing was made,
-- and changes nothing. The one exception: an address is looked for first, so where none is free and
-- a new one cannot be derived and stored, the call fails with the reason of that.
pub create_order_idempotent :
    (derive : ℕ → Result ℕ) (pool_max pool_max' : ℕ) (params : CreateOrderParams) (r : ℕ)
    (now now' : Time) (db : Database) {o : Order} {db' : Database}
    → params.external_ref ≡ some r
    → create_order derive pool_max params now db ≡ ok (o, true, db')
    → (create_order derive pool_max' params now' db' ≡ ok (o, false, db'))
      ⊎ ((failure : FailsToPick derive pool_max' now' db'
            (create_order derive pool_max' params now' db'))
          × (is_exhausted failure.reason ≡ false))
create_order_idempotent derive pool_max pool_max' params r now now' db {o} {db'} er h =
    let c = create_order-Claimed derive pool_max params now db h in
    let order = new_order c.picked.draws c.address params (unix now) in
    let grown = (claim-IsClaim c.address order c.picked c.claim_ok).orders_grow in
    let there : find (has_ref params.external_ref) db'.orders ≡ some order =
      ap (find (has_ref params.external_ref)) grown
      ∙ find_append (has_ref params.external_ref) c.picked.orders order c.no_replay
          (has_own_ref params.external_ref r order er er) in
    elim (create_order_replays derive pool_max' params now' db' order there) [
      | inl answer ↦ inl (
          rw c.order_new (rw (new_order_asks c.picked.draws c.address params (unix now)) at answer))
      | inr failure ↦ elim failure.no_placeholder [
        | inl other ↦ inr (failure, other)
        | inr absent ↦
            let there = create_order_leaves_address derive pool_max params now db h in
            let gone = first_by-none (λ a. a.hd_index) in_pool db'.addresses absent in cc
      ]
    ]
