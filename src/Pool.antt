-- ===== src/Pool.antt =====
-- The pool of deposit addresses (internal/store/orders.go: freeAddress, insertNextAddress,
-- poolIndexes, nextPoolIndex, TopUpPool, ReleaseCooled, DisableAddress). Derivation of an address
-- from the seed is the wallet library's, so it is an argument.
pub mod Indexes
pub mod Rows
pub mod TopUp
use payd.Prelude.{
  ℕ, zero, suc, ◌+◌, ◌-◌, Bool, true, false, ◌&&◌, Option, none, some, List, [], ◌∷◌, ◌++◌, map,
  leb, ltb, ◌==◌, if◌then◌else◌, select, update, count, exists, first_by, length, Result, ok, err,
  Error, pool_exhausted, address_not_found, constraint, ◌>>=◌, guard, min, is_some,
}
use payd.Schema.{
  Time, unix, Database, Address, AddressState, is_free, is_assigned, is_cooling, Action, Audit,
}

-- `hd_index BETWEEN 0 AND 999`
abbrev pub in_pool : Address → Bool
in_pool a = leb a.hd_index 999

-- `freeAddress`
unfoldable pub free_address : Database → Option Address
free_address db = first_by (λ a. a.hd_index) (λ a. is_free a.state && in_pool a) db.addresses

-- `poolIndexes`. `hd_index` is unique, so the number of indexes is that of the rows.
abbrev pub pool_indexes : Database → List ℕ
pool_indexes db = map (λ a. a.hd_index) (select in_pool db.addresses)

abbrev pub uses : List ℕ → ℕ → Bool
uses indexes index = exists (λ i. i == index) indexes

-- The loop of `nextPoolIndex`, with the rounds that are left of 1000.
unfoldable pub next_index_from : ℕ → ℕ → List ℕ → ℕ
next_index_from zero index indexes = 1000
next_index_from (suc left) index indexes = elim (uses indexes index) [
  | true ↦ next_index_from left (index + 1) indexes
  | false ↦ index
]

unfoldable pub next_pool_index : List ℕ → ℕ
unfolding next_index_from
next_pool_index indexes = next_index_from 1000 0 indexes

abbrev pub new_address : (id index address created : ℕ) → Address
new_address id index address created = record {
  id = id;
  hd_index = index;
  address = address;
  state = AddressState.free;
  assigned_order_id = none;
  assigned_at = none;
  released_at = none;
  cooling_until = none;
  created_at = created;
}

-- `INSERT INTO addresses`: both `hd_index` and `address` are unique.
unfoldable pub insert_address :
    Database → (index address : ℕ) → (now : Time) → Result (Address × Database)
insert_address db index address now =
    if exists (λ a. a.hd_index == index) db.addresses
    then err constraint
    else if exists (λ a. a.address == address) db.addresses
    then err constraint
    else let a = new_address db.draws index address (unix now) in
      ok (a, record db { addresses = db.addresses ++ a ∷ []; draws = db.draws + 1 })

-- `insertNextAddress`
unfoldable pub insert_next_address :
    (derive : ℕ → Result ℕ) (pool_max : ℕ) (now : Time) → Database → Result (Address × Database)
unfolding next_pool_index insert_address
insert_next_address derive pool_max now db =
    let indexes = pool_indexes db in
    let index = next_pool_index indexes in
    if leb pool_max (length indexes)
    then err pool_exhausted
    else if leb 1000 index
    then err pool_exhausted
    else derive index >>= λ address. insert_address db index address now

-- The loop of `TopUpPool`, with the additions that are left: the number added and the new state.
unfoldable pub add_addresses :
    (derive : ℕ → Result ℕ) (now : Time) → ℕ → ℕ → List ℕ → Database → Result (ℕ × Database)
add_addresses derive now zero added indexes db = ok (added, db)
add_addresses derive now (suc left) added indexes db =
    let index = next_pool_index indexes in
    elim (leb 1000 index) [
      | true ↦ ok (added, db)
      | false ↦ derive index >>= λ address. insert_address db index address now >>= λ r.
          add_addresses derive now left (added + 1) (index ∷ indexes) r.1
    ]

-- `TopUpPool`. Where the target or the bound is passed already, the source's count is negative and
-- nothing is added; here it is 0.
unfoldable pub top_up_pool :
    (derive : ℕ → Result ℕ) (min_free target pool_max : ℕ) (now : Time)
    → Database
    → Result (ℕ × Database)
top_up_pool derive min_free target pool_max now db =
    let free = count (λ a. is_free a.state && in_pool a) db.addresses in
    let indexes = pool_indexes db in
    if leb min_free free
    then ok (0, db)
    else add_addresses derive now (min (target - free) (pool_max - length indexes)) 0 indexes db

abbrev pub cleared : Address → Address
cleared a = record a {
  state = AddressState.free;
  assigned_order_id = none;
  assigned_at = none;
  released_at = none;
  cooling_until = none;
}

-- `cooling_until <= ?`
abbrev pub elapsed : Option ℕ → ℕ → Bool
elapsed none stamp = false
elapsed (some t) stamp = leb t stamp

abbrev pub is_cooled : ℕ → Address → Bool
is_cooled stamp a = is_cooling a.state && elapsed a.cooling_until stamp

-- `ReleaseCooled`
unfoldable pub release_cooled : (now : Time) → Database → ℕ × Database
release_cooled now db = (
  count (is_cooled (unix now)) db.addresses,
  record db { addresses = update (is_cooled (unix now)) cleared db.addresses },
)

-- The statement that cancellation, expiry and confirmation share: an address that is still
-- assigned starts to cool.
abbrev pub cooled : (stamp until : ℕ) → Address → Address
cooled stamp until a = record a {
  state = AddressState.cooling;
  released_at = some stamp;
  cooling_until = some until;
}

abbrev pub is_held : ℕ → Address → Bool
is_held address_id a = a.id == address_id && is_assigned a.state

unfoldable pub cool_address : (address_id stamp until : ℕ) → List Address → List Address
cool_address address_id stamp until = update (is_held address_id) (cooled stamp until)

-- `DisableAddress`; addresses are unique, so at most one row changes.
unfoldable pub disable_address : (address actor ip : ℕ) (now : Time) → Database → Result Database
disable_address address actor ip now db =
    if count (λ a. a.address == address) db.addresses == 1
    then ok (record db {
      addresses =
          update (λ a. a.address == address) (λ a. record a { state = AddressState.disabled })
            db.addresses;
      audit =
          db.audit
          ++ record {
            actor = actor;
            action = Action.wallet_disable;
            subject = address;
            detail = 0;
            created_at = unix now;
          }
            ∷ [];
    })
    else err address_not_found
