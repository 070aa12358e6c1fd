-- ===== src/Pool/Rows.antt =====
-- What every row of the address table satisfies, and that the pool's operations keep it.
use payd.Prelude.{
  ℕ, zero, suc, ◌&&◌, ◌+◌, Bool, true, false, ◌≡◌, refl, none, List, [], ◌∷◌, ◌++◌, arith, All,
  All-append, All-update, exists, update, ◌==◌, is_some, Bool-cases, inl, inr, Result, ok,
  >>=-eq-ok, ok-injective, subst, leb, length, count,
}
use payd.Schema.{Time, unix, Database, Address, AddressState, is_free}
use payd.Pool.{
  in_pool, new_address, insert_address, insert_next_address, pool_indexes, next_pool_index,
  add_addresses, top_up_pool, cleared, is_cooled, release_cooled, cooled, is_held, cool_address,
  disable_address,
}

-- What the state of an address says about its assignment.
abbrev pub AgreesWith : AddressState → Address → Type 0
AgreesWith AddressState.free a =
    (a.assigned_order_id ≡ none) × (a.released_at ≡ none) × (a.cooling_until ≡ none)
AgreesWith AddressState.assigned a =
    (is_some a.assigned_order_id ≡ true) × (a.released_at ≡ none) × (a.cooling_until ≡ none)
AgreesWith AddressState.cooling a =
    (is_some a.assigned_order_id ≡ true)
    × (is_some a.released_at ≡ true)
    × (is_some a.cooling_until ≡ true)
AgreesWith AddressState.disabled a = Unit

abbrev pub IsConsistent : Address → Type 0
IsConsistent a = AgreesWith a.state a

abbrev pub Avoids : ℕ → List Address → Type 0
Avoids index rows = exists (λ a. a.hd_index == index) rows ≡ false

-- No two rows have one derivation index.
abbrev pub HasDistinctIndexes : List Address → Type 0
HasDistinctIndexes [] = Unit
HasDistinctIndexes (a ∷ rows) = Avoids a.hd_index rows × HasDistinctIndexes rows

pub record IsPool (rows : List Address) : Type 0 where
  pub consistent : All IsConsistent rows
  pub distinct : HasDistinctIndexes rows

module _ (p : Address → Bool) (f : Address → Address)
    (same : (a : Address) → (f a).hd_index ≡ a.hd_index) where
  update-Avoids :
      (index : ℕ) (rows : List Address) → Avoids index rows → Avoids index (update p f rows)
  update-Avoids index [] h = refl
  update-Avoids index (a ∷ rows) h = elim (Bool-cases (p a)) [
    | inl e ↦ rw (e, same a) (ground (arith, update-Avoids index rows))
    | inr e ↦ rw e (ground (arith, update-Avoids index rows))
  ]

  update-HasDistinctIndexes :
      (rows : List Address) → HasDistinctIndexes rows → HasDistinctIndexes (update p f rows)
  update-HasDistinctIndexes [] h = tt
  update-HasDistinctIndexes (a ∷ rows) h = elim (Bool-cases (p a)) [
    | inl e ↦ rw (e, same a) (update-Avoids a.hd_index rows h.0, update-HasDistinctIndexes rows h.1)
    | inr e ↦ rw e (update-Avoids a.hd_index rows h.0, update-HasDistinctIndexes rows h.1)
  ]

  pub update-IsPool :
      ((a : Address) → p a ≡ true → IsConsistent a → IsConsistent (f a))
      → (rows : List Address) → IsPool rows
      → IsPool (update p f rows)
  update-IsPool keep rows h = record {
    consistent = All-update IsConsistent p f keep rows h.consistent;
    distinct = update-HasDistinctIndexes rows h.distinct;
  }

append-Avoids :
    (index : ℕ) (rows : List Address) (a : Address)
    → Avoids index rows
    → (a.hd_index == index) ≡ false
    → Avoids index (rows ++ a ∷ [])
append-Avoids index [] a h ne = rw ne
append-Avoids index (b ∷ rows) a h ne = ground (arith, append-Avoids index rows a)

append-HasDistinctIndexes :
    (rows : List Address) (a : Address)
    → HasDistinctIndexes rows
    → Avoids a.hd_index rows
    → HasDistinctIndexes (rows ++ a ∷ [])
append-HasDistinctIndexes [] a h fresh = (refl, tt)
append-HasDistinctIndexes (b ∷ rows) a h fresh = (
  append-Avoids b.hd_index rows a h.0 (ground arith),
  append-HasDistinctIndexes rows a h.1 (ground arith),
)

pub insert_address-IsPool :
    (db : Database) (index address : ℕ) (now : Time) {r : Address × Database}
    → insert_address db index address now ≡ ok r
    → IsPool db.addresses
    → IsPool r.1.addresses
unfolding insert_address
insert_address-IsPool db index address now {r} h p =
    elim (Bool-cases (exists (λ a. a.hd_index == index) db.addresses)) [
      | inl used ↦ let bad = rw used at h in cc
      | inr fresh ↦ elim (Bool-cases (exists (λ a. a.address == address) db.addresses)) [
        | inl taken ↦ let bad = rw (fresh, taken) at h in cc
        | inr free ↦
            subst (λ q. IsPool q.1.addresses) (ok-injective (rw (fresh, free) at h))
              (record {
                consistent =
                    All-append IsConsistent db.addresses _ p.consistent ((refl, refl, refl), tt);
                distinct =
                    append-HasDistinctIndexes db.addresses
                      (new_address db.draws index address (unix now)) p.distinct fresh;
              })
      ]
    ]

pub insert_next_address-IsPool :
    (derive : ℕ → Result ℕ) (pool_max : ℕ) (now : Time) (db : Database) {r : Address × Database}
    → insert_next_address derive pool_max now db ≡ ok r
    → IsPool db.addresses
    → IsPool r.1.addresses
unfolding insert_next_address
insert_next_address-IsPool derive pool_max now db {r} h p =
    let index = next_pool_index (pool_indexes db) in
    elim (Bool-cases (leb pool_max (length (pool_indexes db)))) [
      | inl full ↦ let bad = rw full at h in cc
      | inr room ↦ elim (Bool-cases (leb 1000 index)) [
        | inl none_left ↦ let bad = rw (room, none_left) at h in cc
        | inr found ↦
            let (address, _, inserted) = >>=-eq-ok (derive index) _ (rw (room, found) at h) in
            insert_address-IsPool db index address now inserted p
      ]
    ]

add_addresses-IsPool :
    (derive : ℕ → Result ℕ) (now : Time) (left added : ℕ) (indexes : List ℕ) (db : Database)
    {r : ℕ × Database}
    → add_addresses derive now left added indexes db ≡ ok r
    → IsPool db.addresses
    → IsPool r.1.addresses
unfolding add_addresses
add_addresses-IsPool derive now zero added indexes db h p =
    subst (λ q. IsPool q.1.addresses) (ok-injective h) p
add_addresses-IsPool derive now (suc left) added indexes db h p =
    let index = next_pool_index indexes in
    elim (Bool-cases (leb 1000 index)) [
      | inl none_left ↦
          subst (λ q. IsPool q.1.addresses) (ok-injective (rw (none_left, add_addresses) at h)) p
      | inr found ↦
          let (address, _, h1) = >>=-eq-ok (derive index) _ (rw (found, add_addresses) at h) in
          let (inserted, e, h2) = >>=-eq-ok (insert_address db index address now) _ h1 in
          add_addresses-IsPool derive now left (added + 1) (index ∷ indexes) inserted.1 h2
            (insert_address-IsPool db index address now e p)
    ]

pub top_up_pool-IsPool :
    (derive : ℕ → Result ℕ) (min_free target pool_max : ℕ) (now : Time) (db : Database)
    {r : ℕ × Database}
    → top_up_pool derive min_free target pool_max now db ≡ ok r
    → IsPool db.addresses
    → IsPool r.1.addresses
unfolding top_up_pool
top_up_pool-IsPool derive min_free target pool_max now db h p =
    elim (Bool-cases (leb min_free (count (λ a. is_free a.state && in_pool a) db.addresses))) [
      | inl enough ↦ subst (λ q. IsPool q.1.addresses) (ok-injective (rw enough at h)) p
      | inr short ↦ add_addresses-IsPool derive now _ 0 _ db (rw short at h) p
    ]

pub release_cooled-IsPool :
    (now : Time) (db : Database) → IsPool db.addresses → IsPool (release_cooled now db).1.addresses
unfolding release_cooled
release_cooled-IsPool now db p =
    update-IsPool (is_cooled (unix now)) cleared (λ a. refl) (λ a e c. (refl, refl, refl))
      db.addresses p

held-IsConsistent :
    (address_id stamp until : ℕ) (a : Address)
    → is_held address_id a ≡ true
    → IsConsistent a
    → IsConsistent (cooled stamp until a)
held-IsConsistent address_id stamp until a e c = ground arith

pub cool_address-IsPool :
    (address_id stamp until : ℕ) (rows : List Address)
    → IsPool rows
    → IsPool (cool_address address_id stamp until rows)
unfolding cool_address
cool_address-IsPool address_id stamp until rows p =
    update-IsPool (is_held address_id) (cooled stamp until) (λ a. refl)
      (held-IsConsistent address_id stamp until) rows p

pub disable_address-IsPool :
    (address actor ip : ℕ) (now : Time) (db : Database) {db' : Database}
    → disable_address address actor ip now db ≡ ok db'
    → IsPool db.addresses
    → IsPool db'.addresses
unfolding disable_address
disable_address-IsPool address actor ip now db h p =
    elim (Bool-cases (count (λ a. a.address == address) db.addresses == 1)) [
      | inl one ↦
          subst (λ d. IsPool d.addresses) (ok-injective (rw one at h))
            (update-IsPool (λ a. a.address == address)
              (λ a. record a { state = AddressState.disabled }) (λ a. refl) (λ a e c. tt)
              db.addresses p)
      | inr other ↦ let bad = rw other at h in cc
    ]
