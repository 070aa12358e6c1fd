-- ===== src/Pool/TopUp.antt =====
-- How many addresses `TopUpPool` adds.
use payd.Prelude.{
  ℕ, zero, suc, ◌+◌, ◌-◌, ◌≤◌, ◌<◌, Bool, true, false, ◌&&◌, ◌≡◌, refl, sym, ap, subst, List, [],
  ◌∷◌, ◌++◌, map, arith, select, count, exists, length, min, leb, ◌==◌, ◌⊎◌, inl, inr, Bool-cases,
  Result, ok, >>=-eq-ok, ok-injective, In, In-append,
}
use payd.Schema.{Time, unix, Database, Address, is_free}
use payd.Pool.{
  in_pool, uses, pool_indexes, next_pool_index, new_address, insert_address, add_addresses,
  top_up_pool,
}
use payd.Pool.Indexes.{next_pool_index-IsNextFrom}

-- The free addresses of the pool, and all of it.
abbrev pub free_count : Database → ℕ
free_count db = count (λ a. is_free a.state && in_pool a) db.addresses

abbrev pub pool_count : Database → ℕ
pool_count db = count in_pool db.addresses

abbrev pub has_index : ℕ → Address → Bool
has_index i a = a.hd_index == i

-- What a top-up has done that wanted `wanted` new addresses and says that it has added `added`.
pub record Grows (wanted added : ℕ) (db db' : Database) : Type 0 where
  pub free_grows : free_count db' ≡ free_count db + added
  pub pool_grows : pool_count db' ≡ pool_count db + added
  pub at_most : added ≤ wanted
  pub all_or_full :
      (added ≡ wanted) ⊎ ((i : ℕ) → i < 1000 → exists (has_index i) db'.addresses ≡ true)
  pub rows_kept : (a : Address) → In a db.addresses → In a db'.addresses
  pub rest_kept : db' ≡ record db { addresses = db'.addresses; draws = db'.draws }

-- Every index of the list is that of a row.
abbrev Covers : List ℕ → Database → Type 0
Covers indexes db = (i : ℕ) → uses indexes i ≡ true → exists (has_index i) db.addresses ≡ true

abbrev with_row : Address → Database → Database
with_row a db = record db { addresses = db.addresses ++ a ∷ []; draws = db.draws + 1 }

insert_address-adds :
    (db : Database) (index address : ℕ) (now : Time) {r : Address × Database}
    → insert_address db index address now ≡ ok r
    → with_row (new_address db.draws index address (unix now)) db ≡ r.1
unfolding insert_address
insert_address-adds db index address now h =
    elim (Bool-cases (exists (has_index index) db.addresses)) [
      | inl used ↦ let bad = rw used at h in cc
      | inr fresh ↦ elim (Bool-cases (exists (λ a. a.address == address) db.addresses)) [
        | inl taken ↦ let bad = rw (fresh, taken) at h in cc
        | inr free ↦ ap (λ r. r.1) (ok-injective (rw (fresh, free) at h))
      ]
    ]

exists-append :
    (p : Address → Bool) (xs ys : List Address)
    → (exists p xs ≡ true) ⊎ (exists p ys ≡ true)
    → exists p (xs ++ ys) ≡ true
exists-append p [] ys h = ground arith
exists-append p (x ∷ xs) ys h = ground (arith, exists-append p xs ys)

Covers-row :
    (indexes : List ℕ) (a : Address) (db : Database)
    → Covers indexes db
    → Covers (a.hd_index ∷ indexes) (with_row a db)
Covers-row indexes a db covers i h = elim (Bool-cases (a.hd_index == i)) [
  | inl e ↦ exists-append (has_index i) db.addresses (a ∷ []) (inr (rw e refl))
  | inr e ↦ exists-append (has_index i) db.addresses (a ∷ []) (inl (covers i (rw e at h)))
]

Covers-pool :
    (rows : List Address) (i : ℕ)
    → uses (map (λ a. a.hd_index) (select in_pool rows)) i ≡ true
    → exists (has_index i) rows ≡ true
Covers-pool [] i h = cc
Covers-pool (a ∷ rows) i h = elim (Bool-cases (a.hd_index == i)) [
  | inl e ↦ rw e refl
  | inr e ↦ elim (Bool-cases (in_pool a)) [
    | inl y ↦ rw e (Covers-pool rows i (rw (y, e) at h))
    | inr y ↦ rw e (Covers-pool rows i (rw y at h))
  ]
]

length-indexes :
    (rows : List Address)
    → length (map (λ a. a.hd_index) (select in_pool rows)) ≡ count in_pool rows
length-indexes [] = refl
length-indexes (a ∷ rows) = elim (Bool-cases (in_pool a)) [
  | inl e ↦ rw e (omega (arith, length-indexes rows))
  | inr e ↦ rw e (omega (arith, length-indexes rows))
]

count-new :
    (p : Address → Bool) (a : Address) (rows : List Address)
    → p a ≡ true
    → count p (rows ++ a ∷ []) ≡ count p rows + 1
count-new p a [] h = ground arith
count-new p a (x ∷ rows) h = ground (arith, count-new p a rows h)

-- One more address, and then as many as the rest of the loop adds.
Grows-row :
    (left n index draws address created : ℕ) (db db' : Database)
    → index < 1000
    → Grows left n (with_row (new_address draws index address created) db) db'
    → Grows (suc left) (suc n) db db'
Grows-row left n index draws address created db db' small g =
    let row = new_address draws index address created in
    let inside : in_pool row ≡ true = ground arith in
    let free = count-new (λ a. is_free a.state && in_pool a) row db.addresses inside in
    let pool = count-new in_pool row db.addresses inside in
    record {
      free_grows = omega (arith, free, g.free_grows);
      pool_grows = omega (arith, pool, g.pool_grows);
      at_most = omega (arith, g.at_most);
      all_or_full = elim g.all_or_full [ inl e ↦ inl (ap suc e) | inr full ↦ inr full ];
      rows_kept = λ a i. g.rows_kept a (In-append a db.addresses (row ∷ []) i);
      rest_kept = g.rest_kept;
    }

Grows-none :
    (left : ℕ) (db : Database)
    → (0 ≡ left) ⊎ ((i : ℕ) → i < 1000 → exists (has_index i) db.addresses ≡ true)
    → Grows left 0 db db
Grows-none left db done = record {
  free_grows = omega arith;
  pool_grows = omega arith;
  at_most = omega arith;
  all_or_full = done;
  rows_kept = λ a i. i;
  rest_kept = refl;
}

below : (index i : ℕ) → leb 1000 index ≡ true → i < 1000 → i < index
below index i h lt = ground arith

above : (index : ℕ) → leb 1000 index ≡ false → index < 1000
above index h = ground arith

-- The loop ends with as many additions as were left, or where every index has a row.
add_addresses-Grows :
    (derive : ℕ → Result ℕ) (now : Time) (left added : ℕ) (indexes : List ℕ) (db : Database)
    {r : ℕ × Database}
    → add_addresses derive now left added indexes db ≡ ok r
    → Covers indexes db
    → (n : ℕ) × (r.0 ≡ added + n) × Grows left n db r.1
unfolding add_addresses
add_addresses-Grows derive now zero added indexes db h covers =
    subst (λ r. (n : ℕ) × (r.0 ≡ added + n) × Grows zero n db r.1) (ok-injective h)
      (0, omega arith, Grows-none zero db (inl refl))
add_addresses-Grows derive now (suc left) added indexes db {r} h covers =
    let index = next_pool_index indexes in
    let first = next_pool_index-IsNextFrom indexes in
    elim (Bool-cases (leb 1000 index)) [
      | inl none_left ↦
          subst (λ r. (n : ℕ) × (r.0 ≡ added + n) × Grows (suc left) n db r.1)
            (ok-injective (rw (none_left, add_addresses) at h))
            (
              0,
              omega arith,
              Grows-none (suc left) db (
                  inr
                    (λ i lt. covers i (first.least i (omega arith) (below index i none_left lt)))),
            )
      | inr found ↦
          let (address, _, h1) = >>=-eq-ok (derive index) _ (rw (found, add_addresses) at h) in
          let (inserted, e, h2) = >>=-eq-ok (insert_address db index address now) _ h1 in
          let row = new_address db.draws index address (unix now) in
          let adds = insert_address-adds db index address now e in
          let (n, total, grows) =
            add_addresses-Grows derive now left (added + 1) (index ∷ indexes) inserted.1 h2
              (subst (Covers (index ∷ indexes)) adds (Covers-row indexes row db covers)) in
          (
            suc n,
            omega (arith, total),
            Grows-row left n index db.draws address (unix now) db r.1 (above index found)
                (subst (λ d. Grows left n d r.1) (sym adds) grows),
          )
    ]

-- Topping up does nothing where the free addresses are at least the minimum. Otherwise it adds, all
-- of them free and in the pool, as many addresses as are missing to the target, but not more than the
-- pool has room for; it stops short of that only where every index of the pool has a row. It reports
-- the number added, keeps every row, and writes no other table.
pub top_up_pool-Grows :
    (derive : ℕ → Result ℕ) (min_free target pool_max : ℕ) (now : Time) (db : Database) {added : ℕ}
    {db' : Database}
    → top_up_pool derive min_free target pool_max now db ≡ ok (added, db')
    → ((min_free ≤ free_count db) × (added ≡ 0) × (db' ≡ db))
      ⊎ ((free_count db < min_free)
          × Grows (min (target - free_count db) (pool_max - pool_count db)) added db db')
unfolding top_up_pool
top_up_pool-Grows derive min_free target pool_max now db {added} {db'} h =
    elim (Bool-cases (leb min_free (free_count db))) [
      | inl enough ↦
          let same = ok-injective (rw enough at h) in
          inl (ground arith, ap (λ r. r.0) (sym same), ap (λ r. r.1) (sym same))
      | inr short ↦
          let (n, total, grows) =
            add_addresses-Grows derive now _ 0 (pool_indexes db) db (rw short at h)
              (Covers-pool db.addresses) in
          let same : n ≡ added = omega (arith, total) in
          inr (
            ground arith,
            subst (λ m. Grows (min (target - free_count db) (pool_max - m)) added db db')
                (length-indexes db.addresses)
                (subst
                  (λ k.
                    Grows (min (target - free_count db) (pool_max - length (pool_indexes db))) k db
                      db')
                  same grows),
          )
    ]
