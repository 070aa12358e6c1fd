-- ===== src/Pool/Indexes.antt =====
-- `nextPoolIndex` finds the least index that is not used.
use payd.Prelude.{
  ℕ, zero, suc, ◌+◌, ◌≤◌, ◌<◌, true, false, ◌≡◌, refl, List, arith, Bool-cases, inl, inr, ◌==◌,
  subst,
}
use payd.Pool.{uses, next_index_from, next_pool_index}

-- `found` is the least unused index from `index` on, or 1000 where all below that are used.
pub record IsNextFrom (index found : ℕ) (indexes : List ℕ) : Type 0 where
  pub bounded : found ≤ 1000
  pub unused : found < 1000 → uses indexes found ≡ false
  pub least : (j : ℕ) → index ≤ j → j < found → uses indexes j ≡ true

next_index_used :
    (left index : ℕ) (indexes : List ℕ)
    → uses indexes index ≡ true
    → next_index_from (suc left) index indexes ≡ next_index_from left (index + 1) indexes
unfolding next_index_from
next_index_used left index indexes h = rw (h, next_index_from)

next_index_unused :
    (left index : ℕ) (indexes : List ℕ)
    → uses indexes index ≡ false
    → next_index_from (suc left) index indexes ≡ index
unfolding next_index_from
next_index_unused left index indexes h = rw (h, next_index_from)

used_from :
    (index found : ℕ) (indexes : List ℕ)
    → uses indexes index ≡ true
    → IsNextFrom (index + 1) found indexes
    → IsNextFrom index found indexes
used_from index found indexes used r = record {
  bounded = r.bounded;
  unused = r.unused;
  least = λ j lo hi. elim (Bool-cases (index == j)) [
    | inl e ↦ let same : index ≡ j = ground arith in subst (λ k. uses indexes k ≡ true) same used
    | inr ne ↦ r.least j (ground arith) hi
  ];
}

next_index_done : (index : ℕ) (indexes : List ℕ) → 1000 ≡ next_index_from zero index indexes
unfolding next_index_from
next_index_done index indexes = refl

next_index_from-IsNextFrom :
    (left index : ℕ) (indexes : List ℕ)
    → index + left ≡ 1000
    → IsNextFrom index (next_index_from left index indexes) indexes
next_index_from-IsNextFrom zero index indexes h =
    subst (λ k. IsNextFrom index k indexes) (next_index_done index indexes)
      (record {
        bounded = omega arith;
        unused = λ lt. absurd (omega arith);
        least = λ j lo hi. absurd (omega arith);
      })
next_index_from-IsNextFrom (suc left) index indexes h = elim (Bool-cases (uses indexes index)) [
  | inl used ↦ rw (next_index_used left index indexes used) (
      used_from index _ indexes used
        (next_index_from-IsNextFrom left (index + 1) indexes (omega arith)))
  | inr unused ↦ rw (next_index_unused left index indexes unused) (record {
    bounded = omega arith;
    unused = λ lt. unused;
    least = λ j lo hi. absurd (omega arith);
  })
]

-- The index that the pool takes next is the least of 0 to 999 that no row uses, and 1000 exactly
-- where all of them are used.
pub next_pool_index-IsNextFrom : (indexes : List ℕ) → IsNextFrom 0 (next_pool_index indexes) indexes
unfolding next_pool_index
next_pool_index-IsNextFrom indexes = next_index_from-IsNextFrom 1000 0 indexes refl
