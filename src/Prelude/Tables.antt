-- ===== src/Prelude/Tables.antt =====
-- SQL tables as lists of rows in insertion order: the queries and updates that the store uses.
use Prim.Native.Nat.{ℕ, suc, ◌+◌}
use mathlib.Core.Path.{◌≡◌, refl, ap, subst}
use mathlib.Core.Bool.{Bool, true, false}
use mathlib.Core.Option.{Option, none, some}
use mathlib.Core.Logic.{inl, inr}
use mathlib.Core.List.{List, [], ◌∷◌, ◌++◌, map}
use native.Mathlib.Omega.{arith}
use payd.Prelude.Tests.{leb, if◌then◌else◌, Bool-cases}
use payd.Prelude.Lists.{length, All, In, here, there}
use payd.Prelude.Results.{some-injective}

module _ {ℓ} {A : Type ℓ} where
  -- `SELECT … WHERE p LIMIT 1`
  abbrev pub find : (A → Bool) → List A → Option A
  find p [] = none
  find p (x ∷ xs) = if p x then some x else find p xs

  -- `SELECT … WHERE p`
  abbrev pub select : (A → Bool) → List A → List A
  select p [] = []
  select p (x ∷ xs) = let rest = select p xs in if p x then x ∷ rest else rest

  -- `UPDATE … SET f WHERE p`
  abbrev pub update : (A → Bool) → (A → A) → List A → List A
  update p f [] = []
  update p f (x ∷ xs) = (if p x then f x else x) ∷ update p f xs

  -- `SELECT COUNT(*) … WHERE p`, and the rows that an update with that condition affects
  abbrev pub count : (A → Bool) → List A → ℕ
  count p [] = 0
  count p (x ∷ xs) = (if p x then 1 else 0) + count p xs

  -- `EXISTS (SELECT 1 … WHERE p)`
  abbrev pub exists : (A → Bool) → List A → Bool
  exists p [] = false
  exists p (x ∷ xs) = if p x then true else exists p xs

  -- `SELECT … WHERE p ORDER BY key LIMIT 1`
  abbrev pub first_by : (A → ℕ) → (A → Bool) → List A → Option A
  first_by key p [] = none
  first_by key p (x ∷ xs) =
      let rest = first_by key p xs in
      if p x
      then elim rest [ none ↦ some x | some y ↦ if leb (key x) (key y) then some x else some y ]
      else rest

  pub find-holds : (p : A → Bool) (xs : List A) (a : A) → find p xs ≡ some a → p a ≡ true
  find-holds p [] a h = cc
  find-holds p (x ∷ xs) a h = ground (arith, find-holds p xs a)

  pub first_by-holds :
      (key : A → ℕ) (p : A → Bool) (xs : List A) (a : A) → first_by key p xs ≡ some a → p a ≡ true
  first_by-holds key p [] a h = cc
  first_by-holds key p (x ∷ xs) a h = ground (arith, first_by-holds key p xs a)

  pub first_by-none :
      (key : A → ℕ) (p : A → Bool) (xs : List A) → first_by key p xs ≡ none → exists p xs ≡ false
  first_by-none key p [] h = refl
  first_by-none key p (x ∷ xs) h = ground (arith, first_by-none key p xs)

  -- A search by a key that `f` keeps.
  pub find-map_kept :
      (p : A → Bool) (f : A → A)
      → ((x : A) → p (f x) ≡ p x)
      → (xs : List A) (a : A) → find p xs ≡ some a
      → find p (map f xs) ≡ some (f a)
  find-map_kept p f keeps [] a h = cc
  find-map_kept p f keeps (x ∷ xs) a h = elim (Bool-cases (p x)) [
    | inl e ↦ rw (keeps x, e) (ap (λ y. some (f y)) (some-injective (rw e at h)))
    | inr e ↦ rw (keeps x, e) (find-map_kept p f keeps xs a (rw e at h))
  ]

  pub exists-In :
      (p : A → Bool) (xs : List A) → exists p xs ≡ true → (a : A) × In a xs × (p a ≡ true)
  exists-In p [] h = cc
  exists-In p (x ∷ xs) h = elim (Bool-cases (p x)) [
    | inl e ↦ (x, here, e)
    | inr e ↦ let (a, i, y) = exists-In p xs (rw e at h) in (a, there i, y)
  ]

  pub In-append : (a : A) (xs ys : List A) → In a xs → In a (xs ++ ys)
  In-append a [] ys i = elim i [ ]
  In-append a (x ∷ xs) ys here = here
  In-append a (x ∷ xs) ys (there i) = there (In-append a xs ys i)

  -- A row that an update passes over.
  pub In-update_kept :
      (p : A → Bool) (f : A → A) (a : A) (xs : List A)
      → p a ≡ false
      → In a xs
      → In a (update p f xs)
  In-update_kept p f a [] h i = elim i [ ]
  In-update_kept p f a (x ∷ xs) h here = rw h here
  In-update_kept p f a (x ∷ xs) h (there i) = there (In-update_kept p f a xs h i)

  pub length-update : (p : A → Bool) (f : A → A) (xs : List A) → length (update p f xs) ≡ length xs
  length-update p f [] = refl
  length-update p f (x ∷ xs) = omega (arith, length-update p f xs)

  -- An update that keeps a property of each row that it changes keeps it on the table.
  pub All-update {κ} :
      (P : A → Type κ) (p : A → Bool) (f : A → A)
      → ((x : A) → p x ≡ true → P x → P (f x))
      → (xs : List A) → All P xs
      → All P (update p f xs)
  All-update P p f keep [] h = tt
  All-update P p f keep (x ∷ xs) h = elim (Bool-cases (p x)) [
    | inl e ↦ rw e (keep x e h.0, All-update P p f keep xs h.1)
    | inr e ↦ rw e (h.0, All-update P p f keep xs h.1)
  ]

  pub All-select {κ} :
      (P : A → Type κ) (p : A → Bool) (xs : List A) → All P xs → All P (select p xs)
  All-select P p [] h = tt
  All-select P p (x ∷ xs) h = elim (Bool-cases (p x)) [
    | inl e ↦ rw e (h.0, All-select P p xs h.1)
    | inr e ↦ rw e (All-select P p xs h.1)
  ]

  pub All-find {κ} :
      (P : A → Type κ) (p : A → Bool) (xs : List A) (a : A) → All P xs → find p xs ≡ some a → P a
  All-find P p [] a h e = cc
  All-find P p (x ∷ xs) a h e = elim (Bool-cases (p x)) [
    | inl y ↦ let q : x ≡ a = ground arith in subst P q h.0
    | inr n ↦ let q : find p xs ≡ some a = ground arith in All-find P p xs a h.1 q
  ]

  abbrev pub map_option {κ} : {B : Type κ} → (A → B) → Option A → Option B
  map_option f none = none
  map_option f (some a) = some (f a)

  -- An update that keeps its own condition is found by it.
  pub find-update :
      (p : A → Bool) (f : A → A)
      → ((x : A) → p (f x) ≡ p x)
      → (xs : List A) → find p (update p f xs) ≡ map_option f (find p xs)
  find-update p f keep [] = refl
  find-update p f keep (x ∷ xs) = elim (Bool-cases (p x)) [
    | inl e ↦ rw (e, keep x, e)
    | inr e ↦ rw (e, e) (find-update p f keep xs)
  ]

  -- An update by another condition, which does not move what the query looks at.
  pub find-changed :
      (p q : A → Bool) (f : A → A)
      → ((x : A) → p (f x) ≡ p x)
      → (xs : List A) (a : A) → find p xs ≡ some a
      → find p (update q f xs) ≡ some (if q a then f a else a)
  find-changed p q f keep [] a h = cc
  find-changed p q f keep (x ∷ xs) a h = elim (Bool-cases (p x)) [
    | inl e ↦
        let same : x ≡ a = ground arith in
        subst (λ z. find p (update q f (x ∷ xs)) ≡ some (if q z then f z else z)) same
          (elim (Bool-cases (q x)) [ inl y ↦ rw (y, keep x, e) refl | inr y ↦ rw (y, e) refl ])
    | inr e ↦
        let rest = find-changed p q f keep xs a (rw e at h) in
        elim (Bool-cases (q x)) [ inl y ↦ rw (y, keep x, e) rest | inr y ↦ rw (y, e) rest ]
  ]

  pub find_before :
      (p : A → Bool) (xs ys : List A) (a : A) → find p xs ≡ some a → find p (xs ++ ys) ≡ some a
  find_before p [] ys a h = cc
  find_before p (x ∷ xs) ys a h = elim (Bool-cases (p x)) [
    | inl e ↦ rw e (rw e at h)
    | inr e ↦ rw e (find_before p xs ys a (rw e at h))
  ]

  pub update-update :
      (p : A → Bool) (f g : A → A)
      → ((x : A) → p (f x) ≡ p x)
      → ((x : A) → g (f x) ≡ f x)
      → (xs : List A) → update p g (update p f xs) ≡ update p f xs
  update-update p f g keep same [] = refl
  update-update p f g keep same (x ∷ xs) = elim (Bool-cases (p x)) [
    | inl e ↦ rw (e, keep x, e, same x, update-update p f g keep same xs)
    | inr e ↦ rw (e, e, update-update p f g keep same xs)
  ]

  pub find_append :
      (p : A → Bool) (xs : List A) (x : A)
      → find p xs ≡ none
      → p x ≡ true
      → find p (xs ++ x ∷ []) ≡ some x
  find_append p [] x h e = rw e
  find_append p (y ∷ xs) x h e = ground (arith, find_append p xs x)

  -- The first row that has the condition has it in the updated table too, if the update keeps it.
  pub exists-update :
      (p q : A → Bool) (f : A → A)
      → ((x : A) → p x ≡ true → q (f x) ≡ true)
      → (xs : List A) → (n : ℕ) → count p xs ≡ suc n
      → exists q (update p f xs) ≡ true
  exists-update p q f keep [] n h = absurd (omega arith)
  exists-update p q f keep (x ∷ xs) n h = elim (Bool-cases (p x)) [
    | inl e ↦ rw (e, keep x e)
    | inr e ↦ elim (Bool-cases (q x)) [
      | inl y ↦ rw (e, y)
      | inr y ↦ rw (e, y) (exists-update p q f keep xs n (ground arith))
    ]
  ]

  -- A row that is found among all is found among those selected, if the selection keeps it.
  pub find-select :
      (p q : A → Bool)
      → ((x : A) → p x ≡ true → q x ≡ true)
      → (xs : List A) (a : A) → find p xs ≡ some a
      → find p (select q xs) ≡ some a
  find-select p q keep [] a h = h
  find-select p q keep (x ∷ xs) a h = elim (Bool-cases (p x)) [
    | inl e ↦ let h' = rw e at h in rw (keep x e, e) h'
    | inr e ↦
        let rest = find-select p q keep xs a (rw e at h) in
        elim (Bool-cases (q x)) [ inl y ↦ rw (y, e) rest | inr y ↦ rw y rest ]
  ]

  pub All-selected : (p : A → Bool) (xs : List A) → All (λ x. p x ≡ true) (select p xs)
  All-selected p [] = tt
  All-selected p (x ∷ xs) = elim (Bool-cases (p x)) [
    | inl e ↦ rw e (e, All-selected p xs)
    | inr e ↦ rw e (All-selected p xs)
  ]

  pub find-none : (p : A → Bool) (xs : List A) → exists p xs ≡ false → find p xs ≡ none
  find-none p [] h = refl
  find-none p (x ∷ xs) h = ground (arith, find-none p xs)

  -- `ORDER BY`, by insertion.
  unfoldable pub insert_by : (A → A → Bool) → A → List A → List A
  insert_by earlier a [] = a ∷ []
  insert_by earlier a (x ∷ xs) =
      let rest = insert_by earlier a xs in if earlier x a then x ∷ rest else a ∷ x ∷ xs

  unfoldable pub sort_by : (A → A → Bool) → List A → List A
  unfolding insert_by
  sort_by earlier [] = []
  sort_by earlier (x ∷ xs) = insert_by earlier x (sort_by earlier xs)

  -- `SELECT DISTINCT`, and the keys of a map that a loop has filled
  abbrev pub distinct_by : (A → A → Bool) → List A → List A
  distinct_by same [] = []
  distinct_by same (x ∷ xs) =
      let rest = distinct_by same xs in if exists (same x) rest then rest else x ∷ rest

  abbrev pub collect {κ} : {B : Type κ} → (A → Option B) → List A → List B
  collect f [] = []
  collect f (x ∷ xs) = let rest = collect f xs in elim (f x) [ none ↦ rest | some b ↦ b ∷ rest ]
