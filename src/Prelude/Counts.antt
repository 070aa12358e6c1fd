-- ===== src/Prelude/Counts.antt =====
-- How many rows of a table meet a condition, before and after an update.
use Prim.Native.Nat.{◌+◌, ◌≤◌}
use mathlib.Core.Path.{◌≡◌, refl}
use mathlib.Core.Logic.{inl, inr}
use mathlib.Core.Bool.{Bool, true, false}
use mathlib.Core.List.{List, [], ◌∷◌, ◌++◌}
use native.Mathlib.Omega.{arith}
use payd.Prelude.Tests.{Bool-cases}
use payd.Prelude.Tables.{count, update}

module _ {ℓ} {A : Type ℓ} where
  pub count-append : (p : A → Bool) (xs ys : List A) → count p (xs ++ ys) ≡ count p xs + count p ys
  count-append p [] ys = omega arith
  count-append p (x ∷ xs) ys = omega (arith, count-append p xs ys)

  pub count-update :
      (p q : A → Bool) (f : A → A)
      → ((x : A) → p (f x) ≡ p x)
      → (xs : List A) → count p (update q f xs) ≡ count p xs
  count-update p q f same [] = refl
  count-update p q f same (x ∷ xs) = elim (Bool-cases (q x)) [
    | inl e ↦ rw (e, same x, count-update p q f same xs) refl
    | inr e ↦ rw (e, count-update p q f same xs) refl
  ]

  pub count_mono :
      (p q : A → Bool)
      → ((x : A) → p x ≡ true → q x ≡ true)
      → (xs : List A) → count p xs ≤ count q xs
  count_mono p q h [] = omega arith
  count_mono p q h (x ∷ xs) = elim (Bool-cases (p x)) [
    | inl e ↦ rw (e, h x e) (omega (arith, count_mono p q h xs))
    | inr e ↦ rw e (ground (arith, count_mono p q h xs))
  ]

  -- An update that makes the condition false nowhere.
  pub count-update_mono :
      (p q : A → Bool) (f : A → A)
      → ((x : A) → p x ≡ true → p (f x) ≡ true)
      → (xs : List A) → count p xs ≤ count p (update q f xs)
  count-update_mono p q f keep [] = omega arith
  count-update_mono p q f keep (x ∷ xs) = elim (Bool-cases (q x)) [
    | inr e ↦ rw e (omega (arith, count-update_mono p q f keep xs))
    | inl e ↦ elim (Bool-cases (p x)) [
      | inl y ↦ rw (e, y, keep x y) (omega (arith, count-update_mono p q f keep xs))
      | inr y ↦ rw (e, y) (ground (arith, count-update_mono p q f keep xs))
    ]
  ]

  -- An update that makes it true of the rows it changes, where it was false.
  pub count-update_add :
      (p q : A → Bool) (f : A → A)
      → ((x : A) → q x ≡ true → p x ≡ false)
      → ((x : A) → q x ≡ true → p (f x) ≡ true)
      → (xs : List A) → count p (update q f xs) ≡ count p xs + count q xs
  count-update_add p q f was is [] = omega arith
  count-update_add p q f was is (x ∷ xs) = elim (Bool-cases (q x)) [
    | inl e ↦ rw (e, was x e, is x e) (omega (arith, count-update_add p q f was is xs))
    | inr e ↦ rw e (omega (arith, count-update_add p q f was is xs))
  ]

  -- An update that makes the condition true nowhere.
  pub count-update_le :
      (p q : A → Bool) (f : A → A)
      → ((x : A) → p (f x) ≡ true → p x ≡ true)
      → (xs : List A) → count p (update q f xs) ≤ count p xs
  count-update_le p q f was [] = omega arith
  count-update_le p q f was (x ∷ xs) = elim (Bool-cases (q x)) [
    | inr e ↦ rw e (omega (arith, count-update_le p q f was xs))
    | inl e ↦ elim (Bool-cases (p (f x))) [
      | inl y ↦ rw (e, y, was x y) (omega (arith, count-update_le p q f was xs))
      | inr y ↦ rw (e, y) (ground (arith, count-update_le p q f was xs))
    ]
  ]
