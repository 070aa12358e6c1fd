-- ===== src/Decimal/Digits.antt =====
-- Reading digits, one after another.
use payd.Prelude.{
  ℕ, zero, suc, ◌+◌, ◌*◌, ◌/◌, ◌%◌, ◌<◌, ◌≤◌, [], ◌∷◌, ◌++◌, some, ◌≡◌, ◌∙◌, ap, refl, arith,
  Bool-cases, inl, inr, ltb, ◌-◌,
}
use payd.Decimal.{Text, digits_value, digits}

-- Reading a text and then one more digit.
digits_value_last :
    (acc : ℕ) (cs : Text) (d v : ℕ)
    → d < 10
    → digits_value acc cs ≡ some v
    → digits_value acc (cs ++ (b'0' + d) ∷ []) ≡ some (v * 10 + d)
unfolding digits_value
digits_value_last acc [] d v h e = ground arith
digits_value_last acc (c ∷ cs) d v h e =
    ground (arith, digits_value_last (acc * 10 + (c - b'0')) cs d v h)

digits_value_one : (n : ℕ) → n < 10 → digits_value 0 ((b'0' + n) ∷ []) ≡ some n
unfolding digits_value
digits_value_one n h = ground arith

-- The digits of `n` spell `n`.
pub digits_value-digits : (f n : ℕ) → n < f → digits_value 0 (digits f n) ≡ some n
unfolding digits
digits_value-digits zero n h = elim h [ ]
digits_value-digits (suc f) n h = elim (Bool-cases (ltb n 10)) [
  | inl small ↦ rw small (digits_value_one n (ground arith))
  | inr big ↦ rw big (
      digits_value_last 0 (digits f (n / 10)) (n % 10) (n / 10) (omega arith)
        (digits_value-digits f (n / 10) (ground arith))
      ∙ ap some (omega arith))
]

-- The digits of a number are a text of digits, and not empty.
pub digits-cons :
    (f n : ℕ) → n < f → (c : ℕ) × (cs : Text) × (digits f n ≡ c ∷ cs) × (b'0' ≤ c) × (c ≤ b'9')
unfolding digits
digits-cons zero n h = elim h [ ]
digits-cons (suc f) n h = elim (Bool-cases (ltb n 10)) [
  | inl small ↦ rw small (b'0' + n, [], refl, omega arith, ground arith)
  | inr big ↦
      let (c, cs, e, lo, hi) = digits-cons f (n / 10) (ground arith) in
      rw (big, e) (c, cs ++ (b'0' + n % 10) ∷ [], refl, lo, hi)
]
