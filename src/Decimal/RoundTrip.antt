-- ===== src/Decimal/RoundTrip.antt =====
-- What `String` prints, `SetString` reads back.
use payd.Prelude.{ℕ, suc, refl, ◌∷◌, ◌≡◌, some, arith, ℤ, pos, negsuc, ok, ap, ◌∙◌}
use payd.Decimal.{
  Text, decimal, set_string, to_string, parse_amount, unsigned_value, signed, negate,
}
use payd.Decimal.Digits.{digits_value-digits, digits-cons}

unsigned_value-decimal : (n : ℕ) → unsigned_value (decimal n) ≡ some n
unfolding decimal unsigned_value
unsigned_value-decimal n =
    let (c, cs, e, lo, hi) = digits-cons (suc n) n (omega arith) in
    rw e (rw e at (digits_value-digits (suc n) n (omega arith)))

-- A print of a number begins with a digit, so it has no sign.
set_string-decimal : (n : ℕ) → set_string (decimal n) ≡ signed pos (unsigned_value (decimal n))
unfolding decimal set_string
set_string-decimal n =
    let (c, cs, e, lo, hi) = digits-cons (suc n) n (omega arith) in rw e (ground arith)

set_string_minus : (t : Text) → set_string (b'-' ∷ t) ≡ signed negate (unsigned_value t)
unfolding set_string
set_string_minus t = refl

pub set_string-decimal_eq : (n : ℕ) → set_string (decimal n) ≡ some (pos n)
set_string-decimal_eq n = set_string-decimal n ∙ ap (signed pos) (unsigned_value-decimal n)

pub set_string-to_string : (i : ℤ) → set_string (to_string i) ≡ some i
unfolding to_string
set_string-to_string (pos n) = set_string-decimal_eq n
set_string-to_string (negsuc n) =
    set_string_minus (decimal (suc n)) ∙ ap (signed negate) (unsigned_value-decimal (suc n))

pub parse_amount-decimal : (n : ℕ) → parse_amount (decimal n) ≡ ok n
unfolding parse_amount
parse_amount-decimal n = rw (set_string-decimal_eq n, parse_amount)
