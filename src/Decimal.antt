-- ===== src/Decimal.antt =====
-- Amounts as decimal texts: the standard library's `big.Int.SetString` and `String` in base 10,
-- as the store uses them, and `ParseUnits` and `FormatUnits` of internal/store/outbox.go.
pub mod Digits
pub mod RoundTrip
use payd.Prelude.{
  ℕ, zero, suc, ◌+◌, ◌-◌, ◌*◌, ◌/◌, ◌%◌, List, [], ◌∷◌, ◌++◌, Option, none, some, Bool, true, false,
  ◌&&◌, leb, ltb, ◌==◌, if◌then◌else◌, ℤ, pos, negsuc, neg_part, Result, ok, err, Error,
  invalid_amount, length,
}

-- The bytes of a text.
abbrev pub Text : Type 0
Text = List ℕ

abbrev pub text_eq : Text → Text → Bool
text_eq [] [] = true
text_eq [] (y ∷ ys) = false
text_eq (x ∷ xs) [] = false
text_eq (x ∷ xs) (y ∷ ys) = x == y && text_eq xs ys

abbrev pub is_digit : ℕ → Bool
is_digit c = leb b'0' c && leb c b'9'

-- The number that digits spell behind `acc`.
unfoldable pub digits_value : ℕ → Text → Option ℕ
digits_value acc [] = some acc
digits_value acc (c ∷ cs) = if is_digit c then digits_value (acc * 10 + (c - b'0')) cs else none

-- At least one digit.
unfoldable pub unsigned_value : Text → Option ℕ
unfolding digits_value
unsigned_value [] = none
unsigned_value (c ∷ cs) = digits_value 0 (c ∷ cs)

abbrev pub negate : ℕ → ℤ
negate zero = pos 0
negate (suc n) = negsuc n

abbrev pub signed : (ℕ → ℤ) → Option ℕ → Option ℤ
signed f none = none
signed f (some n) = some (f n)

-- `new(big.Int).SetString(text, 10)`: an optional sign, then digits.
unfoldable pub set_string : Text → Option ℤ
unfolding unsigned_value
set_string [] = none
set_string (c ∷ cs) =
    if c == b'-'
    then signed negate (unsigned_value cs)
    else if c == b'+'
    then signed pos (unsigned_value cs)
    else signed pos (unsigned_value (c ∷ cs))

-- The digits of `n`, where the fuel is above `n`.
unfoldable pub digits : ℕ → ℕ → Text
digits zero n = []
digits (suc f) n =
    let front = digits f (n / 10) in
    if ltb n 10 then (b'0' + n) ∷ [] else front ++ (b'0' + n % 10) ∷ []

unfoldable pub decimal : ℕ → Text
unfolding digits
decimal n = digits (suc n) n

-- `(*big.Int).String()`
unfoldable pub to_string : ℤ → Text
to_string (pos n) = decimal n
to_string (negsuc n) = b'-' ∷ decimal (suc n)

-- `SetString` with the test `Sign() < 0` that the store makes of every amount it reads.
unfoldable pub parse_amount : Text → Result ℕ
parse_amount t = elim (set_string t) [
  | none ↦ err invalid_amount
  | some (pos n) ↦ ok n
  | some (negsuc n) ↦ err invalid_amount
]

-- `strings.Cut(value, ".")`: the text before the first dot and the text after it.
unfoldable pub cut : Text → Text × Text
cut [] = ([], [])
cut (c ∷ cs) = let (before, after) = cut cs in if c == b'.' then ([], cs) else (c ∷ before, after)

unfoldable pub zeros : ℕ → Text
zeros zero = []
zeros (suc n) = b'0' ∷ zeros n

-- `ParseUnits`: base units of a decimal text, exact or an error.
unfoldable pub parse_units : Text → ℕ → Result ℕ
unfolding cut zeros
parse_units value decimals =
    let (whole, fraction) = cut value in
    if ltb 255 decimals
    then err Error.bad_argument
    else if text_eq value []
    then ok 0
    else if ltb decimals (length fraction)
    then err invalid_amount
    else parse_amount (whole ++ (fraction ++ zeros (decimals - length fraction)))

-- What `FormatUnits` hands to the wallet library's formatter: the amount and the decimals.
pub record Units : Type 0 where
  pub amount : ℕ
  pub decimals : ℕ

-- `FormatUnits`: its checks, before the text is made.
unfoldable pub format_units : Text → ℕ → Result Units
format_units raw decimals = elim (parse_amount raw) [
  | ok n ↦
      if ltb 255 decimals
      then err invalid_amount
      else ok (record { amount = n; decimals = decimals })
  | err e ↦ err e
]
