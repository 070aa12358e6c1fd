-- ===== src/Prelude/Results.antt =====
-- Fallible code: the value, or which error the source returns.
use Prim.Native.Nat.{ℕ}
use mathlib.Core.Path.{◌≡◌, refl, ap}
use mathlib.Core.Logic.{◌⊎◌, inl, inr}
use mathlib.Core.Bool.{Bool, true, false}
use mathlib.Core.Option.{Option, none, some}

-- The sentinel errors of the source, and one constructor for each group of anonymous ones.
pub data Error : Type 0 where
  pool_exhausted address_not_found order_not_found : Error
  -- which of asset, expected_raw and consumer differ
  external_ref_conflict : (asset expected consumer : Bool) → Error
  order_requires_force order_terminal order_lifetime invalid_resolution payment_not_found : Error
  withdrawal_not_found idempotency_reuse daily_limit insufficient_funds : Error
  source_unavailable balance_drift withdrawal_state attempt_spent : Error
  no_rows constraint invalid_amount concurrent_change bad_argument : Error
  not_next_height bad_ancestor halted reorg_depth_exceeded bad_block : Error
  -- the text of an error that a node, a provider or a signer returns
  external : (message : ℕ) → Error

pub data Result {ℓ} (A : Type ℓ) : Type ℓ where
  ok : A → Result A
  err : Error → Result A

abbrev pub guard : (holds : Bool) → Error → Result (Unit {0})
guard false reason = err reason
guard true reason = ok tt

-- The next statement runs on the value, unless there was an error.
infixl 5 ◌>>=◌ ◌>>◌
abbrev pub ◌>>=◌ {ℓ κ} :
    {Value : Type ℓ} {Next : Type κ} → Result Value → (Value → Result Next) → Result Next
err reason >>= next = err reason
ok value >>= next = next value

abbrev pub ◌>>◌ {ℓ} : {Next : Type ℓ} → Result (Unit {0}) → Result Next → Result Next
first >> rest = first >>= λ u. rest

-- A query for one row: `sql.ErrNoRows` becomes the error given.
abbrev pub or_error {ℓ} : {A : Type ℓ} → Option A → Error → Result A
or_error none e = err e
or_error (some a) e = ok a

-- A run of two statements that succeeds, taken apart.
pub >>=-eq-ok {ℓ κ} :
    {Value : Type ℓ} {Next : Type κ} (r : Result Value) (next : Value → Result Next) {y : Next}
    → (r >>= next) ≡ ok y
    → (x : Value) × (r ≡ ok x) × (next x ≡ ok y)
>>=-eq-ok (err reason) next h = cc
>>=-eq-ok (ok x) next h = (x, refl, h)

pub Result-cases {ℓ} :
    {A : Type ℓ} (r : Result A) → ((a : A) × (r ≡ ok a)) ⊎ ((e : Error) × (r ≡ err e))
Result-cases (ok a) = inl (a, refl)
Result-cases (err e) = inr (e, refl)

pub or_error-eq-ok {ℓ} :
    {A : Type ℓ} (o : Option A) (e : Error) {a : A} → or_error o e ≡ ok a → o ≡ some a
or_error-eq-ok none e h = cc
or_error-eq-ok (some a) e h = cc

abbrev pub value_or {ℓ} : {A : Type ℓ} → A → Result A → A
value_or d (ok a) = a
value_or d (err e) = d

pub ok-injective {ℓ} : {A : Type ℓ} {a b : A} → ok a ≡ ok b → a ≡ b
ok-injective {a = a} h = ap (value_or a) h

pub some-injective {ℓ} : {A : Type ℓ} {a b : A} → some a ≡ some b → a ≡ b
some-injective {a = a} h = ap (λ o. elim o [ none ↦ a | some b ↦ b ]) h

-- An early return with the error, if there is one.
abbrev pub refuse : Option Error → Result (Unit {0})
refuse none = ok tt
refuse (some e) = err e

pub refuse-eq-ok : (o : Option Error) {u : Unit {0}} → refuse o ≡ ok u → o ≡ none
refuse-eq-ok none h = refl
refuse-eq-ok (some e) h = cc

pub guard-eq-ok : (b : Bool) (e : Error) {u : Unit {0}} → guard b e ≡ ok u → b ≡ true
guard-eq-ok true e h = refl
guard-eq-ok false e h = cc

pub >>=-eq-err {ℓ κ} :
    {A : Type ℓ} {B : Type κ} (m : Result A) (f : A → Result B) {e : Error}
    → m ≡ err e
    → (m >>= f) ≡ err e
>>=-eq-err (ok a) f h = cc
>>=-eq-err (err x) f h = cc
