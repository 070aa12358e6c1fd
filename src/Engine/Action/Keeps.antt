-- ===== src/Engine/Action/Keeps.antt =====
-- Relations between the world before and after an action, one rule for each way to build an action.
use payd.Prelude.{
  ℕ, Bool, true, false, ◌≡◌, refl, Option, none, some, Result, ok, err, Error, if◌then◌else◌,
}
use payd.Schema.{Database}
use payd.Engine.Node.{Answer}
use payd.Engine.Action.{
  World, Action, Fields, fields, ◌>>=◌, pure, raise, follow, ask, expect, get, write, written, call,
  returned, set,
}

-- What an action leaves true, whether it ends with a value or with an error.
pub record Keeps (P : World → Type 0) {A : Type 0} (act : Action A) : Type 0 where
  pub at : (w : World) → P w → P (act w).1

-- A property of the world that neither the engine's own fields nor the number of calls matter to.
pub record IsAboutStore (P : World → Type 0) : Type 0 where
  pub calls_free : (w : World) (n : ℕ) → P w → P (record w { calls = n })
  pub fields_free :
      (w : World) (f : Fields)
      → P w
      → P (record w {
        circuit_until = f.circuit_until;
        next_balance_check = f.next_balance_check;
        next_energy_poll = f.next_energy_poll;
        provider_balance = f.provider_balance;
      })

written-keeps :
    (P : World → Type 0) (w : World) (r : Result Database)
    → P w
    → ((db : Database) → r ≡ ok db → P (record w { store = db }))
    → P (written w r).1
written-keeps P w (ok db) h k = k db refl
written-keeps P w (err e) h k = h

returned-keeps :
    {A : Type 0} (P : World → Type 0) (w : World) (r : Result (A × Database))
    → P w
    → ((x : A × Database) → r ≡ ok x → P (record w { store = x.1 }))
    → P (returned w r).1
returned-keeps P w (ok (a, db)) h k = k (a, db) refl
returned-keeps P w (err e) h k = h

module _ {P : World → Type 0} where
  pub Keeps-pure : {A : Type 0} (a : A) → Keeps P (pure a)
  Keeps-pure a = record { at = λ w h. h }

  pub Keeps-raise : {A : Type 0} (e : Error) → Keeps P (raise {A = A} e)
  Keeps-raise e = record { at = λ w h. h }

  pub Keeps-expect : {A : Type 0} (a : Answer A) → Keeps P (expect a)
  Keeps-expect (Answer.answered a) = record { at = λ w h. h }
  Keeps-expect (Answer.refused m) = record { at = λ w h. h }

  pub Keeps-get : {A : Type 0} (f : World → A) → Keeps P (get f)
  unfolding get
  Keeps-get f = record { at = λ w h. h }

  follow-keeps :
      {A B : Type 0} (r : Result A × World) (next : A → Action B)
      → P r.1
      → ((a : A) → Keeps P (next a))
      → P (follow r next).1
  follow-keeps (ok a, w) next h k = (k a).at w h
  follow-keeps (err e, w) next h k = h

  pub Keeps-bind :
      {A B : Type 0} (act : Action A) (next : A → Action B)
      → Keeps P act
      → ((a : A) → Keeps P (next a))
      → Keeps P (act >>= next)
  Keeps-bind act next h k = record { at = λ w p. follow-keeps (act w) next (h.at w p) k }

  pub Keeps-if :
      {A : Type 0} (b : Bool) (act other : Action A)
      → Keeps P act
      → Keeps P other
      → Keeps P (if b then act else other)
  Keeps-if true act other h k = h
  Keeps-if false act other h k = k

  pub Keeps-ask : {A : Type 0} → IsAboutStore P → (f : ℕ → A) → Keeps P (ask f)
  unfolding ask
  Keeps-ask about f = record { at = λ w h. about.calls_free w _ h }

  pub Keeps-set : IsAboutStore P → (f : Fields → Fields) → Keeps P (set f)
  unfolding set
  Keeps-set about f = record { at = λ w h. about.fields_free w (f (fields w)) h }

  pub Keeps-write :
      (f : Database → Result Database)
      → ((w : World) (db : Database) → f w.store ≡ ok db → P w → P (record w { store = db }))
      → Keeps P (write f)
  unfolding write
  Keeps-write f k = record { at = λ w h. written-keeps P w (f w.store) h (λ db e. k w db e h) }

  pub Keeps-call :
      {A : Type 0} (f : Database → Result (A × Database))
      → ((w : World) (x : A × Database) → f w.store ≡ ok x → P w → P (record w { store = x.1 }))
      → Keeps P (call f)
  unfolding call
  Keeps-call f k = record { at = λ w h. returned-keeps P w (f w.store) h (λ x e. k w x e h) }

  Keeps-elim :
      {A B : Type 0} (o : Option A) (less : Action B) (next : A → Action B)
      → Keeps P less
      → ((a : A) → Keeps P (next a))
      → Keeps P (elim o [ none ↦ less | some a ↦ next a ])
  Keeps-elim none less next h k = h
  Keeps-elim (some a) less next h k = k a

  pub Keeps-option :
      {A B : Type 0} (act : Action (Option A)) (less : Action B) (next : A → Action B)
      → Keeps P act
      → Keeps P less
      → ((a : A) → Keeps P (next a))
      → Keeps P (act >>= λ o. elim o [ none ↦ less | some a ↦ next a ])
  Keeps-option act less next h l k = Keeps-bind act _ h (λ o. Keeps-elim o less next l k)
