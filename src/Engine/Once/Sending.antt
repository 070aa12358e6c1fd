-- ===== src/Engine/Once/Sending.antt =====
-- The three calls that commit something outside, each after the write that records it.
use payd.Prelude.{
  ℕ, ◌+◌, ◌≤◌, true, ◌≡◌, refl, sym, ◌∙◌, subst, List, [], ◌∷◌, ◌++◌, arith, Bool-cases, inl, inr,
  ◌==◌, count, count-append, count-update_add, Result, ok, err, ok-injective, >>=-eq-ok, guard,
  guard-eq-ok, attempt_spent,
}
use payd.Schema.{Time, unix, Database}
use payd.Withdrawals.Transitions.{persist_attempt, is_unattempted, attempted_row}
use payd.Grants.{persist_grant_attempt, is_unattempted_grant, attempted_grant}
use payd.Rental.{mark_purchase_attempt, is_unspent, spent_row}
use payd.Engine.Action.{
  World, Outside, Provider, Effect, ◌>>◌, follow, written, write, call, ask, spend,
}
use payd.Engine.Action.Keeps.{Keeps, IsAboutStore, Keeps-bind, Keeps-ask, Keeps-write, Keeps-call}
use payd.Engine.Broadcast.{send_grant}
use payd.Engine.Rent.{spend_purchase}
use payd.Engine.Resolve.{send_withdrawal}
use payd.Engine.Once.{
  IsOnce, same_effect, tries, is_tried_withdrawal, is_tried_grant, is_tried_purchase,
}
use payd.Engine.Once.Advance.{Advances, withdrawals-Advances, grants-Advances, purchases-Advances}

-- A write that records one attempt more.
pub record Records (e : Effect) (db db' : Database) : Type 0 where
  pub advances : Advances db db'
  pub recorded : tries e db' ≡ tries e db + 1

pub persist-Records :
    (id txid : ℕ) (at : Time) (expiration : ℕ) (db : Database) {db' : Database}
    → persist_attempt id txid at expiration db ≡ ok db'
    → Records (Effect.sent_withdrawal id) db db'
unfolding persist_attempt
persist-Records id txid at expiration db h =
    let p = is_unattempted id in
    let f = attempted_row txid (unix at) expiration in
    let (_, g, h1) = >>=-eq-ok (guard (count p db.withdrawals == 1) attempt_spent) _ h in
    let one = guard-eq-ok _ attempt_spent g in
    subst (Records (Effect.sent_withdrawal id) db) (ok-injective h1) (record {
      advances = withdrawals-Advances p f (λ x. refl) (λ x t. refl) db;
      recorded =
          count-update_add (is_tried_withdrawal id) p f (λ x y. ground arith) (λ x y. ground arith)
            db.withdrawals
          ∙ ground arith;
    })

pub persist_grant-Records :
    (id txid : ℕ) (at : Time) (expiration : ℕ) (db : Database) {db' : Database}
    → persist_grant_attempt id txid at expiration db ≡ ok db'
    → Records (Effect.sent_grant id) db db'
unfolding persist_grant_attempt
persist_grant-Records id txid at expiration db h =
    let p = is_unattempted_grant id in
    let f = attempted_grant txid (unix at) expiration in
    let (_, g, h1) = >>=-eq-ok (guard (count p db.grants == 1) attempt_spent) _ h in
    let one = guard-eq-ok _ attempt_spent g in
    subst (Records (Effect.sent_grant id) db) (ok-injective h1) (record {
      advances = grants-Advances p f (λ x. refl) (λ x t. refl) db;
      recorded =
          count-update_add (is_tried_grant id) p f (λ x y. ground arith) (λ x y. ground arith)
            db.grants
          ∙ ground arith;
    })

pub mark_purchase-Records :
    (id external : ℕ) (db : Database) {db' : Database}
    → mark_purchase_attempt id external db ≡ ok db'
    → Records (Effect.purchased id) db db'
unfolding mark_purchase_attempt
mark_purchase-Records id external db h =
    let p = is_unspent id in
    let f = spent_row external in
    let (_, g, h1) = >>=-eq-ok (guard (count p db.purchases == 1) attempt_spent) _ h in
    let one = guard-eq-ok _ attempt_spent g in
    subst (Records (Effect.purchased id) db) (ok-injective h1) (record {
      advances = purchases-Advances p f (λ x. refl) (λ x t. refl) db;
      recorded =
          count-update_add (is_tried_purchase id) p f (λ x y. ground arith) (λ x y. ground arith)
            db.purchases
          ∙ ground arith;
    })

same_effect-eq : (e e' : Effect) → same_effect e e' ≡ true → e ≡ e'
same_effect-eq (Effect.sent_withdrawal a) (Effect.sent_withdrawal b) h = ground arith
same_effect-eq (Effect.sent_grant a) (Effect.sent_grant b) h = ground arith
same_effect-eq (Effect.purchased a) (Effect.purchased b) h = ground arith
same_effect-eq (Effect.sent_withdrawal a) (Effect.sent_grant b) h = cc
same_effect-eq (Effect.sent_withdrawal a) (Effect.purchased b) h = cc
same_effect-eq (Effect.sent_grant a) (Effect.sent_withdrawal b) h = cc
same_effect-eq (Effect.sent_grant a) (Effect.purchased b) h = cc
same_effect-eq (Effect.purchased a) (Effect.sent_withdrawal b) h = cc
same_effect-eq (Effect.purchased a) (Effect.sent_grant b) h = cc

covered_after :
    (e e' : Effect) (effects : List Effect) (db db' : Database)
    → Records e db db'
    → count (same_effect e') effects ≤ tries e' db
    → count (same_effect e') (effects ++ e ∷ []) ≤ tries e' db'
covered_after e e' effects db db' r h = elim (Bool-cases (same_effect e' e)) [
  | inl y ↦
      let same = same_effect-eq e' e y in
      let recorded = subst (λ x. tries x db' ≡ tries x db + 1) (sym same) r.recorded in
      rw count-append (rw y (omega (arith, recorded)))
  | inr y ↦ rw count-append (rw y (omega (arith, r.advances.tried e')))
]

-- The write, and then the call that it stands for.
module _ (e : Effect) (f : Database → Result Database)
    (records : (db db' : Database) → f db ≡ ok db' → Records e db db') where
  after_write :
      {A : Type 0} (answer : ℕ → A) (w : World) (r : Result Database)
      → f w.store ≡ r
      → IsOnce w
      → IsOnce (follow (written w r) (λ u. spend e answer)).1
  unfolding spend
  after_write answer w (err x) run h = h
  after_write answer w (ok db) run h =
      let r = records w.store db run in
      record {
        keyed = r.advances.keyed h.keyed;
        covered = λ e'. covered_after e e' w.effects w.store db r (h.covered e');
      }

  pub recorded-Keeps : {A : Type 0} (answer : ℕ → A) → Keeps IsOnce (write f >> spend e answer)
  unfolding write
  recorded-Keeps answer = record { at = λ w h. after_write answer w (f w.store) refl h }

pub IsOnce-about : IsAboutStore IsOnce
IsOnce-about = record {
  calls_free = λ w n h. record { keyed = h.keyed; covered = h.covered };
  fields_free = λ w f h. record { keyed = h.keyed; covered = h.covered };
}

pub send_withdrawal-Keeps :
    (out : Outside) (id txid : ℕ) (now : Time) (expiration : ℕ)
    → Keeps IsOnce (send_withdrawal out id txid now expiration)
unfolding send_withdrawal
send_withdrawal-Keeps out id txid now expiration =
    recorded-Keeps (Effect.sent_withdrawal id) (persist_attempt id txid now expiration)
      (λ db db' h. persist-Records id txid now expiration db h) (λ n. out.send n txid)

pub send_grant-Keeps :
    (out : Outside) (id txid expiration : ℕ) → Keeps IsOnce (send_grant out id txid expiration)
unfolding send_grant
send_grant-Keeps out id txid expiration =
    Keeps-bind (ask out.clock) _ (Keeps-ask IsOnce-about out.clock) (λ now.
      recorded-Keeps (Effect.sent_grant id) (persist_grant_attempt id txid now expiration)
        (λ db db' h. persist_grant-Records id txid now expiration db h) (λ n. out.send n txid))

pub spend_purchase-Keeps :
    (provider : Provider) (id : ℕ) → Keeps IsOnce (spend_purchase provider id)
unfolding spend_purchase
spend_purchase-Keeps provider id =
    recorded-Keeps (Effect.purchased id) (mark_purchase_attempt id id)
      (λ db db' h. mark_purchase-Records id id db h) (λ n. provider.purchase n id)

-- Writes that advance.
pub IsOnce-advance :
    (w : World) (db : Database) → Advances w.store db → IsOnce w → IsOnce (record w { store = db })
IsOnce-advance w db a h = record {
  keyed = a.keyed h.keyed;
  covered = λ e. omega (arith, h.covered e, a.tried e);
}

pub write-Keeps :
    (f : Database → Result Database)
    → ((db db' : Database) → f db ≡ ok db' → Advances db db')
    → Keeps IsOnce (write f)
write-Keeps f k = Keeps-write f (λ w db e h. IsOnce-advance w db (k w.store db e) h)

pub put-Keeps :
    (f : Database → Database)
    → ((db : Database) → Advances db (f db))
    → Keeps IsOnce (write (λ db. ok (f db)))
put-Keeps f k = write-Keeps _ (λ db db' e. subst (Advances db) (ok-injective e) (k db))

pub call-Keeps :
    {A : Type 0} (f : Database → Result (A × Database))
    → ((db : Database) (x : A × Database) → f db ≡ ok x → Advances db x.1)
    → Keeps IsOnce (call f)
call-Keeps f k = Keeps-call f (λ w x e h. IsOnce-advance w x.1 (k w.store x e) h)

pub return-Keeps :
    {A : Type 0} (f : Database → A × Database)
    → ((db : Database) → Advances db (f db).1)
    → Keeps IsOnce (call (λ db. ok (f db)))
return-Keeps f k = call-Keeps _ (λ db x e. subst (λ x. Advances db x.1) (ok-injective e) (k db))
