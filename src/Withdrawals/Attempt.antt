-- ===== src/Withdrawals/Attempt.antt =====
-- A withdrawal is sent at most once: no operation replaces a transaction that is recorded.
use payd.Prelude.{
  ℕ, Bool, true, false, ◌≡◌, refl, sym, ap, ◌∙◌, subst, Option, none, some, List, arith, find,
  update, find-changed, count, Result, ok, >>=-eq-ok, ok-injective, or_error, guard, Bool-cases,
  inl, inr, ◌⊎◌, ◌==◌, attempt_spent, no_rows,
}
use payd.Schema.{
  Time, unix, Database, Withdrawal, EventConfig, EventType, Payload, Action, Resolver, SequenceKey,
}
use payd.Chain.Links.{enqueue_global_event-SameBook}
use payd.Withdrawals.Transitions.{
  persist_attempt, is_unattempted, attempted_row, is_attempted_open, broadcast_row,
  may_need_operator, operator_row, answered_row, unanswered_row, failed_row, fail_where,
  record_broadcast, withdrawal_needs_operator, record_lookup, where_changed, announced, gives_up,
}

-- The transaction and what it pays are the same.
abbrev pub SameAttempt : Withdrawal → Withdrawal → Type 0
SameAttempt w w' =
    (w'.txid ≡ w.txid)
    × (w'.broadcast_attempted_at ≡ w.broadcast_attempted_at)
    × (w'.to_address ≡ w.to_address)
    × (w'.asset ≡ w.asset)
    × (w'.amount_raw ≡ w.amount_raw)

-- Every withdrawal with a transaction is still there, with that transaction.
abbrev pub KeepsAttempts : List Withdrawal → List Withdrawal → Type 0
KeepsAttempts ws ws' =
    (id txid : ℕ) (w : Withdrawal)
    → find (λ w. w.id == id) ws ≡ some w
    → w.txid ≡ some txid
    → (w' : Withdrawal) × (find (λ w. w.id == id) ws' ≡ some w') × SameAttempt w w'

-- An update that changes no row with a transaction in what was sent.
pub update-KeepsAttempts :
    (p : Withdrawal → Bool) (f : Withdrawal → Withdrawal)
    → ((x : Withdrawal) → (f x).id ≡ x.id)
    → ((x : Withdrawal) (txid : ℕ) → p x ≡ true → x.txid ≡ some txid → SameAttempt x (f x))
    → (ws : List Withdrawal) → KeepsAttempts ws (update p f ws)
update-KeepsAttempts p f ids quiet ws id txid w h e =
    let at = λ (w : Withdrawal). w.id == id in
    let found = find-changed at p f (λ x. ap (λ n. n == id) (ids x)) ws w h in
    elim (Bool-cases (p w)) [
      | inl y ↦ (f w, rw y at found, quiet w txid y e)
      | inr y ↦ (w, rw y at found, (refl, refl, refl, refl, refl))
    ]

pub KeepsAttempts-refl : (ws : List Withdrawal) → KeepsAttempts ws ws
KeepsAttempts-refl ws id txid w h e = (w, h, (refl, refl, refl, refl, refl))

pub KeepsAttempts-trans :
    (a b c : List Withdrawal) → KeepsAttempts a b → KeepsAttempts b c → KeepsAttempts a c
KeepsAttempts-trans a b c h k id txid w e t =
    let (v, ev, (v1, v2, v3, v4, v5)) = h id txid w e t in
    let (u, eu, (u1, u2, u3, u4, u5)) = k id txid v ev (v1 ∙ t) in
    (u, eu, (u1 ∙ v1, u2 ∙ v2, u3 ∙ v3, u4 ∙ v4, u5 ∙ v5))

where_changed-cases :
    (b : Bool) (next : Database → Result Database) (db : Database) {db' : Database}
    → where_changed b next db ≡ ok db'
    → (next db ≡ ok db') ⊎ (db ≡ db')
unfolding where_changed
where_changed-cases true next db h = inl h
where_changed-cases false next db h = inr (ok-injective h)

pub announced-withdrawals :
    (id : ℕ) (type : EventType) (payload : Payload) (action : Action) (detail : ℕ)
    (events : EventConfig) (now : Time) (db : Database)
    → (announced id type payload action detail events now db).withdrawals ≡ db.withdrawals
announced-withdrawals id type payload action detail events now db =
    (enqueue_global_event-SameBook db events (SequenceKey.withdrawal_key id) type payload now).0.3

-- An update of one row that is announced, or finds none to change.
pub announced-KeepsAttempts :
    (p : Withdrawal → Bool) (f : Withdrawal → Withdrawal)
    → ((x : Withdrawal) → (f x).id ≡ x.id)
    → ((x : Withdrawal) (txid : ℕ) → p x ≡ true → x.txid ≡ some txid → SameAttempt x (f x))
    → (b : Bool) (next : Database → Result Database) (db : Database) {db' : Database}
    → ((d d' : Database) → next d ≡ ok d' → d'.withdrawals ≡ d.withdrawals)
    → where_changed b next (record db { withdrawals = update p f db.withdrawals }) ≡ ok db'
    → KeepsAttempts db.withdrawals db'.withdrawals
announced-KeepsAttempts p f ids quiet b next db {db'} keeps h =
    let moved = record db { withdrawals = update p f db.withdrawals } in
    let kept = update-KeepsAttempts p f ids quiet db.withdrawals in
    elim (where_changed-cases b next moved h) [
      | inl e ↦ subst (KeepsAttempts db.withdrawals) (sym (keeps moved db' e)) kept
      | inr e ↦ subst (KeepsAttempts db.withdrawals) (ap (λ d. d.withdrawals) e) kept
    ]

pub persist-KeepsAttempts :
    (id txid : ℕ) (attempted_at : Time) (expiration_at : ℕ) (db : Database) {db' : Database}
    → persist_attempt id txid attempted_at expiration_at db ≡ ok db'
    → KeepsAttempts db.withdrawals db'.withdrawals
unfolding persist_attempt
persist-KeepsAttempts id txid attempted_at expiration_at db h =
    let (_, _, h1) =
      >>=-eq-ok (guard (count (is_unattempted id) db.withdrawals == 1) attempt_spent) _ h in
    subst (λ d. KeepsAttempts db.withdrawals d.withdrawals) (ok-injective h1)
      (update-KeepsAttempts (is_unattempted id)
        (attempted_row txid (unix attempted_at) expiration_at) (λ x. refl)
        (λ x t y e. absurd (ground arith)) db.withdrawals)

pub needs_operator-KeepsAttempts :
    (id reason : ℕ) (now : Time) (events : EventConfig) (db : Database) {db' : Database}
    → withdrawal_needs_operator id reason now events db ≡ ok db'
    → KeepsAttempts db.withdrawals db'.withdrawals
unfolding withdrawal_needs_operator
needs_operator-KeepsAttempts id reason now events db h =
    announced-KeepsAttempts (may_need_operator id) (operator_row reason (unix now)) (λ x. refl)
      (λ x t y e. (refl, refl, refl, refl, refl)) _ _ db
      (λ d d' e.
        ap (λ x. x.withdrawals) (sym (ok-injective e))
        ∙ announced-withdrawals id _ _ Action.withdrawal_needs_operator reason events now d)
      h

pub broadcast-KeepsAttempts :
    (id response : ℕ) (now : Time) (db : Database) {db' : Database}
    → record_broadcast id response now db ≡ ok db'
    → KeepsAttempts db.withdrawals db'.withdrawals
unfolding record_broadcast
broadcast-KeepsAttempts id response now db h =
    announced-KeepsAttempts (is_attempted_open id) (broadcast_row response (unix now)) (λ x. refl)
      (λ x t y e. (refl, refl, refl, refl, refl)) _ _ db
      (λ d d' e. ap (λ x. x.withdrawals) (sym (ok-injective e))) h

pub lookup-KeepsAttempts :
    (id : ℕ) (found : Bool) (lookup_error : Option ℕ) (now : Time) (events : EventConfig)
    (db : Database) {db' : Database}
    → record_lookup id found lookup_error now events db ≡ ok db'
    → KeepsAttempts db.withdrawals db'.withdrawals
unfolding record_lookup
lookup-KeepsAttempts id found none now events db h =
    subst (λ d. KeepsAttempts db.withdrawals d.withdrawals) (ok-injective h)
      (update-KeepsAttempts (λ w. w.id == id) (answered_row found (unix now)) (λ x. refl)
        (λ x t y e. (refl, refl, refl, refl, refl)) db.withdrawals)
lookup-KeepsAttempts id found (some message) now events db {db'} h =
    let ws = update (λ w. w.id == id) (unanswered_row message (unix now)) db.withdrawals in
    let next = record db { withdrawals = ws } in
    let kept =
      update-KeepsAttempts (λ w. w.id == id) (unanswered_row message (unix now)) (λ x. refl)
        (λ x t y e. (refl, refl, refl, refl, refl)) db.withdrawals in
    let (w, _, h1) = >>=-eq-ok (or_error (find (λ w. w.id == id) ws) no_rows) _ h in
    elim (Bool-cases (gives_up (some w))) [
      | inl y ↦
          KeepsAttempts-trans db.withdrawals ws db'.withdrawals kept
            (needs_operator-KeepsAttempts id message now events next (rw y at h1))
      | inr y ↦
          subst (λ d. KeepsAttempts db.withdrawals d.withdrawals) (ok-injective (rw y at h1)) kept
    ]

pub fail_where-KeepsAttempts :
    (p : Withdrawal → Bool) (resolver : Resolver) (id reason : ℕ) (now : Time)
    (events : EventConfig) (db : Database) {db' : Database}
    → fail_where p resolver id reason now events db ≡ ok db'
    → KeepsAttempts db.withdrawals db'.withdrawals
fail_where-KeepsAttempts p resolver id reason now events db h =
    announced-KeepsAttempts p (failed_row resolver reason (unix now)) (λ x. refl)
      (λ x t y e. (refl, refl, refl, refl, refl)) _ _ db
      (λ d d' e.
        ap (λ x. x.withdrawals) (sym (ok-injective e))
        ∙ announced-withdrawals id _ _ Action.withdrawal_failed reason events now d)
      h
