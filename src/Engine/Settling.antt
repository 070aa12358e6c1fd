-- ===== src/Engine/Settling.antt =====
-- Which methods of the store bring a withdrawal to a final status (internal/store/withdrawals.go).
pub mod Chain
pub mod Expiry
use payd.Prelude.{
  ℕ, ◌+◌, ◌≤◌, ◌<◌, Bool, true, false, not, ◌&&◌, ◌||◌, ◌≡◌, refl, sym, ap, ◌∙◌, subst, ◌⊎◌, inl,
  inr, Option, none, some, arith, Bool-cases, ◌==◌, ltb, if◌then◌else◌, is_some, find, update,
  count, coalesce, holds, count-update_le, count-update_add, Result, ok, err, ok-injective,
  >>=-eq-ok, or_error, no_rows,
}
use payd.Decimal.{Text, set_string}
use payd.Schema.{Time, unix, Database, Withdrawal, WithdrawalStatus, Resolver, Action, EventConfig}
use payd.Withdrawals.Transitions.{
  withdrawal_needs_operator, record_lookup, fail_absent, where_changed, may_need_operator,
  operator_row, answered_row, unanswered_row, gives_up, failed_row, is_sent_open, fail_where,
  is_confirmed,
}
use payd.Withdrawals.Outcome.{
  confirm_withdrawal, energy_cost_of, burned, is_sent_unconfirmed, confirmed_row, charge_fee,
  no_text,
}
use payd.Engine.Node.{Lookup, Receipt, ReceiptLookup}
use payd.Engine.Action.{World, Outside, EngineConfig, ◌>>=◌, ◌>>◌, pure, ask, write}
use payd.Engine.Action.Keeps.{
  Keeps, IsAboutStore, Keeps-pure, Keeps-raise, Keeps-bind, Keeps-if, Keeps-ask, Keeps-write,
}
use payd.Engine.Broadcast.{absent_after_expiration}
use payd.Engine.Resolve.{
  resolve, settle, settle_receipt, settle_solid, settle_absent, settle_unreachable, has_expired,
}
use payd.Engine.Once.Advance.{Calm, Calm-trans}
use payd.Engine.Once.Withdrawing.{announced-Calm, charge_fee-Calm}

abbrev pub has_failed : WithdrawalStatus → Bool
has_failed WithdrawalStatus.failed = true
has_failed _ = false

abbrev pub has_become : (WithdrawalStatus → Bool) → (id : ℕ) → Withdrawal → Bool
has_become q id w = w.id == id && q w.status

-- How many withdrawals with the identifier have such a status.
abbrev pub tally : (WithdrawalStatus → Bool) → (id : ℕ) → World → ℕ
tally q id w = count (has_become q id) w.store.withdrawals

-- No withdrawal comes to such a status.
abbrev Rests : (WithdrawalStatus → Bool) → Database → Database → Type 0
Rests q db db' =
    (id : ℕ) → count (has_become q id) db'.withdrawals ≤ count (has_become q id) db.withdrawals

abbrev pub AtMost : (WithdrawalStatus → Bool) → (id bound : ℕ) → World → Type 0
AtMost q id bound w = tally q id w ≤ bound

module _ (q : WithdrawalStatus → Bool) where
  pub about : (id bound : ℕ) → IsAboutStore (AtMost q id bound)
  about id bound = record { calls_free = λ w n h. h; fields_free = λ w f h. h }

  pub write-Rests :
      (f : Database → Result Database)
      → ((db db' : Database) → f db ≡ ok db' → Rests q db db')
      → (id bound : ℕ) → Keeps (AtMost q id bound) (write f)
  write-Rests f k id bound = Keeps-write f (λ w db e h. omega (arith, h, k w.store db e id))

  Calm-Rests : (db db' : Database) → Calm db db' → Rests q db db'
  Calm-Rests db db' c id = omega (arith, ap (count (has_become q id)) c.0)

  -- An update after which no row has such a status that had another.
  module _ (p : Withdrawal → Bool) (f : Withdrawal → Withdrawal)
      (ids : (x : Withdrawal) → (f x).id ≡ x.id)
      (rests : (x : Withdrawal) → q (f x).status ≡ true → q x.status ≡ true) where
    update-Rests :
        (db : Database) → Rests q db (record db { withdrawals = update p f db.withdrawals })
    update-Rests db id =
        count-update_le (has_become q id) p f
          (λ x h. let i = ids x in let r = rests x in ground (arith, i, rests x)) db.withdrawals

    changed-Rests :
        (b : Bool) (next : Database → Result Database) (db : Database) {db' : Database}
        → ((d d' : Database) → next d ≡ ok d' → Calm d d')
        → where_changed b next (record db { withdrawals = update p f db.withdrawals }) ≡ ok db'
        → Rests q db db'
    unfolding where_changed
    changed-Rests true next db {db'} calm h id =
        let moved = record db { withdrawals = update p f db.withdrawals } in
        omega (arith, update-Rests db id, Calm-Rests moved db' (calm moved db' h) id)
    changed-Rests false next db calm h id =
        subst (λ d. count (has_become q id) d.withdrawals ≤ count (has_become q id) db.withdrawals)
          (ok-injective h) (update-Rests db id)

  module _ (operator : q WithdrawalStatus.needs_operator ≡ false)
      (sent : q WithdrawalStatus.broadcast ≡ false) where
    needs_operator-Rests :
        (id reason : ℕ) (now : Time) (events : EventConfig) (db : Database) {db' : Database}
        → withdrawal_needs_operator id reason now events db ≡ ok db'
        → Rests q db db'
    unfolding withdrawal_needs_operator
    needs_operator-Rests id reason now events db h =
        changed-Rests (may_need_operator id) (operator_row reason (unix now)) (λ x. refl)
          (λ x t. cc) _ _ db
          (λ d d' e.
            subst (Calm d) (ok-injective e)
              (announced-Calm id _ _ Action.withdrawal_needs_operator reason events now d))
          h

    record_lookup-Rests :
        (id : ℕ) (found : Bool) (failure : Option ℕ) (now : Time) (events : EventConfig)
        (db : Database) {db' : Database}
        → record_lookup id found failure now events db ≡ ok db'
        → Rests q db db'
    unfolding record_lookup
    record_lookup-Rests id true none now events db h =
        subst (Rests q db) (ok-injective h)
          (update-Rests (λ w. w.id == id) (answered_row true (unix now)) (λ x. refl) (λ x t. cc) db)
    record_lookup-Rests id false none now events db h =
        subst (Rests q db) (ok-injective h)
          (update-Rests (λ w. w.id == id) (answered_row false (unix now)) (λ x. refl) (λ x t. t) db)
    record_lookup-Rests id found (some message) now events db {db'} h =
        let ws = update (λ w. w.id == id) (unanswered_row message (unix now)) db.withdrawals in
        let next = record db { withdrawals = ws } in
        let moved =
          update-Rests (λ w. w.id == id) (unanswered_row message (unix now)) (λ x. refl) (λ x t. t)
            db in
        let (w, _, h1) = >>=-eq-ok (or_error (find (λ w. w.id == id) ws) no_rows) _ h in
        elim (Bool-cases (gives_up (some w))) [
          | inl y ↦ λ other. omega (
            arith,
            moved other,
            needs_operator-Rests id message now events next {db' = db'} (rw y at h1) other,
          )
          | inr y ↦ subst (Rests q db) (ok-injective (rw y at h1)) moved
        ]

    pub operator-Keeps :
        (cfg : EngineConfig) (now : Time) (id reason other bound : ℕ)
        → Keeps (AtMost q other bound) (write (withdrawal_needs_operator id reason now cfg.events))
    operator-Keeps cfg now id reason =
        write-Rests _ (λ db db' e. needs_operator-Rests id reason now cfg.events db e)

    pub looked-Keeps :
        (cfg : EngineConfig) (now : Time) (id : ℕ) (found : Bool) (failure : Option ℕ)
        (other bound : ℕ)
        → Keeps (AtMost q other bound) (write (record_lookup id found failure now cfg.events))
    looked-Keeps cfg now id found failure =
        write-Rests _ (λ db db' e. record_lookup-Rests id found failure now cfg.events db e)

pub confirm-Rests :
    (id : ℕ) (fee_raw : Text) (energy_used height timestamp : ℕ) (events : EventConfig) (now : Time)
    (db : Database) {db' : Database}
    → confirm_withdrawal id fee_raw energy_used height timestamp events now db ≡ ok db'
    → Rests has_failed db db'
unfolding confirm_withdrawal
confirm-Rests id fee_raw energy_used height timestamp events now db h =
    let (w, _, h1) = >>=-eq-ok (or_error (find (λ w. w.id == id) db.withdrawals) no_rows) _ h in
    let (cost, _, h2) = >>=-eq-ok (energy_cost_of (holds w.energy_source burned) fee_raw) _ h1 in
    changed-Rests has_failed (is_sent_unconfirmed id)
      (confirmed_row fee_raw energy_used cost (unix now)) (λ x. refl) (λ x t. cc) _ _ db
      (λ d d' e.
        let (c, ec, e1) =
          >>=-eq-ok (charge_fee w (set_string fee_raw) height timestamp (unix now) d) _ e in
        Calm-trans d c d' (charge_fee-Calm w (set_string fee_raw) height timestamp (unix now) d ec)
          (subst (Calm c) (ok-injective e1) (
            announced-Calm id _ _ Action.withdrawal_confirmed (coalesce w.txid no_text) events now
              c)))
      h2

pub absent-Rests :
    (id reason : ℕ) (now : Time) (events : EventConfig) (db : Database) {db' : Database}
    → fail_absent id reason now events db ≡ ok db'
    → Rests is_confirmed db db'
unfolding fail_absent
absent-Rests id reason now events db h =
    changed-Rests is_confirmed (is_sent_open id)
      (failed_row Resolver.chain_absence reason (unix now)) (λ x. refl) (λ x t. cc) _ _ db
      (λ d d' e.
        subst (Calm d) (ok-injective e)
          (announced-Calm id _ _ Action.withdrawal_failed reason events now d))
      h
