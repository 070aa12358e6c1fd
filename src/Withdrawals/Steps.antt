-- ===== src/Withdrawals/Steps.antt =====
-- Any sequence of the methods that write to the withdrawals.
use payd.Prelude.{ℕ, Bool, ◌≡◌, refl, Option, ok}
use payd.Decimal.{Text}
use payd.Schema.{Time, Database, Withdrawal, WithdrawalStatus, EventConfig, Price}
use payd.Withdrawals.{CreateWithdrawal, create_withdrawal, claim_withdrawal}
use payd.Withdrawals.Transitions.{
  set_resource_state, persist_attempt, record_broadcast, withdrawal_needs_operator, record_lookup,
  fail_absent, fail_resources, is_sent_open, is_unsent_awaiting,
}
use payd.Withdrawals.Outcome.{confirm_withdrawal, resolve_withdrawal}
use payd.Rental.{complete_purchase, reconcile_energy}
use payd.Withdrawals.Attempt.{
  KeepsAttempts, KeepsAttempts-refl, KeepsAttempts-trans, update-KeepsAttempts,
  persist-KeepsAttempts, needs_operator-KeepsAttempts, broadcast-KeepsAttempts,
  lookup-KeepsAttempts, fail_where-KeepsAttempts,
}
use payd.Withdrawals.Methods.{
  create-KeepsAttempts, claim-KeepsAttempts, confirm-KeepsAttempts, resolve-KeepsAttempts,
  complete-KeepsAttempts, reconcile-KeepsAttempts,
}

-- One method of the store that writes to the withdrawals.
pub data WithdrawalStep : Database → Database → Type 0 where
  creates :
      (r : CreateWithdrawal) (db : Database) (x : Withdrawal × Bool × Database)
      → create_withdrawal r db ≡ ok x
      → WithdrawalStep db x.2
  claims :
      (id : ℕ) (now : Time) (db : Database) (r : Bool × Database)
      → claim_withdrawal id now db ≡ ok r
      → WithdrawalStep db r.1
  moves :
      (id : ℕ) (from : WithdrawalStatus → Bool) (to : WithdrawalStatus)
      (energy bandwidth : Option ℕ) (now : Time) (db : Database)
      → WithdrawalStep db (set_resource_state id from to energy bandwidth now db).1
  persists :
      (id txid : ℕ) (attempted_at : Time) (expiration_at : ℕ) (db db' : Database)
      → persist_attempt id txid attempted_at expiration_at db ≡ ok db'
      → WithdrawalStep db db'
  broadcasts :
      (id response : ℕ) (now : Time) (db db' : Database)
      → record_broadcast id response now db ≡ ok db'
      → WithdrawalStep db db'
  looks_up :
      (id : ℕ) (found : Bool) (lookup_error : Option ℕ) (now : Time) (events : EventConfig)
      (db db' : Database)
      → record_lookup id found lookup_error now events db ≡ ok db'
      → WithdrawalStep db db'
  gives_over :
      (id reason : ℕ) (now : Time) (events : EventConfig) (db db' : Database)
      → withdrawal_needs_operator id reason now events db ≡ ok db'
      → WithdrawalStep db db'
  fails_absent :
      (id reason : ℕ) (now : Time) (events : EventConfig) (db db' : Database)
      → fail_absent id reason now events db ≡ ok db'
      → WithdrawalStep db db'
  fails_resources :
      (id reason : ℕ) (now : Time) (events : EventConfig) (db db' : Database)
      → fail_resources id reason now events db ≡ ok db'
      → WithdrawalStep db db'
  confirms :
      (id : ℕ) (fee_raw : Text) (energy_used height timestamp : ℕ) (events : EventConfig)
      (now : Time) (db db' : Database)
      → confirm_withdrawal id fee_raw energy_used height timestamp events now db ≡ ok db'
      → WithdrawalStep db db'
  resolves :
      (id : ℕ) (outcome : WithdrawalStatus) (reason actor : ℕ) (now : Time) (db db' : Database)
      → resolve_withdrawal id outcome reason actor now db ≡ ok db'
      → WithdrawalStep db db'
  completes :
      (id : ℕ) (actual : Option Price) (txid : Option ℕ) (now : Time) (db : Database)
      → WithdrawalStep db (complete_purchase id actual txid now db)
  reconciles :
      (id : ℕ) (is_visible : Bool) (now : Time) (db db' : Database)
      → reconcile_energy id is_visible now db ≡ ok db'
      → WithdrawalStep db db'

-- Any number of operations.
pub data WithdrawalSteps : Database → Database → Type 0 where
  done : (db : Database) → WithdrawalSteps db db
  then_step : (a b c : Database) → WithdrawalSteps a b → WithdrawalStep b c → WithdrawalSteps a c

step-KeepsAttempts :
    (a b : Database) → WithdrawalStep a b → KeepsAttempts a.withdrawals b.withdrawals
unfolding fail_absent fail_resources set_resource_state
step-KeepsAttempts a b (creates r db x e) = create-KeepsAttempts r db e
step-KeepsAttempts a b (claims id now db r e) = claim-KeepsAttempts id now db e
step-KeepsAttempts a b (moves id from to energy bandwidth now db) =
    update-KeepsAttempts _ _ (λ x. refl) (λ x t y e. (refl, refl, refl, refl, refl)) db.withdrawals
step-KeepsAttempts a b (persists id txid attempted_at expiration_at db db' e) =
    persist-KeepsAttempts id txid attempted_at expiration_at db e
step-KeepsAttempts a b (broadcasts id response now db db' e) =
    broadcast-KeepsAttempts id response now db e
step-KeepsAttempts a b (looks_up id found lookup_error now events db db' e) =
    lookup-KeepsAttempts id found lookup_error now events db e
step-KeepsAttempts a b (gives_over id reason now events db db' e) =
    needs_operator-KeepsAttempts id reason now events db e
step-KeepsAttempts a b (fails_absent id reason now events db db' e) =
    fail_where-KeepsAttempts (is_sent_open id) _ id reason now events db e
step-KeepsAttempts a b (fails_resources id reason now events db db' e) =
    fail_where-KeepsAttempts (is_unsent_awaiting id) _ id reason now events db e
step-KeepsAttempts a b (confirms id fee_raw energy_used height timestamp events now db db' e) =
    confirm-KeepsAttempts id fee_raw energy_used height timestamp events now db e
step-KeepsAttempts a b (resolves id outcome reason actor now db db' e) =
    resolve-KeepsAttempts id outcome reason actor now db e
step-KeepsAttempts a b (completes id actual txid now db) =
    complete-KeepsAttempts id actual txid now db
step-KeepsAttempts a b (reconciles id is_visible now db db' e) =
    reconcile-KeepsAttempts id is_visible now db e

-- Through any sequence of the store's methods that write to the withdrawals (creation, claim, change
-- of the resource state, the attempt, the node's answers, failure, confirmation, the operator's
-- decision, and the two that write the cost of rented energy), a withdrawal that has a transaction
-- keeps it, with the time of the attempt, the recipient, the asset and the amount.
pub steps-KeepsAttempts :
    (a b : Database) → WithdrawalSteps a b → KeepsAttempts a.withdrawals b.withdrawals
steps-KeepsAttempts a b (done db) = KeepsAttempts-refl db.withdrawals
steps-KeepsAttempts a b (then_step x m y steps last) =
    KeepsAttempts-trans x.withdrawals m.withdrawals y.withdrawals (steps-KeepsAttempts x m steps)
      (step-KeepsAttempts m y last)
