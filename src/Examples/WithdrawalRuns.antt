-- ===== src/Examples/WithdrawalRuns.antt =====
-- A withdrawal that is requested, and an attempt that is answered later.
use payd.Prelude.{Bool, true, false, ◌≡◌, refl, some, [], ◌∷◌, value_or}
use payd.Decimal.{set_string, digits_value, unsigned_value}
use payd.Schema.{Database, Withdrawal, WithdrawalStatus}
use payd.Withdrawals.{
  create_withdrawal, insert_withdrawal, decimal_sum_within, sum_rats, requested_row,
}
use payd.Withdrawals.Transitions.{record_broadcast, where_changed}
use payd.Withdrawals.DailyLimit.{IsAnswered, create_withdrawal-IsAnswered}
use payd.Withdrawals.Attempt.{KeepsAttempts}
use payd.Withdrawals.Steps.{WithdrawalSteps, broadcasts, done, then_step, steps-KeepsAttempts}
use payd.Examples.Data.{ok_value, is_ok, store, payout, at_second}

abbrev unanswered : Withdrawal × Bool × Database
unanswered = (requested_row 0 2 payout, false, store)

create_runs : is_ok (create_withdrawal payout store) ≡ true
unfolding create_withdrawal insert_withdrawal decimal_sum_within sum_rats set_string digits_value
    unsigned_value
create_runs = refl

create_withdrawal-IsAnswered_example :
    IsAnswered payout store (value_or unanswered (create_withdrawal payout store))
create_withdrawal-IsAnswered_example =
    create_withdrawal-IsAnswered payout store
      (ok_value unanswered (create_withdrawal payout store) create_runs)

abbrev attempted : Withdrawal
attempted = record (requested_row 3 2 payout) {
  status = WithdrawalStatus.signing;
  txid = some 77;
  broadcast_attempted_at = some 100_001;
}

abbrev attempted_store : Database
attempted_store = record store { withdrawals = attempted ∷ [] }

abbrev answered_store : Database
answered_store = value_or store (record_broadcast 3 1 (at_second 100_002) attempted_store)

broadcast_runs : is_ok (record_broadcast 3 1 (at_second 100_002) attempted_store) ≡ true
unfolding record_broadcast where_changed
broadcast_runs = refl

withdrawal_steps : WithdrawalSteps attempted_store answered_store
withdrawal_steps = then_step attempted_store attempted_store answered_store (done attempted_store) (
    broadcasts 3 1 (at_second 100_002) attempted_store answered_store
      (ok_value store (record_broadcast 3 1 (at_second 100_002) attempted_store) broadcast_runs))

steps-KeepsAttempts_example : KeepsAttempts attempted_store.withdrawals answered_store.withdrawals
steps-KeepsAttempts_example = steps-KeepsAttempts attempted_store answered_store withdrawal_steps
