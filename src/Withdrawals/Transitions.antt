-- ===== src/Withdrawals/Transitions.antt =====
-- The states of a withdrawal after its claim (internal/store/withdrawals.go:
-- SetWithdrawalResourceState, PersistWithdrawalAttempt, RecordWithdrawalBroadcast,
-- RecordWithdrawalLookup, WithdrawalNeedsOperator, setNeedsOperator, FailWithdrawalAbsent,
-- FailWithdrawalResources, ConfirmWithdrawal, ResolveWithdrawal).
use payd.Prelude.{
  ℕ, ◌+◌, Bool, true, false, not, ◌&&◌, ◌||◌, Option, none, some, leb, ◌==◌, if◌then◌else◌, find,
  update, count, coalesce, is_none, is_some, Result, ok, no_rows, attempt_spent, or_error, ◌>>=◌,
  ◌>>◌, guard,
}
use payd.Schema.{
  Time, unix, Database, Withdrawal, WithdrawalStatus, Resolver, Action, EventConfig, EventType,
  SequenceKey, Payload,
}
use payd.Events.{enqueue_global_event}
use payd.Withdrawals.{has_status, audit_withdrawal}

-- confirmed or failed
abbrev pub is_final : WithdrawalStatus → Bool
is_final WithdrawalStatus.confirmed = true
is_final WithdrawalStatus.failed = true
is_final _ = false

abbrev pub is_signing : WithdrawalStatus → Bool
is_signing WithdrawalStatus.signing = true
is_signing _ = false

abbrev pub is_broadcast : WithdrawalStatus → Bool
is_broadcast WithdrawalStatus.broadcast = true
is_broadcast _ = false

abbrev pub is_confirmed : WithdrawalStatus → Bool
is_confirmed WithdrawalStatus.confirmed = true
is_confirmed _ = false

abbrev pub is_needs_operator : WithdrawalStatus → Bool
is_needs_operator WithdrawalStatus.needs_operator = true
is_needs_operator _ = false

abbrev pub is_awaiting : WithdrawalStatus → Bool
is_awaiting WithdrawalStatus.awaiting_resources = true
is_awaiting WithdrawalStatus.awaiting_energy = true
is_awaiting _ = false

-- `COALESCE(NULLIF(?,''),column)`
abbrev pub kept_unless : Option ℕ → Option ℕ → Option ℕ
kept_unless none old = old
kept_unless (some n) old = some n

-- `SetWithdrawalResourceState`: `from` is a test for the status that the update asks for.
unfoldable pub set_resource_state :
    (id : ℕ)
    → (from : WithdrawalStatus → Bool) → (to : WithdrawalStatus) → (energy bandwidth : Option ℕ)
    → (now : Time) → Database
    → Bool × Database
set_resource_state id from to energy bandwidth now db = (
  count (has_status id from) db.withdrawals == 1,
  record db {
    withdrawals =
        update (has_status id from)
          (λ w. record w {
            status = to;
            status_updated_at = unix now;
            energy_source = kept_unless energy w.energy_source;
            bandwidth_source = kept_unless bandwidth w.bandwidth_source;
          })
          db.withdrawals;
  },
)

abbrev pub is_unattempted : (id : ℕ) → Withdrawal → Bool
is_unattempted id w =
    has_status id is_signing w && (is_none w.txid && is_none w.broadcast_attempted_at)

abbrev pub attempted_row : (txid attempted_at expiration_at : ℕ) → Withdrawal → Withdrawal
attempted_row txid attempted_at expiration_at w = record w {
  txid = some txid;
  broadcast_attempted_at = some attempted_at;
  expiration_at = some expiration_at;
}

-- `PersistWithdrawalAttempt`: the only write of the transaction identifier.
unfoldable pub persist_attempt :
    (id txid : ℕ) (attempted_at : Time) (expiration_at : ℕ) → Database → Result Database
persist_attempt id txid attempted_at expiration_at db = do
  guard (count (is_unattempted id) db.withdrawals == 1) attempt_spent
  ok (record db {
    withdrawals =
        update (is_unattempted id) (attempted_row txid (unix attempted_at) expiration_at)
          db.withdrawals;
  })

abbrev pub is_attempted_open : (id : ℕ) → Withdrawal → Bool
is_attempted_open id w =
    w.id == id && (is_some w.txid && (is_some w.broadcast_attempted_at && not (is_final w.status)))

abbrev pub broadcast_row : (response stamp : ℕ) → Withdrawal → Withdrawal
broadcast_row response stamp w = record w {
  status = WithdrawalStatus.broadcast;
  status_updated_at = stamp;
  broadcast_response = some response;
  broadcast_at = some (coalesce w.broadcast_at stamp);
  lookup_failures = 0;
  last_lookup_error = none;
}

-- An update by a condition, and what follows where it has changed exactly one row.
unfoldable pub where_changed : Bool → (Database → Result Database) → Database → Result Database
where_changed true next db = next db
where_changed false next db = ok db

-- `RecordWithdrawalBroadcast`
unfoldable pub record_broadcast : (id response : ℕ) (now : Time) → Database → Result Database
record_broadcast id response now db =
    let ws = update (is_attempted_open id) (broadcast_row response (unix now)) db.withdrawals in
    where_changed (count (is_attempted_open id) db.withdrawals == 1)
      (λ db'. ok (record db' {
        audit = audit_withdrawal ws id Action.withdrawal_broadcast response (unix now) db'.audit;
      }))
      (record db { withdrawals = ws })

abbrev pub may_need_operator : (id : ℕ) → Withdrawal → Bool
may_need_operator id w = w.id == id && not (is_final w.status || is_needs_operator w.status)

abbrev pub operator_row : (reason stamp : ℕ) → Withdrawal → Withdrawal
operator_row reason stamp w = record w {
  status = WithdrawalStatus.needs_operator;
  status_updated_at = stamp;
  failure_reason = some reason;
  last_lookup_error = some (coalesce w.last_lookup_error reason);
}

abbrev pub txid_of : Option Withdrawal → Option ℕ
txid_of none = none
txid_of (some w) = w.txid

abbrev pub announced :
    (id : ℕ)
    → EventType
    → Payload
    → Action
    → (detail : ℕ) → EventConfig
    → (now : Time) → Database
    → Database
announced id type payload action detail events now db =
    let queued = enqueue_global_event db events (SequenceKey.withdrawal_key id) type payload now in
    record queued {
      audit = audit_withdrawal queued.withdrawals id action detail (unix now) queued.audit;
    }

-- `setNeedsOperator` and `WithdrawalNeedsOperator`
unfoldable pub withdrawal_needs_operator :
    (id reason : ℕ) (now : Time) → EventConfig → Database → Result Database
withdrawal_needs_operator id reason now events db =
    where_changed (count (may_need_operator id) db.withdrawals == 1)
      (λ db'. ok (
        announced id EventType.withdrawal_needs_operator
          (Payload.withdrawal_needs_operator id (txid_of (find (λ w. w.id == id) db'.withdrawals))
            reason)
          Action.withdrawal_needs_operator reason events now db'))
      (record db {
        withdrawals = update (may_need_operator id) (operator_row reason (unix now)) db.withdrawals;
      })

-- The row after an answer of the node: whether it knows the transaction.
abbrev pub answered_row : (found : Bool) (stamp : ℕ) → Withdrawal → Withdrawal
answered_row found stamp w = record w {
  status = if found then WithdrawalStatus.broadcast else w.status;
  status_updated_at = if found || is_broadcast w.status then stamp else w.status_updated_at;
  last_lookup_at = some stamp;
  lookup_failures = 0;
  last_lookup_error = none;
}

abbrev pub unanswered_row : (message stamp : ℕ) → Withdrawal → Withdrawal
unanswered_row message stamp w = record w {
  last_lookup_at = some stamp;
  lookup_failures = w.lookup_failures + 1;
  last_lookup_error = some message;
}

-- `failures >= 10`
abbrev pub lookup_limit : ℕ
lookup_limit = 10

abbrev pub gives_up : Option Withdrawal → Bool
gives_up none = false
gives_up (some w) = leb lookup_limit w.lookup_failures

-- `RecordWithdrawalLookup`, with an answer or with the message of an error.
unfoldable pub record_lookup :
    (id : ℕ)
    → (found : Bool) → (lookup_error : Option ℕ) → (now : Time) → EventConfig
    → Database
    → Result Database
record_lookup id found none now events db = ok (record db {
  withdrawals = update (λ w. w.id == id) (answered_row found (unix now)) db.withdrawals;
})
record_lookup id found (some message) now events db =
    let ws = update (λ w. w.id == id) (unanswered_row message (unix now)) db.withdrawals in
    let next = record db { withdrawals = ws } in
    or_error (find (λ w. w.id == id) ws) no_rows >>= λ w.
    if gives_up (some w) then withdrawal_needs_operator id message now events next else ok next

abbrev pub is_sent_open : (id : ℕ) → Withdrawal → Bool
is_sent_open id w = w.id == id && (is_some w.txid && not (is_final w.status))

abbrev pub failed_row : Resolver → (reason stamp : ℕ) → Withdrawal → Withdrawal
failed_row resolver reason stamp w = record w {
  status = WithdrawalStatus.failed;
  status_updated_at = stamp;
  failure_reason = some reason;
  resolved_by = some resolver;
}

abbrev pub fail_where :
    (Withdrawal → Bool)
    → Resolver
    → (id reason : ℕ) (now : Time) → EventConfig
    → Database
    → Result Database
fail_where p resolver id reason now events db =
    where_changed (count p db.withdrawals == 1)
      (λ db'. ok (
        announced id EventType.withdrawal_failed (Payload.withdrawal_failed id reason)
          Action.withdrawal_failed reason events now db'))
      (record db { withdrawals = update p (failed_row resolver reason (unix now)) db.withdrawals })

-- `FailWithdrawalAbsent`: only where a transaction exists.
unfoldable pub fail_absent : (id reason : ℕ) (now : Time) → EventConfig → Database → Result Database
fail_absent id = fail_where (is_sent_open id) Resolver.chain_absence id

abbrev pub is_unsent_awaiting : (id : ℕ) → Withdrawal → Bool
is_unsent_awaiting id w = has_status id is_awaiting w && is_none w.txid

-- `FailWithdrawalResources`: only before a transaction exists.
unfoldable pub fail_resources :
    (id reason : ℕ) (now : Time) → EventConfig → Database → Result Database
fail_resources id = fail_where (is_unsent_awaiting id) Resolver.resource_acquisition id
