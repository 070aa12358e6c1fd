-- ===== src/Withdrawals/Outcome.antt =====
-- The end of a withdrawal (internal/store/withdrawals.go: ConfirmWithdrawal, ResolveWithdrawal).
use payd.Prelude.{
  ℕ, suc, ◌+◌, Bool, true, false, not, ◌&&◌, Option, none, some, [], ◌∷◌, ◌++◌, ◌==◌, if◌then◌else◌,
  holds, find, update, count, exists, coalesce, is_some, ℤ, pos, Result, ok, err, no_rows,
  withdrawal_state, withdrawal_not_found, or_error, ◌>>=◌, ◌>>◌, guard,
}
use payd.Decimal.{Text, set_string, decimal, format_units}
use payd.Schema.{
  Time, unix, Database, Payment, PaymentStatus, Direction, LogIndex, Withdrawal, WithdrawalStatus,
  Resolver, Action, EventConfig, EventType, Payload, Cost,
}
use payd.Recalc.{recalculate_balance}
use payd.Payments.{is_payment}
use payd.Withdrawals.{has_status, audited}
use payd.Withdrawals.Transitions.{
  is_confirmed, is_final, is_needs_operator, where_changed, announced,
}

-- The texts `burned`, `TRX`, `network_fee` and the empty one.
abbrev pub burned : ℕ
burned = 1

abbrev pub trx : ℕ
trx = 0

abbrev pub network_fee : ℕ
network_fee = 1

abbrev pub no_text : ℕ
no_text = 0

abbrev pub is_sent_unconfirmed : (id : ℕ) → Withdrawal → Bool
is_sent_unconfirmed id w = w.id == id && (is_some w.txid && not (is_confirmed w.status))

abbrev pub confirmed_row :
    (fee_raw : Text) → (energy_used : ℕ) → Option Cost → (stamp : ℕ) → Withdrawal → Withdrawal
confirmed_row fee_raw energy_used cost stamp w = record w {
  status = WithdrawalStatus.confirmed;
  status_updated_at = stamp;
  fee_raw = some fee_raw;
  energy_used = some energy_used;
  confirmed_at = some stamp;
  energy_cost = (if is_some cost then cost else w.energy_cost);
  lookup_failures = 0;
  last_lookup_error = none;
}

-- The cost of burnt energy is the fee, with the 6 decimals of TRX.
abbrev pub energy_cost_of : (is_burned : Bool) → (fee_raw : Text) → Result (Option Cost)
energy_cost_of false fee_raw = ok none
energy_cost_of true fee_raw = format_units fee_raw 6 >>= λ u. ok (some (Cost.burnt u))

-- The synthetic payment row of a network fee; its log index is none that a transfer can have.
abbrev pub fee_row : (id : ℕ) → Withdrawal → (fee height timestamp stamp : ℕ) → Payment
fee_row id w fee height timestamp stamp = record {
  id = id;
  txid = coalesce w.txid no_text;
  log_index = LogIndex.fee;
  direction = Direction.outgoing;
  block_height = height;
  block_id = no_text;
  block_timestamp = timestamp;
  from_address = w.from_address;
  to_address = network_fee;
  address_id = some w.address_id;
  order_id = none;
  asset = trx;
  amount_raw = decimal fee;
  is_dust = false;
  status = PaymentStatus.confirmed;
  detected_at = stamp;
  confirmed_at = some stamp;
  unattributed_reason = none;
}

-- `INSERT OR IGNORE`, and the balance of the address in TRX.
unfoldable pub charge_fee :
    Withdrawal → Option ℤ → (height timestamp stamp : ℕ) → Database → Result Database
charge_fee w (some (pos (suc n))) height timestamp stamp db =
    let row = fee_row db.draws w (suc n) height timestamp stamp in
    recalculate_balance
      (if exists (is_payment row.txid LogIndex.fee) db.payments
        then db
        else record db { payments = db.payments ++ row ∷ []; draws = db.draws + 1 })
      w.address_id trx
charge_fee w _ height timestamp stamp db = ok db

-- `ConfirmWithdrawal`
unfoldable pub confirm_withdrawal :
    (id : ℕ)
    → (fee_raw : Text) → (energy_used height timestamp : ℕ) → EventConfig
    → (now : Time) → Database
    → Result Database
confirm_withdrawal id fee_raw energy_used height timestamp events now db = do
  w ← or_error (find (λ w. w.id == id) db.withdrawals) no_rows
  cost ← energy_cost_of (holds w.energy_source burned) fee_raw
  where_changed (count (is_sent_unconfirmed id) db.withdrawals == 1)
      (λ db'. charge_fee w (set_string fee_raw) height timestamp (unix now) db' >>= λ charged. ok (
        announced id EventType.withdrawal_confirmed
          (Payload.withdrawal_confirmed id w.txid fee_raw energy_used) Action.withdrawal_confirmed
          (coalesce w.txid no_text) events now charged))
      (record db {
        withdrawals =
            update (is_sent_unconfirmed id) (confirmed_row fee_raw energy_used cost (unix now))
              db.withdrawals;
      })

abbrev pub awaits_operator : (id : ℕ) → Withdrawal → Bool
awaits_operator id w = has_status id is_needs_operator w

abbrev pub resolved_row :
    (outcome : WithdrawalStatus) → (reason stamp : ℕ) → Withdrawal → Withdrawal
resolved_row outcome reason stamp w = record w {
  status = outcome;
  failure_reason = some reason;
  resolved_by = some Resolver.operator;
  status_updated_at = stamp;
  confirmed_at = (if is_confirmed outcome then some stamp else w.confirmed_at);
}

-- Why no row was changed.
abbrev pub not_resolvable : Option Withdrawal → Result Database
not_resolvable none = err withdrawal_not_found
not_resolvable (some w) = err withdrawal_state

-- `ResolveWithdrawal`
unfoldable pub resolve_withdrawal :
    (id : ℕ)
    → (outcome : WithdrawalStatus) → (reason actor : ℕ) (now : Time) → Database
    → Result Database
resolve_withdrawal id outcome reason actor now db =
    guard (is_final outcome) withdrawal_state
    >> (if count (awaits_operator id) db.withdrawals == 1
        then ok (record db {
          withdrawals =
              update (awaits_operator id) (resolved_row outcome reason (unix now)) db.withdrawals;
          audit = audited db.audit actor Action.withdrawal_resolved id reason (unix now);
        })
        else not_resolvable (find (λ w. w.id == id) db.withdrawals))
