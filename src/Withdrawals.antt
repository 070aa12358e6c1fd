-- ===== src/Withdrawals.antt =====
-- Requests for a withdrawal and the claim of one (internal/store/withdrawals.go: CreateWithdrawal,
-- WithdrawalUSDUsed, ClaimWithdrawal, auditWithdrawal; internal/store/store.go:
-- payd_decimal_sum_within).
pub mod Transitions
pub mod Outcome
pub mod Attempt
pub mod Methods
pub mod Steps
pub mod DailyLimit
use payd.Prelude.{
  ℕ, ◌+◌, ◌-◌, ◌*◌, ◌/◌, Bool, true, false, not, ◌&&◌, ◌||◌, Option, none, some, List, [], ◌∷◌,
  ◌++◌, map, leb, ltb, ◌==◌, if◌then◌else◌, find, select, update, count, exists, map_option, ℤ, pos,
  ◌-ℤ◌, ltb_ℤ, leb_ℤ, Result, ok, err, no_rows, invalid_amount, idempotency_reuse,
  source_unavailable, balance_drift, insufficient_funds, daily_limit, or_error, ◌>>=◌, ◌>>◌, guard,
  is_some,
}
use payd.Decimal.{Text, set_string, text_eq}
use payd.Schema.{
  Time, unix, Database, Address, Balance, Rat, Withdrawal, WithdrawalStatus, Audit, Action,
  is_disabled,
}
use payd.Recalc.{is_balance_of}

abbrev pub denominator : Rat → ℕ
denominator r = r.pred_den + 1

abbrev pub zero_rat : Rat
zero_rat = record { num = 0; pred_den = 0 }

-- `big.Rat.Add`, `Cmp` and `Sign`
abbrev pub add_rat : Rat → Rat → Rat
add_rat a b = record {
  num = a.num * denominator b + b.num * denominator a;
  pred_den = denominator a * denominator b - 1;
}

abbrev pub leb_rat : Rat → Rat → Bool
leb_rat a b = leb (a.num * denominator b) (b.num * denominator a)

abbrev pub is_positive_rat : Rat → Bool
is_positive_rat r = ltb 0 r.num

-- `total.Add(total, value)`, text by text
unfoldable pub sum_rats : Rat → List (Option Rat) → Result Rat
sum_rats acc [] = ok acc
sum_rats acc (t ∷ ts) = or_error t invalid_amount >>= λ r. sum_rats (add_rat acc r) ts

-- `payd_decimal_sum_within`
unfoldable pub decimal_sum_within : List (Option Rat) → (request limit : Option Rat) → Result Bool
unfolding sum_rats
decimal_sum_within values request limit = do
  total ← sum_rats zero_rat (values ++ request ∷ [])
  max ← or_error limit invalid_amount
  ok (leb_rat total max)

-- The statuses that count towards the daily limit.
abbrev pub is_counted : WithdrawalStatus → Bool
is_counted WithdrawalStatus.failed = false
is_counted WithdrawalStatus.needs_operator = false
is_counted WithdrawalStatus.rejected = false
is_counted _ = true

-- The statuses of a withdrawal that holds its address.
abbrev pub is_holding : WithdrawalStatus → Bool
is_holding WithdrawalStatus.awaiting_resources = true
is_holding WithdrawalStatus.awaiting_energy = true
is_holding WithdrawalStatus.signing = true
is_holding WithdrawalStatus.broadcast = true
is_holding _ = false

abbrev pub is_requested : WithdrawalStatus → Bool
is_requested WithdrawalStatus.requested = true
is_requested _ = false

-- `now.UTC().Truncate(24*time.Hour).Unix()`
abbrev pub day_start : Time → ℕ
day_start now = unix now / 86_400 * 86_400

abbrev pub counts_today : (now : Time) → Withdrawal → Bool
counts_today now w = leb (day_start now) w.created_at && is_counted w.status

-- `WithdrawalUSDUsed`
unfoldable pub withdrawal_usd_used : (now : Time) → List Withdrawal → Result Rat
unfolding sum_rats
withdrawal_usd_used now ws =
    sum_rats zero_rat (map (λ w. w.amount_usd) (select (counts_today now) ws))

-- `CreateWithdrawal`, the request. The amounts in USD are what `big.Rat.SetString` reads, `none`
-- where it reads nothing or a number below zero; both are refused alike. `detail` is the audit text.
pub record CreateWithdrawal : Type 0 where
  pub idempotency_key : ℕ
  pub from_address : ℕ
  pub to_address : ℕ
  pub asset : ℕ
  pub amount_raw : Text
  pub amount_usd : Option Rat
  pub daily_limit_usd : Option Rat
  pub requested_by : ℕ
  pub ip : ℕ
  pub detail : ℕ
  pub now : Time

abbrev pub is_same_request : CreateWithdrawal → Withdrawal → Bool
is_same_request r w =
    w.from_address == r.from_address
    && (w.to_address == r.to_address && (w.asset == r.asset && text_eq w.amount_raw r.amount_raw))

-- The address and its balance, where both are there.
abbrev pub with_balance : List Balance → (asset : ℕ) → Address → Option (Address × Balance)
with_balance bs asset a = map_option (λ b. (a, b)) (find (is_balance_of a.id asset) bs)

abbrev pub source_of : Option Address → List Balance → (asset : ℕ) → Option (Address × Balance)
source_of none bs asset = none
source_of (some a) bs asset = with_balance bs asset a

-- `!ok || !haveOK || want.Sign() <= 0 || want.Cmp(have) > 0`, negated
abbrev pub covers : (have want : Option ℤ) → Bool
covers (some have) (some want) = ltb_ℤ (pos 0) want && leb_ℤ want have
covers _ _ = false

abbrev pub is_positive_usd : Option Rat → Bool
is_positive_usd none = false
is_positive_usd (some r) = is_positive_rat r

abbrev pub requested_row : (id address_id : ℕ) → CreateWithdrawal → Withdrawal
requested_row id address_id r = record {
  id = id;
  idempotency_key = r.idempotency_key;
  address_id = address_id;
  from_address = r.from_address;
  to_address = r.to_address;
  asset = r.asset;
  amount_raw = r.amount_raw;
  amount_usd = r.amount_usd;
  status = WithdrawalStatus.requested;
  txid = none;
  broadcast_attempted_at = none;
  broadcast_response = none;
  fee_raw = none;
  energy_used = none;
  energy_source = none;
  bandwidth_source = none;
  energy_cost = none;
  failure_reason = none;
  resolved_by = none;
  requested_by = r.requested_by;
  requested_ip = r.ip;
  created_at = unix r.now;
  status_updated_at = unix r.now;
  broadcast_at = none;
  confirmed_at = none;
  expiration_at = none;
  last_lookup_at = none;
  lookup_failures = 0;
  last_lookup_error = none;
}

abbrev pub audited : List Audit → (actor : ℕ) → Action → (subject detail stamp : ℕ) → List Audit
audited log actor action subject detail stamp =
    log
    ++ record {
      actor = actor;
      action = action;
      subject = subject;
      detail = detail;
      created_at = stamp;
    }
      ∷ []

-- The rows that a request adds.
abbrev pub inserted : CreateWithdrawal → (address_id : ℕ) → Database → Withdrawal × Database
inserted r address_id db =
    let w = requested_row db.draws address_id r in
    (
      w,
      record db {
        withdrawals = db.withdrawals ++ w ∷ [];
        audit =
            audited db.audit r.requested_by Action.withdrawal_requested db.draws r.detail
              (unix r.now);
        draws = db.draws + 1;
      },
    )

-- The insertion of a request whose key is new.
unfoldable pub insert_withdrawal : CreateWithdrawal → Database → Result (Withdrawal × Database)
insert_withdrawal r db = do
  (a, b) ←
      or_error
        (source_of (find (λ a. a.address == r.from_address) db.addresses) db.balances r.asset)
        source_unavailable
  guard (not (is_disabled a.state)) source_unavailable
  guard (not b.drift_detected) balance_drift
  guard (covers (set_string b.confirmed_raw) (set_string r.amount_raw)) insufficient_funds
  guard (is_positive_usd r.amount_usd && is_positive_usd r.daily_limit_usd) daily_limit
  within ←
      decimal_sum_within (map (λ w. w.amount_usd) (select (counts_today r.now) db.withdrawals))
        r.amount_usd r.daily_limit_usd
  guard within daily_limit
  ok (inserted r a.id db)

-- `CreateWithdrawal`: the withdrawal, and whether it is new.
abbrev pub replay_or_insert :
    CreateWithdrawal → Option Withdrawal → Database → Result (Withdrawal × Bool × Database)
replay_or_insert r (some w) db = guard (is_same_request r w) idempotency_reuse >> ok (w, false, db)
replay_or_insert r none db = insert_withdrawal r db >>= λ x. ok (x.0, true, x.1)

unfoldable pub create_withdrawal :
    CreateWithdrawal → Database → Result (Withdrawal × Bool × Database)
create_withdrawal r db =
    replay_or_insert r (find (λ w. w.idempotency_key == r.idempotency_key) db.withdrawals) db

-- `auditWithdrawal`: an entry for each row with the identifier, in the name of who requested it.
abbrev pub audit_withdrawal :
    List Withdrawal → (id : ℕ) → Action → (detail stamp : ℕ) → List Audit → List Audit
audit_withdrawal ws id action detail stamp log =
    log
    ++ map
        (λ (w : Withdrawal). record {
          actor = w.requested_by;
          action = action;
          subject = id;
          detail = detail;
          created_at = stamp;
        })
        (select (λ w. w.id == id) ws)

-- What the address still has after the other withdrawals that hold it.
unfoldable pub subtract_held : ℤ → List Withdrawal → Result ℤ
subtract_held have [] = ok have
subtract_held have (w ∷ ws) =
    or_error (set_string w.amount_raw) invalid_amount >>= λ n. subtract_held (have -ℤ n) ws

abbrev pub is_other_holding : Withdrawal → Withdrawal → Bool
is_other_holding w v = v.address_id == w.address_id && (not (v.id == w.id) && is_holding v.status)

-- The texts of the two decisions.
abbrev pub no_balance : ℕ
no_balance = 2

abbrev pub claim_passed : ℕ
claim_passed = 3

abbrev pub rejected_row : (stamp : ℕ) → Withdrawal → Withdrawal
rejected_row stamp w = record w {
  status = WithdrawalStatus.rejected;
  failure_reason = some no_balance;
  status_updated_at = stamp;
}

abbrev pub approved_row : (stamp : ℕ) → Withdrawal → Withdrawal
approved_row stamp w = record w {
  status = WithdrawalStatus.awaiting_resources;
  status_updated_at = stamp;
}

abbrev pub has_status : (id : ℕ) → (WithdrawalStatus → Bool) → Withdrawal → Bool
has_status id p w = w.id == id && p w.status

abbrev pub reject : Withdrawal → (stamp : ℕ) → Database → Database
reject w stamp db =
    let ws = update (has_status w.id is_requested) (rejected_row stamp) db.withdrawals in
    record db {
      withdrawals = ws;
      audit = audit_withdrawal ws w.id Action.withdrawal_rejected no_balance stamp db.audit;
    }

-- The conditional update, which only passes while no other withdrawal holds the address.
abbrev pub approved : Withdrawal → (stamp : ℕ) → Database → Database
approved w stamp db =
    let ws = update (has_status w.id is_requested) (approved_row stamp) db.withdrawals in
    record db {
      withdrawals = ws;
      audit = audit_withdrawal ws w.id Action.withdrawal_approved claim_passed stamp db.audit;
    }

abbrev pub approve : Withdrawal → (stamp : ℕ) → Database → Bool × Database
approve w stamp db =
    if count (has_status w.id is_requested) db.withdrawals == 1
      && not (exists (is_other_holding w) db.withdrawals)
    then (true, approved w stamp db)
    else (false, db)

-- `ClaimWithdrawal`: whether it was claimed. The balance is read as an integer, as it is stored.
unfoldable pub claim_withdrawal : (id : ℕ) (now : Time) → Database → Result (Bool × Database)
unfolding subtract_held
claim_withdrawal id now db = do
  w ← or_error (find (λ w. w.id == id) db.withdrawals) no_rows
  b ←
      or_error
        (find (λ b. is_balance_of w.address_id w.asset b && not b.drift_detected) db.balances)
        no_rows
  have ← or_error (set_string b.confirmed_raw) invalid_amount
  free ←
      subtract_held have (select (λ v. is_other_holding w v && v.asset == w.asset) db.withdrawals)
  if covers (some free) (set_string w.amount_raw)
      then ok (approve w (unix now) db)
      else ok (false, reject w (unix now) db)
