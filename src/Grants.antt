-- ===== src/Grants.antt =====
-- The grants of network resources (internal/store/resources.go).
use payd.Prelude.{
  ℕ, zero, suc, ◌+◌, Bool, false, not, ◌&&◌, ◌||◌, Option, none, some, List, [], ◌∷◌, ◌++◌, ◌==◌,
  ltb, if◌then◌else◌, holds, find, update, count, exists, coalesce, is_none, is_some, ℤ, pos,
  Result, ok, err, no_rows, invalid_amount, attempt_spent, address_not_found, or_error, ◌>>=◌, ◌>>◌,
  guard, select, sort_by,
}
use payd.Decimal.{Text, set_string, decimal}
use payd.Schema.{
  Time, unix, Database, Address, Payment, PaymentStatus, Direction, LogIndex, ResourceGrant,
  ResourceType, type_eq, GrantSource, is_topup, GrantStatus, is_requested_grant, is_attempted_grant,
  is_settled_grant, is_given_up_grant, is_open_grant, is_disabled, Action,
}
use payd.Recalc.{recalculate_balance}
use payd.Payments.{is_payment}
use payd.Withdrawals.{audited}
use payd.Withdrawals.Transitions.{kept_unless}
use payd.Withdrawals.Outcome.{trx, network_fee, no_text}

-- `ResourceWallet`: the disabled address at the index.
abbrev pub is_wallet : (index : ℕ) → Address → Bool
is_wallet index a = a.hd_index == index && is_disabled a.state

abbrev pub resource_wallet : (index : ℕ) → Database → Result Address
resource_wallet index db = or_error (find (is_wallet index) db.addresses) no_rows

abbrev pub is_grant_for : (withdrawal_id : ℕ) → ResourceType → ResourceGrant → Bool
is_grant_for withdrawal_id t g = holds g.withdrawal_id withdrawal_id && type_eq g.resource_type t

-- `ResourceGrantForWithdrawal`
abbrev pub grant_for_withdrawal :
    (withdrawal_id : ℕ) → ResourceType → Database → Option ResourceGrant
grant_for_withdrawal withdrawal_id t db = find (is_grant_for withdrawal_id t) db.grants

abbrev pub is_manual_candidate : ResourceGrant → Bool
is_manual_candidate g = is_none g.withdrawal_id && is_open_grant g.status

abbrev pub is_earlier_grant : ResourceGrant → ResourceGrant → Bool
is_earlier_grant a b =
    ltb a.created_at b.created_at || (a.created_at == b.created_at && ltb a.id b.id)

-- `ManualResourceGrantCandidates`
unfoldable pub manual_grant_candidates : Database → List ResourceGrant
unfolding sort_by
manual_grant_candidates db = sort_by is_earlier_grant (select is_manual_candidate db.grants)

abbrev pub requested_grant :
    (id : ℕ) (withdrawal_id : Option ℕ) (address_id receiver : ℕ)
    → ResourceType
    → GrantSource
    → (amount_sun : Text) → (stamp : ℕ) → ResourceGrant
requested_grant id withdrawal_id address_id receiver t source amount_sun stamp = record {
  id = id;
  withdrawal_id = withdrawal_id;
  address_id = address_id;
  receiver_address = receiver;
  resource_type = t;
  source = source;
  amount_sun = amount_sun;
  txid = none;
  status = GrantStatus.requested;
  broadcast_response = none;
  failure_reason = none;
  fee_raw = none;
  lookup_failures = 0;
  last_lookup_error = none;
  broadcast_attempted_at = none;
  expiration_at = none;
  created_at = stamp;
  confirmed_at = none;
}

-- `CreateManualResourceGrant`; `detail` is the text for the audit.
unfoldable pub create_manual_grant :
    (address : ℕ)
    → ResourceType
    → (amount_sun : Text) → (actor detail : ℕ) (now : Time) → Database
    → Result (ResourceGrant × Database)
create_manual_grant address t amount_sun actor detail now db = do
  a ← or_error (find (λ a. a.address == address) db.addresses) address_not_found
  let g =
      requested_grant db.draws none a.id address t GrantSource.self_delegated amount_sun (unix now)
  ok (
    g,
    record db {
      grants = db.grants ++ g ∷ [];
      audit = audited db.audit actor Action.resource_delegate address detail (unix now);
      draws = db.draws + 1;
    },
  )

-- `CreateResourceGrant`: the grant of this type that the withdrawal has, or a new one.
unfoldable pub create_grant :
    (withdrawal_id address_id receiver : ℕ)
    → ResourceType
    → GrantSource
    → (amount_sun : Text) → (now : Time) → Database
    → ResourceGrant × Database
create_grant withdrawal_id address_id receiver t source amount_sun now db =
    elim (grant_for_withdrawal withdrawal_id t db) [
      | some g ↦ (g, db)
      | none ↦
          let g =
            requested_grant db.draws (some withdrawal_id) address_id receiver t source amount_sun
              (unix now) in
          (g, record db { grants = db.grants ++ g ∷ []; draws = db.draws + 1 })
    ]

abbrev pub is_unattempted_grant : (id : ℕ) → ResourceGrant → Bool
is_unattempted_grant id g =
    g.id == id
    && (is_requested_grant g.status && (is_none g.txid && is_none g.broadcast_attempted_at))

abbrev pub attempted_grant : (txid attempted_at expiration_at : ℕ) → ResourceGrant → ResourceGrant
attempted_grant txid attempted_at expiration_at g = record g {
  txid = some txid;
  broadcast_attempted_at = some attempted_at;
  expiration_at = some expiration_at;
  status = GrantStatus.attempted;
}

-- `PersistResourceGrantAttempt`
unfoldable pub persist_grant_attempt :
    (id txid : ℕ) (attempted_at : Time) (expiration_at : ℕ) → Database → Result Database
persist_grant_attempt id txid attempted_at expiration_at db = do
  guard (count (is_unattempted_grant id) db.grants == 1) attempt_spent
  ok (record db {
    grants =
        update (is_unattempted_grant id) (attempted_grant txid (unix attempted_at) expiration_at)
          db.grants;
  })

-- An update of the grants by a condition.
abbrev pub where_grant :
    (ResourceGrant → Bool) → (ResourceGrant → ResourceGrant) → Database → Database
where_grant p f db = record db { grants = update p f db.grants }

-- `RecordResourceGrantBroadcast`
abbrev pub is_in_flight_grant : (id : ℕ) → ResourceGrant → Bool
is_in_flight_grant id g =
    g.id == id
    && (is_some g.txid && (is_some g.broadcast_attempted_at && is_attempted_grant g.status))

abbrev pub broadcast_grant : (response : ℕ) → ResourceGrant → ResourceGrant
broadcast_grant response g = record g {
  status = GrantStatus.broadcast;
  broadcast_response = some response;
}

unfoldable pub record_grant_broadcast : (id response : ℕ) → Database → Database
record_grant_broadcast id response = where_grant (is_in_flight_grant id) (broadcast_grant response)

abbrev pub is_unsettled_grant : (id : ℕ) → ResourceGrant → Bool
is_unsettled_grant id g = g.id == id && not (is_settled_grant g.status)

abbrev pub failed_grant : (response : Option ℕ) → (reason : ℕ) → ResourceGrant → ResourceGrant
failed_grant response reason g = record g {
  status = GrantStatus.failed;
  broadcast_response = kept_unless response g.broadcast_response;
  failure_reason = some reason;
}

-- `FailResourceGrant`
unfoldable pub fail_grant : (id : ℕ) (response : Option ℕ) (reason : ℕ) → Database → Database
fail_grant id response reason = where_grant (is_unsettled_grant id) (failed_grant response reason)

abbrev pub confirmed_grant : (stamp : ℕ) → ResourceGrant → ResourceGrant
confirmed_grant stamp g = record g { status = GrantStatus.confirmed; confirmed_at = some stamp }

-- `ConfirmResourceGrant`
unfoldable pub confirm_grant : (id : ℕ) (now : Time) → Database → Database
confirm_grant id now = where_grant (is_unsettled_grant id) (confirmed_grant (unix now))

-- A payment of the resource wallet that the ledger has from a receipt and not from a block.
abbrev pub receipt_row :
    (id txid : ℕ)
    → LogIndex
    → Address
    → (to_address : ℕ) → (amount : Text) → (height timestamp stamp : ℕ) → Payment
receipt_row id txid index wallet to_address amount height timestamp stamp = record {
  id = id;
  txid = txid;
  log_index = index;
  direction = Direction.outgoing;
  block_height = height;
  block_id = no_text;
  block_timestamp = timestamp;
  from_address = wallet.address;
  to_address = to_address;
  address_id = some wallet.id;
  order_id = none;
  asset = trx;
  amount_raw = amount;
  is_dust = false;
  status = PaymentStatus.confirmed;
  detected_at = stamp;
  confirmed_at = some stamp;
  unattributed_reason = none;
}

-- `INSERT OR IGNORE` of the network fee, where there is one
abbrev pub with_fee : (txid fee : ℕ) → Address → (height timestamp stamp : ℕ) → Database → Database
with_fee txid zero wallet height timestamp stamp db = db
with_fee txid (suc n) wallet height timestamp stamp db =
    if exists (is_payment txid LogIndex.fee) db.payments then db else record db {
      payments =
          db.payments
          ++ receipt_row db.draws txid LogIndex.fee wallet network_fee (decimal (suc n)) height
              timestamp stamp
            ∷ [];
      draws = db.draws + 1;
    }

-- The transfer of a top-up, inserted or else confirmed
abbrev pub with_topup :
    (txid : ℕ) → ResourceGrant → Address → (height timestamp stamp : ℕ) → Database → Database
with_topup txid g wallet height timestamp stamp db =
    if exists (is_payment txid (LogIndex.log 0)) db.payments
    then record db {
      payments =
          update (is_payment txid (LogIndex.log 0))
            (λ p. record p { status = PaymentStatus.confirmed; confirmed_at = some stamp })
            db.payments;
    }
    else record db {
      payments =
          db.payments
          ++ receipt_row db.draws txid (LogIndex.log 0) wallet g.receiver_address g.amount_sun
              height timestamp stamp
            ∷ [];
      draws = db.draws + 1;
    }

abbrev pub receive_topup :
    (txid : ℕ) → ResourceGrant → Address → (height timestamp stamp : ℕ) → Database → Result Database
receive_topup txid g wallet height timestamp stamp db =
    if is_topup g.source
    then (or_error (find (λ a. a.address == g.receiver_address) db.addresses) no_rows
        >>= λ receiver.
            recalculate_balance (with_topup txid g wallet height timestamp stamp db) receiver.id
              trx)
    else ok db

-- What the receipt costs the resource wallet, which is looked up where there is something to pay.
unfoldable pub charge_receipt :
    (txid fee : ℕ) → ResourceGrant → (height timestamp index stamp : ℕ) → Database → Result Database
charge_receipt txid fee g height timestamp index stamp db =
    if ltb 0 fee || is_topup g.source
    then (resource_wallet index db >>= λ wallet.
        receive_topup txid g wallet height timestamp stamp
          (with_fee txid fee wallet height timestamp stamp db)
        >>= λ paid. recalculate_balance paid wallet.id trx)
    else ok db

abbrev pub with_receipt : (fee : Text) → ResourceGrant → ResourceGrant
with_receipt fee g = record g { fee_raw = some (coalesce g.fee_raw fee) }

abbrev pub fee_of : Option ℤ → Result ℕ
fee_of (some (pos n)) = ok n
fee_of _ = err invalid_amount

-- `RecordResourceGrantReceipt`; a grant without a transaction has no text to scan.
unfoldable pub record_grant_receipt :
    (id : ℕ) (fee_raw : Text) (height timestamp index : ℕ) (now : Time) → Database → Result Database
record_grant_receipt id fee_raw height timestamp index now db = do
  fee ← fee_of (set_string fee_raw)
  g ← or_error (find (λ g. g.id == id) db.grants) no_rows
  txid ← or_error g.txid no_rows
  charge_receipt txid fee g height timestamp index (unix now)
      (where_grant (λ g. g.id == id) (with_receipt (decimal fee)) db)

abbrev pub answered_grant : ResourceGrant → ResourceGrant
answered_grant g = record g { lookup_failures = 0; last_lookup_error = none }

abbrev pub unanswered_grant : (message : ℕ) → ResourceGrant → ResourceGrant
unanswered_grant message g = record g {
  lookup_failures = g.lookup_failures + 1;
  last_lookup_error = some message;
}

abbrev pub failures_of : (id : ℕ) → List ResourceGrant → Result ℕ
failures_of id gs = or_error (find (λ g. g.id == id) gs) no_rows >>= λ g. ok g.lookup_failures

-- `RecordResourceGrantLookup`: how many lookups have failed in a row.
unfoldable pub record_grant_lookup :
    (id : ℕ) (lookup_error : Option ℕ) → Database → Result (ℕ × Database)
record_grant_lookup id none db = ok (0, where_grant (λ g. g.id == id) answered_grant db)
record_grant_lookup id (some message) db =
    let next = where_grant (λ g. g.id == id) (unanswered_grant message) db in
    failures_of id next.grants >>= λ n. ok (n, next)

abbrev pub operator_grant : (reason : ℕ) → ResourceGrant → ResourceGrant
operator_grant reason g = record g {
  status = GrantStatus.needs_operator;
  failure_reason = some reason;
}

abbrev pub may_need_operator_grant : (id : ℕ) → ResourceGrant → Bool
may_need_operator_grant id g = g.id == id && not (is_given_up_grant g.status)

-- `ResourceGrantNeedsOperator`
unfoldable pub grant_needs_operator : (id reason : ℕ) → Database → Database
grant_needs_operator id reason = where_grant (may_need_operator_grant id) (operator_grant reason)
