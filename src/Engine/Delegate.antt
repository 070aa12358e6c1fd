-- ===== src/Engine/Delegate.antt =====
-- The grants of resources to an address that withdraws (internal/withdraw/engine.go: startDelegation,
-- reconcileResourceGrant, resourceGrantLookupFailure, ensureDelegation, ensureTopup).
use payd.Prelude.{
  ℕ, ◌+◌, ◌*◌, ◌/◌, Bool, true, false, ◌&&◌, Option, none, some, leb, ltb, ◌==◌, if◌then◌else◌, ℤ,
  pos, negsuc, leb_ℤ, Result, ok, err,
}
use payd.Decimal.{set_string, decimal, parse_units}
use payd.Schema.{
  Time, second, unix, Address, Withdrawal, ResourceGrant, ResourceType, is_energy, GrantSource,
  is_requested_grant, is_settled_grant,
}
use payd.Orders.{max_int64}
use payd.Grants.{
  resource_wallet, grant_for_withdrawal, create_grant, confirm_grant, record_grant_receipt,
  record_grant_lookup, grant_needs_operator,
}
use payd.Withdrawals.Transitions.{withdrawal_needs_operator, lookup_limit}
use payd.Engine.Node.{
  Answer, ResourceState, ReferenceBlock, Lookup, ReceiptLookup, delegation_amount,
}
use payd.Engine.Action.{
  Action, Outside, EngineConfig, Capacity, Unsigned, Proposal, Transfer, ◌>>=◌, ◌>>◌, pure, ask,
  get, write, call,
}
use payd.Engine.Broadcast.{
  invalid_delegation, insufficient_resource, txid_mismatch, grant_not_visible,
  absent_after_expiration, message_of, reference_block, signing_input, expires_at, give_up,
  broadcast_resource_grant, attempt,
}

-- `IsInt64`
abbrev pub int64_of : Option ℤ → Option ℤ
int64_of none = none
int64_of (some (pos n)) = if leb n max_int64 then some (pos n) else none
int64_of (some (negsuc n)) = if leb n max_int64 then some (negsuc n) else none

abbrev pub allows : Option ℕ → ℤ → Bool
allows none amount = false
allows (some size) amount = leb_ℤ amount (pos size)

abbrev pub expiration_of : EngineConfig → Unsigned → (now : Time) → ℕ
expiration_of cfg u now = if u.expiration == 0 then unix (now + cfg.expiration) else u.expiration

abbrev pub send_signed : Outside → EngineConfig → ResourceGrant → Unsigned → Answer ℕ → Action Bool
send_signed out cfg g u (Answer.refused m) = give_up g (some u.text) m
send_signed out cfg g u (Answer.answered txid) =
    if txid == u.txid
    then (ask out.clock >>= λ now. broadcast_resource_grant out g txid (expiration_of cfg u now))
    else give_up g (some u.text) txid_mismatch

abbrev pub sign_proposal : Outside → EngineConfig → ResourceGrant → Proposal → Action Bool
sign_proposal out cfg g (Proposal.not_proposed m) = give_up g none m
sign_proposal out cfg g (Proposal.malformed text m) = give_up g (some text) m
sign_proposal out cfg g (Proposal.proposed u) =
    ask (λ n. out.sign_unsigned n cfg.resource_wallet_index u) >>= send_signed out cfg g u

abbrev pub propose :
    Outside → EngineConfig → ResourceGrant → (owner : ℕ) → (amount : ℤ) → Capacity → Action Bool
propose out cfg g owner amount capacity =
    if allows capacity.size amount
    then (ask (λ n. out.delegate n owner g.receiver_address g.resource_type amount)
        >>= sign_proposal out cfg g)
    else give_up g capacity.text insufficient_resource

abbrev pub delegate_amount :
    Outside → EngineConfig → ResourceGrant → (owner : ℕ) → Option ℤ → Action Bool
delegate_amount out cfg g owner none = give_up g none invalid_delegation
delegate_amount out cfg g owner (some amount) =
    ask (λ n. out.can_delegate n owner g.resource_type) >>= propose out cfg g owner amount

abbrev pub delegate_from : Outside → EngineConfig → ResourceGrant → Result Address → Action Bool
delegate_from out cfg g (err e) = give_up g none (message_of e)
delegate_from out cfg g (ok wallet) =
    delegate_amount out cfg g wallet.address (int64_of (set_string g.amount_sun))

-- `startDelegation`
unfoldable pub start_delegation : Outside → EngineConfig → ResourceGrant → Action Bool
start_delegation out cfg g =
    get (λ w. resource_wallet cfg.resource_wallet_index w.store) >>= delegate_from out cfg g

abbrev pub over_to_operator : Outside → EngineConfig → (message : ℕ) → Option ℕ → Action Bool
over_to_operator out cfg message none = pure false
over_to_operator out cfg message (some withdrawal_id) = do
  now ← ask out.clock
  write (withdrawal_needs_operator withdrawal_id message now cfg.events)
  pure false

-- `resourceGrantLookupFailure`
unfoldable pub grant_lookup_failure :
    Outside → EngineConfig → ResourceGrant → (message : ℕ) → Action Bool
grant_lookup_failure out cfg g message = do
  failures ← call (record_grant_lookup g.id (some message))
  if ltb failures lookup_limit
      then pure true
      else (write (λ db. ok (grant_needs_operator g.id message db))
          >> over_to_operator out cfg message g.withdrawal_id)

-- `RecordResourceGrantLookup` without an error
abbrev pub answered : ResourceGrant → Action (Unit {0})
answered g = call (record_grant_lookup g.id none) >>= λ n. pure tt

-- How long a grant may take to be seen after its receipt: five minutes, or the poll timeout.
abbrev pub visible_within : EngineConfig → ResourceType → Time
visible_within cfg t =
    if is_energy t && ltb 0 cfg.poll_timeout then cfg.poll_timeout else 300 * second

abbrev pub await_visible : Outside → EngineConfig → ResourceGrant → Option ℕ → Action Bool
await_visible out cfg g none = do
  now ← ask out.clock
  write (λ db. ok (confirm_grant g.id now db))
  pure false
await_visible out cfg g (some withdrawal_id) = do
  now ← ask out.clock
  if leb (g.created_at + visible_within cfg g.resource_type / second) (unix now)
      then give_up g g.broadcast_response grant_not_visible
      else pure true

abbrev pub settle_receipt : Outside → EngineConfig → ResourceGrant → Option ℕ → Action Bool
settle_receipt out cfg g (some result) = give_up g g.broadcast_response result
settle_receipt out cfg g none = await_visible out cfg g g.withdrawal_id

abbrev pub after_receipt : Outside → EngineConfig → ResourceGrant → ReceiptLookup → Action Bool
after_receipt out cfg g (ReceiptLookup.unreachable m) = grant_lookup_failure out cfg g m
after_receipt out cfg g (ReceiptLookup.unreadable m) = grant_lookup_failure out cfg g m
after_receipt out cfg g ReceiptLookup.unsolid = pure true
after_receipt out cfg g (ReceiptLookup.solid r) = do
  now ← ask out.clock
  write (
      record_grant_receipt g.id r.fee_raw r.block_height r.block_timestamp cfg.resource_wallet_index
        now)
  answered g
  settle_receipt out cfg g r.result

-- A transaction that the node does not know: it is waited for until it has expired.
abbrev pub await_expiration : Outside → ResourceGrant → Option ℕ → Action Bool
await_expiration out g none = pure true
await_expiration out g (some expiration) = do
  now ← ask out.clock
  if ltb (unix now) expiration
      then pure true
      else give_up g g.broadcast_response absent_after_expiration

abbrev pub after_lookup : Outside → EngineConfig → ResourceGrant → (txid : ℕ) → Lookup → Action Bool
after_lookup out cfg g txid (Lookup.unreachable m) = grant_lookup_failure out cfg g m
after_lookup out cfg g txid (Lookup.unreadable m) = grant_lookup_failure out cfg g m
after_lookup out cfg g txid (Lookup.known true) =
    answered g >> (ask (λ n. out.transaction_info n txid) >>= after_receipt out cfg g)
after_lookup out cfg g txid (Lookup.known false) =
    answered g >> await_expiration out g g.expiration_at

abbrev pub reconcile_sent :
    Outside → EngineConfig → ResourceGrant → (txid attempted_at : Option ℕ) → Action Bool
reconcile_sent out cfg g (some txid) (some attempted_at) =
    ask (λ n. out.transaction n txid) >>= after_lookup out cfg g txid
reconcile_sent out cfg g _ _ = pure false

-- `reconcileResourceGrant`: whether the grant is still pending.
unfoldable pub reconcile_grant : Outside → EngineConfig → ResourceGrant → Action Bool
reconcile_grant out cfg g =
    if is_settled_grant g.status
    then pure false
    else reconcile_sent out cfg g g.txid g.broadcast_attempted_at

abbrev pub start_or_reconcile : Outside → EngineConfig → ResourceGrant → Action Bool
start_or_reconcile out cfg g =
    if is_requested_grant g.status then start_delegation out cfg g else reconcile_grant out cfg g

-- `CreateResourceGrant` with the time of the call
abbrev pub created_grant :
    Outside → Withdrawal → ResourceType → GrantSource → (amount : ℕ) → Action ResourceGrant
created_grant out w t source amount = do
  now ← ask out.clock
  call (λ db. ok (create_grant w.id w.address_id w.from_address t source (decimal amount) now db))

abbrev pub delegate_anew :
    Outside → EngineConfig → Withdrawal → ResourceType → Result ℕ → Action Bool
delegate_anew out cfg w t (err e) = pure false
delegate_anew out cfg w t (ok amount) =
    created_grant out w t GrantSource.self_delegated amount >>= start_or_reconcile out cfg

abbrev pub delegate_with :
    Outside
    → EngineConfig
    → Withdrawal
    → ResourceType
    → (missing : ℤ) → ResourceState
    → Option ResourceGrant
    → Action Bool
delegate_with out cfg w t missing resources (some g) = start_or_reconcile out cfg g
delegate_with out cfg w t missing resources none =
    delegate_anew out cfg w t (delegation_amount t missing resources)

-- `ensureDelegation`: whether the grant is pending.
unfoldable pub ensure_delegation :
    Outside → EngineConfig → Withdrawal → ResourceType → (missing : ℤ) → ResourceState → Action Bool
ensure_delegation out cfg w t missing resources =
    get (λ x. grant_for_withdrawal w.id t x.store) >>= delegate_with out cfg w t missing resources

abbrev pub send_topup :
    Outside → EngineConfig → ResourceGrant → ReferenceBlock → Answer ℕ → Action Bool
send_topup out cfg g reference (Answer.refused m) = give_up g none m
send_topup out cfg g reference (Answer.answered txid) =
    broadcast_resource_grant out g txid (expires_at cfg reference)

abbrev pub sign_topup :
    Outside → EngineConfig → ResourceGrant → ReferenceBlock → Result Transfer → Action Bool
sign_topup out cfg g reference (err e) = give_up g none (message_of e)
sign_topup out cfg g reference (ok t) =
    ask (λ n. out.sign n cfg.resource_wallet_index t) >>= send_topup out cfg g reference

abbrev pub topup_by :
    Outside → EngineConfig → ResourceGrant → (owner : ℕ) → Result ReferenceBlock → Action Bool
topup_by out cfg g owner (err e) = give_up g none (message_of e)
topup_by out cfg g owner (ok reference) =
    sign_topup out cfg g reference
      (signing_input cfg owner g.receiver_address g.amount_sun none reference)

abbrev pub topup_from : Outside → EngineConfig → ResourceGrant → Result Address → Action Bool
topup_from out cfg g (err e) = give_up g none (message_of e)
topup_from out cfg g (ok wallet) =
    attempt (reference_block out) >>= topup_by out cfg g wallet.address

abbrev pub start_topup : Outside → EngineConfig → ResourceGrant → Action Bool
start_topup out cfg g =
    if is_requested_grant g.status
    then (get (λ w. resource_wallet cfg.resource_wallet_index w.store) >>= topup_from out cfg g)
    else reconcile_grant out cfg g

-- `err != nil || !amount.IsInt64() || amount.Sign() <= 0` is no top-up
abbrev pub topup_anew : Outside → EngineConfig → Withdrawal → Result ℕ → Action Bool
topup_anew out cfg w (err e) = pure false
topup_anew out cfg w (ok amount) =
    if leb amount max_int64 && ltb 0 amount
    then (created_grant out w ResourceType.bandwidth GrantSource.topup amount
        >>= start_topup out cfg)
    else pure false

abbrev pub topup_with : Outside → EngineConfig → Withdrawal → Option ResourceGrant → Action Bool
topup_with out cfg w (some g) = start_topup out cfg g
topup_with out cfg w none = topup_anew out cfg w (parse_units cfg.bandwidth_topup_trx 6)

-- `ensureTopup`
unfoldable pub ensure_topup : Outside → EngineConfig → Withdrawal → Action Bool
ensure_topup out cfg w =
    get (λ x. grant_for_withdrawal w.id ResourceType.bandwidth x.store) >>= topup_with out cfg w
