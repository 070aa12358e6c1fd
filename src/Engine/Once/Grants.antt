-- ===== src/Engine/Once/Grants.antt =====
-- The actions on grants.
use payd.Prelude.{ℕ, true, false, Option, none, some, Result, ok, err, ltb, ℤ}
use payd.Schema.{Time, Address, Withdrawal, ResourceGrant, ResourceType, GrantSource}
use payd.Grants.{
  create_grant, record_grant_broadcast, fail_grant, confirm_grant, record_grant_receipt,
  record_grant_lookup, grant_needs_operator,
}
use payd.Withdrawals.Transitions.{withdrawal_needs_operator, lookup_limit}
use payd.Engine.Node.{
  Answer, Lookup, ReceiptLookup, Response, BroadcastCode, Classification, raw_response,
  ReferenceBlock, ResourceState,
}
use payd.Engine.Action.{Outside, EngineConfig, Unsigned, Proposal, pure, ask, write, call}
use payd.Engine.Action.Keeps.{
  Keeps, Keeps-pure, Keeps-raise, Keeps-expect, Keeps-get, Keeps-bind, Keeps-if, Keeps-ask,
}
use payd.Engine.Broadcast.{
  reference_block, choose_reference, give_up, after_broadcast, unless_absent, broadcast_encoded,
  broadcast_resource_grant,
}
use payd.Engine.Delegate.{
  send_signed, sign_proposal, delegate_amount, delegate_from, start_delegation, over_to_operator,
  grant_lookup_failure, answered, await_visible, settle_receipt, after_receipt, await_expiration,
  after_lookup, reconcile_sent, reconcile_grant, start_or_reconcile, created_grant, delegate_anew,
  delegate_with, ensure_delegation,
}
use payd.Engine.Once.{IsOnce}
use payd.Engine.Once.Sending.{
  IsOnce-about, write-Keeps, put-Keeps, call-Keeps, return-Keeps, send_grant-Keeps,
}
use payd.Decimal.{decimal}
use payd.Engine.Once.Withdrawing.{needs_operator-Advances}
use payd.Engine.Once.Granting.{
  create_grant-Advances, record_grant_broadcast-Advances, fail_grant-Advances,
  confirm_grant-Advances, grant_needs_operator-Advances, record_grant_lookup-Advances,
  record_grant_receipt-Advances,
}

pub ask-Keeps : {A : Type 0} (f : ℕ → A) → Keeps IsOnce (ask f)
ask-Keeps f = Keeps-ask IsOnce-about f

pub ruleset keeps_rules =
    (Keeps-pure, Keeps-raise, Keeps-expect, Keeps-get, Keeps-bind, Keeps-if, ask-Keeps)

pub give_up-Keeps :
    (g : ResourceGrant) (response : Option ℕ) (reason : ℕ)
    → Keeps IsOnce (give_up g response reason)
give_up-Keeps g response reason = search (
  keeps_rules,
  put-Keeps (fail_grant g.id response reason) (fail_grant-Advances g.id response reason),
)

choose_reference-Keeps :
    (out : Outside) (r : Option ReferenceBlock) (c : Option _)
    → Keeps IsOnce (choose_reference out r c)
choose_reference-Keeps out none c = search (keeps_rules)
choose_reference-Keeps out (some r) c = search (keeps_rules)

pub reference_block-Keeps : (out : Outside) → Keeps IsOnce (reference_block out)
unfolding reference_block
reference_block-Keeps out = search (keeps_rules, choose_reference-Keeps)

unless_absent-Keeps :
    (g : ResourceGrant) (r : Response) (code : BroadcastCode) (l : Lookup)
    → Keeps IsOnce (unless_absent g r code l)
unless_absent-Keeps g r code (Lookup.known false) = give_up-Keeps g _ _
unless_absent-Keeps g r code (Lookup.known true) = Keeps-pure true
unless_absent-Keeps g r code (Lookup.unreachable m) = Keeps-pure true
unless_absent-Keeps g r code (Lookup.unreadable m) = Keeps-pure true

after_broadcast-Keeps :
    (out : Outside) (g : ResourceGrant) (txid : ℕ) (r : Response) (c : Classification)
    → Keeps IsOnce (after_broadcast out g txid r c)
after_broadcast-Keeps out g txid r Classification.accepted = Keeps-pure true
after_broadcast-Keeps out g txid r Classification.ambiguous = Keeps-pure true
after_broadcast-Keeps out g txid r (Classification.deterministic code) =
    search (keeps_rules, unless_absent-Keeps)

broadcast_encoded-Keeps :
    (out : Outside) (g : ResourceGrant) (txid expiration : ℕ) (m : Option ℕ)
    → Keeps IsOnce (broadcast_encoded out g txid expiration m)
broadcast_encoded-Keeps out g txid expiration (some m) = give_up-Keeps g none m
broadcast_encoded-Keeps out g txid expiration none = search (
  keeps_rules,
  send_grant-Keeps,
  after_broadcast-Keeps,
  λ (r : Response).
      put-Keeps (record_grant_broadcast g.id (raw_response r))
        (record_grant_broadcast-Advances g.id (raw_response r)),
)

pub broadcast-Keeps :
    (out : Outside) (g : ResourceGrant) (txid expiration : ℕ)
    → Keeps IsOnce (broadcast_resource_grant out g txid expiration)
unfolding broadcast_resource_grant
broadcast-Keeps out g txid expiration = search (keeps_rules, broadcast_encoded-Keeps)

send_signed-Keeps :
    (out : Outside) (cfg : EngineConfig) (g : ResourceGrant) (u : Unsigned) (a : Answer ℕ)
    → Keeps IsOnce (send_signed out cfg g u a)
send_signed-Keeps out cfg g u (Answer.refused m) = give_up-Keeps g _ _
send_signed-Keeps out cfg g u (Answer.answered txid) =
    search (keeps_rules, give_up-Keeps, broadcast-Keeps)

sign_proposal-Keeps :
    (out : Outside) (cfg : EngineConfig) (g : ResourceGrant) (p : Proposal)
    → Keeps IsOnce (sign_proposal out cfg g p)
sign_proposal-Keeps out cfg g (Proposal.not_proposed m) = give_up-Keeps g _ _
sign_proposal-Keeps out cfg g (Proposal.malformed text m) = give_up-Keeps g _ _
sign_proposal-Keeps out cfg g (Proposal.proposed u) = search (keeps_rules, send_signed-Keeps)

delegate_amount-Keeps :
    (out : Outside) (cfg : EngineConfig) (g : ResourceGrant) (owner : ℕ) (amount : Option ℤ)
    → Keeps IsOnce (delegate_amount out cfg g owner amount)
delegate_amount-Keeps out cfg g owner none = give_up-Keeps g _ _
delegate_amount-Keeps out cfg g owner (some amount) =
    search (keeps_rules, give_up-Keeps, sign_proposal-Keeps)

delegate_from-Keeps :
    (out : Outside) (cfg : EngineConfig) (g : ResourceGrant) (r : Result Address)
    → Keeps IsOnce (delegate_from out cfg g r)
delegate_from-Keeps out cfg g (err e) = give_up-Keeps g _ _
delegate_from-Keeps out cfg g (ok wallet) = delegate_amount-Keeps out cfg g wallet.address _

pub start_delegation-Keeps :
    (out : Outside) (cfg : EngineConfig) (g : ResourceGrant)
    → Keeps IsOnce (start_delegation out cfg g)
unfolding start_delegation
start_delegation-Keeps out cfg g = search (keeps_rules, delegate_from-Keeps)

pub needs_operator-Keeps :
    (id reason : ℕ) (now : Time) (cfg : EngineConfig)
    → Keeps IsOnce (write (withdrawal_needs_operator id reason now cfg.events))
needs_operator-Keeps id reason now cfg =
    write-Keeps _ (λ db db' e. needs_operator-Advances id reason now cfg.events db e)

over_to_operator-Keeps :
    (out : Outside) (cfg : EngineConfig) (message : ℕ) (id : Option ℕ)
    → Keeps IsOnce (over_to_operator out cfg message id)
over_to_operator-Keeps out cfg message none = Keeps-pure false
over_to_operator-Keeps out cfg message (some id) = search (keeps_rules, needs_operator-Keeps)

lookup-Keeps : (id : ℕ) (message : Option ℕ) → Keeps IsOnce (call (record_grant_lookup id message))
lookup-Keeps id message = call-Keeps _ (λ db x e. record_grant_lookup-Advances id message db e)

grant_lookup_failure-Keeps :
    (out : Outside) (cfg : EngineConfig) (g : ResourceGrant) (message : ℕ)
    → Keeps IsOnce (grant_lookup_failure out cfg g message)
unfolding grant_lookup_failure
grant_lookup_failure-Keeps out cfg g message =
    Keeps-bind (call (record_grant_lookup g.id (some message))) _ (lookup-Keeps g.id (some message))
      (λ failures. Keeps-if (ltb failures lookup_limit) (pure true) _ (Keeps-pure true) (
        Keeps-bind (write (λ db. ok (grant_needs_operator g.id message db))) _
          (put-Keeps (grant_needs_operator g.id message)
            (grant_needs_operator-Advances g.id message))
          (λ u. over_to_operator-Keeps out cfg message g.withdrawal_id)))

answered-Keeps : (g : ResourceGrant) → Keeps IsOnce (answered g)
answered-Keeps g = search (keeps_rules, lookup-Keeps)

pub confirm_grant-Keeps :
    (id : ℕ) (now : Time) → Keeps IsOnce (write (λ db. ok (confirm_grant id now db)))
confirm_grant-Keeps id now = put-Keeps (confirm_grant id now) (confirm_grant-Advances id now)

await_visible-Keeps :
    (out : Outside) (cfg : EngineConfig) (g : ResourceGrant) (id : Option ℕ)
    → Keeps IsOnce (await_visible out cfg g id)
await_visible-Keeps out cfg g none = search (keeps_rules, confirm_grant-Keeps)
await_visible-Keeps out cfg g (some id) = search (keeps_rules, give_up-Keeps)

settle_receipt-Keeps :
    (out : Outside) (cfg : EngineConfig) (g : ResourceGrant) (r : Option ℕ)
    → Keeps IsOnce (settle_receipt out cfg g r)
settle_receipt-Keeps out cfg g (some r) = give_up-Keeps g _ _
settle_receipt-Keeps out cfg g none = await_visible-Keeps out cfg g g.withdrawal_id

after_receipt-Keeps :
    (out : Outside) (cfg : EngineConfig) (g : ResourceGrant) (r : ReceiptLookup)
    → Keeps IsOnce (after_receipt out cfg g r)
after_receipt-Keeps out cfg g (ReceiptLookup.unreachable m) = grant_lookup_failure-Keeps out cfg g m
after_receipt-Keeps out cfg g (ReceiptLookup.unreadable m) = grant_lookup_failure-Keeps out cfg g m
after_receipt-Keeps out cfg g ReceiptLookup.unsolid = Keeps-pure true
after_receipt-Keeps out cfg g (ReceiptLookup.solid r) = search (
  keeps_rules,
  answered-Keeps,
  settle_receipt-Keeps,
  λ (now : Time).
      write-Keeps
        (record_grant_receipt g.id r.fee_raw r.block_height r.block_timestamp
          cfg.resource_wallet_index now)
        (λ db db' e.
          record_grant_receipt-Advances g.id r.fee_raw r.block_height r.block_timestamp
            cfg.resource_wallet_index now db e),
)

await_expiration-Keeps :
    (out : Outside) (g : ResourceGrant) (e : Option ℕ) → Keeps IsOnce (await_expiration out g e)
await_expiration-Keeps out g none = Keeps-pure true
await_expiration-Keeps out g (some e) = search (keeps_rules, give_up-Keeps)

after_lookup-Keeps :
    (out : Outside) (cfg : EngineConfig) (g : ResourceGrant) (txid : ℕ) (l : Lookup)
    → Keeps IsOnce (after_lookup out cfg g txid l)
after_lookup-Keeps out cfg g txid (Lookup.unreachable m) = grant_lookup_failure-Keeps out cfg g m
after_lookup-Keeps out cfg g txid (Lookup.unreadable m) = grant_lookup_failure-Keeps out cfg g m
after_lookup-Keeps out cfg g txid (Lookup.known true) =
    search (keeps_rules, answered-Keeps, after_receipt-Keeps)
after_lookup-Keeps out cfg g txid (Lookup.known false) =
    search (keeps_rules, answered-Keeps, await_expiration-Keeps)

reconcile_sent-Keeps :
    (out : Outside) (cfg : EngineConfig) (g : ResourceGrant) (txid at : Option ℕ)
    → Keeps IsOnce (reconcile_sent out cfg g txid at)
reconcile_sent-Keeps out cfg g (some txid) (some at) = search (keeps_rules, after_lookup-Keeps)
reconcile_sent-Keeps out cfg g (some txid) none = Keeps-pure false
reconcile_sent-Keeps out cfg g none at = Keeps-pure false

pub reconcile_grant-Keeps :
    (out : Outside) (cfg : EngineConfig) (g : ResourceGrant)
    → Keeps IsOnce (reconcile_grant out cfg g)
unfolding reconcile_grant
reconcile_grant-Keeps out cfg g = search (keeps_rules, reconcile_sent-Keeps)

pub start_or_reconcile-Keeps :
    (out : Outside) (cfg : EngineConfig) (g : ResourceGrant)
    → Keeps IsOnce (start_or_reconcile out cfg g)
start_or_reconcile-Keeps out cfg g =
    search (keeps_rules, reconcile_grant-Keeps, start_delegation-Keeps)

pub created_grant-Keeps :
    (out : Outside) (w : Withdrawal) (t : ResourceType) (source : GrantSource) (amount : ℕ)
    → Keeps IsOnce (created_grant out w t source amount)
created_grant-Keeps out w t source amount = search (
  keeps_rules,
  λ (now : Time).
      return-Keeps (create_grant w.id w.address_id w.from_address t source (decimal amount) now)
        (create_grant-Advances w.id w.address_id w.from_address t source (decimal amount) now),
)

delegate_anew-Keeps :
    (out : Outside) (cfg : EngineConfig) (w : Withdrawal) (t : ResourceType) (r : Result ℕ)
    → Keeps IsOnce (delegate_anew out cfg w t r)
delegate_anew-Keeps out cfg w t (err e) = Keeps-pure false
delegate_anew-Keeps out cfg w t (ok amount) =
    search (keeps_rules, created_grant-Keeps, start_or_reconcile-Keeps)

delegate_with-Keeps :
    (out : Outside) (cfg : EngineConfig) (w : Withdrawal) (t : ResourceType) (missing : ℤ)
    (r : ResourceState) (g : Option ResourceGrant)
    → Keeps IsOnce (delegate_with out cfg w t missing r g)
delegate_with-Keeps out cfg w t missing r (some g) = start_or_reconcile-Keeps out cfg g
delegate_with-Keeps out cfg w t missing r none = delegate_anew-Keeps out cfg w t _

pub ensure_delegation-Keeps :
    (out : Outside) (cfg : EngineConfig) (w : Withdrawal) (t : ResourceType) (missing : ℤ)
    (r : ResourceState)
    → Keeps IsOnce (ensure_delegation out cfg w t missing r)
unfolding ensure_delegation
ensure_delegation-Keeps out cfg w t missing r = search (keeps_rules, delegate_with-Keeps)
