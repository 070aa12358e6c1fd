-- ===== src/Engine/Once/Gates.antt =====
-- The actions that settle a transaction, sign it, and pass a withdrawal through the gates.
use payd.Prelude.{ℕ, Bool, true, false, Option, none, some, Result, ok, err, ℤ}
use payd.Schema.{Time, Withdrawal, WithdrawalStatus, ResourceGrant, is_failed_grant, EnergyPurchase}
use payd.Withdrawals.Transitions.{record_broadcast, record_lookup, fail_absent}
use payd.Engine.Node.{
  Answer, Lookup, Receipt, ReceiptLookup, Classification, ReferenceBlock, ResourceState,
}
use payd.Engine.Action.{Action, Outside, EngineConfig, Transfer, Asset, pure, write}
use payd.Engine.Action.Keeps.{
  Keeps, Keeps-pure, Keeps-raise, Keeps-get, Keeps-bind, Keeps-if, Keeps-option,
}
use payd.Engine.Resolve.{
  settle_solid, settle_receipt, settle_absent, settle_unreachable, settle, resolve, after_send,
  operator_for, send_encoded, broadcast_signed, sign_input, sign_and_broadcast, has_expired,
}
use payd.Engine.Broadcast.{absent_after_expiration}
use payd.Engine.Send.{sign_now, acquire_for, acquire_now, unless_polled, acquire_and_send}
use payd.Engine.Supply.{
  Hand, and_then, arrived, look_for_energy, lacks_energy, take_grant, found_energy, judge_energy,
  energy_gate,
}
use payd.Engine.Bandwidth.{
  available_for, can_burn_bandwidth, source_bandwidth, wait_for_bandwidth, lacks_bandwidth,
  burn_bandwidth, found_bandwidth, bandwidth_gate,
}
use payd.Engine.Once.{IsOnce}
use payd.Engine.Once.Sending.{write-Keeps, send_withdrawal-Keeps}
use payd.Engine.Once.Withdrawing.{
  record_broadcast-Advances, record_lookup-Advances, fail_absent-Advances,
  confirm_withdrawal-Advances,
}
use payd.Engine.Once.Grants.{
  keeps_rules, reference_block-Keeps, needs_operator-Keeps, confirm_grant-Keeps,
  reconcile_grant-Keeps, ensure_delegation-Keeps,
}
use payd.Engine.Once.Rent.{energy_poll_due-Keeps, finish_rental-Keeps}
use payd.Engine.Once.Energy.{move_to-Keeps, fail_for-Keeps, source_energy-Keeps}
use payd.Engine.Once.Topups.{ensure_topup-Keeps}

absent-Keeps :
    (id reason : ℕ) (now : Time) (cfg : EngineConfig)
    → Keeps IsOnce (write (fail_absent id reason now cfg.events))
absent-Keeps id reason now cfg =
    write-Keeps _ (λ db db' e. fail_absent-Advances id reason now cfg.events db e)

looked-Keeps :
    (id : ℕ) (found : Bool) (error : Option ℕ) (now : Time) (cfg : EngineConfig)
    → Keeps IsOnce (write (record_lookup id found error now cfg.events))
looked-Keeps id found error now cfg =
    write-Keeps _ (λ db db' e. record_lookup-Advances id found error now cfg.events db e)

broadcast-Keeps :
    (id response : ℕ) (now : Time) → Keeps IsOnce (write (record_broadcast id response now))
broadcast-Keeps id response now =
    write-Keeps _ (λ db db' e. record_broadcast-Advances id response now db e)

settle_solid-Keeps :
    (cfg : EngineConfig) (now : Time) (id : ℕ) (r : Receipt) (result : Option ℕ)
    → Keeps IsOnce (settle_solid cfg now id r result)
settle_solid-Keeps cfg now id r (some result) = needs_operator-Keeps id result now cfg
settle_solid-Keeps cfg now id r none = write-Keeps _ (λ db db' e.
    confirm_withdrawal-Advances id r.fee_raw r.energy_used r.block_height r.block_timestamp
      cfg.events now db e)

settle_receipt-Keeps :
    (cfg : EngineConfig) (now : Time) (id : ℕ) (l : ReceiptLookup)
    → Keeps IsOnce (settle_receipt cfg now id l)
settle_receipt-Keeps cfg now id (ReceiptLookup.unreachable m) = Keeps-pure tt
settle_receipt-Keeps cfg now id (ReceiptLookup.unreadable m) = Keeps-raise _
settle_receipt-Keeps cfg now id ReceiptLookup.unsolid = Keeps-pure tt
settle_receipt-Keeps cfg now id (ReceiptLookup.solid r) = settle_solid-Keeps cfg now id r r.result

settle_absent-Keeps :
    (cfg : EngineConfig) (now : Time) (id : ℕ) (expiration code : Option ℕ)
    → Keeps IsOnce (settle_absent cfg now id expiration code)
settle_absent-Keeps cfg now id expiration (some code) = absent-Keeps id code now cfg
settle_absent-Keeps cfg now id expiration none =
    Keeps-if (has_expired expiration now) _ _ (absent-Keeps id absent_after_expiration now cfg)
      (looked-Keeps id false none now cfg)

settle_unreachable-Keeps :
    (cfg : EngineConfig) (now : Time) (id : ℕ) (code : Option ℕ) (m : ℕ)
    → Keeps IsOnce (settle_unreachable cfg now id code m)
settle_unreachable-Keeps cfg now id (some code) m = needs_operator-Keeps id m now cfg
settle_unreachable-Keeps cfg now id none m = looked-Keeps id false (some m) now cfg

settle-Keeps :
    (out : Outside) (cfg : EngineConfig) (now : Time) (id txid : ℕ) (expiration code : Option ℕ)
    (l : Lookup)
    → Keeps IsOnce (settle out cfg now id txid expiration code l)
settle-Keeps out cfg now id txid expiration code (Lookup.unreachable m) =
    settle_unreachable-Keeps cfg now id code m
settle-Keeps out cfg now id txid expiration code (Lookup.unreadable m) =
    looked-Keeps id false (some m) now cfg
settle-Keeps out cfg now id txid expiration code (Lookup.known false) =
    settle_absent-Keeps cfg now id expiration code
settle-Keeps out cfg now id txid expiration code (Lookup.known true) =
    Keeps-bind (write (record_lookup id true none now cfg.events)) _
      (looked-Keeps id true none now cfg) (λ u. search (keeps_rules, settle_receipt-Keeps))

pub resolve-Keeps :
    (out : Outside) (cfg : EngineConfig) (id txid : ℕ) (expiration code : Option ℕ)
    → Keeps IsOnce (resolve out cfg id txid expiration code)
unfolding resolve
resolve-Keeps out cfg id txid expiration code = search (keeps_rules, settle-Keeps)

after_send-Keeps :
    (out : Outside) (cfg : EngineConfig) (id txid expiration : ℕ) (c : Classification)
    → Keeps IsOnce (after_send out cfg id txid expiration c)
after_send-Keeps out cfg id txid expiration (Classification.deterministic code) =
    resolve-Keeps out cfg id txid _ _
after_send-Keeps out cfg id txid expiration Classification.accepted = Keeps-pure tt
after_send-Keeps out cfg id txid expiration Classification.ambiguous = Keeps-pure tt

pub operator_for-Keeps :
    (out : Outside) (cfg : EngineConfig) (id reason : ℕ)
    → Keeps IsOnce (operator_for out cfg id reason)
operator_for-Keeps out cfg id reason = search (keeps_rules, needs_operator-Keeps)

send_encoded-Keeps :
    (out : Outside) (cfg : EngineConfig) (id txid : ℕ) (r : ReferenceBlock) (m : Option ℕ)
    → Keeps IsOnce (send_encoded out cfg id txid r m)
send_encoded-Keeps out cfg id txid r (some m) = operator_for-Keeps out cfg id m
send_encoded-Keeps out cfg id txid r none =
    search (keeps_rules, send_withdrawal-Keeps, after_send-Keeps, broadcast-Keeps)

broadcast_signed-Keeps :
    (out : Outside) (cfg : EngineConfig) (id : ℕ) (r : ReferenceBlock) (a : Answer ℕ)
    → Keeps IsOnce (broadcast_signed out cfg id r a)
broadcast_signed-Keeps out cfg id r (Answer.refused m) = operator_for-Keeps out cfg id m
broadcast_signed-Keeps out cfg id r (Answer.answered txid) =
    search (keeps_rules, send_encoded-Keeps)

sign_input-Keeps :
    (out : Outside) (cfg : EngineConfig) (w : Withdrawal) (r : ReferenceBlock) (t : Result Transfer)
    → Keeps IsOnce (sign_input out cfg w r t)
sign_input-Keeps out cfg w r (err e) = operator_for-Keeps out cfg w.id _
sign_input-Keeps out cfg w r (ok t) = search (keeps_rules, broadcast_signed-Keeps)

sign_and_broadcast-Keeps :
    (out : Outside) (cfg : EngineConfig) (w : Withdrawal) (asset : Asset)
    → Keeps IsOnce (sign_and_broadcast out cfg w asset)
unfolding sign_and_broadcast
sign_and_broadcast-Keeps out cfg w asset =
    search (keeps_rules, reference_block-Keeps, sign_input-Keeps)

-- The gates.
and_then-Keeps :
    {A : Type 0} (act : Action (Option A)) (next : A → Action (Unit {0}))
    → Keeps IsOnce act
    → ((a : A) → Keeps IsOnce (next a))
    → Keeps IsOnce (and_then act next)
and_then-Keeps act next h k = Keeps-option act (pure tt) next h (Keeps-pure tt) k

arrived-Keeps :
    (out : Outside) (cfg : EngineConfig) (r : ResourceState) (source : Option ℕ)
    (p : Option EnergyPurchase)
    → Keeps IsOnce (arrived out cfg r source p)
arrived-Keeps out cfg r source none = Keeps-pure _
arrived-Keeps out cfg r source (some p) = search (keeps_rules, finish_rental-Keeps)

look_for_energy-Keeps :
    (out : Outside) (cfg : EngineConfig) (w : Withdrawal) (r : ResourceState)
    (status : WithdrawalStatus)
    → Keeps IsOnce (look_for_energy out cfg w r status)
look_for_energy-Keeps out cfg w r status =
    Keeps-option _ _ _ (source_energy-Keeps out cfg status w r) (Keeps-pure none)
      (λ source. Keeps-pure _)

lacks_energy-Keeps :
    (out : Outside) (cfg : EngineConfig) (w : Withdrawal) (r : ResourceState)
    → Keeps IsOnce (lacks_energy out cfg w r)
lacks_energy-Keeps out cfg w r = search (keeps_rules, look_for_energy-Keeps, move_to-Keeps)

take_grant-Keeps :
    (out : Outside) (cfg : EngineConfig) (g : ResourceGrant) → Keeps IsOnce (take_grant out cfg g)
take_grant-Keeps out cfg g = search (keeps_rules, reconcile_grant-Keeps, confirm_grant-Keeps)

found_energy-Keeps :
    (out : Outside) (cfg : EngineConfig) (w : Withdrawal) (g : Option ResourceGrant)
    → Keeps IsOnce (found_energy out cfg w g)
found_energy-Keeps out cfg w none = Keeps-pure _
found_energy-Keeps out cfg w (some g) =
    Keeps-if (is_failed_grant g.status) _ _ (Keeps-pure _)
      (Keeps-option _ _ _ (take_grant-Keeps out cfg g) (Keeps-pure none) (λ u. Keeps-pure _))

judge_energy-Keeps :
    (out : Outside) (cfg : EngineConfig) (w : Withdrawal) (r : ResourceState)
    (o : Option (Option ℕ))
    → Keeps IsOnce (judge_energy out cfg w r o)
judge_energy-Keeps out cfg w r none = Keeps-pure none
judge_energy-Keeps out cfg w r (some source) =
    search (keeps_rules, lacks_energy-Keeps, found_energy-Keeps)

energy_gate-Keeps :
    (out : Outside) (cfg : EngineConfig) (w : Withdrawal) (r : ResourceState) (contract : Option ℕ)
    → Keeps IsOnce (energy_gate out cfg w r contract)
unfolding energy_gate
energy_gate-Keeps out cfg w r none = Keeps-pure _
energy_gate-Keeps out cfg w r (some contract) =
    search (keeps_rules, arrived-Keeps, judge_energy-Keeps)

available_for-Keeps :
    (out : Outside) (w : Withdrawal) (g : Option ResourceGrant) (ledger : Option ℤ)
    → Keeps IsOnce (available_for out w g ledger)
available_for-Keeps out w g none = Keeps-pure none
available_for-Keeps out w g (some ledger) = search (keeps_rules)

can_burn_bandwidth-Keeps :
    (out : Outside) (cfg : EngineConfig) (w : Withdrawal) (source : Option ℕ) (is_native : Bool)
    (g : Option ResourceGrant)
    → Keeps IsOnce (can_burn_bandwidth out cfg w source is_native g)
unfolding can_burn_bandwidth
can_burn_bandwidth-Keeps out cfg w source is_native g =
    Keeps-option _ _ _ (Keeps-get _) (Keeps-pure false)
      (λ params. search (keeps_rules, available_for-Keeps))

source_bandwidth-Keeps :
    (out : Outside) (cfg : EngineConfig) (w : Withdrawal) (r : ResourceState)
    → Keeps IsOnce (source_bandwidth out cfg w r)
unfolding source_bandwidth
source_bandwidth-Keeps out cfg w r =
    search (keeps_rules, ensure_delegation-Keeps, ensure_topup-Keeps)

wait_for_bandwidth-Keeps :
    (out : Outside) (cfg : EngineConfig) (w : Withdrawal) (r : ResourceState) (source : Option ℕ)
    (status : WithdrawalStatus)
    → Keeps IsOnce (wait_for_bandwidth out cfg w r source status)
wait_for_bandwidth-Keeps out cfg w r source status =
    search (keeps_rules, source_bandwidth-Keeps, move_to-Keeps, fail_for-Keeps)

lacks_bandwidth-Keeps :
    (out : Outside) (cfg : EngineConfig) (w : Withdrawal) (r : ResourceState) (hand : Hand)
    → Keeps IsOnce (lacks_bandwidth out cfg w r hand)
lacks_bandwidth-Keeps out cfg w r hand =
    search (keeps_rules, wait_for_bandwidth-Keeps, move_to-Keeps)

burn_bandwidth-Keeps :
    (out : Outside) (g : Option ResourceGrant) → Keeps IsOnce (burn_bandwidth out g)
burn_bandwidth-Keeps out none = Keeps-pure _
burn_bandwidth-Keeps out (some g) = search (keeps_rules, confirm_grant-Keeps)

found_bandwidth-Keeps :
    (out : Outside) (cfg : EngineConfig) (g : Option ResourceGrant)
    → Keeps IsOnce (found_bandwidth out cfg g)
found_bandwidth-Keeps out cfg none = Keeps-pure _
found_bandwidth-Keeps out cfg (some g) =
    Keeps-if (is_failed_grant g.status) _ _ (Keeps-pure _)
      (Keeps-option _ _ _ (take_grant-Keeps out cfg g) (Keeps-pure none) (λ u. Keeps-pure _))

bandwidth_gate-Keeps :
    (out : Outside) (cfg : EngineConfig) (w : Withdrawal) (r : ResourceState) (is_native : Bool)
    (hand : Hand)
    → Keeps IsOnce (bandwidth_gate out cfg w r is_native hand)
unfolding bandwidth_gate
bandwidth_gate-Keeps out cfg w r is_native hand = search (
  keeps_rules, can_burn_bandwidth-Keeps, burn_bandwidth-Keeps, lacks_bandwidth-Keeps,
  found_bandwidth-Keeps,
)

sign_now-Keeps :
    (out : Outside) (cfg : EngineConfig) (w : Withdrawal) (asset : Asset) (hand : Hand)
    (bandwidth : ℕ)
    → Keeps IsOnce (sign_now out cfg w asset hand bandwidth)
sign_now-Keeps out cfg w asset hand bandwidth =
    search (keeps_rules, move_to-Keeps, sign_and_broadcast-Keeps)

acquire_for-Keeps :
    (out : Outside) (cfg : EngineConfig) (w : Withdrawal) (r : ResourceState) (asset : Option Asset)
    → Keeps IsOnce (acquire_for out cfg w r asset)
acquire_for-Keeps out cfg w r none = operator_for-Keeps out cfg w.id _
acquire_for-Keeps out cfg w r (some asset) =
    and_then-Keeps _ _ (energy_gate-Keeps out cfg w r asset.contract) (λ hand.
      and_then-Keeps _ _ (bandwidth_gate-Keeps out cfg w r _ hand)
        (λ bandwidth. sign_now-Keeps out cfg w asset hand bandwidth))

acquire_now-Keeps :
    (out : Outside) (cfg : EngineConfig) (w : Withdrawal) → Keeps IsOnce (acquire_now out cfg w)
acquire_now-Keeps out cfg w = search (keeps_rules, acquire_for-Keeps)

unless_polled-Keeps :
    (out : Outside) (cfg : EngineConfig) (w : Withdrawal) (p : Option EnergyPurchase)
    → Keeps IsOnce (unless_polled out cfg w p)
unless_polled-Keeps out cfg w none = acquire_now-Keeps out cfg w
unless_polled-Keeps out cfg w (some p) =
    search (keeps_rules, energy_poll_due-Keeps, acquire_now-Keeps)

pub acquire_and_send-Keeps :
    (out : Outside) (cfg : EngineConfig) (w : Withdrawal)
    → Keeps IsOnce (acquire_and_send out cfg w)
unfolding acquire_and_send
acquire_and_send-Keeps out cfg w = search (keeps_rules, unless_polled-Keeps, acquire_now-Keeps)
