-- ===== src/Engine/Bandwidth.antt =====
-- The gate of the bandwidth (internal/withdraw/engine.go: acquireAndSend, canBurnBandwidth,
-- sourceBandwidth).
use payd.Prelude.{
  ℕ, ◌*◌, Bool, true, false, not, ◌&&◌, Option, none, some, if◌then◌else◌, is_some, holds, ℤ, pos,
  ◌-ℤ◌, ltb_ℤ, leb_ℤ, Result, ok, err,
}
use payd.Decimal.{set_string}
use payd.Schema.{
  Balance, ChainParameters, Withdrawal, WithdrawalStatus, same_status, ResourceGrant, ResourceType,
  is_topup, is_failed_grant,
}
use payd.Grants.{grant_for_withdrawal, confirm_grant}
use payd.Withdrawals.Outcome.{burned, trx}
use payd.Engine.Node.{Answer, ResourceState}
use payd.Engine.Action.{Action, Outside, EngineConfig, ◌>>=◌, ◌>>◌, pure, ask, get, write}
use payd.Engine.Delegate.{ensure_delegation, ensure_topup}
use payd.Engine.Energy.{balance_for, burn_cost, move_to, fail_for}
use payd.Engine.Supply.{
  free_source, topup_source, delegated_source, bandwidth_unavailable, go_on, stop, Hand, take_grant,
}

-- What is left for the bandwidth, of which the amount and the burnt energy are taken.
abbrev pub after_amount : (is_native : Bool) → (available : ℤ) → Option ℤ → Option ℤ
after_amount false available amount = some available
after_amount true available none = none
after_amount true available (some amount) = some (available -ℤ amount)

abbrev pub after_energy : (is_burned : Bool) → EngineConfig → ChainParameters → ℤ → ℤ
after_energy false cfg params available = available
after_energy true cfg params available =
    available -ℤ pos (burn_cost cfg.min_energy params.energy_fee)

abbrev pub pays_bandwidth : EngineConfig → ChainParameters → (is_burned : Bool) → Option ℤ → Bool
pays_bandwidth cfg params is_burned none = false
pays_bandwidth cfg params is_burned (some available) =
    leb_ℤ (pos (cfg.min_bandwidth * params.transaction_fee))
      (after_energy is_burned cfg params available)

abbrev pub balance_of : Result Balance → Option ℤ
balance_of (err e) = none
balance_of (ok b) = set_string b.confirmed_raw

abbrev pub is_received_topup : Option ResourceGrant → Bool
is_received_topup none = false
is_received_topup (some g) = is_topup g.source && is_some g.fee_raw

abbrev pub chain_balance : Answer ℕ → Option ℤ
chain_balance (Answer.refused m) = none
chain_balance (Answer.answered n) = some (pos n)

-- After a top-up with a receipt the chain is asked, before the ledger has it.
abbrev pub available_for :
    Outside → Withdrawal → Option ResourceGrant → Option ℤ → Action (Option ℤ)
available_for out w g none = pure none
available_for out w g (some ledger) =
    if is_received_topup g
    then (ask (λ n. out.account_balance n w.from_address) >>= λ a. pure (chain_balance a))
    else pure (some ledger)

abbrev pub burn_of :
    (is_native : Bool)
    → EngineConfig
    → Withdrawal
    → (source : Option ℕ) → ChainParameters
    → Option ℤ
    → Bool
burn_of is_native cfg w source params none = false
burn_of is_native cfg w source params (some available) =
    pays_bandwidth cfg params (holds source burned)
      (after_amount is_native available (set_string w.amount_raw))

-- `canBurnBandwidth`
unfoldable pub can_burn_bandwidth :
    Outside
    → EngineConfig
    → Withdrawal
    → (source : Option ℕ) → (is_native : Bool) → Option ResourceGrant
    → Action Bool
can_burn_bandwidth out cfg w source is_native g = get (λ x. x.store.chain_params) >>= λ params.
    elim params [
      | none ↦ pure false
      | some params ↦ get (λ x. balance_for w.from_address trx x.store) >>= λ b.
          available_for out w g (balance_of b) >>= λ available.
          pure (burn_of is_native cfg w source params available)
    ]

abbrev pub missing_bandwidth : EngineConfig → ResourceState → ℤ
missing_bandwidth cfg r = pos cfg.min_bandwidth -ℤ r.bandwidth

-- `sourceBandwidth`: whether it is pending, and the source.
unfoldable pub source_bandwidth :
    Outside → EngineConfig → Withdrawal → ResourceState → Action (Bool × ℕ)
source_bandwidth out cfg w r =
    if cfg.delegates_bandwidth
    then (ensure_delegation out cfg w ResourceType.bandwidth (missing_bandwidth cfg r) r
        >>= λ pending. pure (pending, delegated_source))
    else (ensure_topup out cfg w >>= λ pending. pure (pending, topup_source))

abbrev pub wait_for_bandwidth :
    Outside
    → EngineConfig
    → Withdrawal
    → ResourceState
    → (source : Option ℕ) → (status : WithdrawalStatus) → Action (Option ℕ)
wait_for_bandwidth out cfg w r source status = do
  sourced ← source_bandwidth out cfg w r
  changed ← move_to out w status status source (some sourced.1)
  if sourced.0 then stop else (fail_for out cfg w bandwidth_unavailable >> stop)

abbrev pub lacks_bandwidth :
    Outside → EngineConfig → Withdrawal → ResourceState → Hand → Action (Option ℕ)
lacks_bandwidth out cfg w r hand =
    if same_status hand.status WithdrawalStatus.awaiting_resources
    then wait_for_bandwidth out cfg w r hand.source hand.status
    else (move_to out w hand.status WithdrawalStatus.awaiting_resources hand.source none
        >>= λ changed.
            if changed
            then wait_for_bandwidth out cfg w r hand.source WithdrawalStatus.awaiting_resources
            else stop)

abbrev pub is_usable_topup : Option ResourceGrant → Option ResourceGrant
is_usable_topup none = none
is_usable_topup (some g) =
    if not (is_failed_grant g.status) && is_topup g.source then some g else none

abbrev pub burn_bandwidth : Outside → Option ResourceGrant → Action (Option ℕ)
burn_bandwidth out none = go_on burned
burn_bandwidth out (some g) = do
  now ← ask out.clock
  write (λ db. ok (confirm_grant g.id now db))
  go_on topup_source

abbrev pub found_bandwidth : Outside → EngineConfig → Option ResourceGrant → Action (Option ℕ)
found_bandwidth out cfg none = go_on free_source
found_bandwidth out cfg (some g) =
    if is_failed_grant g.status
    then go_on free_source
    else (take_grant out cfg g >>= λ o. elim o [
      | none ↦ stop
      | some u ↦ go_on (if is_topup g.source then topup_source else delegated_source)
    ])

-- The last gate before signing, for both kinds of asset.
unfoldable pub bandwidth_gate :
    Outside
    → EngineConfig
    → Withdrawal
    → ResourceState
    → (is_native : Bool) → Hand
    → Action (Option ℕ)
bandwidth_gate out cfg w r is_native hand = do
  g ← get (λ x. grant_for_withdrawal w.id ResourceType.bandwidth x.store)
  if ltb_ℤ r.bandwidth (pos cfg.min_bandwidth)
      then (can_burn_bandwidth out cfg w hand.source is_native g >>= λ burns.
          if burns
          then burn_bandwidth out (is_usable_topup g)
          else lacks_bandwidth out cfg w r hand)
      else found_bandwidth out cfg g
