-- ===== src/Engine/Manual.antt =====
-- What energy would cost, and a delegation by hand (internal/withdraw/engine.go: EstimateResources,
-- DelegateResources).
use payd.Prelude.{
  ℕ, Bool, true, false, Option, none, some, ◌==◌, if◌then◌else◌, find, ℤ, pos, pos_part, ltb_ℤ,
  leb_ℤ, Result, ok, err, address_not_found, bad_argument,
}
use payd.Decimal.{Units, decimal, parse_units, format_units}
use payd.Schema.{Address, ResourceGrant, ResourceType, ChainParameters, Price, Rat}
use payd.Withdrawals.{leb_rat}
use payd.Grants.{resource_wallet, create_manual_grant}
use payd.Engine.Node.{Answer, ResourceState, delegation_amount}
use payd.Engine.Action.{
  Action, Outside, Provider, EngineConfig, Capacity, ◌>>=◌, pure, raise, ask, expect, get, call,
}
use payd.Engine.Delegate.{allows, start_delegation}
use payd.Engine.Rent.{provider_enabled, energy_burn_limit}
use payd.Engine.Energy.{burn_cost, is_within, missing_energy}
use payd.Engine.Supply.{existing, self_delegated}

-- `energy.ResourceEstimate`: what energy costs, or why there is none.
pub data Estimate : Type 0 where
  costs_nothing : (source : ℕ) → Estimate
  costs_price : Rat → Estimate
  costs_burn : (trx : Units) → Estimate
  blocked : (reason : ℕ) → Estimate

-- Texts.
abbrev pub energy_unavailable : ℕ
energy_unavailable = 48

abbrev pub chain_parameters_unavailable : ℕ
chain_parameters_unavailable = 49

abbrev pub burn_text : Result Units → Action Estimate
burn_text (err e) = raise e
burn_text (ok t) = pure (Estimate.costs_burn t)

abbrev pub estimate_burn_at : EngineConfig → (cost : ℕ) → Action Estimate
estimate_burn_at cfg cost =
    if is_within cost (parse_units cfg.max_burn_trx 6)
    then burn_text (format_units (decimal cost) 6)
    else pure (Estimate.blocked energy_burn_limit)

abbrev pub estimate_burn : EngineConfig → (missing : ℕ) → Option ChainParameters → Action Estimate
estimate_burn cfg missing none = pure (Estimate.blocked chain_parameters_unavailable)
estimate_burn cfg missing (some params) = estimate_burn_at cfg (burn_cost missing params.energy_fee)

abbrev pub estimate_fallback : EngineConfig → (missing : ℕ) → Action Estimate
estimate_fallback cfg missing =
    if cfg.fallback_to_burn
    then (get (λ w. w.store.chain_params) >>= estimate_burn cfg missing)
    else pure (Estimate.blocked energy_unavailable)

abbrev pub estimate_capacity : EngineConfig → (missing amount : ℕ) → Capacity → Action Estimate
estimate_capacity cfg missing amount c =
    if allows c.size (pos amount)
    then pure (Estimate.costs_nothing self_delegated)
    else estimate_fallback cfg missing

abbrev pub estimate_wallet :
    Outside → EngineConfig → (missing amount : ℕ) → Result Address → Action Estimate
estimate_wallet out cfg missing amount (err e) = estimate_fallback cfg missing
estimate_wallet out cfg missing amount (ok wallet) =
    ask (λ n. out.can_delegate n wallet.address ResourceType.energy)
    >>= estimate_capacity cfg missing amount

abbrev pub estimate_delegation : Outside → EngineConfig → (missing : ℕ) → Result ℕ → Action Estimate
estimate_delegation out cfg missing (err e) = estimate_fallback cfg missing
estimate_delegation out cfg missing (ok amount) =
    get (λ w. resource_wallet cfg.resource_wallet_index w.store)
    >>= estimate_wallet out cfg missing amount

abbrev pub affordable_price : Price → Price → Option Rat
affordable_price (some price) (some maximum) = if leb_rat price maximum then some price else none
affordable_price _ _ = none

abbrev pub price_of : Answer Price → (maximum : Price) → Option Rat
price_of (Answer.refused m) maximum = none
price_of (Answer.answered price) maximum = affordable_price price maximum

abbrev pub quoted_price :
    Outside → EngineConfig → (address : ℕ) → Option Provider → Action (Option Rat)
quoted_price out cfg address none = pure none
quoted_price out cfg address (some provider) = do
  enabled ← provider_enabled out
  if enabled
      then (ask (λ n. provider.quote n address) >>= λ a. pure (price_of a cfg.max_price_trx))
      else pure none

abbrev pub estimate_unrented : Outside → EngineConfig → ResourceState → Option Rat → Action Estimate
estimate_unrented out cfg r (some price) = pure (Estimate.costs_price price)
estimate_unrented out cfg r none =
    estimate_delegation out cfg (pos_part (missing_energy cfg r))
      (delegation_amount ResourceType.energy (missing_energy cfg r) r)

-- `EstimateResources`
unfoldable pub estimate_resources :
    Outside → EngineConfig → (address : ℕ) → (is_native : Bool) → Action Estimate
estimate_resources out cfg address true = pure (Estimate.costs_nothing existing)
estimate_resources out cfg address false = do
  answer ← ask (λ n. out.account_resource n address)
  r ← expect answer
  if ltb_ℤ r.energy (pos cfg.min_energy)
      then ((if cfg.energy_enabled then quoted_price out cfg address out.provider else pure none)
          >>= estimate_unrented out cfg r)
      else pure (Estimate.costs_nothing existing)

abbrev pub delegated_now : Outside → EngineConfig → ResourceGrant → Action ResourceGrant
delegated_now out cfg g = do
  pending ← start_delegation out cfg g
  found ← get (λ w. find (λ x. x.id == g.id) w.store.grants)
  elim found [ none ↦ raise address_not_found | some now ↦ pure now ]

abbrev pub delegate_units :
    Outside
    → EngineConfig
    → (address : ℕ) → ResourceType
    → (actor detail : ℕ) → Result ℕ
    → Action ResourceGrant
delegate_units out cfg address t actor detail (err e) = raise e
delegate_units out cfg address t actor detail (ok amount) = do
  now ← ask out.clock
  g ← call (create_manual_grant address t (decimal amount) actor detail now)
  delegated_now out cfg g

-- `DelegateResources`; the type is energy or bandwidth by its type here. `detail` is the text for the
-- audit.
unfoldable pub delegate_resources :
    Outside
    → EngineConfig
    → (address : ℕ) → ResourceType
    → (units : ℤ) → (actor detail : ℕ) → Action ResourceGrant
delegate_resources out cfg address t units actor detail =
    if leb_ℤ units (pos 0)
    then raise bad_argument
    else (get (λ w. find (λ a. a.address == address) w.store.addresses) >>= λ found. elim found [
      | none ↦ raise address_not_found
      | some a ↦ ask (λ n. out.account_resource n address) >>= λ answer. expect answer >>= λ r.
          delegate_units out cfg address t actor detail (delegation_amount t units r)
    ])
