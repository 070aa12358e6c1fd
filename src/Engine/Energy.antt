-- ===== src/Engine/Energy.antt =====
-- The order in which energy is looked for: rented, delegated by the resource wallet, burnt
-- (internal/withdraw/engine.go: sourceEnergy; internal/energy/provider.go: BurnCostSun;
-- internal/store/wallet.go: BalanceForWithdrawal).
use payd.Prelude.{
  ℕ, ◌*◌, Bool, false, not, Option, none, some, leb, ◌==◌, if◌then◌else◌, find, ℤ, pos, ◌-ℤ◌,
  pos_part, leb_ℤ, Result, ok, err, no_rows, balance_drift,
}
use payd.Decimal.{set_string, parse_units}
use payd.Schema.{
  Database, Address, Balance, ChainParameters, Withdrawal, WithdrawalStatus, same_status,
  ResourceType,
}
use payd.Withdrawals.{source_of}
use payd.Withdrawals.Transitions.{set_resource_state, fail_resources}
use payd.Withdrawals.Outcome.{burned, trx}
use payd.Engine.Node.{ResourceState}
use payd.Engine.Action.{Action, Outside, EngineConfig, ◌>>=◌, ◌>>◌, pure, ask, get, write, call}
use payd.Engine.Delegate.{ensure_delegation}
use payd.Engine.Rent.{
  Rented, try_rental, rented, delegation_unavailable, energy_burn_limit, energy_burn_unavailable,
}

abbrev pub without_drift : Option (Address × Balance) → Result Balance
without_drift none = err no_rows
without_drift (some (a, b)) = if b.drift_detected then err balance_drift else ok b

-- `BalanceForWithdrawal`
unfoldable pub balance_for : (address asset : ℕ) → Database → Result Balance
balance_for address asset db =
    without_drift (source_of (find (λ a. a.address == address) db.addresses) db.balances asset)

-- `SetWithdrawalResourceState` with the status that the engine saw, at the time of the call
abbrev pub move_to :
    Outside
    → Withdrawal
    → (from to : WithdrawalStatus) → (energy bandwidth : Option ℕ) → Action Bool
move_to out w from to energy bandwidth = do
  now ← ask out.clock
  call (λ db. ok (set_resource_state w.id (same_status from) to energy bandwidth now db))

abbrev pub fail_for : Outside → EngineConfig → Withdrawal → (reason : ℕ) → Action (Unit {0})
fail_for out cfg w reason =
    ask out.clock >>= λ now. write (fail_resources w.id reason now cfg.events)

-- `BurnCostSun`
abbrev pub burn_cost : (required fee : ℕ) → ℕ
burn_cost required fee = required * fee

abbrev pub affords : Result Balance → (cost : ℕ) → Bool
affords (err e) cost = false
affords (ok b) cost = elim (set_string b.confirmed_raw) [
  | none ↦ false
  | some n ↦ leb_ℤ (pos cost) n
]

abbrev pub is_within : (cost : ℕ) → Result ℕ → Bool
is_within cost (err e) = false
is_within cost (ok ceiling) = leb cost ceiling

abbrev pub burn_at : Outside → EngineConfig → Withdrawal → (cost : ℕ) → Action (Option ℕ)
burn_at out cfg w cost =
    if is_within cost (parse_units cfg.max_burn_trx 6)
    then (get (λ x. balance_for w.from_address trx x.store) >>= λ balance.
        if affords balance cost
        then pure (some burned)
        else (fail_for out cfg w energy_burn_unavailable >> pure none))
    else (fail_for out cfg w energy_burn_limit >> pure none)

-- Without parameters of the chain the withdrawal waits.
abbrev pub burn_with :
    Outside
    → EngineConfig
    → (status : WithdrawalStatus) → Withdrawal
    → (missing : ℕ) → Option ChainParameters
    → Action (Option ℕ)
burn_with out cfg status w missing none =
    move_to out w status WithdrawalStatus.awaiting_resources none none >>= λ changed. pure none
burn_with out cfg status w missing (some params) =
    burn_at out cfg w (burn_cost missing params.energy_fee)

abbrev pub missing_energy : EngineConfig → ResourceState → ℤ
missing_energy cfg r = pos cfg.min_energy -ℤ r.energy

abbrev pub delegate_or_burn :
    Outside
    → EngineConfig
    → (status : WithdrawalStatus) → Withdrawal
    → ResourceState
    → Action (Option ℕ)
delegate_or_burn out cfg status w r = do
  pending ← ensure_delegation out cfg w ResourceType.energy (missing_energy cfg r) r
  if pending
      then pure none
      else if not cfg.fallback_to_burn
      then (fail_for out cfg w delegation_unavailable >> pure none)
      else (get (λ x. x.store.chain_params)
          >>= burn_with out cfg status w (pos_part (missing_energy cfg r)))

abbrev pub after_rental :
    Outside
    → EngineConfig
    → (status : WithdrawalStatus) → Withdrawal
    → ResourceState
    → Rented
    → Action (Option ℕ)
after_rental out cfg status w r Rented.ready = pure (some rented)
after_rental out cfg status w r Rented.pending = pure none
after_rental out cfg status w r Rented.unavailable = delegate_or_burn out cfg status w r

-- `sourceEnergy`: the source that is ready, if one is. It is called where energy is missing.
unfoldable pub source_energy :
    Outside
    → EngineConfig
    → (status : WithdrawalStatus) → Withdrawal
    → ResourceState
    → Action (Option ℕ)
source_energy out cfg status w r = try_rental out cfg w >>= after_rental out cfg status w r
