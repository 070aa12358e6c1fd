-- ===== src/Engine/Supply.antt =====
-- The gate of the energy (internal/withdraw/engine.go: acquireAndSend).
use payd.Prelude.{
  ℕ, Bool, false, not, ◌&&◌, Option, none, some, if◌then◌else◌, is_some, is_none, holds, pos, leb_ℤ,
  ok,
}
use payd.Schema.{
  Withdrawal, WithdrawalStatus, same_status, ResourceGrant, ResourceType, is_failed_grant,
  EnergyPurchase, is_purchased, is_delegated,
}
use payd.Grants.{grant_for_withdrawal, confirm_grant}
use payd.Rental.{purchase_for_withdrawal}
use payd.Withdrawals.Outcome.{burned}
use payd.Engine.Node.{ResourceState}
use payd.Engine.Action.{Action, Outside, EngineConfig, ◌>>=◌, ◌>>◌, pure, ask, get, write}
use payd.Engine.Delegate.{reconcile_grant}
use payd.Engine.Rent.{rented, finish_rental}
use payd.Engine.Energy.{move_to, source_energy}

-- Texts: sources, and reasons.
abbrev pub existing : ℕ
existing = 40

abbrev pub self_delegated : ℕ
self_delegated = 41

abbrev pub free_source : ℕ
free_source = 42

abbrev pub topup_source : ℕ
topup_source = 43

abbrev pub delegated_source : ℕ
delegated_source = 44

abbrev pub bandwidth_unavailable : ℕ
bandwidth_unavailable = 45

abbrev pub asset_unconfigured : ℕ
asset_unconfigured = 46

-- Whether an action goes on, and with what.
abbrev pub go_on : {A : Type 0} → A → Action (Option A)
go_on a = pure (some a)

abbrev pub stop : {A : Type 0} → Action (Option A)
stop = pure none

abbrev pub and_then : {A : Type 0} → Action (Option A) → (A → Action (Unit {0})) → Action (Unit {0})
and_then act next = act >>= λ o. elim o [ none ↦ pure tt | some a ↦ next a ]

-- The status that the engine has in hand, and the source of energy.
pub record Hand : Type 0 where
  pub status : WithdrawalStatus
  pub source : Option ℕ

abbrev pub has_energy : EngineConfig → ResourceState → Bool
has_energy cfg r = leb_ℤ (pos cfg.min_energy) r.energy

-- A purchase that has arrived is completed; `none` where the provider has not confirmed it.
abbrev pub arrived :
    Outside
    → EngineConfig
    → ResourceState
    → (source : Option ℕ) → Option EnergyPurchase
    → Action (Option (Option ℕ))
arrived out cfg r source none = go_on source
arrived out cfg r source (some p) =
    if has_energy cfg r && is_purchased p.status
    then (finish_rental out cfg p >>= λ ready. if ready then go_on (some rented) else stop)
    else if is_delegated p.status
    then go_on (some rented)
    else go_on source

abbrev pub look_for_energy :
    Outside
    → EngineConfig
    → Withdrawal
    → ResourceState
    → (status : WithdrawalStatus) → Action (Option Hand)
look_for_energy out cfg w r status = do
  found ← source_energy out cfg status w r
  elim found [
    | none ↦ stop
    | some source ↦ go_on (record { status = status; source = some source })
  ]

abbrev pub lacks_energy : Outside → EngineConfig → Withdrawal → ResourceState → Action (Option Hand)
lacks_energy out cfg w r =
    if same_status w.status WithdrawalStatus.awaiting_energy
    then look_for_energy out cfg w r w.status
    else (move_to out w w.status WithdrawalStatus.awaiting_energy none none >>= λ changed.
        if changed then look_for_energy out cfg w r WithdrawalStatus.awaiting_energy else stop)

abbrev pub is_unpaid_grant : ResourceGrant → Bool
is_unpaid_grant g = is_some g.txid && is_none g.fee_raw

-- A grant whose transaction has no receipt yet is asked for first; then it counts as confirmed.
abbrev pub take_grant : Outside → EngineConfig → ResourceGrant → Action (Option (Unit {0}))
take_grant out cfg g = do
  pending ← (if is_unpaid_grant g then reconcile_grant out cfg g else pure false)
  if pending
      then stop
      else (ask out.clock >>= λ now. write (λ db. ok (confirm_grant g.id now db)) >> go_on tt)

abbrev pub found_energy :
    Outside → EngineConfig → Withdrawal → Option ResourceGrant → Action (Option Hand)
found_energy out cfg w none = go_on (record { status = w.status; source = some existing })
found_energy out cfg w (some g) =
    if is_failed_grant g.status
    then go_on (record { status = w.status; source = some existing })
    else (take_grant out cfg g >>= λ o. elim o [
      | none ↦ stop
      | some u ↦ go_on (record { status = w.status; source = some self_delegated })
    ])

abbrev pub judge_energy :
    Outside → EngineConfig → Withdrawal → ResourceState → Option (Option ℕ) → Action (Option Hand)
judge_energy out cfg w r none = stop
judge_energy out cfg w r (some source) =
    if not (has_energy cfg r) && not (holds source burned)
    then lacks_energy out cfg w r
    else if is_none source
    then (get (λ x. grant_for_withdrawal w.id ResourceType.energy x.store)
        >>= found_energy out cfg w)
    else go_on (record { status = w.status; source = source })

-- The energy of a token's transfer; a native one needs none.
unfoldable pub energy_gate :
    Outside
    → EngineConfig
    → Withdrawal
    → ResourceState
    → (contract : Option ℕ) → Action (Option Hand)
energy_gate out cfg w r none = go_on (record { status = w.status; source = w.energy_source })
energy_gate out cfg w r (some contract) = do
  p ← get (λ x. purchase_for_withdrawal w.id x.store)
  source ← arrived out cfg r w.energy_source p
  judge_energy out cfg w r source
