-- ===== src/Engine/Send.antt =====
-- The gates that a withdrawal passes, one after the other, before it is signed
-- (internal/withdraw/engine.go: acquireAndSend, configuredAsset).
use payd.Prelude.{ℕ, Option, none, some, ◌==◌, if◌then◌else◌, is_none, find}
use payd.Schema.{Withdrawal, WithdrawalStatus, same_status, EnergyPurchase, is_purchased}
use payd.Rental.{purchase_for_withdrawal}
use payd.Engine.Node.{ResourceState}
use payd.Engine.Action.{Action, Outside, EngineConfig, Asset, ◌>>=◌, pure, ask, expect, get}
use payd.Engine.Rent.{energy_poll_due}
use payd.Engine.Energy.{move_to}
use payd.Engine.Resolve.{sign_and_broadcast, operator_for}
use payd.Engine.Bandwidth.{bandwidth_gate}
use payd.Engine.Supply.{asset_unconfigured, and_then, Hand, energy_gate}

-- `configuredAsset`
abbrev pub configured_asset : EngineConfig → (symbol : ℕ) → Option Asset
configured_asset cfg symbol = find (λ a. a.symbol == symbol) cfg.assets

abbrev pub sign_now :
    Outside → EngineConfig → Withdrawal → Asset → Hand → (bandwidth : ℕ) → Action (Unit {0})
sign_now out cfg w asset hand bandwidth = do
  changed ← move_to out w hand.status WithdrawalStatus.signing hand.source (some bandwidth)
  if changed then sign_and_broadcast out cfg w asset else pure tt

abbrev pub acquire_for :
    Outside → EngineConfig → Withdrawal → ResourceState → Option Asset → Action (Unit {0})
acquire_for out cfg w r none = operator_for out cfg w.id asset_unconfigured
acquire_for out cfg w r (some asset) = and_then (energy_gate out cfg w r asset.contract) λ hand.
    and_then (bandwidth_gate out cfg w r (is_none asset.contract) hand)
      λ bandwidth. sign_now out cfg w asset hand bandwidth

abbrev pub acquire_now : Outside → EngineConfig → Withdrawal → Action (Unit {0})
acquire_now out cfg w = do
  answer ← ask (λ n. out.account_resource n w.from_address)
  r ← expect answer
  acquire_for out cfg w r (configured_asset cfg w.asset)

abbrev pub unless_polled :
    Outside → EngineConfig → Withdrawal → Option EnergyPurchase → Action (Unit {0})
unless_polled out cfg w none = acquire_now out cfg w
unless_polled out cfg w (some p) =
    if is_purchased p.status
    then (energy_poll_due out p.id cfg.poll_interval >>= λ due.
        if due then acquire_now out cfg w else pure tt)
    else acquire_now out cfg w

-- `acquireAndSend`
unfoldable pub acquire_and_send : Outside → EngineConfig → Withdrawal → Action (Unit {0})
acquire_and_send out cfg w =
    if same_status w.status WithdrawalStatus.awaiting_energy
    then (get (λ x. purchase_for_withdrawal w.id x.store) >>= unless_polled out cfg w)
    else acquire_now out cfg w
