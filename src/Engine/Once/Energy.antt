-- ===== src/Engine/Once/Energy.antt =====
-- The search for energy.
use payd.Prelude.{ℕ, Option, none, some}
use payd.Schema.{Time, ChainParameters, Withdrawal, WithdrawalStatus, same_status}
use payd.Withdrawals.Transitions.{set_resource_state, fail_resources}
use payd.Engine.Node.{ResourceState}
use payd.Engine.Action.{Outside, EngineConfig}
use payd.Engine.Action.Keeps.{Keeps, Keeps-pure}
use payd.Engine.Rent.{Rented}
use payd.Engine.Energy.{move_to, fail_for, burn_with, after_rental, source_energy}
use payd.Engine.Once.{IsOnce}
use payd.Engine.Once.Sending.{write-Keeps, return-Keeps}
use payd.Engine.Once.Withdrawing.{set_resource_state-Advances, fail_resources-Advances}
use payd.Engine.Once.Grants.{keeps_rules, ensure_delegation-Keeps}
use payd.Engine.Once.Rent.{try_rental-Keeps}

pub move_to-Keeps :
    (out : Outside) (w : Withdrawal) (from to : WithdrawalStatus) (energy bandwidth : Option ℕ)
    → Keeps IsOnce (move_to out w from to energy bandwidth)
move_to-Keeps out w from to energy bandwidth = search (
  keeps_rules,
  λ (now : Time).
      return-Keeps (set_resource_state w.id (same_status from) to energy bandwidth now)
        (set_resource_state-Advances w.id (same_status from) to energy bandwidth now),
)

pub fail_for-Keeps :
    (out : Outside) (cfg : EngineConfig) (w : Withdrawal) (reason : ℕ)
    → Keeps IsOnce (fail_for out cfg w reason)
fail_for-Keeps out cfg w reason = search (
  keeps_rules,
  λ (now : Time).
      write-Keeps (fail_resources w.id reason now cfg.events)
        (λ db db' e. fail_resources-Advances w.id reason now cfg.events db e),
)

burn_with-Keeps :
    (out : Outside) (cfg : EngineConfig) (status : WithdrawalStatus) (w : Withdrawal) (missing : ℕ)
    (p : Option ChainParameters)
    → Keeps IsOnce (burn_with out cfg status w missing p)
burn_with-Keeps out cfg status w missing none = search (keeps_rules, move_to-Keeps)
burn_with-Keeps out cfg status w missing (some p) = search (keeps_rules, fail_for-Keeps)

after_rental-Keeps :
    (out : Outside) (cfg : EngineConfig) (status : WithdrawalStatus) (w : Withdrawal)
    (r : ResourceState) (x : Rented)
    → Keeps IsOnce (after_rental out cfg status w r x)
after_rental-Keeps out cfg status w r Rented.ready = Keeps-pure _
after_rental-Keeps out cfg status w r Rented.pending = Keeps-pure none
after_rental-Keeps out cfg status w r Rented.unavailable =
    search (keeps_rules, ensure_delegation-Keeps, fail_for-Keeps, burn_with-Keeps)

pub source_energy-Keeps :
    (out : Outside) (cfg : EngineConfig) (status : WithdrawalStatus) (w : Withdrawal)
    (r : ResourceState)
    → Keeps IsOnce (source_energy out cfg status w r)
unfolding source_energy
source_energy-Keeps out cfg status w r = search (keeps_rules, try_rental-Keeps, after_rental-Keeps)
