-- ===== src/Engine/Once/Ticks.antt =====
-- The recovery, the tick, and a delegation by hand.
use payd.Prelude.{ℤ, pos, leb_ℤ, Result, err, ℕ, Bool, Option, none, some, List, [], ◌∷◌, ok}
use payd.Schema.{Time, Withdrawal, WithdrawalStatus, ResourceGrant, ResourceType}
use payd.Withdrawals.{claim_withdrawal}
use payd.Rental.{reconcile_energy}
use payd.Engine.Action.{Action, Outside, EngineConfig, write, call}
use payd.Engine.Action.Keeps.{
  Keeps, Keeps-pure, Keeps-raise, Keeps-get, Keeps-bind, Keeps-if, Keeps-option,
}
use payd.Engine.Tick.{
  each, recheck_energy, recover_unsent, recover_with, recover_grant, recover, send_claimed,
  claim_next, serve, tick,
}
use payd.Engine.Manual.{delegated_now, delegate_units, delegate_resources}
use payd.Grants.{create_manual_grant}
use payd.Decimal.{Text}
use payd.Engine.Once.Granting.{create_manual_grant-Advances}
use payd.Engine.Once.{IsOnce}
use payd.Engine.Once.Sending.{write-Keeps, call-Keeps}
use payd.Engine.Once.Renting.{reconcile_energy-Advances}
use payd.Engine.Once.Withdrawing.{claim-Advances}
use payd.Engine.Once.Grants.{keeps_rules, start_delegation-Keeps, start_or_reconcile-Keeps}
use payd.Engine.Once.Rent.{check_provider_balance-Keeps}
use payd.Engine.Once.Gates.{acquire_and_send-Keeps, resolve-Keeps, operator_for-Keeps}

each-Keeps :
    {A : Type 0} (act : A → Action (Unit {0}))
    → ((a : A) → Keeps IsOnce (act a))
    → (list : List A) → Keeps IsOnce (each act list)
unfolding each
each-Keeps act h [] = Keeps-pure tt
each-Keeps act h (a ∷ rest) = Keeps-bind (act a) _ (h a) (λ u. each-Keeps act h rest)

reconcile-Keeps :
    (id : ℕ) (visible : Bool) (now : Time) → Keeps IsOnce (write (reconcile_energy id visible now))
reconcile-Keeps id visible now =
    write-Keeps _ (λ db db' e. reconcile_energy-Advances id visible now db e)

recheck_energy-Keeps :
    (out : Outside) (cfg : EngineConfig) (now : Time) (w : Withdrawal)
    → Keeps IsOnce (recheck_energy out cfg now w)
recheck_energy-Keeps out cfg now w = search (keeps_rules, reconcile-Keeps, acquire_and_send-Keeps)

recover_unsent-Keeps :
    (out : Outside) (cfg : EngineConfig) (now : Time) (force : Bool) (w : Withdrawal)
    (s : WithdrawalStatus)
    → Keeps IsOnce (recover_unsent out cfg now force w s)
recover_unsent-Keeps out cfg now force w WithdrawalStatus.signing =
    operator_for-Keeps out cfg w.id _
recover_unsent-Keeps out cfg now force w WithdrawalStatus.awaiting_energy =
    search (keeps_rules, recheck_energy-Keeps)
recover_unsent-Keeps out cfg now force w WithdrawalStatus.awaiting_resources =
    acquire_and_send-Keeps out cfg w
recover_unsent-Keeps out cfg now force w _ = Keeps-pure tt

recover_with-Keeps :
    (out : Outside) (cfg : EngineConfig) (now : Time) (force : Bool) (w : Withdrawal)
    (txid : Option ℕ)
    → Keeps IsOnce (recover_with out cfg now force w txid)
recover_with-Keeps out cfg now force w none = recover_unsent-Keeps out cfg now force w w.status
recover_with-Keeps out cfg now force w (some txid) = search (keeps_rules, resolve-Keeps)

recover_grant-Keeps :
    (out : Outside) (cfg : EngineConfig) (g : ResourceGrant)
    → Keeps IsOnce (recover_grant out cfg g)
recover_grant-Keeps out cfg g = search (keeps_rules, start_or_reconcile-Keeps)

pub recover-Keeps :
    (out : Outside) (cfg : EngineConfig) (force : Bool) → Keeps IsOnce (recover out cfg force)
unfolding recover
recover-Keeps out cfg force =
    search (keeps_rules, each-Keeps, recover_grant-Keeps, recover_with-Keeps) depth 8

send_claimed-Keeps :
    (out : Outside) (cfg : EngineConfig) (w : Option Withdrawal)
    → Keeps IsOnce (send_claimed out cfg w)
send_claimed-Keeps out cfg none = Keeps-pure tt
send_claimed-Keeps out cfg (some w) = acquire_and_send-Keeps out cfg w

claim-Keeps : (id : ℕ) (now : Time) → Keeps IsOnce (call (claim_withdrawal id now))
claim-Keeps id now = call-Keeps _ (λ db x e. claim-Advances id now db e)

claim_next-Keeps :
    (out : Outside) (cfg : EngineConfig) (w : Option Withdrawal)
    → Keeps IsOnce (claim_next out cfg w)
claim_next-Keeps out cfg none = Keeps-pure tt
claim_next-Keeps out cfg (some w) = search (keeps_rules, send_claimed-Keeps, claim-Keeps)

serve-Keeps : (out : Outside) (cfg : EngineConfig) → Keeps IsOnce (serve out cfg)
serve-Keeps out cfg = search (keeps_rules, each-Keeps, acquire_and_send-Keeps, claim_next-Keeps)

pub tick-Keeps : (out : Outside) (cfg : EngineConfig) → Keeps IsOnce (tick out cfg)
unfolding tick
tick-Keeps out cfg = search (keeps_rules, recover-Keeps, check_provider_balance-Keeps, serve-Keeps)

manual-Keeps :
    (address : ℕ) (t : ResourceType) (amount : Text) (actor detail : ℕ) (now : Time)
    → Keeps IsOnce (call (create_manual_grant address t amount actor detail now))
manual-Keeps address t amount actor detail now =
    call-Keeps _ (λ db x e. create_manual_grant-Advances address t amount actor detail now db e)

delegated_now-Keeps :
    (out : Outside) (cfg : EngineConfig) (g : ResourceGrant)
    → Keeps IsOnce (delegated_now out cfg g)
delegated_now-Keeps out cfg g =
    Keeps-bind _ _ (start_delegation-Keeps out cfg g)
      (λ pending. Keeps-option _ _ _ (Keeps-get _) (Keeps-raise _) (λ now. Keeps-pure now))

delegate_units-Keeps :
    (out : Outside) (cfg : EngineConfig) (address : ℕ) (t : ResourceType) (actor detail : ℕ)
    (r : Result ℕ)
    → Keeps IsOnce (delegate_units out cfg address t actor detail r)
delegate_units-Keeps out cfg address t actor detail (err e) = Keeps-raise e
delegate_units-Keeps out cfg address t actor detail (ok amount) =
    search (keeps_rules, manual-Keeps, delegated_now-Keeps)

pub delegate_resources-Keeps :
    (out : Outside) (cfg : EngineConfig) (address : ℕ) (t : ResourceType) (units : ℤ)
    (actor detail : ℕ)
    → Keeps IsOnce (delegate_resources out cfg address t units actor detail)
unfolding delegate_resources
delegate_resources-Keeps out cfg address t units actor detail =
    Keeps-if (leb_ℤ units (pos 0)) _ _ (Keeps-raise _) (
      Keeps-option _ _ _ (Keeps-get _) (Keeps-raise _)
        (λ a. search (keeps_rules, delegate_units-Keeps)))
