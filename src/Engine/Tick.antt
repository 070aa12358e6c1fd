-- ===== src/Engine/Tick.antt =====
-- The recovery of withdrawals and the tick of the engine (internal/withdraw/engine.go: recover, Tick;
-- internal/store/withdrawals.go: NextRequestedWithdrawal, AwaitingResourceWithdrawals,
-- WithdrawalRecoveryCandidates).
use payd.Prelude.{
  ℕ, ◌+◌, ◌-◌, ◌*◌, Bool, false, not, ◌&&◌, ◌||◌, Option, none, some, List, [], ◌∷◌, leb, ltb, ◌==◌,
  if◌then◌else◌, is_some, is_none, find, select, sort_by,
}
use payd.Schema.{
  Time, second, unix, Database, Withdrawal, WithdrawalStatus, same_status, ResourceGrant,
}
use payd.Withdrawals.{claim_withdrawal, is_requested}
use payd.Withdrawals.Transitions.{
  is_signing, is_confirmed, is_needs_operator, is_awaiting, is_final,
}
use payd.Grants.{manual_grant_candidates}
use payd.Rental.{reconcile_energy}
use payd.Engine.Action.{
  Action, Outside, EngineConfig, ◌>>=◌, ◌>>◌, pure, ask, expect, get, write, call,
}
use payd.Engine.Delegate.{start_or_reconcile}
use payd.Engine.Balance.{check_provider_balance}
use payd.Engine.Resolve.{resolve, operator_for}
use payd.Engine.Send.{acquire_and_send}
use payd.Engine.Supply.{has_energy}

-- `ORDER BY w.created_at, w.id`
abbrev pub is_earlier : Withdrawal → Withdrawal → Bool
is_earlier a b = ltb a.created_at b.created_at || (a.created_at == b.created_at && ltb a.id b.id)

abbrev pub first_of : {A : Type 0} → List A → Option A
first_of [] = none
first_of (a ∷ rest) = some a

-- `NextRequestedWithdrawal`
unfoldable pub next_requested : Database → Option Withdrawal
unfolding sort_by
next_requested db =
    first_of
      (sort_by is_earlier (select (λ w. is_requested w.status && is_none w.txid) db.withdrawals))

-- `AwaitingResourceWithdrawals`
unfoldable pub awaiting_resources : Database → List Withdrawal
unfolding sort_by
awaiting_resources db =
    sort_by is_earlier (select (λ w. is_awaiting w.status && is_none w.txid) db.withdrawals)

abbrev pub resource_pause : Time
resource_pause = 300 * second

-- The conditions of the query for recovery, in its order.
abbrev pub is_unresolved : (force : Bool) → Withdrawal → Bool
is_unresolved force w =
    is_some w.txid
    && (not (is_confirmed w.status)
        && (force || not (is_final w.status || is_needs_operator w.status)))

abbrev pub is_stale : (status : WithdrawalStatus) → (since : Time) → Withdrawal → Bool
is_stale status since w = same_status status w.status && leb w.status_updated_at (unix since)

abbrev pub is_recoverable : (now energy_timeout : Time) → (force : Bool) → Withdrawal → Bool
is_recoverable now energy_timeout force w =
    is_unresolved force w
    || ((is_signing w.status && is_none w.txid)
        || (is_stale WithdrawalStatus.awaiting_resources (now - resource_pause) w
            || is_stale WithdrawalStatus.awaiting_energy (now - energy_timeout) w))

-- `WithdrawalRecoveryCandidates`
unfoldable pub recovery_candidates :
    (now energy_timeout : Time) → (force : Bool) → Database → List Withdrawal
unfolding sort_by
recovery_candidates now energy_timeout force db =
    sort_by is_earlier (select (is_recoverable now energy_timeout force) db.withdrawals)

-- One action after the other, until one ends with an error.
unfoldable pub each : {A : Type 0} → (A → Action (Unit {0})) → List A → Action (Unit {0})
each act [] = pure tt
each act (a ∷ rest) = act a >> each act rest

-- signing without a recorded transaction
abbrev pub unsigned_state : ℕ
unsigned_state = 47

abbrev pub recheck_energy : Outside → EngineConfig → (now : Time) → Withdrawal → Action (Unit {0})
recheck_energy out cfg now w = do
  answer ← ask (λ n. out.account_resource n w.from_address)
  r ← expect answer
  write (reconcile_energy w.id (has_energy cfg r) now)
  acquire_and_send out cfg w

-- A withdrawal without a transaction: one that was being signed is never taken for harmless.
abbrev pub recover_unsent :
    Outside
    → EngineConfig
    → (now : Time) → (force : Bool) → Withdrawal
    → WithdrawalStatus
    → Action (Unit {0})
recover_unsent out cfg now force w WithdrawalStatus.signing =
    operator_for out cfg w.id unsigned_state
recover_unsent out cfg now force w WithdrawalStatus.awaiting_energy =
    if force then recheck_energy out cfg now w else pure tt
recover_unsent out cfg now force w WithdrawalStatus.awaiting_resources = acquire_and_send out cfg w
recover_unsent out cfg now force w _ = pure tt

-- `now.Unix()-*at < seconds`, where there is a time
abbrev pub is_younger : (now : Time) → (seconds : ℕ) → Option ℕ → Bool
is_younger now seconds none = false
is_younger now seconds (some at) = ltb (unix now) (at + seconds)

abbrev pub may_wait : (now : Time) → Withdrawal → Bool
may_wait now w =
    (is_signing w.status && is_younger now 60 w.broadcast_attempted_at)
    || is_younger now 15 w.last_lookup_at

abbrev pub recover_sent :
    Outside
    → EngineConfig
    → (now : Time) → (force : Bool) → Withdrawal
    → (txid : ℕ) → Action (Unit {0})
recover_sent out cfg now force w txid =
    if not force && may_wait now w then pure tt else resolve out cfg w.id txid w.expiration_at none

abbrev pub recover_with :
    Outside
    → EngineConfig
    → (now : Time) → (force : Bool) → Withdrawal
    → Option ℕ
    → Action (Unit {0})
recover_with out cfg now force w none = recover_unsent out cfg now force w w.status
recover_with out cfg now force w (some txid) = recover_sent out cfg now force w txid

abbrev pub recover_grant : Outside → EngineConfig → ResourceGrant → Action (Unit {0})
recover_grant out cfg g = start_or_reconcile out cfg g >>= λ pending. pure tt

-- `recover`
unfoldable pub recover : Outside → EngineConfig → (force : Bool) → Action (Unit {0})
recover out cfg force = do
  now ← ask out.clock
  grants ← get (λ w. manual_grant_candidates w.store)
  each (recover_grant out cfg) grants
  candidates ← get (λ w. recovery_candidates now cfg.poll_timeout force w.store)
  each (λ w. recover_with out cfg now force w w.txid) candidates

-- The withdrawal as the claim has left it.
abbrev pub send_claimed : Outside → EngineConfig → Option Withdrawal → Action (Unit {0})
send_claimed out cfg none = pure tt
send_claimed out cfg (some w) = acquire_and_send out cfg w

abbrev pub claim_next : Outside → EngineConfig → Option Withdrawal → Action (Unit {0})
claim_next out cfg none = pure tt
claim_next out cfg (some w) = do
  now ← ask out.clock
  claimed ← call (claim_withdrawal w.id now)
  if claimed
      then (get (λ x. find (λ v. v.id == w.id) x.store.withdrawals) >>= send_claimed out cfg)
      else pure tt

abbrev pub serve : Outside → EngineConfig → Action (Unit {0})
serve out cfg = do
  awaiting ← get (λ w. awaiting_resources w.store)
  each (acquire_and_send out cfg) awaiting
  next ← get (λ w. next_requested w.store)
  claim_next out cfg next

-- `Tick`
unfoldable pub tick : Outside → EngineConfig → Action (Unit {0})
tick out cfg = do
  recover out cfg false
  check_provider_balance out cfg
  if cfg.enabled then serve out cfg else pure tt
