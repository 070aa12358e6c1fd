-- ===== src/Engine/Once/Steps.antt =====
-- Ticks, recoveries, requests and decisions one after the other, and what goes out in them.
use payd.Prelude.{ℕ, Bool, true, ◌≤◌, ◌≡◌, ok, ℤ}
use payd.Schema.{Database, Time, Withdrawal, WithdrawalStatus, ResourceType}
use payd.Withdrawals.{CreateWithdrawal, create_withdrawal}
use payd.Withdrawals.Outcome.{resolve_withdrawal}
use payd.Engine.Action.{World, Outside, EngineConfig, Effect}
use payd.Engine.Tick.{recover, tick}
use payd.Engine.Manual.{delegate_resources}
use payd.Engine.Once.{IsOnce, IsOnce-times, times, tries}
use payd.Engine.Once.Requesting.{create-Advances, resolve-Advances}
use payd.Engine.Once.Sending.{IsOnce-advance}
use payd.Engine.Once.Ticks.{tick-Keeps, recover-Keeps, delegate_resources-Keeps}

-- What happens to the world one after the other: ticks, forced recoveries and delegations by hand,
-- each with its own settings and answers, requests for withdrawals, and decisions of the operator. What `Run` retries
-- after an error is another tick or recovery.
pub data EngineSteps : World → World → Type 0 where
  idle : (w : World) → EngineSteps w w
  ticks :
      (a b : World) (out : Outside) (cfg : EngineConfig)
      → EngineSteps a b
      → EngineSteps a (tick out cfg b).1
  recovers :
      (a b : World) (out : Outside) (cfg : EngineConfig)
      → EngineSteps a b
      → EngineSteps a (recover out cfg true b).1
  delegates :
      (a b : World) (out : Outside) (cfg : EngineConfig) (address : ℕ) (t : ResourceType)
      (units : ℤ) (actor detail : ℕ)
      → EngineSteps a b
      → EngineSteps a (delegate_resources out cfg address t units actor detail b).1
  requests :
      (a b : World) (r : CreateWithdrawal) (x : Withdrawal × Bool × Database)
      → EngineSteps a b
      → create_withdrawal r b.store ≡ ok x
      → EngineSteps a (record b { store = x.2 })
  decides :
      (a b : World) (id : ℕ) (outcome : WithdrawalStatus) (reason actor : ℕ) (now : Time)
      (db : Database)
      → EngineSteps a b
      → resolve_withdrawal id outcome reason actor now b.store ≡ ok db
      → EngineSteps a (record b { store = db })

steps-IsOnce : (a b : World) → EngineSteps a b → IsOnce a → IsOnce b
steps-IsOnce a b (idle w) h = h
steps-IsOnce a b (ticks x y out cfg steps) h = (tick-Keeps out cfg).at y (steps-IsOnce x y steps h)
steps-IsOnce a b (recovers x y out cfg steps) h =
    (recover-Keeps out cfg true).at y (steps-IsOnce x y steps h)
steps-IsOnce a b (delegates x y out cfg address t units actor detail steps) h =
    (delegate_resources-Keeps out cfg address t units actor detail).at y (steps-IsOnce x y steps h)
steps-IsOnce a b (requests x y r z steps e) h =
    IsOnce-advance y z.2 (create-Advances r y.store e) (steps-IsOnce x y steps h)
steps-IsOnce a b (decides x y id outcome reason actor now db steps e) h =
    IsOnce-advance y db (resolve-Advances id outcome reason actor now y.store e)
      (steps-IsOnce x y steps h)

-- Whatever the node, the signer and the provider answer, also where an action ends with an error
-- half-way: from a world where identifiers are unique and whatever has gone out is recorded, no
-- sequence of ticks, forced recoveries, delegations by hand, requests and decisions of the operator
-- broadcasts the same withdrawal or the same grant twice or makes the same prepaid purchase twice,
-- and whatever has gone out is still recorded.
pub steps_send_once :
    (a b : World)
    → EngineSteps a b
    → IsOnce a
    → (e : Effect) → (times e b ≤ 1) × (times e b ≤ tries e b.store)
steps_send_once a b steps h e =
    let k = steps-IsOnce a b steps h in (IsOnce-times b k e, k.covered e)
