-- ===== src/Engine/Balance.antt =====
-- The balance at the provider of energy (internal/withdraw/engine.go: checkProviderBalance).
use payd.Prelude.{◌+◌, ◌*◌, Bool, not, ◌||◌, Option, none, some, if◌then◌else◌, ok, bad_argument}
use payd.Schema.{Time, second, Price, Rat}
use payd.Withdrawals.{leb_rat}
use payd.Rental.{record_provider_balance, record_provider_balance_error}
use payd.Engine.Node.{Answer}
use payd.Engine.Action.{
  Action, Outside, Provider, EngineConfig, ◌>>=◌, ◌>>◌, pure, raise, ask, get, set, write,
}
use payd.Engine.Rent.{is_before}

abbrev pub balance_pause : Time
balance_pause = 900 * second

abbrev pub is_low : (value warn : Rat) → Bool
is_low value warn = not (leb_rat warn value)

abbrev pub judge_balance :
    Outside → EngineConfig → (now : Time) → (balance warn : Price) → Action (Unit {0})
judge_balance out cfg now (some value) (some warn) = do
  write (record_provider_balance cfg.provider_name (some value) (some warn) now cfg.events)
  set (λ f. record f { provider_balance = some (some value, is_low value warn) })
judge_balance out cfg now _ _ = raise bad_argument

abbrev pub heard_balance : Outside → EngineConfig → (now : Time) → Answer Price → Action (Unit {0})
heard_balance out cfg now (Answer.refused m) =
    write (λ db. ok (record_provider_balance_error cfg.provider_name now m db))
heard_balance out cfg now (Answer.answered balance) =
    judge_balance out cfg now balance cfg.balance_warn_trx

abbrev pub check_balance_of :
    Outside → EngineConfig → (now : Time) → Option Provider → Action (Unit {0})
check_balance_of out cfg now none = pure tt
check_balance_of out cfg now (some provider) = do
  next ← get (λ w. w.next_balance_check)
  if not cfg.energy_enabled || is_before now next
      then pure tt
      else (set (λ f. record f { next_balance_check = some (now + balance_pause) })
          >> (ask provider.balance >>= heard_balance out cfg now))

-- `checkProviderBalance`
unfoldable pub check_provider_balance : Outside → EngineConfig → Action (Unit {0})
check_provider_balance out cfg = ask out.clock >>= λ now. check_balance_of out cfg now out.provider
