-- ===== src/Engine/Once/Rent.antt =====
-- The actions on purchases.
use payd.Prelude.{ℕ, true, false, Option, none, some, ok}
use payd.Schema.{Time, Price, Rat, Withdrawal, EnergyPurchase, PurchaseStatus}
use payd.Withdrawals.{leb_rat}
use payd.Rental.{
  create_purchase, reject_quote, record_purchase_order, complete_purchase, fail_purchase,
  record_provider_failure, reset_provider_failures, record_provider_balance,
  record_provider_balance_error,
}
use payd.Engine.Node.{Answer}
use payd.Engine.Action.{
  Fields, Outside, Provider, ProviderOrder, OrderState, EngineConfig, set, write, call,
}
use payd.Engine.Action.Keeps.{Keeps, Keeps-pure, Keeps-raise, Keeps-bind, Keeps-if, Keeps-set}
use payd.Engine.Rent.{
  energy_poll_due, delay_energy_poll, purchase_timed_out, provider_failure, circuit_allows,
  enabled_with, provider_enabled, fail_rental, Rented, await_energy, lose_rental, by_state, heard,
  poll_provider, poll_purchase, buy, buy_within, at_price, at_quote, quote_from, rent_anew, rent_on,
  rent_with, try_rental, complete, complete_late, finish_heard, finish_with, finish_rental,
  quote_too_high,
}
use payd.Engine.Balance.{judge_balance, heard_balance, check_balance_of, check_provider_balance}
use payd.Engine.Once.{IsOnce}
use payd.Engine.Once.Sending.{
  IsOnce-about, write-Keeps, put-Keeps, call-Keeps, spend_purchase-Keeps,
}
use payd.Engine.Once.Renting.{
  create_purchase-Advances, reject_quote-Advances, record_purchase_order-Advances,
  complete_purchase-Advances, fail_purchase-Advances, record_provider_failure-Advances,
  reset_provider_failures-Advances, record_provider_balance_error-Advances,
  record_provider_balance-Advances,
}
use payd.Engine.Once.Grants.{keeps_rules}

set-Keeps : (f : Fields → Fields) → Keeps IsOnce (set f)
set-Keeps f = Keeps-set IsOnce-about f

pub energy_poll_due-Keeps :
    (out : Outside) (id : ℕ) (interval : Time) → Keeps IsOnce (energy_poll_due out id interval)
unfolding energy_poll_due
energy_poll_due-Keeps out id interval = search (keeps_rules, set-Keeps)

delay-Keeps :
    (out : Outside) (id : ℕ) (interval : Time) → Keeps IsOnce (delay_energy_poll out id interval)
unfolding delay_energy_poll
delay-Keeps out id interval = search (keeps_rules, set-Keeps)

timed_out-Keeps :
    (out : Outside) (p : EnergyPurchase) (timeout : Time)
    → Keeps IsOnce (purchase_timed_out out p timeout)
unfolding purchase_timed_out
timed_out-Keeps out p timeout = search (keeps_rules)

provider_failure-Keeps :
    (out : Outside) (provider reason : ℕ) → Keeps IsOnce (provider_failure out provider reason)
unfolding provider_failure
provider_failure-Keeps out provider reason =
    Keeps-bind (call (record_provider_failure provider reason)) _
      (call-Keeps (record_provider_failure provider reason)
        (λ db x e. record_provider_failure-Advances provider reason db e))
      (λ failures. search (keeps_rules, set-Keeps))

circuit_allows-Keeps : (now : Time) (t : Option Time) → Keeps IsOnce (circuit_allows now t)
circuit_allows-Keeps now none = Keeps-pure true
circuit_allows-Keeps now (some t) = search (keeps_rules, set-Keeps)

enabled_with-Keeps : (p : Option Provider) (now : Time) → Keeps IsOnce (enabled_with p now)
enabled_with-Keeps none now = Keeps-pure false
enabled_with-Keeps (some p) now = search (keeps_rules, circuit_allows-Keeps)

provider_enabled-Keeps : (out : Outside) → Keeps IsOnce (provider_enabled out)
unfolding provider_enabled
provider_enabled-Keeps out = search (keeps_rules, enabled_with-Keeps)

fail_rental-Keeps :
    (out : Outside) (cfg : EngineConfig) (p : EnergyPurchase) (reason : ℕ)
    → Keeps IsOnce (fail_rental out cfg p reason)
unfolding fail_rental
fail_rental-Keeps out cfg p reason = search (
  keeps_rules,
  set-Keeps,
  provider_failure-Keeps,
  λ (now : Time).
      write-Keeps (fail_purchase p.id reason now cfg.events)
        (λ db db' e. fail_purchase-Advances p.id reason now cfg.events db e),
)

await_energy-Keeps :
    (out : Outside) (cfg : EngineConfig) (id : ℕ) → Keeps IsOnce (await_energy out cfg id)
await_energy-Keeps out cfg id = search (keeps_rules, delay-Keeps)

lose_rental-Keeps :
    (out : Outside) (cfg : EngineConfig) (p : EnergyPurchase) (reason : ℕ)
    → Keeps IsOnce (lose_rental out cfg p reason)
lose_rental-Keeps out cfg p reason = search (keeps_rules, fail_rental-Keeps)

by_state-Keeps :
    (out : Outside) (cfg : EngineConfig) (p : EnergyPurchase) (s : OrderState)
    → Keeps IsOnce (by_state out cfg p s)
by_state-Keeps out cfg p OrderState.order_failed = lose_rental-Keeps out cfg p _
by_state-Keeps out cfg p OrderState.order_success = await_energy-Keeps out cfg p.id
by_state-Keeps out cfg p OrderState.order_pending = await_energy-Keeps out cfg p.id

heard-Keeps :
    (out : Outside) (cfg : EngineConfig) (p : EnergyPurchase) (id : Option ℕ)
    (a : Answer ProviderOrder)
    → Keeps IsOnce (heard out cfg p id a)
heard-Keeps out cfg p id (Answer.refused m) = await_energy-Keeps out cfg p.id
heard-Keeps out cfg p id (Answer.answered o) = search (
  keeps_rules,
  by_state-Keeps,
  put-Keeps (record_purchase_order p.id id o.actual_trx o.delegation_txid)
      (record_purchase_order-Advances p.id id o.actual_trx o.delegation_txid),
)

poll_provider-Keeps :
    (out : Outside) (cfg : EngineConfig) (p : EnergyPurchase) (provider : Option Provider)
    → Keeps IsOnce (poll_provider out cfg p provider)
poll_provider-Keeps out cfg p none = await_energy-Keeps out cfg p.id
poll_provider-Keeps out cfg p (some provider) = search (keeps_rules, heard-Keeps)

poll_purchase-Keeps :
    (out : Outside) (cfg : EngineConfig) (p : EnergyPurchase)
    → Keeps IsOnce (poll_purchase out cfg p)
poll_purchase-Keeps out cfg p =
    search (keeps_rules, timed_out-Keeps, lose_rental-Keeps, poll_provider-Keeps)

buy-Keeps :
    (out : Outside) (cfg : EngineConfig) (provider : Provider) (p : EnergyPurchase)
    → Keeps IsOnce (buy out cfg provider p)
buy-Keeps out cfg provider p = search (keeps_rules, spend_purchase-Keeps, heard-Keeps)

buy_within-Keeps :
    (out : Outside) (cfg : EngineConfig) (provider : Provider) (price maximum : Rat)
    (p : EnergyPurchase)
    → Keeps IsOnce (buy_within out cfg provider price maximum p)
buy_within-Keeps out cfg provider price maximum p =
    Keeps-if (leb_rat price maximum) _ _ (buy-Keeps out cfg provider p) (
      Keeps-bind (write (λ db. ok (reject_quote p.id quote_too_high db))) _
        (put-Keeps (reject_quote p.id quote_too_high) (reject_quote-Advances p.id quote_too_high))
        (λ u. Keeps-pure Rented.unavailable))

at_price-Keeps :
    (out : Outside) (cfg : EngineConfig) (provider : Provider) (w : Withdrawal)
    (price maximum : Price)
    → Keeps IsOnce (at_price out cfg provider w price maximum)
at_price-Keeps out cfg provider w (some price) (some maximum) = search (
  keeps_rules,
  buy_within-Keeps,
  λ (now : Time).
      call-Keeps
        (create_purchase cfg.provider_name (some w.id) w.address_id w.from_address cfg.rent_amount
          cfg.rent_duration (some price) now)
        (λ db x e.
          create_purchase-Advances cfg.provider_name (some w.id) w.address_id w.from_address
            cfg.rent_amount cfg.rent_duration (some price) now db e),
)
at_price-Keeps out cfg provider w (some price) none = Keeps-raise _
at_price-Keeps out cfg provider w none maximum = Keeps-raise _

at_quote-Keeps :
    (out : Outside) (cfg : EngineConfig) (provider : Provider) (w : Withdrawal) (a : Answer Price)
    → Keeps IsOnce (at_quote out cfg provider w a)
at_quote-Keeps out cfg provider w (Answer.refused m) = search (keeps_rules, provider_failure-Keeps)
at_quote-Keeps out cfg provider w (Answer.answered price) =
    at_price-Keeps out cfg provider w price cfg.max_price_trx

quote_from-Keeps :
    (out : Outside) (cfg : EngineConfig) (w : Withdrawal) (provider : Option Provider)
    → Keeps IsOnce (quote_from out cfg w provider)
quote_from-Keeps out cfg w none = Keeps-pure Rented.unavailable
quote_from-Keeps out cfg w (some provider) =
    search (keeps_rules, provider_enabled-Keeps, at_quote-Keeps)

rent_anew-Keeps :
    (out : Outside) (cfg : EngineConfig) (w : Withdrawal) → Keeps IsOnce (rent_anew out cfg w)
rent_anew-Keeps out cfg w = search (keeps_rules, quote_from-Keeps)

rent_on-Keeps :
    (out : Outside) (cfg : EngineConfig) (w : Withdrawal) (p : EnergyPurchase) (s : PurchaseStatus)
    → Keeps IsOnce (rent_on out cfg w p s)
rent_on-Keeps out cfg w p PurchaseStatus.delegated = Keeps-pure Rented.ready
rent_on-Keeps out cfg w p PurchaseStatus.failed = Keeps-pure Rented.unavailable
rent_on-Keeps out cfg w p PurchaseStatus.expired = Keeps-pure Rented.unavailable
rent_on-Keeps out cfg w p PurchaseStatus.purchased = poll_purchase-Keeps out cfg p
rent_on-Keeps out cfg w p PurchaseStatus.quoted = rent_anew-Keeps out cfg w

rent_with-Keeps :
    (out : Outside) (cfg : EngineConfig) (w : Withdrawal) (p : Option EnergyPurchase)
    → Keeps IsOnce (rent_with out cfg w p)
rent_with-Keeps out cfg w none = rent_anew-Keeps out cfg w
rent_with-Keeps out cfg w (some p) = rent_on-Keeps out cfg w p p.status

pub try_rental-Keeps :
    (out : Outside) (cfg : EngineConfig) (w : Withdrawal) → Keeps IsOnce (try_rental out cfg w)
unfolding try_rental
try_rental-Keeps out cfg w = search (keeps_rules, rent_with-Keeps)

reset-Keeps : (provider : ℕ) → Keeps IsOnce (write (λ db. ok (reset_provider_failures provider db)))
reset-Keeps provider =
    put-Keeps (reset_provider_failures provider) (reset_provider_failures-Advances provider)

complete_purchase-Keeps :
    (id : ℕ) (actual : Option Price) (txid : Option ℕ) (now : Time)
    → Keeps IsOnce (write (λ db. ok (complete_purchase id actual txid now db)))
complete_purchase-Keeps id actual txid now =
    put-Keeps (complete_purchase id actual txid now) (complete_purchase-Advances id actual txid now)

complete-Keeps :
    (out : Outside) (p : EnergyPurchase) (actual : Option Price) (txid : Option ℕ)
    → Keeps IsOnce (complete out p actual txid)
complete-Keeps out p actual txid =
    search (keeps_rules, set-Keeps, reset-Keeps, complete_purchase-Keeps)

complete_late-Keeps :
    (out : Outside) (cfg : EngineConfig) (p : EnergyPurchase) (actual : Option Price)
    (txid : Option ℕ)
    → Keeps IsOnce (complete_late out cfg p actual txid)
complete_late-Keeps out cfg p actual txid =
    search (keeps_rules, timed_out-Keeps, complete-Keeps, delay-Keeps)

finish_heard-Keeps :
    (out : Outside) (cfg : EngineConfig) (p : EnergyPurchase) (a : Answer ProviderOrder)
    → Keeps IsOnce (finish_heard out cfg p a)
finish_heard-Keeps out cfg p (Answer.refused m) =
    complete_late-Keeps out cfg p p.actual_trx p.delegation_txid
finish_heard-Keeps out cfg p (Answer.answered o) =
    search (keeps_rules, complete-Keeps, complete_late-Keeps)

finish_with-Keeps :
    (out : Outside) (cfg : EngineConfig) (p : EnergyPurchase) (provider : Option Provider)
    → Keeps IsOnce (finish_with out cfg p provider)
finish_with-Keeps out cfg p none = complete-Keeps out p p.actual_trx p.delegation_txid
finish_with-Keeps out cfg p (some provider) = search (keeps_rules, finish_heard-Keeps)

pub finish_rental-Keeps :
    (out : Outside) (cfg : EngineConfig) (p : EnergyPurchase)
    → Keeps IsOnce (finish_rental out cfg p)
unfolding finish_rental
finish_rental-Keeps out cfg p = finish_with-Keeps out cfg p out.provider

judge_balance-Keeps :
    (out : Outside) (cfg : EngineConfig) (now : Time) (balance warn : Price)
    → Keeps IsOnce (judge_balance out cfg now balance warn)
judge_balance-Keeps out cfg now (some value) (some warn) = search (
  keeps_rules,
  set-Keeps,
  write-Keeps (record_provider_balance cfg.provider_name (some value) (some warn) now cfg.events)
      (λ db db' e.
        record_provider_balance-Advances cfg.provider_name (some value) (some warn) now cfg.events
          db e),
)
judge_balance-Keeps out cfg now (some value) none = Keeps-raise _
judge_balance-Keeps out cfg now none warn = Keeps-raise _

heard_balance-Keeps :
    (out : Outside) (cfg : EngineConfig) (now : Time) (a : Answer Price)
    → Keeps IsOnce (heard_balance out cfg now a)
heard_balance-Keeps out cfg now (Answer.refused m) =
    put-Keeps (record_provider_balance_error cfg.provider_name now m)
      (record_provider_balance_error-Advances cfg.provider_name now m)
heard_balance-Keeps out cfg now (Answer.answered balance) =
    judge_balance-Keeps out cfg now balance cfg.balance_warn_trx

check_balance_of-Keeps :
    (out : Outside) (cfg : EngineConfig) (now : Time) (p : Option Provider)
    → Keeps IsOnce (check_balance_of out cfg now p)
check_balance_of-Keeps out cfg now none = Keeps-pure tt
check_balance_of-Keeps out cfg now (some provider) =
    search (keeps_rules, set-Keeps, heard_balance-Keeps)

pub check_provider_balance-Keeps :
    (out : Outside) (cfg : EngineConfig) → Keeps IsOnce (check_provider_balance out cfg)
unfolding check_provider_balance
check_provider_balance-Keeps out cfg = search (keeps_rules, check_balance_of-Keeps)
