-- ===== src/Engine/Rent.antt =====
-- Rented energy (internal/withdraw/engine.go: tryRental, finishRental, failRental,
-- recordProviderFailure, providerEnabled, energyPollDue, delayEnergyPoll, purchaseTimedOut).
use payd.Prelude.{
  ℕ, ◌+◌, ◌*◌, Bool, true, false, not, Option, none, some, List, ◌∷◌, leb, ltb, ◌==◌, if◌then◌else◌,
  find, select, coalesce, map_option, ok, bad_argument,
}
use payd.Schema.{Time, second, Price, Rat, Withdrawal, EnergyPurchase, PurchaseStatus}
use payd.Withdrawals.{leb_rat}
use payd.Withdrawals.Transitions.{kept_unless}
use payd.Rental.{
  purchase_for_withdrawal, create_purchase, mark_purchase_attempt, reject_quote,
  record_purchase_order, complete_purchase, fail_purchase, price_unless, record_provider_failure,
  reset_provider_failures,
}
use payd.Engine.Node.{Answer}
use payd.Engine.Action.{
  Action, Outside, Provider, ProviderOrder, OrderState, EngineConfig, Effect, ◌>>=◌, ◌>>◌, pure,
  raise, ask, get, set, write, call, spend,
}

-- Texts: the sources of energy, and the reasons of a failure.
abbrev pub rented : ℕ
rented = 30

abbrev pub poll_timeout_reason : ℕ
poll_timeout_reason = 31

abbrev pub provider_failed : ℕ
provider_failed = 32

abbrev pub quote_too_high : ℕ
quote_too_high = 33

abbrev pub delegation_unavailable : ℕ
delegation_unavailable = 34

abbrev pub energy_burn_limit : ℕ
energy_burn_limit = 35

abbrev pub energy_burn_unavailable : ℕ
energy_burn_unavailable = 36

abbrev pub poll_at : (id : ℕ) → List (ℕ × Time) → Option Time
poll_at id polls = map_option (λ p. p.1) (find (λ p. p.0 == id) polls)

abbrev pub without_poll : (id : ℕ) → List (ℕ × Time) → List (ℕ × Time)
without_poll id polls = select (λ p. not (p.0 == id)) polls

abbrev pub with_poll : (id : ℕ) → Time → List (ℕ × Time) → List (ℕ × Time)
with_poll id t polls = (id, t) ∷ without_poll id polls

-- `!t.IsZero() && now.Before(t)`
abbrev pub is_before : (now : Time) → Option Time → Bool
is_before now none = false
is_before now (some t) = ltb now t

-- `energyPollDue`
unfoldable pub energy_poll_due : Outside → (id : ℕ) → (interval : Time) → Action Bool
energy_poll_due out id interval = do
  now ← ask out.clock
  polls ← get (λ w. w.next_energy_poll)
  if is_before now (poll_at id polls)
      then pure false
      else (set
            (λ f. record f { next_energy_poll = with_poll id (now + interval) f.next_energy_poll })
          >> pure true)

-- `delayEnergyPoll`
unfoldable pub delay_energy_poll : Outside → (id : ℕ) → (interval : Time) → Action (Unit {0})
delay_energy_poll out id interval = do
  now ← ask out.clock
  set (λ f. record f { next_energy_poll = with_poll id (now + interval) f.next_energy_poll })

-- `purchaseTimedOut`
unfoldable pub purchase_timed_out : Outside → EnergyPurchase → (timeout : Time) → Action Bool
purchase_timed_out out p timeout =
    if ltb 0 timeout
    then (ask out.clock >>= λ now. pure (leb (p.created_at * second + timeout) now))
    else pure false

-- `failures >= 5`
abbrev pub failure_limit : ℕ
failure_limit = 5

abbrev pub circuit_pause : Time
circuit_pause = 600 * second

abbrev pub open_circuit : Outside → Action (Unit {0})
open_circuit out =
    ask out.clock >>= λ now. set (λ f. record f { circuit_until = some (now + circuit_pause) })

-- `recordProviderFailure`
unfoldable pub provider_failure : Outside → (provider reason : ℕ) → Action (Unit {0})
provider_failure out provider reason = do
  failures ← call (record_provider_failure provider reason)
  if leb failure_limit failures then open_circuit out else pure tt

abbrev pub circuit_allows : (now : Time) → Option Time → Action Bool
circuit_allows now none = pure true
circuit_allows now (some t) =
    if ltb now t then pure false else (set (λ f. record f { circuit_until = none }) >> pure true)

abbrev pub enabled_with : Option Provider → (now : Time) → Action Bool
enabled_with none now = pure false
enabled_with (some p) now = get (λ w. w.circuit_until) >>= circuit_allows now

-- `providerEnabled`
unfoldable pub provider_enabled : Outside → Action Bool
provider_enabled out = ask out.clock >>= enabled_with out.provider

-- `failRental`
unfoldable pub fail_rental :
    Outside → EngineConfig → EnergyPurchase → (reason : ℕ) → Action (Unit {0})
fail_rental out cfg p reason = do
  now ← ask out.clock
  write (fail_purchase p.id reason now cfg.events)
  set (λ f. record f { next_energy_poll = without_poll p.id f.next_energy_poll })
  provider_failure out p.provider reason

-- (ready, pending) of `tryRental`: (true, false), (false, true) and (false, false)
pub data Rented : Type 0 where
  ready pending unavailable : Rented

abbrev pub await_energy : Outside → EngineConfig → (id : ℕ) → Action Rented
await_energy out cfg id = delay_energy_poll out id cfg.poll_interval >> pure Rented.pending

abbrev pub lose_rental : Outside → EngineConfig → EnergyPurchase → (reason : ℕ) → Action Rented
lose_rental out cfg p reason = fail_rental out cfg p reason >> pure Rented.unavailable

abbrev pub by_state : Outside → EngineConfig → EnergyPurchase → OrderState → Action Rented
by_state out cfg p OrderState.order_failed = lose_rental out cfg p provider_failed
by_state out cfg p _ = await_energy out cfg p.id

-- An answer about a purchase that was made: what it says is stored.
abbrev pub heard :
    Outside
    → EngineConfig
    → EnergyPurchase
    → (order_id : Option ℕ) → Answer ProviderOrder
    → Action Rented
heard out cfg p order_id (Answer.refused m) = await_energy out cfg p.id
heard out cfg p order_id (Answer.answered o) =
    write (λ db. ok (record_purchase_order p.id order_id o.actual_trx o.delegation_txid db))
    >> by_state out cfg p o.state

abbrev pub order_id_of : Answer ProviderOrder → Option ℕ
order_id_of (Answer.refused m) = none
order_id_of (Answer.answered o) = o.id

abbrev pub poll_provider : Outside → EngineConfig → EnergyPurchase → Option Provider → Action Rented
poll_provider out cfg p none = await_energy out cfg p.id
poll_provider out cfg p (some provider) =
    ask (λ n. provider.status n p.provider_order_id) >>= heard out cfg p none

abbrev pub poll_purchase : Outside → EngineConfig → EnergyPurchase → Action Rented
poll_purchase out cfg p = do
  timed_out ← purchase_timed_out out p cfg.poll_timeout
  if timed_out
      then lose_rental out cfg p poll_timeout_reason
      else poll_provider out cfg p out.provider

-- The one prepaid purchase, recorded before it is made. The order is known by the purchase's own
-- identifier until the provider names one.
unfoldable pub spend_purchase : Provider → (id : ℕ) → Action (Answer ProviderOrder)
spend_purchase provider id = do
  write (mark_purchase_attempt id id)
  spend (Effect.purchased id) (λ n. provider.purchase n id)

abbrev pub buy : Outside → EngineConfig → Provider → EnergyPurchase → Action Rented
buy out cfg provider p = do
  order ← spend_purchase provider p.id
  heard out cfg p (order_id_of order) order

abbrev pub buy_within :
    Outside → EngineConfig → Provider → (price maximum : Rat) → EnergyPurchase → Action Rented
buy_within out cfg provider price maximum p =
    if leb_rat price maximum
    then buy out cfg provider p
    else (write (λ db. ok (reject_quote p.id quote_too_high db)) >> pure Rented.unavailable)

abbrev pub at_price :
    Outside → EngineConfig → Provider → Withdrawal → (price maximum : Price) → Action Rented
at_price out cfg provider w (some price) (some maximum) = do
  now ← ask out.clock
  p ← call (
      create_purchase cfg.provider_name (some w.id) w.address_id w.from_address cfg.rent_amount
        cfg.rent_duration (some price) now)
  buy_within out cfg provider price maximum p
at_price out cfg provider w _ _ = raise bad_argument

abbrev pub at_quote : Outside → EngineConfig → Provider → Withdrawal → Answer Price → Action Rented
at_quote out cfg provider w (Answer.refused m) =
    provider_failure out cfg.provider_name m >> pure Rented.unavailable
at_quote out cfg provider w (Answer.answered price) =
    at_price out cfg provider w price cfg.max_price_trx

abbrev pub quote_from : Outside → EngineConfig → Withdrawal → Option Provider → Action Rented
quote_from out cfg w none = pure Rented.unavailable
quote_from out cfg w (some provider) = do
  enabled ← provider_enabled out
  if enabled
      then (ask (λ n. provider.quote n w.from_address) >>= at_quote out cfg provider w)
      else pure Rented.unavailable

abbrev pub rent_anew : Outside → EngineConfig → Withdrawal → Action Rented
rent_anew out cfg w =
    if cfg.energy_enabled then quote_from out cfg w out.provider else pure Rented.unavailable

abbrev pub rent_on :
    Outside → EngineConfig → Withdrawal → EnergyPurchase → PurchaseStatus → Action Rented
rent_on out cfg w p PurchaseStatus.delegated = pure Rented.ready
rent_on out cfg w p PurchaseStatus.failed = pure Rented.unavailable
rent_on out cfg w p PurchaseStatus.expired = pure Rented.unavailable
rent_on out cfg w p PurchaseStatus.purchased = poll_purchase out cfg p
rent_on out cfg w p PurchaseStatus.quoted = rent_anew out cfg w

abbrev pub rent_with : Outside → EngineConfig → Withdrawal → Option EnergyPurchase → Action Rented
rent_with out cfg w none = rent_anew out cfg w
rent_with out cfg w (some p) = rent_on out cfg w p p.status

-- `tryRental`
unfoldable pub try_rental : Outside → EngineConfig → Withdrawal → Action Rented
try_rental out cfg w = get (λ x. purchase_for_withdrawal w.id x.store) >>= rent_with out cfg w

-- The end of a rental: the price that was paid, or else the quoted one.
abbrev pub complete :
    Outside → EnergyPurchase → (actual : Option Price) → (txid : Option ℕ) → Action Bool
complete out p actual txid = do
  now ← ask out.clock
  write (λ db. ok (complete_purchase p.id (some (coalesce actual p.quoted_trx)) txid now db))
  write (λ db. ok (reset_provider_failures p.provider db))
  set (λ f. record f {
    next_energy_poll = without_poll p.id f.next_energy_poll;
    circuit_until = none;
  })
  pure true

-- Without a success the rental is only completed after the timeout.
abbrev pub complete_late :
    Outside
    → EngineConfig
    → EnergyPurchase
    → (actual : Option Price) → (txid : Option ℕ) → Action Bool
complete_late out cfg p actual txid = do
  timed_out ← purchase_timed_out out p cfg.poll_timeout
  if timed_out
      then complete out p actual txid
      else (delay_energy_poll out p.id cfg.poll_interval >> pure false)

abbrev pub is_delivered_order : OrderState → Bool
is_delivered_order OrderState.order_success = true
is_delivered_order _ = false

abbrev pub finish_heard :
    Outside → EngineConfig → EnergyPurchase → Answer ProviderOrder → Action Bool
finish_heard out cfg p (Answer.refused m) = complete_late out cfg p p.actual_trx p.delegation_txid
finish_heard out cfg p (Answer.answered o) =
    let actual = price_unless o.actual_trx p.actual_trx in
    let txid = kept_unless o.delegation_txid p.delegation_txid in
    if is_delivered_order o.state
    then complete out p actual txid
    else complete_late out cfg p actual txid

abbrev pub finish_with : Outside → EngineConfig → EnergyPurchase → Option Provider → Action Bool
finish_with out cfg p none = complete out p p.actual_trx p.delegation_txid
finish_with out cfg p (some provider) =
    ask (λ n. provider.status n p.provider_order_id) >>= finish_heard out cfg p

-- `finishRental`
unfoldable pub finish_rental : Outside → EngineConfig → EnergyPurchase → Action Bool
finish_rental out cfg p = finish_with out cfg p out.provider
