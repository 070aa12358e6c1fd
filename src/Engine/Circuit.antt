-- ===== src/Engine/Circuit.antt =====
-- The provider's circuit breaker (internal/withdraw/engine.go: recordProviderFailure,
-- providerEnabled, tryRental).
use payd.Prelude.{
  ℕ, ◌+◌, ◌≤◌, ◌<◌, Bool, true, false, ◌≡◌, refl, sym, Option, none, some, arith, leb, ltb, ◌⊎◌,
  inl, inr, if◌then◌else◌, ok,
}
use payd.Schema.{Database, Withdrawal, Time}
use payd.Rental.{purchase_for_withdrawal, record_provider_failure}
use payd.Engine.Action.{Action, World, Outside, Provider, EngineConfig, pure, ask, get, set, call}
use payd.Engine.Rent.{
  Rented, quote_from, try_rental, provider_failure, provider_enabled, circuit_pause,
}

-- The world in which the circuit is open.
abbrev opened : Outside → World → Database → World
opened out w db = record w {
  store = db;
  circuit_until = some (out.clock w.calls + circuit_pause);
  calls = w.calls + 1;
}

-- The withdrawal rents nothing, and nobody outside but the clock is asked anything: the world after
-- is the one before, or differs by one reading of the clock.
abbrev pub BuysNothing : Action Rented → World → Type 0
BuysNothing act w =
    ((act w).0 ≡ ok Rented.unavailable)
    × (((act w).1 ≡ w) ⊎ ((act w).1 ≡ record w { calls = w.calls + 1 }))

either-BuysNothing :
    (b : Bool) (act other : Action Rented) (w : World)
    → BuysNothing act w
    → BuysNothing other w
    → BuysNothing (if b then act else other) w
either-BuysNothing true act other w h k = h
either-BuysNothing false act other w h k = k

quote_refused :
    (out : Outside) (cfg : EngineConfig) (v : Withdrawal) (w : World) (p : Option Provider)
    (until : Time)
    → w.circuit_until ≡ some until
    → out.clock w.calls < until
    → p ≡ out.provider
    → BuysNothing (quote_from out cfg v p) w
unfolding provider_enabled ask get
quote_refused out cfg v w none until is_open early same = (refl, inl refl)
quote_refused out cfg v w (some p) until is_open early same =
    let closed : ltb (out.clock w.calls) until ≡ true = ground (arith, early) in
    rw (sym same, is_open, closed) (refl, inr refl)

-- Where a failure of the provider is at least the fifth in a row, the circuit opens for ten minutes
-- from the reading of the clock. In any later world in which it is still set to that time, whatever
-- else has been done in between, an attempt to rent at a time before it, for a withdrawal without a
-- purchase, asks for no quote and buys nothing: the engine goes on to the next source of energy, and
-- the world is as it was, but for at most one reading of the clock.
pub fifth_failure_opens :
    (out : Outside) (cfg : EngineConfig) (v : Withdrawal) (reason : ℕ) (w : World)
    (x : ℕ × Database) (later : World)
    → record_provider_failure cfg.provider_name reason w.store ≡ ok x
    → 5 ≤ x.0
    → later.circuit_until ≡ (provider_failure out cfg.provider_name reason w).1.circuit_until
    → out.clock later.calls < out.clock w.calls + circuit_pause
    → purchase_for_withdrawal v.id later.store ≡ none
    → ((provider_failure out cfg.provider_name reason w).1 ≡ opened out w x.1)
      × BuysNothing (try_rental out cfg v) later
unfolding provider_failure try_rental call ask set get
fifth_failure_opens out cfg v reason w x later failed fifth kept early unbought =
    let five : leb 5 x.0 ≡ true = ground (arith, fifth) in
    let is_open : later.circuit_until ≡ some (out.clock w.calls + circuit_pause) =
      rw (failed, five) at kept in
    rw (failed, five, unbought)
      (
        refl,
        either-BuysNothing cfg.energy_enabled (quote_from out cfg v out.provider)
            (pure Rented.unavailable) later
            (quote_refused out cfg v later out.provider (out.clock w.calls + circuit_pause) is_open
              early refl)
            (refl, inl refl),
      )
