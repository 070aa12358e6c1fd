-- ===== src/Engine/Burning.antt =====
-- What energy may cost (internal/withdraw/engine.go: sourceEnergy).
use payd.Prelude.{
  ℕ, ◌*◌, ◌≤◌, Bool, true, false, not, ◌≡◌, refl, subst, ◌⊎◌, inl, inr, Option, none, some, arith,
  if◌then◌else◌, ℤ, pos, pos_part, leb_ℤ, Result, ok, err, ok-injective,
}
use payd.Decimal.{set_string, parse_units}
use payd.Schema.{Balance, ChainParameters, Withdrawal, WithdrawalStatus, ResourceType}
use payd.Withdrawals.Outcome.{burned, trx}
use payd.Engine.Node.{ResourceState}
use payd.Engine.Action.{Action, World, Outside, EngineConfig, ◌>>=◌, ◌>>◌, follow, pure, get}
use payd.Engine.Delegate.{ensure_delegation}
use payd.Engine.Rent.{
  Rented, rented, try_rental, delegation_unavailable, energy_burn_limit, energy_burn_unavailable,
}
use payd.Engine.Energy.{
  balance_for, burn_cost, affords, is_within, burn_at, burn_with, missing_energy, delegate_or_burn,
  after_rental, source_energy, fail_for, move_to,
}

-- What holds of the value and the world that an action ends with, where it ends without an error.
record Ensures {A : Type 0} (Q : A → World → Type 0) (act : Action A) : Type 0 where
  at : (w : World) (a : A) → (act w).0 ≡ ok a → Q a (act w).1

module _ {A : Type 0} {Q : A → World → Type 0} where
  follow-Ensures :
      {B : Type 0} (r : Result B × World) (next : B → Action A)
      → ((b : B) → Ensures Q (next b))
      → (a : A) → (follow r next).0 ≡ ok a
      → Q a (follow r next).1
  follow-Ensures (ok b, w) next k a h = (k b).at w a h
  follow-Ensures (err e, w) next k a h = cc

  Ensures-bind :
      {B : Type 0} (act : Action B) (next : B → Action A)
      → ((b : B) → Ensures Q (next b))
      → Ensures Q (act >>= next)
  Ensures-bind act next k = record { at = λ w a h. follow-Ensures (act w) next k a h }

  Ensures-if :
      (b : Bool) (act other : Action A)
      → Ensures Q act
      → Ensures Q other
      → Ensures Q (if b then act else other)
  Ensures-if true act other h k = h
  Ensures-if false act other h k = k

  Ensures-pure : (a : A) → ((w : World) → Q a w) → Ensures Q (pure a)
  Ensures-pure a q = record { at = λ w b h. subst (λ x. Q x w) (ok-injective h) (q w) }

-- A test, of which each branch knows the outcome.
if-Ensures :
    {A : Type 0} (Q : A → World → Type 0) (b : Bool) (act other : Action A) (w : World) (a : A)
    → (b ≡ true → (act w).0 ≡ ok a → Q a (act w).1)
    → (b ≡ false → (other w).0 ≡ ok a → Q a (other w).1)
    → ((if b then act else other) w).0 ≡ ok a
    → Q a ((if b then act else other) w).1
if-Ensures Q true act other w a h k e = h refl e
if-Ensures Q false act other w a h k e = k refl e

-- The cost of the missing energy is within the limit of the settings and within the confirmed balance
-- of the address in TRX, which has not drifted.
pub record IsBurnable (cfg : EngineConfig) (v : Withdrawal) (r : ResourceState) (w : World)
    : Type 0 where
  pub params : ChainParameters
  pub ceiling : ℕ
  pub balance : Balance
  pub available : ℤ
  pub allowed : cfg.fallback_to_burn ≡ true
  pub has_params : w.store.chain_params ≡ some params
  pub has_ceiling : parse_units cfg.max_burn_trx 6 ≡ ok ceiling
  pub has_balance : balance_for v.from_address trx w.store ≡ ok balance
  pub has_available : set_string balance.confirmed_raw ≡ some available
  pub within : pos_part (missing_energy cfg r) * params.energy_fee ≤ ceiling
  pub covered : leb_ℤ (pos (pos_part (missing_energy cfg r) * params.energy_fee)) available ≡ true

-- A source of energy that is ready: rented, or burnt at a cost that is allowed.
abbrev pub IsSourced : EngineConfig → Withdrawal → ResourceState → Option ℕ → World → Type 0
IsSourced cfg v r none w = Unit
IsSourced cfg v r (some source) w = (source ≡ rented) ⊎ ((source ≡ burned) × IsBurnable cfg v r w)

within_ceiling :
    (cost : ℕ) (limit : Result ℕ)
    → is_within cost limit ≡ true
    → (ceiling : ℕ) × (limit ≡ ok ceiling) × (cost ≤ ceiling)
within_ceiling cost (ok ceiling) h = (ceiling, refl, ground (arith, h))
within_ceiling cost (err e) h = cc

covered_by :
    (cost : ℕ) (b : Balance) (o : Option ℤ)
    → set_string b.confirmed_raw ≡ o
    → affords (ok b) cost ≡ true
    → (available : ℤ) × (o ≡ some available) × (leb_ℤ (pos cost) available ≡ true)
covered_by cost b (some available) e h = (available, refl, rw (e, affords) at h)
covered_by cost b none e h = let bad = rw (e, affords) at h in cc

affordable :
    (cost : ℕ) (b : Result Balance)
    → affords b cost ≡ true
    → (balance : Balance) × (available : ℤ) × (b ≡ ok balance)
      × (set_string balance.confirmed_raw ≡ some available)
      × (leb_ℤ (pos cost) available ≡ true)
affordable cost (err e) h = cc
affordable cost (ok balance) h =
    let (available, e, covered) =
      covered_by cost balance (set_string balance.confirmed_raw) refl h in
    (balance, available, refl, e, covered)

module _ (out : Outside) (cfg : EngineConfig) (v : Withdrawal) (r : ResourceState) where
  nothing_after :
      {B : Type 0} (act : Action B) → Ensures (IsSourced cfg v r) (act >>= λ b. pure none)
  nothing_after act = Ensures-bind act _ (λ b. Ensures-pure none (λ w. tt))

  burnable :
      (params : ChainParameters) (w : World)
      → is_within
          (pos_part (missing_energy cfg r) * params.energy_fee)
          (parse_units cfg.max_burn_trx 6)
        ≡ true
      → affords
          (balance_for v.from_address trx w.store)
          (pos_part (missing_energy cfg r) * params.energy_fee)
        ≡ true
      → cfg.fallback_to_burn ≡ true
      → w.store.chain_params ≡ some params
      → IsBurnable cfg v r w
  burnable params w y z allowed has_params =
      let (ceiling, has_ceiling, within) = within_ceiling _ (parse_units cfg.max_burn_trx 6) y in
      let (balance, available, has_balance, has_available, covered) =
        affordable _ (balance_for v.from_address trx w.store) z in
      record {
        params = params;
        ceiling = ceiling;
        balance = balance;
        available = available;
        allowed = allowed;
        has_params = has_params;
        has_ceiling = has_ceiling;
        has_balance = has_balance;
        has_available = has_available;
        within = within;
        covered = covered;
      }

  burn_at-IsSourced :
      (params : ChainParameters) (w : World) (a : Option ℕ)
      → cfg.fallback_to_burn ≡ true
      → w.store.chain_params ≡ some params
      → (burn_at out cfg v (burn_cost (pos_part (missing_energy cfg r)) params.energy_fee) w).0
        ≡ ok a
      → IsSourced cfg v r a
          (burn_at out cfg v (burn_cost (pos_part (missing_energy cfg r)) params.energy_fee) w).1
  unfolding get
  burn_at-IsSourced params w a allowed has_params h =
      let cost = pos_part (missing_energy cfg r) * params.energy_fee in
      let limit = parse_units cfg.max_burn_trx 6 in
      let held = balance_for v.from_address trx w.store in
      if-Ensures (IsSourced cfg v r) (is_within cost limit) _ _ w a
        (λ y.
          if-Ensures (IsSourced cfg v r) (affords held cost) _ _ w a
            (λ z e.
              subst (λ x. IsSourced cfg v r x w) (ok-injective e)
                (inr (refl, burnable params w y z allowed has_params)))
            (λ z e. (nothing_after (fail_for out cfg v energy_burn_unavailable)).at w a e))
        (λ y e. (nothing_after (fail_for out cfg v energy_burn_limit)).at w a e) h

  burn_with-IsSourced :
      (status : WithdrawalStatus) (o : Option ChainParameters) (w : World) (a : Option ℕ)
      → cfg.fallback_to_burn ≡ true
      → w.store.chain_params ≡ o
      → (burn_with out cfg status v (pos_part (missing_energy cfg r)) o w).0 ≡ ok a
      → IsSourced cfg v r a (burn_with out cfg status v (pos_part (missing_energy cfg r)) o w).1
  burn_with-IsSourced status none w a allowed e h =
      (nothing_after (move_to out v status WithdrawalStatus.awaiting_resources none none)).at w a h
  burn_with-IsSourced status (some params) w a allowed e h =
      burn_at-IsSourced params w a allowed e h

  unpending-IsSourced :
      (status : WithdrawalStatus)
      → Ensures (IsSourced cfg v r) (
          if not cfg.fallback_to_burn
          then (fail_for out cfg v delegation_unavailable >> pure none)
          else (get (λ x. x.store.chain_params)
              >>= burn_with out cfg status v (pos_part (missing_energy cfg r))))
  unfolding get
  unpending-IsSourced status = record {
    at = λ w a h.
        if-Ensures (IsSourced cfg v r) (not cfg.fallback_to_burn) _ _ w a
          (λ y e. (nothing_after (fail_for out cfg v delegation_unavailable)).at w a e)
          (λ y e. burn_with-IsSourced status w.store.chain_params w a (ground (arith, y)) refl e) h;
  }

  delegate_or_burn-IsSourced :
      (status : WithdrawalStatus)
      → Ensures (IsSourced cfg v r) (delegate_or_burn out cfg status v r)
  delegate_or_burn-IsSourced status =
      Ensures-bind (ensure_delegation out cfg v ResourceType.energy (missing_energy cfg r) r) _
        (λ pending.
          Ensures-if pending _ _ (Ensures-pure none (λ w. tt)) (unpending-IsSourced status))

  after_rental-IsSourced :
      (status : WithdrawalStatus) (x : Rented)
      → Ensures (IsSourced cfg v r) (after_rental out cfg status v r x)
  after_rental-IsSourced status Rented.ready = Ensures-pure (some rented) (λ w. inl refl)
  after_rental-IsSourced status Rented.pending = Ensures-pure none (λ w. tt)
  after_rental-IsSourced status Rented.unavailable = delegate_or_burn-IsSourced status

-- TRX is burnt for energy only within bounds: where `sourceEnergy` ends with a source that is ready,
-- energy was rented, or burning is switched on and the cost of the missing energy, at the fee of the
-- chain, is within the limit of the settings and within the confirmed TRX of the address, whose
-- balance has not drifted.
pub source_energy-IsSourced :
    (out : Outside) (cfg : EngineConfig) (status : WithdrawalStatus) (v : Withdrawal)
    (r : ResourceState) (w : World) (source : Option ℕ)
    → (source_energy out cfg status v r w).0 ≡ ok source
    → IsSourced cfg v r source (source_energy out cfg status v r w).1
unfolding source_energy
source_energy-IsSourced out cfg status v r w source h =
    (Ensures-bind (try_rental out cfg v) _ (after_rental-IsSourced out cfg v r status)).at w source
      h
