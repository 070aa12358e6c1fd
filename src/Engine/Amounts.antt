-- ===== src/Engine/Amounts.antt =====
-- How much is delegated (internal/withdraw/engine.go: delegationAmount).
use payd.Prelude.{
  ℕ, zero, suc, ◌+◌, ◌*◌, ◌/◌, ◌≤◌, true, ◌≡◌, refl, subst, arith, leb, Bool-cases, inl, inr, ℤ,
  pos, negsuc, ok, ok-injective, ap, ◌↔◌,
}
use native.Mathlib.Nat.{div-lt_iff_lt-mul, mul-le-mul_right}
use payd.Orders.{max_int64}
use payd.Schema.{ResourceType}
use payd.Engine.Node.{
  ResourceState, one_trx, rounded_up, at_least_one, amount_for, delegation_amount,
}

-- Enough for what is missing: so many sun at the network's ratio, and the protocol's least amount.
abbrev pub IsEnough : (missing weight limit amount : ℕ) → Type 0
IsEnough missing weight limit amount =
    (one_trx ≤ amount) × (missing * weight * one_trx ≤ amount * limit)

-- The least amount that is enough, where all are positive and it fits the type of the source.
pub record IsLeast (missing weight limit amount : ℕ) : Type 0 where
  pub enough : IsEnough missing weight limit amount
  pub least : (other : ℕ) → IsEnough missing weight limit other → amount ≤ other

ceiling-le : (n l m : ℕ) → n ≤ m * suc l → (n + l) / suc l ≤ m
ceiling-le n l m h =
    let below =
      (div-lt_iff_lt-mul {k = suc l} {x = n + l} {y = suc m} (omega arith)).1 (omega (arith, h)) in
    omega (arith, below)

ceiling-covers : (n l : ℕ) → n ≤ (n + l) / suc l * suc l
ceiling-covers n l = omega arith

raised : (n : ℕ) → n ≤ at_least_one n
raised n = ground arith

at_least_one-IsLeast : (m w l : ℕ) → IsLeast m w (suc l) (at_least_one (rounded_up m w l))
at_least_one-IsLeast m w l =
    let n = m * w * one_trx in
    let more = mul-le-mul_right (suc l) (raised (rounded_up m w l)) in
    record {
      enough = (ground arith, omega (arith, ceiling-covers n l, more));
      least =
          λ other e. let up = ceiling-le n l other e.1 in let one = e.0 in ground (arith, up, one);
    }

-- What an amount has to be, for signed numbers as the node answers them.
pub record IsDelegation (missing limit weight : ℤ) (amount : ℕ) : Type 0 where
  pub missing_units : ℕ
  pub network_limit : ℕ
  pub network_weight : ℕ
  pub is_missing : missing ≡ pos (suc missing_units)
  pub is_limited : limit ≡ pos (suc network_limit)
  pub is_weighted : weight ≡ pos (suc network_weight)
  pub least : IsLeast (suc missing_units) (suc network_weight) (suc network_limit) amount
  pub fits : amount ≤ max_int64

amount_for-IsDelegation :
    (missing limit weight : ℤ) (n : ℕ)
    → amount_for missing limit weight ≡ ok n
    → IsDelegation missing limit weight n
amount_for-IsDelegation (pos (suc m)) (pos (suc l)) (pos (suc w)) n h =
    let a = at_least_one (rounded_up (suc m) (suc w) l) in
    elim (Bool-cases (leb a max_int64)) [
      | inl y ↦
          let same = ok-injective (rw y at h) in
          record {
            missing_units = m;
            network_limit = l;
            network_weight = w;
            is_missing = refl;
            is_limited = refl;
            is_weighted = refl;
            least =
                subst (IsLeast (suc m) (suc w) (suc l)) same
                  (at_least_one-IsLeast (suc m) (suc w) l);
            fits = subst (λ x. x ≤ max_int64) same (ground (arith, y));
          }
      | inr y ↦ let bad = rw y at h in cc
    ]
amount_for-IsDelegation (pos (suc m)) (pos (suc l)) (pos zero) n h = cc
amount_for-IsDelegation (pos (suc m)) (pos (suc l)) (negsuc w) n h = cc
amount_for-IsDelegation (pos (suc m)) (pos zero) weight n h = cc
amount_for-IsDelegation (pos (suc m)) (negsuc l) weight n h = cc
amount_for-IsDelegation (pos zero) limit weight n h = cc
amount_for-IsDelegation (negsuc m) limit weight n h = cc

IsDelegation-amount_for :
    (missing limit weight : ℤ) (n : ℕ)
    → IsDelegation missing limit weight n
    → amount_for missing limit weight ≡ ok n
IsDelegation-amount_for missing limit weight n d =
    let m = d.missing_units in
    let l = d.network_limit in
    let w = d.network_weight in
    let a = at_least_one (rounded_up (suc m) (suc w) l) in
    let mine = at_least_one-IsLeast (suc m) (suc w) l in
    let same : a ≡ n = omega (arith, mine.least n d.least.enough, d.least.least a mine.enough) in
    let fits : leb a max_int64 ≡ true = ground (arith, same, d.fits) in
    rw (d.is_missing, d.is_limited, d.is_weighted) (rw fits (ap ok same))

abbrev pub limit_of : ResourceType → ResourceState → ℤ
limit_of ResourceType.energy r = r.total_energy_limit
limit_of ResourceType.bandwidth r = r.total_bandwidth_limit

abbrev pub weight_of : ResourceType → ResourceState → ℤ
weight_of ResourceType.energy r = r.total_energy_weight
weight_of ResourceType.bandwidth r = r.total_bandwidth_weight

-- The amount that is delegated is exactly the least number of sun that is enough: at least one TRX,
-- worth at least the missing units at the network's ratio of limit to weight, and within a signed
-- 64-bit integer. There is an amount precisely where the missing units, the limit and the weight are
-- positive and that least number fits.
pub delegation_amount-IsLeast :
    (t : ResourceType) (missing : ℤ) (r : ResourceState) (n : ℕ)
    → (delegation_amount t missing r ≡ ok n) ↔ IsDelegation missing (limit_of t r) (weight_of t r) n
unfolding delegation_amount
delegation_amount-IsLeast ResourceType.energy missing r n =
    (amount_for-IsDelegation missing _ _ n, IsDelegation-amount_for missing _ _ n)
delegation_amount-IsLeast ResourceType.bandwidth missing r n =
    (amount_for-IsDelegation missing _ _ n, IsDelegation-amount_for missing _ _ n)
