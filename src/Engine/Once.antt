-- ===== src/Engine/Once.antt =====
-- How often something goes out: the broadcast for a withdrawal and for a grant, and a prepaid purchase
-- (internal/withdraw/engine.go).
pub mod Advance
pub mod Withdrawing
pub mod Renting
pub mod Granting
pub mod Sending
pub mod Grants
pub mod Topups
pub mod Rent
pub mod Energy
pub mod Requesting
pub mod Gates
pub mod Ticks
pub mod Steps
use payd.Prelude.{
  count_mono, ℕ, ◌+◌, ◌≤◌, Bool, true, false, ◌&&◌, List, ◌==◌, ltb, if◌then◌else◌, is_some, count,
  arith, ◌≡◌, Bool-cases, inl, inr,
}
use payd.Schema.{Database, Withdrawal, ResourceGrant, EnergyPurchase}
use payd.Engine.Action.{Effect, World}

abbrev pub same_effect : Effect → Effect → Bool
same_effect (Effect.sent_withdrawal a) (Effect.sent_withdrawal b) = a == b
same_effect (Effect.sent_grant a) (Effect.sent_grant b) = a == b
same_effect (Effect.purchased a) (Effect.purchased b) = a == b
same_effect _ _ = false

-- How often the effect has gone out.
abbrev pub times : Effect → World → ℕ
times e w = count (same_effect e) w.effects

abbrev pub key : Effect → ℕ
key (Effect.sent_withdrawal id) = id
key (Effect.sent_grant id) = id
key (Effect.purchased id) = id

abbrev pub is_tried_withdrawal : (id : ℕ) → Withdrawal → Bool
is_tried_withdrawal id w = w.id == id && is_some w.txid

abbrev pub is_tried_grant : (id : ℕ) → ResourceGrant → Bool
is_tried_grant id g = g.id == id && is_some g.txid

abbrev pub is_tried_purchase : (id : ℕ) → EnergyPurchase → Bool
is_tried_purchase id p = p.id == id && is_some p.provider_order_id

-- The rows that record an attempt, and all rows with the identifier.
abbrev pub tries : Effect → Database → ℕ
tries (Effect.sent_withdrawal id) db = count (is_tried_withdrawal id) db.withdrawals
tries (Effect.sent_grant id) db = count (is_tried_grant id) db.grants
tries (Effect.purchased id) db = count (is_tried_purchase id) db.purchases

abbrev pub rows : Effect → Database → ℕ
rows (Effect.sent_withdrawal id) db = count (λ w. w.id == id) db.withdrawals
rows (Effect.sent_grant id) db = count (λ g. g.id == id) db.grants
rows (Effect.purchased id) db = count (λ p. p.id == id) db.purchases

-- One row for an identifier that was drawn, none for one that was not.
abbrev pub drawn : (id draws : ℕ) → ℕ
drawn id draws = if ltb id draws then 1 else 0

abbrev pub IsKeyed : Database → Type 0
IsKeyed db = (e : Effect) → rows e db ≤ drawn (key e) db.draws

-- Identifiers are unique, and nothing has gone out that is not recorded.
pub record IsOnce (w : World) : Type 0 where
  pub keyed : IsKeyed w.store
  pub covered : (e : Effect) → times e w ≤ tries e w.store

tries-le-rows : (e : Effect) (db : Database) → tries e db ≤ rows e db
tries-le-rows (Effect.sent_withdrawal id) db = count_mono _ _ (λ x h. ground arith) db.withdrawals
tries-le-rows (Effect.sent_grant id) db = count_mono _ _ (λ x h. ground arith) db.grants
tries-le-rows (Effect.purchased id) db = count_mono _ _ (λ x h. ground arith) db.purchases

drawn-le-one : (id draws : ℕ) → drawn id draws ≤ 1
drawn-le-one id draws = ground arith

pub IsOnce-times : (w : World) → IsOnce w → (e : Effect) → times e w ≤ 1
IsOnce-times w h e =
    omega
      (arith, h.covered e, tries-le-rows e w.store, h.keyed e, drawn-le-one (key e) w.store.draws)
