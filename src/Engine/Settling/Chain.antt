-- ===== src/Engine/Settling/Chain.antt =====
-- The final statuses that `resolve` gives, beside the answers of the node
-- (internal/withdraw/engine.go: resolve).
use payd.Prelude.{
  ℕ, ◌+◌, ◌≤◌, Bool, true, false, ◌||◌, ◌≡◌, refl, ◌⊎◌, inl, inr, Option, none, some, arith,
  Bool-cases, is_some, is_none, Result, ok, err,
}
use payd.Schema.{Time, Database, WithdrawalStatus}
use payd.Withdrawals.Transitions.{record_lookup, is_confirmed}
use payd.Engine.Node.{Lookup, Receipt, ReceiptLookup}
use payd.Engine.Action.{World, Outside, EngineConfig, ◌>>=◌, follow, written, ask, write}
use payd.Engine.Action.Keeps.{Keeps, Keeps-pure, Keeps-raise, Keeps-bind, Keeps-if, Keeps-ask}
use payd.Engine.Broadcast.{absent_after_expiration}
use payd.Engine.Resolve.{
  resolve, settle, settle_receipt, settle_solid, settle_absent, settle_unreachable, has_expired,
}
use payd.Engine.Settling.{
  has_failed, tally, AtMost, about, write-Rests, operator-Keeps, looked-Keeps, confirm-Rests,
  absent-Rests, record_lookup-Rests,
}

-- A receipt of the solidified node that reports no failure.
abbrev pub is_success_receipt : ReceiptLookup → Bool
is_success_receipt (ReceiptLookup.solid r) = is_none r.result
is_success_receipt _ = false

module _ (out : Outside) (cfg : EngineConfig) (now : Time) (id other bound : ℕ) where
  abbrev Unfailed : World → Type 0
  Unfailed = AtMost has_failed other bound

  abbrev Unconfirmed : World → Type 0
  Unconfirmed = AtMost is_confirmed other bound

  -- A receipt fails nothing.
  solid-Unfailed :
      (r : Receipt) (result : Option ℕ) → Keeps Unfailed (settle_solid cfg now id r result)
  solid-Unfailed r (some result) = operator-Keeps has_failed refl refl cfg now id result other bound
  solid-Unfailed r none =
      write-Rests has_failed _
        (λ db db' e.
          confirm-Rests id r.fee_raw r.energy_used r.block_height r.block_timestamp cfg.events now
            db e)
        other bound

  receipt-Unfailed : (l : ReceiptLookup) → Keeps Unfailed (settle_receipt cfg now id l)
  receipt-Unfailed (ReceiptLookup.unreachable m) = Keeps-pure tt
  receipt-Unfailed (ReceiptLookup.unreadable m) = Keeps-raise _
  receipt-Unfailed ReceiptLookup.unsolid = Keeps-pure tt
  receipt-Unfailed (ReceiptLookup.solid r) = solid-Unfailed r r.result

  known-Unfailed :
      (txid : ℕ) (expiration code : Option ℕ)
      → Keeps Unfailed (settle out cfg now id txid expiration code (Lookup.known true))
  known-Unfailed txid expiration code =
      Keeps-bind _ _ (looked-Keeps has_failed refl refl cfg now id true none other bound)
        (λ u. Keeps-bind _ _ (Keeps-ask (about has_failed other bound) _) (λ l. receipt-Unfailed l))

  -- Absence fails only what was refused or has expired.
  absent-Unfailed :
      (expiration code : Option ℕ)
      → (is_some code || has_expired expiration now) ≡ false
      → Keeps Unfailed (settle_absent cfg now id expiration code)
  absent-Unfailed expiration none h =
      rw h (looked-Keeps has_failed refl refl cfg now id false none other bound)
  absent-Unfailed expiration (some code) h = cc

  -- Only a receipt confirms.
  absent-Unconfirmed :
      (expiration code : Option ℕ) → Keeps Unconfirmed (settle_absent cfg now id expiration code)
  absent-Unconfirmed expiration (some code) =
      write-Rests is_confirmed _ (λ db db' e. absent-Rests id code now cfg.events db e) other bound
  absent-Unconfirmed expiration none =
      Keeps-if (has_expired expiration now) _ _
        (write-Rests is_confirmed _
          (λ db db' e. absent-Rests id absent_after_expiration now cfg.events db e) other bound)
        (looked-Keeps is_confirmed refl refl cfg now id false none other bound)

  solid-Unconfirmed :
      (r : Receipt) (result : Option ℕ)
      → is_none result ≡ false
      → Keeps Unconfirmed (settle_solid cfg now id r result)
  solid-Unconfirmed r (some result) h =
      operator-Keeps is_confirmed refl refl cfg now id result other bound
  solid-Unconfirmed r none h = cc

  receipt-Unconfirmed :
      (l : ReceiptLookup)
      → is_success_receipt l ≡ false
      → Keeps Unconfirmed (settle_receipt cfg now id l)
  receipt-Unconfirmed (ReceiptLookup.unreachable m) h = Keeps-pure tt
  receipt-Unconfirmed (ReceiptLookup.unreadable m) h = Keeps-raise _
  receipt-Unconfirmed ReceiptLookup.unsolid h = Keeps-pure tt
  receipt-Unconfirmed (ReceiptLookup.solid r) h = solid-Unconfirmed r r.result h

  after_lookup-Unconfirmed :
      (txid : ℕ) (w : World) (r : Result Database)
      → record_lookup id true none now cfg.events w.store ≡ r
      → is_success_receipt (out.transaction_info w.calls txid) ≡ false
      → Unconfirmed w
      → Unconfirmed
          (follow
            (written w r)
            (λ u. ask (λ n. out.transaction_info n txid) >>= settle_receipt cfg now id)).1
  unfolding ask
  after_lookup-Unconfirmed txid w (err e) run bad h = h
  after_lookup-Unconfirmed txid w (ok db) run bad h =
      (receipt-Unconfirmed (out.transaction_info w.calls txid) bad).at _ (
        omega (
          arith,
          h,
          record_lookup-Rests is_confirmed refl refl id true none now cfg.events w.store {db' = db}
              run other,
        ))

  known-Unconfirmed :
      (txid : ℕ) (expiration code : Option ℕ) (w : World)
      → is_success_receipt (out.transaction_info w.calls txid) ≡ false
      → Unconfirmed w
      → Unconfirmed (settle out cfg now id txid expiration code (Lookup.known true) w).1
  unfolding write
  known-Unconfirmed txid expiration code w bad h = after_lookup-Unconfirmed txid w _ refl bad h

  unreachable-Keeps :
      (q : WithdrawalStatus → Bool)
      → q WithdrawalStatus.needs_operator ≡ false
      → q WithdrawalStatus.broadcast ≡ false
      → (code : Option ℕ) (m : ℕ)
      → Keeps (AtMost q other bound) (settle_unreachable cfg now id code m)
  unreachable-Keeps q a b none m = looked-Keeps q a b cfg now id false (some m) other bound
  unreachable-Keeps q a b (some code) m = operator-Keeps q a b cfg now id m other bound

-- What an answer allows: a withdrawal that fails is one that the node does not know and that was
-- refused or has expired, and one that is confirmed has a receipt.
abbrev pub FollowsChain :
    Outside
    → (now : Time) → (expiration code : Option ℕ) → Lookup
    → ReceiptLookup
    → (other : ℕ) → (w w' : World) → Type 0
FollowsChain out now expiration code l r other w w' =
    ((tally has_failed other w' ≤ tally has_failed other w)
      ⊎ ((l ≡ Lookup.known false) × ((is_some code || has_expired expiration now) ≡ true)))
    × ((tally is_confirmed other w' ≤ tally is_confirmed other w)
        ⊎ ((l ≡ Lookup.known true) × (is_success_receipt r ≡ true)))

module _ (out : Outside) (cfg : EngineConfig) (now : Time) (id txid : ℕ)
    (expiration code : Option ℕ) (other : ℕ) (w : World) where
  abbrev Follows : Lookup → Type 0
  Follows l =
      FollowsChain out now expiration code l (out.transaction_info w.calls txid) other w
        (settle out cfg now id txid expiration code l w).1

  settle-FollowsChain : (l : Lookup) → Follows l
  settle-FollowsChain (Lookup.unreachable m) = (
    inl ((unreachable-Keeps out cfg now id other _ has_failed refl refl code m).at w (omega arith)),
    inl (
        (unreachable-Keeps out cfg now id other _ is_confirmed refl refl code m).at w
          (omega arith)),
  )
  settle-FollowsChain (Lookup.unreadable m) = (
    inl ((looked-Keeps has_failed refl refl cfg now id false (some m) other _).at w (omega arith)),
    inl (
        (looked-Keeps is_confirmed refl refl cfg now id false (some m) other _).at w (omega arith)),
  )
  settle-FollowsChain (Lookup.known false) = (
    (elim (Bool-cases (is_some code || has_expired expiration now)) [
      | inl y ↦ inr (refl, y)
      | inr y ↦ inl ((absent-Unfailed out cfg now id other _ expiration code y).at w (omega arith))
    ]),
    inl ((absent-Unconfirmed out cfg now id other _ expiration code).at w (omega arith)),
  )
  settle-FollowsChain (Lookup.known true) = (
    inl ((known-Unfailed out cfg now id other _ txid expiration code).at w (omega arith)),
    (elim (Bool-cases (is_success_receipt (out.transaction_info w.calls txid))) [
      | inl y ↦ inr (refl, y)
      | inr y ↦
          inl (known-Unconfirmed out cfg now id other _ txid expiration code w y (omega arith))
    ]),
  )

-- `resolve` decides a withdrawal only by the chain. Whatever the node answers: no withdrawal comes to
-- be failed unless the node answers that it does not know the transaction and the broadcast was
-- refused for good or the time of expiration has come, and none comes to be confirmed unless the node
-- knows the transaction and the solidified node has a receipt that reports no failure.
pub resolve-FollowsChain :
    (out : Outside) (cfg : EngineConfig) (id txid : ℕ) (expiration code : Option ℕ) (other : ℕ)
    (w : World)
    → FollowsChain out
        (out.clock w.calls)
        expiration
        code
        (out.transaction (w.calls + 1) txid)
        (out.transaction_info (w.calls + 1 + 1) txid)
        other
        w
        (resolve out cfg id txid expiration code w).1
unfolding resolve ask
resolve-FollowsChain out cfg id txid expiration code other w =
    settle-FollowsChain out cfg (out.clock w.calls) id txid expiration code other
      (record w { calls = w.calls + 1 + 1 }) (out.transaction (w.calls + 1) txid)
