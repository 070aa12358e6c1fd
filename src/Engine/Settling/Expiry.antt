-- ===== src/Engine/Settling/Expiry.antt =====
-- The end of a transaction that never reached the chain (internal/withdraw/engine.go: resolve).
use payd.Prelude.{
  ℕ, ◌+◌, true, false, ◌≡◌, refl, ap, ◌∙◌, Option, none, arith, count, update, count-update_add, ok,
}
use payd.Schema.{unix, Resolver, Action}
use payd.Withdrawals.Transitions.{is_sent_open, failed_row, fail_absent, where_changed}
use payd.Engine.Node.{Lookup}
use payd.Engine.Action.{World, Outside, EngineConfig, ask, write}
use payd.Engine.Broadcast.{absent_after_expiration}
use payd.Engine.Resolve.{resolve, has_expired}
use payd.Engine.Settling.{has_failed, has_become, tally}
use payd.Engine.Once.Withdrawing.{announced-Calm}

-- An expired transaction that the node does not know ends its withdrawal: where exactly one open
-- withdrawal with the identifier has a transaction, `resolve` succeeds, the withdrawal is failed, and
-- nothing goes out.
pub resolve_fails_expired :
    (out : Outside) (cfg : EngineConfig) (id txid : ℕ) (expiration : Option ℕ) (w : World)
    → out.transaction (w.calls + 1) txid ≡ Lookup.known false
    → has_expired expiration (out.clock w.calls) ≡ true
    → count (is_sent_open id) w.store.withdrawals ≡ 1
    → ((resolve out cfg id txid expiration none w).0 ≡ ok tt)
      × (tally has_failed id (resolve out cfg id txid expiration none w).1
          ≡ tally has_failed id w + 1)
      × ((resolve out cfg id txid expiration none w).1.effects ≡ w.effects)
unfolding resolve ask write fail_absent where_changed
resolve_fails_expired out cfg id txid expiration w unknown expired one =
    let now = out.clock w.calls in
    let f = failed_row Resolver.chain_absence absent_after_expiration (unix now) in
    let moved = record w.store { withdrawals = update (is_sent_open id) f w.store.withdrawals } in
    let calm =
      announced-Calm id _ _ Action.withdrawal_failed absent_after_expiration cfg.events now moved in
    rw (unknown, expired, one)
      (
        refl,
        ap (count (has_become has_failed id)) calm.0
            ∙ count-update_add (has_become has_failed id) (is_sent_open id) f (λ x y. ground arith)
                (λ x y. ground arith) w.store.withdrawals
            ∙ ground (arith, one),
        refl,
      )
