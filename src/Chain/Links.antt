-- ===== src/Chain/Links.antt =====
-- Which tables the nested operations of a block or a rewind leave alone.
use payd.Prelude.{
  ℕ, Bool, true, false, ◌≡◌, refl, ◌∙◌, sym, List, [], ◌∷◌, none, find, ok, >>=-eq-ok, ok-injective,
  or_error, no_rows, subst, ◌==◌, Bool-cases, inl, inr, not, ◌||◌,
}
use payd.Schema.{
  Time, Database, EventConfig, EventConsumer, EventType, Payload, SequenceKey, OutboxStatus,
}
use payd.Recalc.{
  recalculate_order_with_transition, recalculate_order, recalculate_balance, balance_from,
  balance_payments,
}
use payd.Recalc.OrderTotals.{recalculate-finds, recalculate-Recalculated}
use payd.Events.{enqueue_order_event, enqueue_global_event, enqueue_to, insert_outbox}
use payd.Chain.{announce_reversal, recount_orders, rebalance_all}

-- The chain, the addresses and the withdrawals.
abbrev pub SameChain : Database → Database → Type 0
SameChain db db' =
    (db'.blocks ≡ db.blocks)
    × (db'.crawler ≡ db.crawler)
    × (db'.addresses ≡ db.addresses)
    × (db'.withdrawals ≡ db.withdrawals)

-- And the payments.
abbrev pub SameBook : Database → Database → Type 0
SameBook db db' = SameChain db db' × (db'.payments ≡ db.payments)

pub SameBook-refl : (db : Database) → SameBook db db
SameBook-refl db = ((refl, refl, refl, refl), refl)

pub SameChain-trans : (a b c : Database) → SameChain a b → SameChain b c → SameChain a c
SameChain-trans a b c h k = (k.0 ∙ h.0, k.1 ∙ h.1, k.2 ∙ h.2, k.3 ∙ h.3)

pub SameBook-trans : (a b c : Database) → SameBook a b → SameBook b c → SameBook a c
SameBook-trans a b c h k = (SameChain-trans a b c h.0 k.0, k.1 ∙ h.1)

pub recalculate-SameBook :
    (db : Database) (id : ℕ) (allow : Bool) (now : Time) {r : Bool × Database}
    → recalculate_order_with_transition db id allow now ≡ ok r
    → SameBook db r.1
recalculate-SameBook db id allow now {r} h =
    let (o, e) = recalculate-finds db id allow now h in
    let done = recalculate-Recalculated db id allow now {reverted = r.0} {db' = r.1} o h e in
    subst (SameBook db) (sym done.written) ((refl, refl, refl, refl), refl)

pub recalculate_order-SameBook :
    (db : Database) (id : ℕ) (now : Time) {r : Bool × Database}
    → recalculate_order db id now ≡ ok r
    → SameBook db r.1
unfolding recalculate_order
recalculate_order-SameBook db id now h = recalculate-SameBook db id true now h

pub recalculate_balance-SameBook :
    (db : Database) (address_id asset : ℕ) {db' : Database}
    → recalculate_balance db address_id asset ≡ ok db'
    → SameBook db db'
unfolding recalculate_balance
recalculate_balance-SameBook db address_id asset h =
    let (_, _, h1) = >>=-eq-ok (balance_from _ (balance_payments db address_id asset)) _ h in
    subst (SameBook db) (ok-injective h1) ((refl, refl, refl, refl), refl)

pub enqueue_order_event-SameBook :
    (db : Database) (events : EventConfig) (id : ℕ) (type : EventType) (payload : Payload)
    (now : Time) {db' : Database}
    → enqueue_order_event db events id type payload now ≡ ok db'
    → SameBook db db'
unfolding enqueue_order_event insert_outbox
enqueue_order_event-SameBook db events id type payload now h =
    let (_, _, h1) = >>=-eq-ok (or_error (find (λ o. o.id == id) db.orders) no_rows) _ h in
    subst (SameBook db) (ok-injective h1) ((refl, refl, refl, refl), refl)

enqueue_to-SameBook :
    (cs : List EventConsumer) (key : SequenceKey) (type : EventType) (payload : Payload)
    (now : Time) (db : Database)
    → SameBook db (enqueue_to cs key type payload now db)
unfolding enqueue_to insert_outbox
enqueue_to-SameBook [] key type payload now db = SameBook-refl db
enqueue_to-SameBook (c ∷ cs) key type payload now db =
    elim (Bool-cases (not c.enabled || not c.receives_global)) [
      | inl e ↦ rw (e, enqueue_to) (enqueue_to-SameBook cs key type payload now db)
      | inr e ↦
          let next =
            insert_outbox db none key c.name c.url type payload OutboxStatus.pending none now in
          rw (e, enqueue_to)
            (SameBook-trans db next (enqueue_to cs key type payload now next)
              ((refl, refl, refl, refl), refl) (enqueue_to-SameBook cs key type payload now next))
    ]

pub enqueue_global_event-SameBook :
    (db : Database) (events : EventConfig) (key : SequenceKey) (type : EventType)
    (payload : Payload) (now : Time)
    → SameBook db (enqueue_global_event db events key type payload now)
unfolding enqueue_global_event
enqueue_global_event-SameBook db events key type payload now =
    enqueue_to-SameBook events.consumers key type payload now db

pub announce_reversal-SameBook :
    (events : EventConfig) (now : Time) (id : ℕ) (reverted : Bool) (db : Database) {db' : Database}
    → announce_reversal events now id reverted db ≡ ok db'
    → SameBook db db'
unfolding announce_reversal
announce_reversal-SameBook events now id false db h =
    subst (SameBook db) (ok-injective h) (SameBook-refl db)
announce_reversal-SameBook events now id true db h =
    let (o, _, h1) = >>=-eq-ok (or_error (find (λ o. o.id == id) db.orders) no_rows) _ h in
    enqueue_order_event-SameBook db events id _ _ now h1

pub recount_orders-SameBook :
    (events : EventConfig) (now : Time) (ids : List ℕ) (db : Database) {r : List ℕ × Database}
    → recount_orders events now ids db ≡ ok r
    → SameBook db r.1
unfolding recount_orders
recount_orders-SameBook events now [] db h =
    subst (λ r. SameBook db r.1) (ok-injective h) (SameBook-refl db)
recount_orders-SameBook events now (id ∷ ids) db h =
    let (r, e1, h1) = >>=-eq-ok (recalculate_order db id now) _ h in
    let (next, e2, h2) = >>=-eq-ok (announce_reversal events now id r.0 r.1) _ h1 in
    let (rest, e3, h3) = >>=-eq-ok (recount_orders events now ids next) _ h2 in
    let first =
      SameBook-trans db r.1 next (recalculate_order-SameBook db id now e1)
        (announce_reversal-SameBook events now id r.0 r.1 e2) in
    let all =
      SameBook-trans db next rest.1 first (recount_orders-SameBook events now ids next e3) in
    subst (λ r. SameBook db r.1) (ok-injective h3) all

pub rebalance_all-SameBook :
    (ks : List (ℕ × ℕ)) (db : Database) {db' : Database}
    → rebalance_all ks db ≡ ok db'
    → SameBook db db'
unfolding rebalance_all
rebalance_all-SameBook [] db h = subst (SameBook db) (ok-injective h) (SameBook-refl db)
rebalance_all-SameBook (k ∷ ks) db {db'} h =
    let (next, e1, h1) = >>=-eq-ok (recalculate_balance db k.0 k.1) _ h in
    SameBook-trans db next db' (recalculate_balance-SameBook db k.0 k.1 e1)
      (rebalance_all-SameBook ks next h1)
