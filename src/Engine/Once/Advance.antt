-- ===== src/Engine/Once/Advance.antt =====
-- How the writes of the store change the recorded attempts and the identifiers.
use payd.Prelude.{
  ℕ, ◌+◌, ◌≤◌, Bool, true, false, not, ◌||◌, ◌≡◌, refl, ap, ◌∙◌, subst, none, List, [], ◌∷◌, ◌++◌,
  arith, Bool-cases, inl, inr, ◌==◌, if◌then◌else◌, is_some, update, count, count-append,
  count-update, count-update_mono, Result, ok, ok-injective, >>=-eq-ok,
}
use payd.Schema.{
  Time, Database, Withdrawal, ResourceGrant, EnergyPurchase, EventConfig, EventConsumer, EventType,
  SequenceKey, Payload, OutboxStatus,
}
use payd.Recalc.{recalculate_balance, balance_from, balance_payments}
use payd.Events.{enqueue_global_event, enqueue_to, insert_outbox}
use payd.Withdrawals.Transitions.{where_changed}
use payd.Engine.Action.{Effect}
use payd.Engine.Once.{
  tries, rows, key, drawn, IsKeyed, is_tried_withdrawal, is_tried_grant, is_tried_purchase,
}

pub record Advances (db db' : Database) : Type 0 where
  pub tried : (e : Effect) → tries e db ≤ tries e db'
  pub keyed : IsKeyed db → IsKeyed db'

pub Advances-refl : (db : Database) → Advances db db
Advances-refl db = record { tried = λ e. omega arith; keyed = λ h. h }

pub Advances-trans : (a b c : Database) → Advances a b → Advances b c → Advances a c
Advances-trans a b c h k = record {
  tried = λ e. omega (arith, h.tried e, k.tried e);
  keyed = λ i. k.keyed (h.keyed i);
}

drawn_mono : (id a b : ℕ) → a ≤ b → drawn id a ≤ drawn id b
drawn_mono id a b le = ground arith

-- The tables with attempts are the same, and identifiers may have been drawn.
abbrev pub Calm : Database → Database → Type 0
Calm db db' =
    (db'.withdrawals ≡ db.withdrawals)
    × (db'.grants ≡ db.grants)
    × (db'.purchases ≡ db.purchases)
    × (db.draws ≤ db'.draws)

pub Calm-trans : (a b c : Database) → Calm a b → Calm b c → Calm a c
Calm-trans a b c h k =
    (k.0 ∙ h.0, k.1 ∙ h.1, k.2 ∙ h.2, (let x = h.3 in let y = k.3 in omega arith))

Calm-tries : (e : Effect) (db db' : Database) → Calm db db' → tries e db' ≡ tries e db
Calm-tries (Effect.sent_withdrawal id) db db' h = ap (count (is_tried_withdrawal id)) h.0
Calm-tries (Effect.sent_grant id) db db' h = ap (count (is_tried_grant id)) h.1
Calm-tries (Effect.purchased id) db db' h = ap (count (is_tried_purchase id)) h.2

Calm-rows : (e : Effect) (db db' : Database) → Calm db db' → rows e db' ≡ rows e db
Calm-rows (Effect.sent_withdrawal id) db db' h = ap (count (λ w. w.id == id)) h.0
Calm-rows (Effect.sent_grant id) db db' h = ap (count (λ g. g.id == id)) h.1
Calm-rows (Effect.purchased id) db db' h = ap (count (λ p. p.id == id)) h.2

pub Calm-Advances : (db db' : Database) → Calm db db' → Advances db db'
Calm-Advances db db' h = record {
  tried = λ e. omega (arith, Calm-tries e db db' h);
  keyed =
      λ k e. omega (arith, k e, Calm-rows e db db' h, drawn_mono (key e) db.draws db'.draws h.3);
}

enqueue_to-Calm :
    (cs : List EventConsumer) (key : SequenceKey) (type : EventType) (payload : Payload)
    (now : Time) (db : Database)
    → Calm db (enqueue_to cs key type payload now db)
unfolding enqueue_to insert_outbox
enqueue_to-Calm [] key type payload now db = (refl, refl, refl, omega arith)
enqueue_to-Calm (c ∷ cs) key type payload now db =
    elim (Bool-cases (not c.enabled || not c.receives_global)) [
      | inl e ↦ rw (e, enqueue_to) (enqueue_to-Calm cs key type payload now db)
      | inr e ↦
          let next =
            insert_outbox db none key c.name c.url type payload OutboxStatus.pending none now in
          rw (e, enqueue_to)
            (Calm-trans db next (enqueue_to cs key type payload now next)
              (refl, refl, refl, omega arith) (enqueue_to-Calm cs key type payload now next))
    ]

pub enqueue_global_event-Calm :
    (db : Database) (events : EventConfig) (key : SequenceKey) (type : EventType)
    (payload : Payload) (now : Time)
    → Calm db (enqueue_global_event db events key type payload now)
unfolding enqueue_global_event
enqueue_global_event-Calm db events key type payload now =
    enqueue_to-Calm events.consumers key type payload now db

pub recalculate_balance-Calm :
    (db : Database) (address_id asset : ℕ) {db' : Database}
    → recalculate_balance db address_id asset ≡ ok db'
    → Calm db db'
unfolding recalculate_balance
recalculate_balance-Calm db address_id asset h =
    let (_, _, h1) = >>=-eq-ok (balance_from _ (balance_payments db address_id asset)) _ h in
    subst (Calm db) (ok-injective h1) (refl, refl, refl, omega arith)

-- An update of the withdrawals that keeps identifiers and transactions.
module _ (p : Withdrawal → Bool) (f : Withdrawal → Withdrawal) where
  pub withdrawals-Advances :
      ((x : Withdrawal) → (f x).id ≡ x.id)
      → ((x : Withdrawal) → is_some x.txid ≡ true → is_some (f x).txid ≡ true)
      → (db : Database) → Advances db (record db { withdrawals = update p f db.withdrawals })
  withdrawals-Advances ids sent db = record { tried = tried; keyed = λ h e. kept e (h e) }
    where
      tried :
          (e : Effect)
          → tries e db ≤ tries e (record db { withdrawals = update p f db.withdrawals })
      tried (Effect.sent_withdrawal id) =
          count-update_mono (is_tried_withdrawal id) p f
            (λ x h. let i = ids x in let s = sent x in ground (arith, i, sent x)) db.withdrawals
      tried (Effect.sent_grant id) = omega arith
      tried (Effect.purchased id) = omega arith

      kept :
          (e : Effect)
          → rows e db ≤ drawn (key e) db.draws
          → rows e (record db { withdrawals = update p f db.withdrawals }) ≤ drawn (key e) db.draws
      kept (Effect.sent_withdrawal id) h = omega (
        arith,
        count-update (λ (w : Withdrawal). w.id == id) p f (λ x. ap (λ n. n == id) (ids x))
            db.withdrawals,
      )
      kept (Effect.sent_grant id) h = h
      kept (Effect.purchased id) h = h

module _ (p : ResourceGrant → Bool) (f : ResourceGrant → ResourceGrant) where
  pub grants-Advances :
      ((x : ResourceGrant) → (f x).id ≡ x.id)
      → ((x : ResourceGrant) → is_some x.txid ≡ true → is_some (f x).txid ≡ true)
      → (db : Database) → Advances db (record db { grants = update p f db.grants })
  grants-Advances ids sent db = record { tried = tried; keyed = λ h e. kept e (h e) }
    where
      tried : (e : Effect) → tries e db ≤ tries e (record db { grants = update p f db.grants })
      tried (Effect.sent_grant id) =
          count-update_mono (is_tried_grant id) p f
            (λ x h. let i = ids x in ground (arith, i, sent x)) db.grants
      tried (Effect.sent_withdrawal id) = omega arith
      tried (Effect.purchased id) = omega arith

      kept :
          (e : Effect)
          → rows e db ≤ drawn (key e) db.draws
          → rows e (record db { grants = update p f db.grants }) ≤ drawn (key e) db.draws
      kept (Effect.sent_grant id) h = omega (
        arith,
        count-update (λ (g : ResourceGrant). g.id == id) p f (λ x. ap (λ n. n == id) (ids x))
            db.grants,
      )
      kept (Effect.sent_withdrawal id) h = h
      kept (Effect.purchased id) h = h

module _ (p : EnergyPurchase → Bool) (f : EnergyPurchase → EnergyPurchase) where
  pub purchases-Advances :
      ((x : EnergyPurchase) → (f x).id ≡ x.id)
      → ((x : EnergyPurchase)
          → is_some x.provider_order_id ≡ true
          → is_some (f x).provider_order_id ≡ true)
      → (db : Database) → Advances db (record db { purchases = update p f db.purchases })
  purchases-Advances ids sent db = record { tried = tried; keyed = λ h e. kept e (h e) }
    where
      tried :
          (e : Effect) → tries e db ≤ tries e (record db { purchases = update p f db.purchases })
      tried (Effect.purchased id) =
          count-update_mono (is_tried_purchase id) p f
            (λ x h. let i = ids x in ground (arith, i, sent x)) db.purchases
      tried (Effect.sent_withdrawal id) = omega arith
      tried (Effect.sent_grant id) = omega arith

      kept :
          (e : Effect)
          → rows e db ≤ drawn (key e) db.draws
          → rows e (record db { purchases = update p f db.purchases }) ≤ drawn (key e) db.draws
      kept (Effect.purchased id) h = omega (
        arith,
        count-update (λ (g : EnergyPurchase). g.id == id) p f (λ x. ap (λ n. n == id) (ids x))
            db.purchases,
      )
      kept (Effect.sent_withdrawal id) h = h
      kept (Effect.sent_grant id) h = h

fresh-drawn :
    (id draws n m : ℕ)
    → n ≤ drawn id draws
    → m ≡ n + (if draws == id then 1 else 0)
    → m ≤ drawn id (draws + 1)
fresh-drawn id draws n m le e = ground arith

-- A new row, with the next identifier.
pub new_grant-Advances :
    (g : ResourceGrant) (db : Database)
    → g.id ≡ db.draws
    → Advances db (record db { grants = db.grants ++ g ∷ []; draws = db.draws + 1 })
new_grant-Advances g db fresh = record { tried = tried; keyed = λ h e. kept e (h e) }
  where
    tried :
        (e : Effect)
        → tries e db ≤ tries e (record db { grants = db.grants ++ g ∷ []; draws = db.draws + 1 })
    tried (Effect.sent_grant id) =
        omega (arith, count-append (is_tried_grant id) db.grants (g ∷ []))
    tried (Effect.sent_withdrawal id) = omega arith
    tried (Effect.purchased id) = omega arith

    kept :
        (e : Effect)
        → rows e db ≤ drawn (key e) db.draws
        → rows e (record db { grants = db.grants ++ g ∷ []; draws = db.draws + 1 })
          ≤ drawn (key e) (db.draws + 1)
    kept (Effect.sent_grant id) h = fresh-drawn id db.draws _ _ h (
        count-append (λ (x : ResourceGrant). x.id == id) db.grants (g ∷ []) ∙ ground (arith, fresh))
    kept (Effect.sent_withdrawal id) h =
        omega (arith, drawn_mono id db.draws (db.draws + 1) (omega arith))
    kept (Effect.purchased id) h =
        omega (arith, drawn_mono id db.draws (db.draws + 1) (omega arith))

pub new_withdrawal-Advances :
    (w : Withdrawal) (db : Database)
    → w.id ≡ db.draws
    → Advances db (record db { withdrawals = db.withdrawals ++ w ∷ []; draws = db.draws + 1 })
new_withdrawal-Advances w db fresh = record { tried = tried; keyed = λ h e. kept e (h e) }
  where
    tried :
        (e : Effect)
        → tries e db
          ≤ tries e (record db { withdrawals = db.withdrawals ++ w ∷ []; draws = db.draws + 1 })
    tried (Effect.sent_withdrawal id) =
        omega (arith, count-append (is_tried_withdrawal id) db.withdrawals (w ∷ []))
    tried (Effect.sent_grant id) = omega arith
    tried (Effect.purchased id) = omega arith

    kept :
        (e : Effect)
        → rows e db ≤ drawn (key e) db.draws
        → rows e (record db { withdrawals = db.withdrawals ++ w ∷ []; draws = db.draws + 1 })
          ≤ drawn (key e) (db.draws + 1)
    kept (Effect.sent_withdrawal id) h = fresh-drawn id db.draws _ _ h (
        count-append (λ (x : Withdrawal). x.id == id) db.withdrawals (w ∷ [])
        ∙ ground (arith, fresh))
    kept (Effect.sent_grant id) h =
        omega (arith, drawn_mono id db.draws (db.draws + 1) (omega arith))
    kept (Effect.purchased id) h =
        omega (arith, drawn_mono id db.draws (db.draws + 1) (omega arith))

pub new_purchase-Advances :
    (p : EnergyPurchase) (db : Database)
    → p.id ≡ db.draws
    → Advances db (record db { purchases = db.purchases ++ p ∷ []; draws = db.draws + 1 })
new_purchase-Advances p db fresh = record { tried = tried; keyed = λ h e. kept e (h e) }
  where
    tried :
        (e : Effect)
        → tries e db
          ≤ tries e (record db { purchases = db.purchases ++ p ∷ []; draws = db.draws + 1 })
    tried (Effect.purchased id) =
        omega (arith, count-append (is_tried_purchase id) db.purchases (p ∷ []))
    tried (Effect.sent_withdrawal id) = omega arith
    tried (Effect.sent_grant id) = omega arith

    kept :
        (e : Effect)
        → rows e db ≤ drawn (key e) db.draws
        → rows e (record db { purchases = db.purchases ++ p ∷ []; draws = db.draws + 1 })
          ≤ drawn (key e) (db.draws + 1)
    kept (Effect.purchased id) h = fresh-drawn id db.draws _ _ h (
        count-append (λ (x : EnergyPurchase). x.id == id) db.purchases (p ∷ [])
        ∙ ground (arith, fresh))
    kept (Effect.sent_withdrawal id) h =
        omega (arith, drawn_mono id db.draws (db.draws + 1) (omega arith))
    kept (Effect.sent_grant id) h =
        omega (arith, drawn_mono id db.draws (db.draws + 1) (omega arith))

pub where_changed-Advances :
    (b : Bool) (next : Database → Result Database) (db : Database) {db' : Database}
    → ((d : Database) → next db ≡ ok d → Advances db d)
    → where_changed b next db ≡ ok db'
    → Advances db db'
unfolding where_changed
where_changed-Advances true next db {db'} k h = k db' h
where_changed-Advances false next db k h = subst (Advances db) (ok-injective h) (Advances-refl db)
