-- ===== src/Engine/Once/Renting.antt =====
-- The store's methods on purchases, as the engine calls them.
use payd.Prelude.{
  ℕ, Bool, true, false, ◌≡◌, refl, subst, Option, none, some, map, arith, Bool-cases, inl, inr,
  ◌==◌, is_some, find, select, update, count, coalesce, ok, ok-injective, >>=-eq-ok, or_error,
  no_rows, bad_argument,
}
use payd.Schema.{Time, unix, Database, EventConfig, EventType, SequenceKey, EnergyPurchase, Price}
use payd.Withdrawals.{sum_rats, zero_rat, leb_rat}
use payd.Withdrawals.Transitions.{kept_unless}
use payd.Rental.{
  create_purchase, quoted_row, reject_quote, record_purchase_order, complete_purchase,
  fail_purchase, record_provider_failure, reset_provider_failures, record_provider_balance,
  record_provider_balance_error, reconcile_energy, where_purchase, has_purchase_status, is_failable,
  failed_purchase, show_cost, delegated_row, is_purchased_for, closed_purchase, upsert_provider,
  failed_once, checked, new_provider, is_state_of,
}
use payd.Schema.{is_purchased}
use payd.Engine.Once.Advance.{
  Advances, Advances-refl, Advances-trans, Calm-Advances, enqueue_global_event-Calm,
  withdrawals-Advances, purchases-Advances, new_purchase-Advances,
}

kept_unless-some : (o old : Option ℕ) → is_some old ≡ true → is_some (kept_unless o old) ≡ true
kept_unless-some none old h = h
kept_unless-some (some n) old h = refl

pub create_purchase-Advances :
    (provider : ℕ) (withdrawal_id : Option ℕ) (address_id receiver amount : ℕ) (duration : Time)
    (price : Price) (now : Time) (db : Database) {x : EnergyPurchase × Database}
    → create_purchase provider withdrawal_id address_id receiver amount duration price now db ≡ ok x
    → Advances db x.1
unfolding create_purchase
create_purchase-Advances provider withdrawal_id address_id receiver amount duration price now db h =
    let (quoted, _, h1) = >>=-eq-ok (or_error price bad_argument) _ h in
    subst (λ x. Advances db x.1) (ok-injective h1)
      (new_purchase-Advances
        (quoted_row db.draws provider withdrawal_id address_id receiver amount duration quoted
          (unix now))
        db refl)

pub reject_quote-Advances :
    (id reason : ℕ) (db : Database) → Advances db (reject_quote id reason db)
unfolding reject_quote
reject_quote-Advances id reason db = purchases-Advances _ _ (λ x. refl) (λ x t. t) db

pub record_purchase_order-Advances :
    (id : ℕ) (order_id : Option ℕ) (actual : Option Price) (txid : Option ℕ) (db : Database)
    → Advances db (record_purchase_order id order_id actual txid db)
unfolding record_purchase_order
record_purchase_order-Advances id order_id actual txid db =
    purchases-Advances _ _ (λ x. refl) (λ x t. kept_unless-some order_id x.provider_order_id t) db

show_cost-Advances :
    (p : Option EnergyPurchase) (db : Database)
    → Advances db (record db { withdrawals = show_cost p db.withdrawals })
show_cost-Advances none db = Advances-refl db
show_cost-Advances (some p) db = withdrawals-Advances _ _ (λ x. refl) (λ x t. t) db

pub complete_purchase-Advances :
    (id : ℕ) (actual : Option Price) (txid : Option ℕ) (now : Time) (db : Database)
    → Advances db (complete_purchase id actual txid now db)
unfolding complete_purchase
complete_purchase-Advances id actual txid now db =
    let done =
      where_purchase (has_purchase_status id is_purchased) (delegated_row actual txid (unix now))
        db in
    let moved =
      purchases-Advances (has_purchase_status id is_purchased)
        (delegated_row actual txid (unix now)) (λ x. refl) (λ x t. t) db in
    elim (Bool-cases (count (has_purchase_status id is_purchased) db.purchases == 1)) [
      | inl e ↦ rw e (
          Advances-trans db done _ moved
            (show_cost-Advances (find (λ p. p.id == id) done.purchases) done))
      | inr e ↦ rw e moved
    ]

pub fail_purchase-Advances :
    (id reason : ℕ) (now : Time) (events : EventConfig) (db : Database) {db' : Database}
    → fail_purchase id reason now events db ≡ ok db'
    → Advances db db'
unfolding fail_purchase
fail_purchase-Advances id reason now events db {db'} h =
    let done = where_purchase (has_purchase_status id is_failable) (failed_purchase reason) db in
    let moved =
      purchases-Advances (has_purchase_status id is_failable) (failed_purchase reason) (λ x. refl)
        (λ x t. t) db in
    elim (Bool-cases (count (has_purchase_status id is_failable) db.purchases == 1)) [
      | inl e ↦
          let (p, _, h1) =
            >>=-eq-ok (or_error (find (λ p. p.id == id) done.purchases) no_rows) _ (rw e at h) in
          Advances-trans db done db' moved (
            subst (Advances done) (ok-injective h1) (
              Calm-Advances done _ (
                enqueue_global_event-Calm done events (SequenceKey.energy_key id)
                  EventType.energy_purchase_failed _ now)))
      | inr e ↦ subst (Advances db) (ok-injective (rw e at h)) moved
    ]

pub record_provider_failure-Advances :
    (provider reason : ℕ) (db : Database) {x : ℕ × Database}
    → record_provider_failure provider reason db ≡ ok x
    → Advances db x.1
unfolding record_provider_failure
record_provider_failure-Advances provider reason db h =
    let ss =
      upsert_provider provider (failed_once reason (new_provider provider)) (failed_once reason)
        db.providers in
    let (s, _, h1) = >>=-eq-ok (or_error (find (is_state_of provider) ss) no_rows) _ h in
    subst (λ x. Advances db x.1) (ok-injective h1)
      (Calm-Advances db _ (refl, refl, refl, omega arith))

pub reset_provider_failures-Advances :
    (provider : ℕ) (db : Database) → Advances db (reset_provider_failures provider db)
unfolding reset_provider_failures
reset_provider_failures-Advances provider db = Calm-Advances db _ (refl, refl, refl, omega arith)

pub record_provider_balance_error-Advances :
    (provider : ℕ) (at : Time) (message : ℕ) (db : Database)
    → Advances db (record_provider_balance_error provider at message db)
unfolding record_provider_balance_error
record_provider_balance_error-Advances provider at message db =
    Calm-Advances db _ (refl, refl, refl, omega arith)

pub record_provider_balance-Advances :
    (provider : ℕ) (balance warn : Price) (now : Time) (events : EventConfig) (db : Database)
    {db' : Database}
    → record_provider_balance provider balance warn now events db ≡ ok db'
    → Advances db db'
unfolding record_provider_balance
record_provider_balance-Advances provider balance warn now events db h =
    let (value, _, h1) = >>=-eq-ok (or_error balance bad_argument) _ h in
    let (limit, _, h2) = >>=-eq-ok (or_error warn bad_argument) _ h1 in
    let change = checked balance (unix now) in
    let next = record db {
      providers = upsert_provider provider (change (new_provider provider)) change db.providers;
    } in
    elim (Bool-cases (leb_rat limit value)) [
      | inl y ↦
          subst (Advances db) (ok-injective (rw y at h2))
            (Calm-Advances db next (refl, refl, refl, omega arith))
      | inr y ↦ subst (Advances db) (ok-injective (rw y at h2)) (
          Advances-trans db next _ (Calm-Advances db next (refl, refl, refl, omega arith)) (
            Calm-Advances next _ (
              enqueue_global_event-Calm next events SequenceKey.global_key
                EventType.energy_balance_low _ now)))
    ]

closed-id :
    (visible : Bool) (stamp : ℕ) (p : EnergyPurchase) → (closed_purchase visible stamp p).id ≡ p.id
closed-id true stamp p = refl
closed-id false stamp p = refl

closed-sent :
    (visible : Bool) (stamp : ℕ) (p : EnergyPurchase)
    → is_some p.provider_order_id ≡ true
    → is_some (closed_purchase visible stamp p).provider_order_id ≡ true
closed-sent true stamp p h = h
closed-sent false stamp p h = h

pub reconcile_energy-Advances :
    (id : ℕ) (visible : Bool) (now : Time) (db : Database) {db' : Database}
    → reconcile_energy id visible now db ≡ ok db'
    → Advances db db'
unfolding reconcile_energy
reconcile_energy-Advances id visible now db h =
    let open_ones = select (is_purchased_for id) db.purchases in
    let (cost, _, h1) =
      >>=-eq-ok (sum_rats zero_rat (map (λ p. coalesce p.actual_trx p.quoted_trx) open_ones)) _ h in
    elim (Bool-cases (count (is_purchased_for id) db.purchases == 0)) [
      | inl y ↦ subst (Advances db) (ok-injective (rw y at h1)) (Advances-refl db)
      | inr y ↦
          let closed = record db {
            purchases =
                update (is_purchased_for id) (closed_purchase visible (unix now)) db.purchases;
          } in
          subst (Advances db) (ok-injective (rw y at h1)) (
            Advances-trans db closed _
              (purchases-Advances (is_purchased_for id) (closed_purchase visible (unix now))
                (closed-id visible (unix now)) (closed-sent visible (unix now)) db)
              (withdrawals-Advances _ _ (λ x. refl) (λ x t. t) closed))
    ]
