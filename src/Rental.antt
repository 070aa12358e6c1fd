-- ===== src/Rental.antt =====
-- The purchases of rented energy (internal/store/energy.go) and what a recovery makes of them
-- (internal/store/withdrawals.go: ReconcileWithdrawalEnergy).
use payd.Prelude.{
  ℕ, ◌+◌, ◌/◌, Bool, true, false, ◌&&◌, ◌||◌, Option, none, some, List, [], ◌∷◌, ◌++◌, map, ◌==◌,
  ltb, if◌then◌else◌, holds, find, update, count, exists, coalesce, is_none, Result, ok, no_rows,
  bad_argument, attempt_spent, or_error, ◌>>=◌, ◌>>◌, guard, select,
}
use payd.Schema.{
  Time, second, unix, Database, Rat, Price, Cost, Withdrawal, EnergyPurchase, PurchaseStatus,
  is_quoted, is_purchased, ProviderState, EventConfig, EventType, SequenceKey, Payload,
}
use payd.Events.{enqueue_global_event}
use payd.Withdrawals.{zero_rat, sum_rats, leb_rat}
use payd.Withdrawals.Transitions.{kept_unless}

-- The later of two purchases by `ORDER BY created_at DESC, id DESC`.
abbrev pub is_later : EnergyPurchase → EnergyPurchase → Bool
is_later a b = ltb b.created_at a.created_at || (b.created_at == a.created_at && ltb b.id a.id)

unfoldable pub latest_purchase : (withdrawal_id : ℕ) → List EnergyPurchase → Option EnergyPurchase
latest_purchase withdrawal_id [] = none
latest_purchase withdrawal_id (p ∷ ps) =
    let rest = latest_purchase withdrawal_id ps in
    if holds p.withdrawal_id withdrawal_id
    then elim rest [ none ↦ some p | some q ↦ if is_later q p then some q else some p ]
    else rest

-- `EnergyPurchaseForWithdrawal`
abbrev pub purchase_for_withdrawal : (withdrawal_id : ℕ) → Database → Option EnergyPurchase
purchase_for_withdrawal withdrawal_id db = latest_purchase withdrawal_id db.purchases

abbrev pub quoted_row :
    (id provider : ℕ) (withdrawal_id : Option ℕ) (address_id receiver amount : ℕ) (duration : Time)
    → Rat
    → (stamp : ℕ) → EnergyPurchase
quoted_row id provider withdrawal_id address_id receiver amount duration quoted stamp = record {
  id = id;
  provider = provider;
  provider_order_id = none;
  withdrawal_id = withdrawal_id;
  address_id = address_id;
  receiver_address = receiver;
  amount = amount;
  duration_seconds = duration / second;
  quoted_trx = some quoted;
  actual_trx = none;
  status = PurchaseStatus.quoted;
  delegation_txid = none;
  failure_reason = none;
  created_at = stamp;
  delegated_at = none;
}

-- `CreateEnergyPurchase`
unfoldable pub create_purchase :
    (provider : ℕ) (withdrawal_id : Option ℕ) (address_id receiver amount : ℕ) (duration : Time)
    (quoted_trx : Price) (now : Time)
    → Database
    → Result (EnergyPurchase × Database)
create_purchase provider withdrawal_id address_id receiver amount duration quoted_trx now db = do
  quoted ← or_error quoted_trx bad_argument
  let p =
      quoted_row db.draws provider withdrawal_id address_id receiver amount duration quoted
        (unix now)
  ok (p, record db { purchases = db.purchases ++ p ∷ []; draws = db.draws + 1 })

-- An update of the purchases by a condition.
abbrev pub where_purchase :
    (EnergyPurchase → Bool) → (EnergyPurchase → EnergyPurchase) → Database → Database
where_purchase p f db = record db { purchases = update p f db.purchases }

abbrev pub is_unspent : (id : ℕ) → EnergyPurchase → Bool
is_unspent id p = p.id == id && (is_quoted p.status && is_none p.provider_order_id)

abbrev pub spent_row : (external_id : ℕ) → EnergyPurchase → EnergyPurchase
spent_row external_id p = record p {
  status = PurchaseStatus.purchased;
  provider_order_id = some external_id;
}

-- `MarkEnergyPurchaseAttempt`
unfoldable pub mark_purchase_attempt : (id external_id : ℕ) → Database → Result Database
mark_purchase_attempt id external_id db = do
  guard (count (is_unspent id) db.purchases == 1) attempt_spent
  ok (where_purchase (is_unspent id) (spent_row external_id) db)

abbrev pub has_purchase_status : (id : ℕ) → (PurchaseStatus → Bool) → EnergyPurchase → Bool
has_purchase_status id q p = p.id == id && q p.status

abbrev pub failed_purchase : (reason : ℕ) → EnergyPurchase → EnergyPurchase
failed_purchase reason p = record p { status = PurchaseStatus.failed; failure_reason = some reason }

-- `RejectEnergyQuote`
unfoldable pub reject_quote : (id reason : ℕ) → Database → Database
reject_quote id reason = where_purchase (has_purchase_status id is_quoted) (failed_purchase reason)

-- `COALESCE(NULLIF(?,''), column)` of a price
abbrev pub price_unless : Option Price → Option Price → Option Price
price_unless none old = old
price_unless (some p) old = some p

abbrev pub ordered_row :
    (order_id : Option ℕ)
    → (actual : Option Price) → (txid : Option ℕ) → EnergyPurchase
    → EnergyPurchase
ordered_row order_id actual txid p = record p {
  provider_order_id = kept_unless order_id p.provider_order_id;
  actual_trx = price_unless actual p.actual_trx;
  delegation_txid = kept_unless txid p.delegation_txid;
}

-- `RecordEnergyPurchaseOrder`
unfoldable pub record_purchase_order :
    (id : ℕ) (order_id : Option ℕ) (actual : Option Price) (txid : Option ℕ) → Database → Database
record_purchase_order id order_id actual txid =
    where_purchase (has_purchase_status id is_purchased) (ordered_row order_id actual txid)

abbrev pub delegated_row :
    (actual : Option Price) → (txid : Option ℕ) → (stamp : ℕ) → EnergyPurchase → EnergyPurchase
delegated_row actual txid stamp p = record p {
  status = PurchaseStatus.delegated;
  actual_trx = some (coalesce (price_unless actual p.actual_trx) p.quoted_trx);
  delegation_txid = kept_unless txid p.delegation_txid;
  delegated_at = some stamp;
}

-- The cost of the purchase, written to its withdrawal.
abbrev pub show_cost : Option EnergyPurchase → List Withdrawal → List Withdrawal
show_cost none ws = ws
show_cost (some p) ws =
    update (λ w. holds p.withdrawal_id w.id)
      (λ w. record w { energy_cost = some (Cost.priced (coalesce p.actual_trx p.quoted_trx)) }) ws

-- `CompleteEnergyPurchase`
unfoldable pub complete_purchase :
    (id : ℕ) (actual : Option Price) (txid : Option ℕ) (now : Time) → Database → Database
complete_purchase id actual txid now db =
    let done =
      where_purchase (has_purchase_status id is_purchased) (delegated_row actual txid (unix now))
        db in
    if count (has_purchase_status id is_purchased) db.purchases == 1
    then record done {
      withdrawals = show_cost (find (λ p. p.id == id) done.purchases) done.withdrawals;
    }
    else done

abbrev pub is_failable : PurchaseStatus → Bool
is_failable s = is_quoted s || is_purchased s

-- `FailEnergyPurchase`
unfoldable pub fail_purchase :
    (id reason : ℕ) (now : Time) → EventConfig → Database → Result Database
fail_purchase id reason now events db =
    let done = where_purchase (has_purchase_status id is_failable) (failed_purchase reason) db in
    if count (has_purchase_status id is_failable) db.purchases == 1
    then (or_error (find (λ p. p.id == id) done.purchases) no_rows >>= λ p. ok (
        enqueue_global_event done events (SequenceKey.energy_key id)
          EventType.energy_purchase_failed
          (Payload.energy_purchase_failed id p.withdrawal_id reason) now))
    else ok done

abbrev pub is_state_of : (provider : ℕ) → ProviderState → Bool
is_state_of provider s = s.provider == provider

-- `INSERT … ON CONFLICT(provider) DO UPDATE` with the inserted row or the update of the old one.
abbrev pub upsert_provider :
    (provider : ℕ)
    → ProviderState
    → (ProviderState → ProviderState)
    → List ProviderState
    → List ProviderState
upsert_provider provider fresh change ss =
    if exists (is_state_of provider) ss
    then update (is_state_of provider) change ss
    else ss ++ fresh ∷ []

abbrev pub new_provider : (provider : ℕ) → ProviderState
new_provider provider = record {
  provider = provider;
  balance_trx = some zero_rat;
  last_checked_at = none;
  last_error = none;
  consecutive_failures = 0;
}

abbrev pub failed_once : (reason : ℕ) → ProviderState → ProviderState
failed_once reason s = record s {
  last_error = some reason;
  consecutive_failures = s.consecutive_failures + 1;
}

-- `RecordEnergyProviderFailure`
unfoldable pub record_provider_failure : (provider reason : ℕ) → Database → Result (ℕ × Database)
record_provider_failure provider reason db =
    let ss =
      upsert_provider provider (failed_once reason (new_provider provider)) (failed_once reason)
        db.providers in
    or_error (find (is_state_of provider) ss) no_rows >>= λ s.
    ok (s.consecutive_failures, record db { providers = ss })

abbrev pub reset_state : ProviderState → ProviderState
reset_state s = record s { consecutive_failures = 0; last_error = none }

-- `ResetEnergyProviderFailures`
unfoldable pub reset_provider_failures : (provider : ℕ) → Database → Database
reset_provider_failures provider db = record db {
  providers = upsert_provider provider (new_provider provider) reset_state db.providers;
}

abbrev pub checked : (balance : Price) → (stamp : ℕ) → ProviderState → ProviderState
checked balance stamp s = record s {
  balance_trx = balance;
  last_checked_at = some stamp;
  last_error = none;
}

-- `RecordEnergyProviderBalance`
unfoldable pub record_provider_balance :
    (provider : ℕ) (balance warn_below : Price) (now : Time)
    → EventConfig
    → Database
    → Result Database
record_provider_balance provider balance warn_below now events db = do
  value ← or_error balance bad_argument
  warn ← or_error warn_below bad_argument
  let change = checked balance (unix now)
  let next = record db {
    providers = upsert_provider provider (change (new_provider provider)) change db.providers;
  }
  ok (
      if leb_rat warn value
      then next
      else enqueue_global_event next events SequenceKey.global_key EventType.energy_balance_low
          (Payload.energy_balance_low provider value warn) now)

abbrev pub unchecked : (message stamp : ℕ) → ProviderState → ProviderState
unchecked message stamp s = record s { last_checked_at = some stamp; last_error = some message }

-- `RecordEnergyProviderBalanceError`
unfoldable pub record_provider_balance_error :
    (provider : ℕ) (checked_at : Time) (message : ℕ) → Database → Database
record_provider_balance_error provider checked_at message db =
    let change = unchecked message (unix checked_at) in
    record db {
      providers = upsert_provider provider (change (new_provider provider)) change db.providers;
    }

-- `resource not visible at recovery timeout`
abbrev pub not_visible : ℕ
not_visible = 4

abbrev pub closed_purchase : (is_visible : Bool) → (stamp : ℕ) → EnergyPurchase → EnergyPurchase
closed_purchase true stamp p = record p {
  status = PurchaseStatus.delegated;
  actual_trx = some (coalesce p.actual_trx p.quoted_trx);
  delegated_at = some (coalesce p.delegated_at stamp);
}
closed_purchase false stamp p = record p {
  status = PurchaseStatus.expired;
  actual_trx = some (coalesce p.actual_trx p.quoted_trx);
  failure_reason = some not_visible;
}

abbrev pub is_purchased_for : (withdrawal_id : ℕ) → EnergyPurchase → Bool
is_purchased_for withdrawal_id p = holds p.withdrawal_id withdrawal_id && is_purchased p.status

-- `ReconcileWithdrawalEnergy`
unfoldable pub reconcile_energy :
    (withdrawal_id : ℕ) (resources_visible : Bool) (now : Time) → Database → Result Database
unfolding sum_rats
reconcile_energy withdrawal_id resources_visible now db =
    let open_ones = select (is_purchased_for withdrawal_id) db.purchases in
    sum_rats zero_rat (map (λ p. coalesce p.actual_trx p.quoted_trx) open_ones) >>= λ cost.
    if count (is_purchased_for withdrawal_id) db.purchases == 0
    then ok db
    else ok (record db {
      purchases =
          update (is_purchased_for withdrawal_id) (closed_purchase resources_visible (unix now))
            db.purchases;
      withdrawals =
          update (λ w. w.id == withdrawal_id)
            (λ w. record w { energy_cost = some (Cost.priced (some cost)) }) db.withdrawals;
    })
