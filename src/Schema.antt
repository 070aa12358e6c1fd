-- ===== src/Schema.antt =====
-- The rows of the store's tables (internal/store/migrations/*.sql and the structs of
-- internal/store) and the database. Identifiers, addresses, hashes, assets and notes are only
-- compared, so they are numbers; amounts stay decimal texts. A nullable column is an `Option`.
mod Status
pub use Status.*
use payd.Prelude.{ℕ, ◌+◌, ◌/◌, Option, List, Bool}
use payd.Decimal.{Text, Units}

-- `time.Time` and `time.Duration` in nanoseconds, the former since the Unix epoch.
abbrev pub Time : Type 0
Time = ℕ

abbrev pub second : ℕ
second = 1_000_000_000

-- `t.UTC().Unix()`
abbrev pub unix : Time → ℕ
unix t = t / second

-- `CREATE TABLE blocks`
pub record BlockRecord : Type 0 where
  pub height : ℕ
  pub id : ℕ
  pub parent_id : ℕ
  pub timestamp : ℕ
  pub tx_count : ℕ
  pub processed_at : ℕ

-- The row of `crawler_state`.
pub record Crawler : Type 0 where
  pub last_height : ℕ
  pub solidified_height : ℕ
  pub solidified_updated_at : ℕ
  pub updated_at : ℕ
  pub reorg_suspected_from : Option ℕ

pub record Address : Type 0 where
  pub id : ℕ
  pub hd_index : ℕ
  pub address : ℕ
  pub state : AddressState
  pub assigned_order_id : Option ℕ
  pub assigned_at : Option ℕ
  pub released_at : Option ℕ
  pub cooling_until : Option ℕ
  pub created_at : ℕ

pub record Balance : Type 0 where
  pub address_id : ℕ
  pub asset : ℕ
  pub confirmed_raw : Text
  pub pending_raw : Text
  pub drift_detected : Bool

pub record Order : Type 0 where
  pub id : ℕ
  pub external_ref : Option ℕ
  pub address_id : ℕ
  pub address : ℕ
  pub asset : ℕ
  pub expected_raw : Text
  pub received_raw : Text
  pub overpaid_raw : Text
  pub status : OrderStatus
  pub resolution : Option Resolution
  pub resolution_note : Option ℕ
  pub resolved_at : Option ℕ
  pub price_usd : Option ℕ
  pub price_at : Option ℕ
  pub metadata : ℕ
  pub consumer : Option ℕ
  pub expires_at : ℕ
  pub created_at : ℕ
  pub updated_at : ℕ

pub record Payment : Type 0 where
  pub id : ℕ
  pub txid : ℕ
  pub log_index : LogIndex
  pub direction : Direction
  pub block_height : ℕ
  pub block_id : ℕ
  pub block_timestamp : ℕ
  pub from_address : ℕ
  pub to_address : ℕ
  pub address_id : Option ℕ
  pub order_id : Option ℕ
  pub asset : ℕ
  pub amount_raw : Text
  pub is_dust : Bool
  pub status : PaymentStatus
  pub detected_at : ℕ
  pub confirmed_at : Option ℕ
  pub unattributed_reason : Option Reason

-- A `big.Rat` that is not negative: the numerator over one more than `pred_den`.
pub record Rat : Type 0 where
  pub num : ℕ
  pub pred_den : ℕ

-- A text that the source reads by `big.Rat.SetString`, kept as what is read from it: `none` where
-- that is nothing or a number below zero. Where an empty text has a meaning of its own it is the
-- `none` of a second `Option`.
abbrev pub Price : Type 0
Price = Option Rat

-- `energy_cost_trx`: the fee in TRX where energy was burnt, or the price of rented energy.
pub data Cost : Type 0 where
  burnt : Units → Cost
  priced : Price → Cost

-- The body of a queued event, before it is rendered as JSON.
pub record PaymentPayload : Type 0 where
  pub txid : ℕ
  pub log_index : LogIndex
  pub from_address : ℕ
  pub amount : Units
  pub block_height : ℕ

pub data Payload : Type 0 where
  payment_seen : PaymentPayload → (to_address asset : ℕ) → Option ℕ → Option ℕ → Payload
  order_reverted : (order_id : ℕ) → OrderStatus → Payload
  order_confirmed :
      (order_id confirmations : ℕ) → List (PaymentPayload × ℕ) → (metadata : ℕ) → Payload
  order_expired : (order_id : ℕ) → OrderStatus → Units → Bool → List ℕ → (metadata : ℕ) → Payload
  withdrawal_needs_operator :
      (withdrawal_id : ℕ) → (txid : Option ℕ) → (last_lookup_error : ℕ) → Payload
  withdrawal_failed : (withdrawal_id reason : ℕ) → Payload
  withdrawal_confirmed :
      (withdrawal_id : ℕ) → (txid : Option ℕ) → (fee_raw : Text) → (energy_used : ℕ) → Payload
  energy_purchase_failed : (purchase_id : ℕ) → (withdrawal_id : Option ℕ) → (reason : ℕ) → Payload
  energy_balance_low : (provider : ℕ) → (balance_trx warn_below_trx : Rat) → Payload

pub record Outbox : Type 0 where
  pub id : ℕ
  pub order_id : Option ℕ
  pub sequence_key : SequenceKey
  pub consumer : ℕ
  pub target_url : ℕ
  pub event_type : EventType
  pub payload : Payload
  pub status : OutboxStatus
  pub attempts : ℕ
  pub next_attempt_at : ℕ
  pub last_error : Option ℕ
  pub last_status_code : Option ℕ
  pub created_at : ℕ
  pub delivered_at : Option ℕ

-- `amount_usd` is kept as what `big.Rat.SetString` reads from it.
pub record Withdrawal : Type 0 where
  pub id : ℕ
  pub idempotency_key : ℕ
  pub address_id : ℕ
  pub from_address : ℕ
  pub to_address : ℕ
  pub asset : ℕ
  pub amount_raw : Text
  pub amount_usd : Option Rat
  pub status : WithdrawalStatus
  pub txid : Option ℕ
  pub broadcast_attempted_at : Option ℕ
  pub broadcast_response : Option ℕ
  pub fee_raw : Option Text
  pub energy_used : Option ℕ
  pub energy_source : Option ℕ
  pub bandwidth_source : Option ℕ
  pub energy_cost : Option Cost
  pub failure_reason : Option ℕ
  pub resolved_by : Option Resolver
  pub requested_by : ℕ
  pub requested_ip : ℕ
  pub created_at : ℕ
  pub status_updated_at : ℕ
  pub broadcast_at : Option ℕ
  pub confirmed_at : Option ℕ
  pub expiration_at : Option ℕ
  pub last_lookup_at : Option ℕ
  pub lookup_failures : ℕ
  pub last_lookup_error : Option ℕ

pub record Audit : Type 0 where
  pub actor : ℕ
  pub action : Action
  pub subject : ℕ
  pub detail : ℕ
  pub created_at : ℕ

-- `CREATE TABLE resource_grants`
pub record ResourceGrant : Type 0 where
  pub id : ℕ
  pub withdrawal_id : Option ℕ
  pub address_id : ℕ
  pub receiver_address : ℕ
  pub resource_type : ResourceType
  pub source : GrantSource
  pub amount_sun : Text
  pub txid : Option ℕ
  pub status : GrantStatus
  pub broadcast_response : Option ℕ
  pub failure_reason : Option ℕ
  pub fee_raw : Option Text
  pub lookup_failures : ℕ
  pub last_lookup_error : Option ℕ
  pub broadcast_attempted_at : Option ℕ
  pub expiration_at : Option ℕ
  pub created_at : ℕ
  pub confirmed_at : Option ℕ

-- `CREATE TABLE energy_purchases`, without the constant type of resource
pub record EnergyPurchase : Type 0 where
  pub id : ℕ
  pub provider : ℕ
  pub provider_order_id : Option ℕ
  pub withdrawal_id : Option ℕ
  pub address_id : ℕ
  pub receiver_address : ℕ
  pub amount : ℕ
  pub duration_seconds : ℕ
  pub quoted_trx : Price
  pub actual_trx : Option Price
  pub status : PurchaseStatus
  pub delegation_txid : Option ℕ
  pub failure_reason : Option ℕ
  pub created_at : ℕ
  pub delegated_at : Option ℕ

-- `CREATE TABLE energy_provider_state`
pub record ProviderState : Type 0 where
  pub provider : ℕ
  pub balance_trx : Price
  pub last_checked_at : Option ℕ
  pub last_error : Option ℕ
  pub consecutive_failures : ℕ

-- The rows `getEnergyFee` and `getTransactionFee` of `chain_params`, where both are there.
pub record ChainParameters : Type 0 where
  pub energy_fee : ℕ
  pub transaction_fee : ℕ

-- The database. `draws` counts what `newULID` and
-- `AUTOINCREMENT` have handed out: the next identifier is fresh.
pub record Database : Type 0 where
  pub blocks : List BlockRecord
  pub crawler : Option Crawler
  pub addresses : List Address
  pub balances : List Balance
  pub orders : List Order
  pub payments : List Payment
  pub outbox : List Outbox
  pub withdrawals : List Withdrawal
  pub audit : List Audit
  pub grants : List ResourceGrant
  pub purchases : List EnergyPurchase
  pub providers : List ProviderState
  pub chain_params : Option ChainParameters
  pub draws : ℕ

-- `EventConsumer` and `EventConfig` of internal/store/outbox.go. A missing asset has 0 decimals.
pub record EventConsumer : Type 0 where
  pub name : ℕ
  pub url : ℕ
  pub enabled : Bool
  pub receives_global : Bool

pub record EventConfig : Type 0 where
  pub default_consumer : ℕ
  pub consumers : List EventConsumer
  pub decimals : ℕ → ℕ
