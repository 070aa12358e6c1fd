-- ===== src/Schema/Status.antt =====
-- The enumerations that the tables store as texts, and the tests that the store makes of them.
use payd.Prelude.{not, ℕ, Bool, true, false, ◌==◌}

pub data OrderStatus : Type 0 where
  pending partial paid confirmed expired expired_funded cancelled cancelled_funded : OrderStatus

-- `status IN ('pending','partial')`
abbrev pub is_unpaid : OrderStatus → Bool
is_unpaid OrderStatus.pending = true
is_unpaid OrderStatus.partial = true
is_unpaid _ = false

abbrev pub is_pending : OrderStatus → Bool
is_pending OrderStatus.pending = true
is_pending _ = false

abbrev pub is_paid : OrderStatus → Bool
is_paid OrderStatus.paid = true
is_paid _ = false

-- pending, partial or paid: payments to the address are attributed to the order
abbrev pub is_active : OrderStatus → Bool
is_active OrderStatus.pending = true
is_active OrderStatus.partial = true
is_active OrderStatus.paid = true
is_active _ = false

-- the statuses that a recalculation may move
abbrev pub is_movable : OrderStatus → Bool
is_movable OrderStatus.pending = true
is_movable OrderStatus.partial = true
is_movable OrderStatus.paid = true
is_movable OrderStatus.confirmed = true
is_movable _ = false

-- paid or confirmed
abbrev pub is_settled : OrderStatus → Bool
is_settled OrderStatus.paid = true
is_settled OrderStatus.confirmed = true
is_settled _ = false

-- expired or cancelled, funded or not
abbrev pub is_closed : OrderStatus → Bool
is_closed OrderStatus.expired = true
is_closed OrderStatus.expired_funded = true
is_closed OrderStatus.cancelled = true
is_closed OrderStatus.cancelled_funded = true
is_closed _ = false

-- `status IN ('expired_funded','cancelled_funded')`
abbrev pub is_funded_terminal : OrderStatus → Bool
is_funded_terminal OrderStatus.expired_funded = true
is_funded_terminal OrderStatus.cancelled_funded = true
is_funded_terminal _ = false

abbrev pub status_eq : OrderStatus → OrderStatus → Bool
status_eq OrderStatus.pending OrderStatus.pending = true
status_eq OrderStatus.partial OrderStatus.partial = true
status_eq OrderStatus.paid OrderStatus.paid = true
status_eq OrderStatus.confirmed OrderStatus.confirmed = true
status_eq OrderStatus.expired OrderStatus.expired = true
status_eq OrderStatus.expired_funded OrderStatus.expired_funded = true
status_eq OrderStatus.cancelled OrderStatus.cancelled = true
status_eq OrderStatus.cancelled_funded OrderStatus.cancelled_funded = true
status_eq _ _ = false

pub data Resolution : Type 0 where
  refunded written_off reattributed : Resolution

pub data AddressState : Type 0 where
  free assigned cooling disabled : AddressState

abbrev pub is_free : AddressState → Bool
is_free AddressState.free = true
is_free _ = false

abbrev pub is_assigned : AddressState → Bool
is_assigned AddressState.assigned = true
is_assigned _ = false

abbrev pub is_cooling : AddressState → Bool
is_cooling AddressState.cooling = true
is_cooling _ = false

abbrev pub is_disabled : AddressState → Bool
is_disabled AddressState.disabled = true
is_disabled _ = false

-- `'in'` and `'out'`
pub data Direction : Type 0 where
  incoming outgoing : Direction

abbrev pub is_in : Direction → Bool
is_in Direction.incoming = true
is_in Direction.outgoing = false

-- A log index is -1 for the synthetic network-fee row.
pub data LogIndex : Type 0 where
  fee : LogIndex
  log : ℕ → LogIndex

abbrev pub log_eq : LogIndex → LogIndex → Bool
log_eq fee fee = true
log_eq fee (log n) = false
log_eq (log m) fee = false
log_eq (log m) (log n) = m == n

pub data PaymentStatus : Type 0 where
  seen confirmed orphaned unattributed : PaymentStatus

abbrev pub is_orphaned : PaymentStatus → Bool
is_orphaned PaymentStatus.orphaned = true
is_orphaned _ = false

abbrev pub is_seen : PaymentStatus → Bool
is_seen PaymentStatus.seen = true
is_seen _ = false

abbrev pub is_confirmed : PaymentStatus → Bool
is_confirmed PaymentStatus.confirmed = true
is_confirmed _ = false

abbrev pub is_unattributed : PaymentStatus → Bool
is_unattributed PaymentStatus.unattributed = true
is_unattributed _ = false

pub data Reason : Type 0 where
  no_active_order asset_mismatch outside_window : Reason

pub data OutboxStatus : Type 0 where
  pending failed delivered dead : OutboxStatus

-- the texts `order:<id>`, `withdrawal:<id>`, `address:<id>`, `energy:<id>` and `global`
pub data SequenceKey : Type 0 where
  order_key withdrawal_key address_key energy_key : ℕ → SequenceKey
  global_key : SequenceKey

abbrev pub key_eq : SequenceKey → SequenceKey → Bool
key_eq (order_key a) (order_key b) = a == b
key_eq (withdrawal_key a) (withdrawal_key b) = a == b
key_eq (address_key a) (address_key b) = a == b
key_eq (energy_key a) (energy_key b) = a == b
key_eq global_key global_key = true
key_eq _ _ = false

pub data EventType : Type 0 where
  payment_unattributed order_payment_seen order_partial order_paid order_reverted : EventType
  order_confirmed order_expired : EventType
  withdrawal_needs_operator withdrawal_failed withdrawal_confirmed : EventType
  energy_purchase_failed energy_balance_low : EventType

pub data Action : Type 0 where
  wallet_disable order_resolve resource_delegate : Action
  withdrawal_requested withdrawal_resolved withdrawal_rejected withdrawal_approved : Action
  withdrawal_broadcast withdrawal_needs_operator withdrawal_failed withdrawal_confirmed : Action

pub data WithdrawalStatus : Type 0 where
  requested awaiting_resources awaiting_energy signing broadcast : WithdrawalStatus
  confirmed failed needs_operator rejected : WithdrawalStatus

abbrev pub same_status : WithdrawalStatus → WithdrawalStatus → Bool
same_status WithdrawalStatus.requested WithdrawalStatus.requested = true
same_status WithdrawalStatus.awaiting_resources WithdrawalStatus.awaiting_resources = true
same_status WithdrawalStatus.awaiting_energy WithdrawalStatus.awaiting_energy = true
same_status WithdrawalStatus.signing WithdrawalStatus.signing = true
same_status WithdrawalStatus.broadcast WithdrawalStatus.broadcast = true
same_status WithdrawalStatus.confirmed WithdrawalStatus.confirmed = true
same_status WithdrawalStatus.failed WithdrawalStatus.failed = true
same_status WithdrawalStatus.needs_operator WithdrawalStatus.needs_operator = true
same_status WithdrawalStatus.rejected WithdrawalStatus.rejected = true
same_status _ _ = false

-- the column `resolved_by`
pub data Resolver : Type 0 where
  operator chain_absence resource_acquisition : Resolver

pub data ResourceType : Type 0 where
  energy bandwidth : ResourceType

abbrev pub is_energy : ResourceType → Bool
is_energy ResourceType.energy = true
is_energy ResourceType.bandwidth = false

abbrev pub type_eq : ResourceType → ResourceType → Bool
type_eq ResourceType.energy t = is_energy t
type_eq ResourceType.bandwidth t = not (is_energy t)

-- the `source` of a grant
pub data GrantSource : Type 0 where
  self_delegated topup : GrantSource

abbrev pub is_topup : GrantSource → Bool
is_topup GrantSource.self_delegated = false
is_topup GrantSource.topup = true

pub data GrantStatus : Type 0 where
  requested attempted broadcast confirmed failed needs_operator : GrantStatus

abbrev pub is_requested_grant : GrantStatus → Bool
is_requested_grant GrantStatus.requested = true
is_requested_grant _ = false

abbrev pub is_attempted_grant : GrantStatus → Bool
is_attempted_grant GrantStatus.attempted = true
is_attempted_grant _ = false

abbrev pub is_failed_grant : GrantStatus → Bool
is_failed_grant GrantStatus.failed = true
is_failed_grant _ = false

-- confirmed or failed
abbrev pub is_settled_grant : GrantStatus → Bool
is_settled_grant GrantStatus.confirmed = true
is_settled_grant GrantStatus.failed = true
is_settled_grant _ = false

-- confirmed, failed or given to the operator
abbrev pub is_given_up_grant : GrantStatus → Bool
is_given_up_grant GrantStatus.needs_operator = true
is_given_up_grant s = is_settled_grant s

-- requested, attempted or broadcast
abbrev pub is_open_grant : GrantStatus → Bool
is_open_grant s = not (is_given_up_grant s)

pub data PurchaseStatus : Type 0 where
  quoted purchased delegated failed expired : PurchaseStatus

abbrev pub is_quoted : PurchaseStatus → Bool
is_quoted PurchaseStatus.quoted = true
is_quoted _ = false

abbrev pub is_purchased : PurchaseStatus → Bool
is_purchased PurchaseStatus.purchased = true
is_purchased _ = false

abbrev pub is_delegated : PurchaseStatus → Bool
is_delegated PurchaseStatus.delegated = true
is_delegated _ = false
