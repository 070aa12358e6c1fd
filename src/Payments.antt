-- ===== src/Payments.antt =====
-- The payment writes of a block transaction (internal/store/follower.go: PaymentRecord,
-- UpsertPayment, AttributionOrder, ApplyReconciledPayments; internal/store/outbox.go:
-- PaymentExists, OrderStatus, OrderMetadata).
pub mod Upsert
use payd.Prelude.{
  ℕ, ◌+◌, Bool, true, false, not, ◌&&◌, Option, none, some, List, [], ◌∷◌, ◌++◌, ◌==◌,
  if◌then◌else◌, coalesce, is_none, is_some, find, update, exists, map_option, Result, ok, no_rows,
  or_error, ◌>>=◌,
}
use payd.Decimal.{Text}
use payd.Schema.{
  Time, unix, Database, Address, Order, OrderStatus, Payment, PaymentStatus, LogIndex, Direction,
  Reason, log_eq, is_in, is_orphaned,
}
use payd.Recalc.{recalculate_order_with_transition, recalculate_balance}

-- `PaymentRecord`; an empty status is `none`.
pub record PaymentRecord : Type 0 where
  pub txid : ℕ
  pub log_index : LogIndex
  pub direction : Direction
  pub block_height : ℕ
  pub block_id : ℕ
  pub block_timestamp : ℕ
  pub from_address : ℕ
  pub to_address : ℕ
  pub address_id : Option ℕ
  pub order_id : Option ℕ
  pub asset : ℕ
  pub amount_raw : Text
  pub is_dust : Bool
  pub status : Option PaymentStatus
  pub detected_at : ℕ
  pub unattributed_reason : Option Reason

-- The unique key of a payment.
abbrev pub is_payment : (txid : ℕ) → LogIndex → Payment → Bool
is_payment txid log_index p = p.txid == txid && log_eq p.log_index log_index

-- `PaymentExists`
abbrev pub payment_exists : Database → (txid : ℕ) → LogIndex → Bool
payment_exists db txid log_index = exists (is_payment txid log_index) db.payments

-- The row that the insertion makes.
abbrev pub row_of : (id : ℕ) → PaymentRecord → Payment
row_of id r = record {
  id = id;
  txid = r.txid;
  log_index = r.log_index;
  direction = r.direction;
  block_height = r.block_height;
  block_id = r.block_id;
  block_timestamp = r.block_timestamp;
  from_address = r.from_address;
  to_address = r.to_address;
  address_id = r.address_id;
  order_id = r.order_id;
  asset = r.asset;
  amount_raw = r.amount_raw;
  is_dust = r.is_dust;
  status = coalesce r.status PaymentStatus.seen;
  detected_at = r.detected_at;
  confirmed_at = none;
  unattributed_reason = r.unattributed_reason;
}

-- `DO UPDATE SET`: the block moves, an orphaned payment comes back, and the order stays.
abbrev pub refreshed : PaymentRecord → Payment → Payment
refreshed r p = record p {
  block_height = r.block_height;
  block_id = r.block_id;
  block_timestamp = r.block_timestamp;
  status = if is_orphaned p.status then coalesce r.status PaymentStatus.seen else p.status;
  unattributed_reason = r.unattributed_reason;
}

unfoldable pub write_payment : Database → PaymentRecord → Database
write_payment db r =
    if payment_exists db r.txid r.log_index
    then record db { payments = update (is_payment r.txid r.log_index) (refreshed r) db.payments }
    else record db { payments = db.payments ++ row_of db.draws r ∷ []; draws = db.draws + 1 }

abbrev pub first_some : Option ℕ → Option ℕ → Option ℕ
first_some (some a) b = some a
first_some none b = b

-- The order of the row that was there, if it has one, and else the record's.
abbrev pub order_of_row : Option Payment → Option ℕ
order_of_row none = none
order_of_row (some p) = p.order_id

abbrev pub recount : Database → Option ℕ → (allow : Bool) → (now : Time) → Result Database
recount db none allow now = ok db
recount db (some order_id) allow now =
    recalculate_order_with_transition db order_id allow now >>= λ r. ok r.1

abbrev pub rebalance : Database → Option ℕ → ℕ → Result Database
rebalance db none asset = ok db
rebalance db (some address_id) asset = recalculate_balance db address_id asset

-- The owned address that an outgoing payment goes to.
abbrev pub owned_recipient : Database → Direction → (to_address : ℕ) → Option ℕ
owned_recipient db Direction.incoming to_address = none
owned_recipient db Direction.outgoing to_address =
    map_option (λ a. a.id) (find (λ a. a.address == to_address) db.addresses)

abbrev pub was_orphaned : Option Payment → Bool
was_orphaned none = false
was_orphaned (some p) = is_orphaned p.status

-- `UpsertPayment`: whether the payment came back from orphaned.
unfoldable pub upsert_payment : PaymentRecord → (now : Time) → Database → Result (Bool × Database)
upsert_payment r now db = do
  let old = find (is_payment r.txid r.log_index) db.payments
  counted ←
      recount (write_payment db r) (first_some (order_of_row old) r.order_id) (not r.is_dust) now
  own ← rebalance counted r.address_id r.asset
  both ← rebalance own (owned_recipient own r.direction r.to_address) r.asset
  ok (was_orphaned old, both)

-- `AttributionOrder`: the order that the address is assigned to, and the end of its window.
pub record AttributionOrder : Type 0 where
  pub id : ℕ
  pub asset : ℕ
  pub status : OrderStatus
  pub created_at : ℕ
  pub released_at : Option ℕ

abbrev pub assignment_of : Option ℕ → Order → AttributionOrder
assignment_of released o = record {
  id = o.id;
  asset = o.asset;
  status = o.status;
  created_at = o.created_at;
  released_at = released;
}

abbrev pub order_assigned : Database → Address → Option ℕ → Option AttributionOrder
order_assigned db a none = none
order_assigned db a (some order_id) =
    map_option (assignment_of a.released_at) (find (λ o. o.id == order_id) db.orders)

abbrev pub assignment_at : Database → Option Address → Option AttributionOrder
assignment_at db none = none
assignment_at db (some a) = order_assigned db a a.assigned_order_id

unfoldable pub attribution_order : Database → (address_id : ℕ) → Option AttributionOrder
attribution_order db address_id = assignment_at db (find (λ a. a.id == address_id) db.addresses)

-- The loop of `ApplyReconciledPayments` over the matcher: how many payments were new.
unfoldable pub apply_reconciled :
    (PaymentRecord → Database → Result Database)
    → List PaymentRecord
    → ℕ
    → Database
    → Result (ℕ × Database)
apply_reconciled match [] inserted db = ok (inserted, db)
apply_reconciled match (r ∷ rs) inserted db = match r db >>= λ next.
    apply_reconciled match rs
      (if payment_exists db r.txid r.log_index then inserted else inserted + 1) next
