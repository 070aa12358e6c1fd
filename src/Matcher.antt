-- ===== src/Matcher.antt =====
-- Attribution of a decoded payment to the active order of its address
-- (internal/matcher/matcher.go: Match).
pub mod Attribution
use payd.Prelude.{
  ℕ, Bool, true, false, not, ◌&&◌, ◌||◌, Option, none, some, ◌==◌, leb, ltb, if◌then◌else◌, is_none,
  find, Result, ok, no_rows, or_error, ◌>>=◌, ◌*◌,
}
use payd.Decimal.{format_units}
use payd.Schema.{
  Time, second, Database, OrderStatus, PaymentStatus, Direction, Reason, EventConfig, EventType,
  SequenceKey, Payload, PaymentPayload, is_active, is_in, status_eq,
}
use payd.Recalc.{before}
use payd.Events.{enqueue_order_event, enqueue_global_event}
use payd.Payments.{
  PaymentRecord, AttributionOrder, payment_exists, attribution_order, upsert_payment,
}

-- `insideWindow`: by the time of the block, never that of detection.
abbrev pub is_inside : AttributionOrder → PaymentRecord → Bool
is_inside o r = leb o.created_at r.block_timestamp && before r.block_timestamp o.released_at

-- The order that takes the payment, or which of the conditions fails first.
pub data Verdict : Type 0 where
  attributed : AttributionOrder → Verdict
  unattributed : Reason → Verdict

unfoldable pub judge : Option AttributionOrder → PaymentRecord → Verdict
judge none r = unattributed Reason.no_active_order
judge (some o) r =
    if not (is_active o.status)
    then unattributed Reason.no_active_order
    else if not (o.asset == r.asset)
    then unattributed Reason.asset_mismatch
    else if is_inside o r
    then attributed o
    else unattributed Reason.outside_window

-- The record that is written: with its order, or without one and with the reason.
abbrev pub stamped : Verdict → PaymentRecord → PaymentRecord
stamped (attributed o) r = record r { order_id = some o.id }
stamped (unattributed reason) r = record r {
  order_id = none;
  status = some PaymentStatus.unattributed;
  unattributed_reason = some reason;
}

-- `payment.Direction == "in" && payment.AddressID != nil`: only such a payment is judged.
abbrev pub verdict_at : Database → Direction → Option ℕ → PaymentRecord → Option Verdict
verdict_at db Direction.outgoing address_id r = none
verdict_at db Direction.incoming none r = none
verdict_at db Direction.incoming (some address_id) r =
    some (judge (attribution_order db address_id) r)

abbrev pub verdict : Database → PaymentRecord → Option Verdict
verdict db r = verdict_at db r.direction r.address_id r

abbrev pub stamp_record : Option Verdict → PaymentRecord → PaymentRecord
stamp_record none r = r
stamp_record (some v) r = stamped v r

-- Whether the record's own status says that it is unattributed.
abbrev pub says_unattributed : Option PaymentStatus → Bool
says_unattributed (some PaymentStatus.unattributed) = true
says_unattributed _ = false

-- `payment.unattributed`, for a record without an order.
abbrev pub announce_loose :
    EventConfig
    → (now : Time) → PaymentRecord
    → (Option ℕ → Option ℕ → Payload)
    → Option ℕ
    → Database
    → Database
announce_loose events now r payload none db = db
announce_loose events now r payload (some address_id) db =
    if says_unattributed r.status
    then enqueue_global_event db events (SequenceKey.address_key address_id)
        EventType.payment_unattributed (payload none none) now
    else db

-- The second event, where the payment has moved its order.
abbrev pub announce_status :
    EventConfig
    → (now : Time) → (order_id : ℕ) → Payload
    → (new : OrderStatus) → Database
    → Result Database
announce_status events now order_id payload OrderStatus.partial db =
    enqueue_order_event db events order_id EventType.order_partial payload now
announce_status events now order_id payload OrderStatus.paid db =
    enqueue_order_event db events order_id EventType.order_paid payload now
announce_status events now order_id payload _ db = ok db

unfoldable pub announce_order :
    EventConfig
    → (now : Time) → AttributionOrder
    → (Option ℕ → Option ℕ → Payload)
    → Database
    → Result Database
announce_order events now old payload db = do
  o ← or_error (find (λ o. o.id == old.id) db.orders) no_rows
  let body = payload (some old.id) (some o.metadata)
  seen ← enqueue_order_event db events old.id EventType.order_payment_seen body now
  o' ← or_error (find (λ o. o.id == old.id) seen.orders) no_rows
  if status_eq o'.status old.status
      then ok seen
      else announce_status events now old.id body o'.status seen

-- The events of a payment that is new or back, and no dust.
abbrev pub announce :
    EventConfig
    → (now : Time) → Option Verdict
    → PaymentRecord
    → (Option ℕ → Option ℕ → Payload)
    → Database
    → Result Database
announce events now (some (attributed o)) r payload db = announce_order events now o payload db
announce events now _ r payload db = ok (announce_loose events now r payload r.address_id db)

-- `Match`; `clock` is the time of the database writes, that of the events is the time of detection.
unfoldable pub match_payment :
    EventConfig → (clock : Time) → PaymentRecord → Database → Result Database
match_payment events clock record0 db = do
  let v = verdict db record0
  let r = stamp_record v record0
  let existed = payment_exists db r.txid r.log_index
  written ← upsert_payment r clock db
  if (existed && not written.0) || r.is_dust
      then ok written.1
      else format_units r.amount_raw (events.decimals r.asset) >>= λ amount.
          announce events (r.detected_at * second) v r
            (Payload.payment_seen
              (record {
                txid = r.txid;
                log_index = r.log_index;
                from_address = r.from_address;
                amount = amount;
                block_height = r.block_height;
              })
              r.to_address r.asset)
            written.1
