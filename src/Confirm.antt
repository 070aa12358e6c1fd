-- ===== src/Confirm.antt =====
-- Confirmation of payments and orders at a solidified height (internal/store/confirm.go; the height
-- comes from the solidity node, internal/confirm/worker.go).
pub mod Ancestry
pub mod Listed
pub mod Depth
pub mod Promotion
use payd.Prelude.{
  ℕ, zero, suc, ◌+◌, ◌-◌, Bool, true, false, not, ◌&&◌, ◌||◌, Option, none, some, List, [], ◌∷◌,
  ◌++◌, leb, ltb, ◌==◌, if◌then◌else◌, holds, coalesce, is_none, find, select, update, exists,
  distinct_by, collect, map_option, length, min, Result, ok, err, bad_argument, no_rows, or_error,
  ◌>>=◌, ◌>>◌, guard,
}
use payd.Decimal.{format_units}
use payd.Schema.{
  Time, unix, Database, BlockRecord, Crawler, Address, Order, OrderStatus, Payment, PaymentStatus,
  EventConfig, EventType, Payload, PaymentPayload, is_in, is_seen, is_unattributed, is_orphaned,
  is_confirmed, is_paid,
}
use payd.Recalc.{recalculate_order, recalculate_balance, before}
use payd.Events.{enqueue_order_event}
use payd.Pool.{cool_address}
use payd.Chain.{announce_reversal, own_key, recipient_key, key_same, rebalance_all}

-- `p.status = 'seen' OR (p.status = 'unattributed' AND p.confirmed_at IS NULL)`
abbrev pub is_unconfirmed : Payment → Bool
is_unconfirmed p = is_seen p.status || (is_unattributed p.status && is_none p.confirmed_at)

-- The cursor's update: a head that lags behind does not move it back.
abbrev pub raise_head : (height stamp : ℕ) → Crawler → Crawler
raise_head height stamp c =
    if ltb c.solidified_height height
    then record c { solidified_height = height; solidified_updated_at = stamp }
    else c

-- `mismatchedPayments`: the block stored at the height is another one.
abbrev pub differs : Option BlockRecord → Payment → Bool
differs none p = false
differs (some b) p = not (b.id == p.block_id)

abbrev pub is_mismatched : List BlockRecord → (solidified : ℕ) → Payment → Bool
is_mismatched blocks solidified p =
    is_unconfirmed p
    && (leb p.block_height solidified && differs (find (λ b. b.height == p.block_height) blocks) p)

-- The recursive query `canonical`: from a block along the parent links, one height down at a time.
unfoldable pub canonical_from : ℕ → List BlockRecord → Option BlockRecord → List BlockRecord
canonical_from zero blocks tip = []
canonical_from (suc fuel) blocks none = []
canonical_from (suc fuel) blocks (some b) =
    b
    ∷ canonical_from fuel blocks
        (find (λ a. (a.height + 1 == b.height) && (a.id == b.parent_id)) blocks)

-- Every step goes down one height, so one round more than the height is enough.
unfoldable pub canonical : List BlockRecord → (last : ℕ) → List BlockRecord
unfolding canonical_from
canonical blocks last = canonical_from (suc last) blocks (find (λ b. b.height == last) blocks)

-- `block_height < (SELECT MIN(height) FROM blocks)`; of no rows the minimum is NULL.
abbrev pub lowest : List BlockRecord → Option ℕ
lowest [] = none
lowest (b ∷ bs) = some (coalesce (map_option (min b.height) (lowest bs)) b.height)

abbrev pub is_below : Option ℕ → ℕ → Bool
is_below none height = false
is_below (some low) height = ltb height low

-- `? IS NULL OR p.block_height < ?`: not in the range of a suspected reorganisation
abbrev pub is_trusted : Option ℕ → ℕ → Bool
is_trusted none height = true
is_trusted (some h) height = ltb height h

-- `promotablePayments`, with the block of the canonical chain at the payment's height.
abbrev pub is_canonical : List BlockRecord → Payment → Bool
is_canonical chain p = exists (λ b. (b.height == p.block_height) && (b.id == p.block_id)) chain

abbrev pub is_promotable :
    (chain blocks : List BlockRecord) (last solidified required : ℕ) (suspected : Option ℕ)
    → Payment
    → Bool
is_promotable chain blocks last solidified required suspected p =
    is_unconfirmed p
    && (leb p.block_height solidified
        && ((is_canonical chain p || is_below (lowest blocks) p.block_height)
            && (leb (p.block_height + required) last && is_trusted suspected p.block_height)))

abbrev pub withdrawn : Payment → Payment
withdrawn p = record p { status = PaymentStatus.orphaned; confirmed_at = none }

-- The status is set from the one that the query read.
abbrev pub promoted : (read : PaymentStatus) (stamp : ℕ) → Payment → Payment
promoted read stamp p = record p {
  status = if is_seen read then PaymentStatus.confirmed else read;
  confirmed_at = some stamp;
}

abbrev pub status_read : List Payment → Payment → PaymentStatus
status_read rows p = elim (find (λ r. r.id == p.id) rows) [ none ↦ p.status | some r ↦ r.status ]

-- An update of the listed rows, by their ids.
abbrev pub is_one_of : List Payment → Payment → Bool
is_one_of rows p = exists (λ r. r.id == p.id) rows

-- `collectConfirmationEffects`: the balances of the address and of an owned recipient.
abbrev pub touched_balances : List Address → List Payment → List (ℕ × ℕ)
touched_balances addresses ps = collect own_key ps ++ collect (recipient_key addresses) ps

-- The orders that lost a payment.
unfoldable pub recheck_orders : EventConfig → (now : Time) → List ℕ → Database → Result Database
recheck_orders events now [] db = ok db
recheck_orders events now (id ∷ ids) db = recalculate_order db id now >>= λ r.
    announce_reversal events now id r.0 r.1 >>= λ next. recheck_orders events now ids next

-- A payment that bears on the confirmation of `o`.
abbrev pub bears_on : Order → Option ℕ → Payment → Bool
bears_on o released p =
    holds p.order_id o.id
    && (not (is_orphaned p.status)
        && (is_in p.direction
            && (p.asset == o.asset
                && (leb o.created_at p.block_timestamp && before p.block_timestamp released))))

abbrev pub is_settleable_at : Option Address → List Payment → Order → Bool
is_settleable_at none ps o = false
is_settleable_at (some a) ps o =
    is_paid o.status
    && (exists (bears_on o a.released_at) ps
        && not (exists (λ p. bears_on o a.released_at p && not (is_confirmed p.status)) ps))

-- The query of `promotePaidOrders`.
abbrev pub is_settleable : Database → Order → Bool
is_settleable db o = is_settleable_at (find (λ a. a.id == o.address_id) db.addresses) db.payments o

-- `ConfirmationDepth`: never below zero.
abbrev pub confirmation_depth : (last height : ℕ) → ℕ
confirmation_depth last height = last - height

abbrev pub is_confirmed_for : (order_id asset : ℕ) → Payment → Bool
is_confirmed_for order_id asset p =
    holds p.order_id order_id && (p.asset == asset && (is_in p.direction && is_confirmed p.status))

-- `confirmedPaymentPayloads`: each with its depth.
unfoldable pub payloads_of : (decimals last : ℕ) → List Payment → Result (List (PaymentPayload × ℕ))
payloads_of decimals last [] = ok []
payloads_of decimals last (p ∷ ps) = format_units p.amount_raw decimals >>= λ amount.
    payloads_of decimals last ps >>= λ rest. ok (
      (
        record {
          txid = p.txid;
          log_index = p.log_index;
          from_address = p.from_address;
          amount = amount;
          block_height = p.block_height;
        },
        confirmation_depth last p.block_height,
      )
      ∷ rest)

-- The least depth, and 0 where there is none.
unfoldable pub least_depth : List (PaymentPayload × ℕ) → ℕ
least_depth [] = 0
least_depth ((p, d) ∷ []) = d
least_depth ((p, d) ∷ q ∷ ps) = min d (least_depth (q ∷ ps))

unfoldable pub confirm_order :
    EventConfig → (last : ℕ) (cooldown now : Time) → Order → Database → Result Database
confirm_order events last cooldown now o db = do
  let moved = record db {
    orders =
        update (λ r. r.id == o.id)
          (λ r. record r { status = OrderStatus.confirmed; updated_at = unix now }) db.orders;
    addresses = cool_address o.address_id (unix now) (unix (now + cooldown)) db.addresses;
  }
  payments ←
      payloads_of (events.decimals o.asset) last
        (select (is_confirmed_for o.id o.asset) moved.payments)
  enqueue_order_event moved events o.id EventType.order_confirmed
      (Payload.order_confirmed o.id (least_depth payments) payments o.metadata) now

unfoldable pub confirm_orders :
    EventConfig → (last : ℕ) (cooldown now : Time) → List Order → Database → Result Database
confirm_orders events last cooldown now [] db = ok db
confirm_orders events last cooldown now (o ∷ os) db =
    confirm_order events last cooldown now o db >>= λ next.
    confirm_orders events last cooldown now os next

-- `promotePaidOrders`
unfoldable pub promote_paid_orders :
    EventConfig → (last : ℕ) (cooldown now : Time) → Database → Result (ℕ × Database)
promote_paid_orders events last cooldown now db =
    let orders = select (is_settleable db) db.orders in
    confirm_orders events last cooldown now orders db >>= λ next. ok (length orders, next)

-- `ConfirmationResult`
pub record ConfirmationResult : Type 0 where
  pub payments_confirmed : ℕ
  pub payments_orphaned : ℕ
  pub orders_confirmed : ℕ

-- The payments after both updates, by the two lists that were read before them.
abbrev pub reviewed : (stamp : ℕ) (orphaned promotable : List Payment) → List Payment → List Payment
reviewed stamp orphaned promotable ps =
    update (is_one_of promotable) (λ p. promoted (status_read promotable p) stamp p)
      (update (is_one_of orphaned) withdrawn ps)

-- `ApplySolidifiedHeight`
unfoldable pub apply_solidified_height :
    (height required : ℕ) (cooldown : Time)
    → EventConfig
    → (now : Time) → Database
    → Result (ConfirmationResult × Database)
apply_solidified_height height required cooldown events now db = do
  guard (ltb 0 required) bad_argument
  let raised = map_option (raise_head height (unix now)) db.crawler
  c ← or_error raised no_rows
  let orphaned = select (is_mismatched db.blocks c.solidified_height) db.payments
  let promotable =
      select
        (is_promotable (canonical db.blocks c.last_height) db.blocks c.last_height
          c.solidified_height required c.reorg_suspected_from)
        db.payments
  let written = record db {
    crawler = raised;
    payments = reviewed (unix now) orphaned promotable db.payments;
  }
  balanced ←
      rebalance_all (distinct_by key_same (touched_balances db.addresses (orphaned ++ promotable)))
        written
  rechecked ←
      recheck_orders events now (distinct_by ◌==◌ (collect (λ p. p.order_id) orphaned)) balanced
  settled ← promote_paid_orders events c.last_height cooldown now rechecked
  ok (
    record {
      payments_confirmed = length promotable;
      payments_orphaned = length orphaned;
      orders_confirmed = settled.0;
    },
    settled.1,
  )
