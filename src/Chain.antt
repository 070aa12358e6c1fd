-- ===== src/Chain.antt =====
-- The stored chain (internal/store/follower.go: Cursor, Block, SetReorgSuspicion,
-- ClearReorgSuspicion, CommitBlock, RewindChain).
pub mod Links
pub mod Commit
pub mod Rewind
use payd.Prelude.{
  ℕ, suc, ◌+◌, Bool, true, false, not, ◌&&◌, Option, none, some, List, [], ◌∷◌, ◌++◌, map, leb, ltb,
  ◌==◌, if◌then◌else◌, is_none, find, select, update, count, exists, distinct_by, collect,
  map_option, min, Result, ok, err, Error, bad_argument, not_next_height, constraint,
  concurrent_change, bad_ancestor, no_rows, or_error, ◌>>=◌, ◌>>◌, guard,
}
use payd.Schema.{
  Time, unix, Database, BlockRecord, Crawler, Address, Payment, PaymentStatus, OrderStatus,
  EventConfig, EventType, Payload, is_in,
}
use payd.Recalc.{recalculate_order, recalculate_balance}
use payd.Events.{enqueue_order_event}

-- `Cursor`: the last and the solidified height, if there is a cursor.
abbrev pub cursor : Database → Option Crawler
cursor db = db.crawler

-- `Block`
abbrev pub block_at : Database → ℕ → Option BlockRecord
block_at db height = find (λ b. b.height == height) db.blocks

abbrev pub earliest : Option ℕ → ℕ → Option ℕ
earliest none height = some height
earliest (some h) height = some (min h height)

abbrev pub suspected_from : ℕ → Crawler → Crawler
suspected_from height c = record c { reorg_suspected_from = earliest c.reorg_suspected_from height }

abbrev pub unsuspected : Crawler → Crawler
unsuspected c = record c { reorg_suspected_from = none }

-- `SetReorgSuspicion`
unfoldable pub set_reorg_suspicion : ℕ → Database → Database
set_reorg_suspicion height db = record db {
  crawler = map_option (suspected_from height) db.crawler;
}

-- `ClearReorgSuspicion`
unfoldable pub clear_reorg_suspicion : Database → Database
clear_reorg_suspicion db = record db { crawler = map_option unsuspected db.crawler }

-- `block.Height == previous+1`, where there is a cursor.
abbrev pub is_next : Option Crawler → ℕ → Bool
is_next none height = true
is_next (some c) height = height == c.last_height + 1

-- The cursor after the block; the update is guarded by the height that was read before.
abbrev pub advance : Option Crawler → Option Crawler → ℕ → ℕ → Result Crawler
advance none now_there height stamp = ok (record {
  last_height = height;
  solidified_height = 0;
  solidified_updated_at = 0;
  updated_at = stamp;
  reorg_suspected_from = none;
})
advance (some c) none height stamp = err concurrent_change
advance (some c) (some d) height stamp =
    if d.last_height == c.last_height
    then ok (record d { last_height = height; updated_at = stamp })
    else err concurrent_change

-- The prepared payment writes, if the block has any.
abbrev pub BlockApply : Type 0
BlockApply = Option (Database → Result Database)

abbrev pub run_apply : BlockApply → Database → Result Database
run_apply none db = ok db
run_apply (some apply) db = apply db

-- `height >= block.Height - reorgDepth`, on signed numbers
abbrev pub is_retained : (height depth : ℕ) → BlockRecord → Bool
is_retained height depth b = leb height (b.height + depth)

-- `CommitBlock`
unfoldable pub commit_block :
    BlockRecord → (reorg_depth : ℕ) → BlockApply → (now : Time) → Database → Result Database
commit_block block depth apply now db = do
  guard (ltb 0 depth) bad_argument
  guard (is_next db.crawler block.height) not_next_height
  guard (not (exists (λ b. b.height == block.height) db.blocks)) constraint
  applied ← run_apply apply (record db { blocks = db.blocks ++ block ∷ [] })
  moved ← advance db.crawler applied.crawler block.height (unix now)
  ok (record applied {
    crawler = some moved;
    blocks = select (is_retained block.height depth) applied.blocks;
  })

abbrev pub is_above : ℕ → Payment → Bool
is_above ancestor p = ltb ancestor p.block_height

-- `SELECT DISTINCT order_id … WHERE block_height > ?`
unfoldable pub affected_orders : ℕ → Database → List ℕ
affected_orders ancestor db =
    distinct_by ◌==◌ (collect (λ p. p.order_id) (select (is_above ancestor) db.payments))

abbrev pub key_same : ℕ × ℕ → ℕ × ℕ → Bool
key_same a b = a.0 == b.0 && a.1 == b.1

abbrev pub own_key : Payment → Option (ℕ × ℕ)
own_key p = map_option (λ i. (i, p.asset)) p.address_id

abbrev pub recipient_key : List Address → Payment → Option (ℕ × ℕ)
recipient_key owned p =
    if is_in p.direction
    then none
    else map_option (λ (a : Address). (a.id, p.asset)) (find (λ a. a.address == p.to_address) owned)

-- The balances that a rewind recomputes: of the addresses and of the owned recipients.
unfoldable pub affected_balances : ℕ → Database → List (ℕ × ℕ)
affected_balances ancestor db =
    let above = select (is_above ancestor) db.payments in
    distinct_by key_same (collect own_key above ++ collect (recipient_key db.addresses) above)

-- The event for an order whose totals no longer cover it.
unfoldable pub announce_reversal :
    EventConfig → (now : Time) → (order_id : ℕ) → Bool → Database → Result Database
announce_reversal events now order_id false db = ok db
announce_reversal events now order_id true db =
    or_error (find (λ o. o.id == order_id) db.orders) no_rows >>= λ o.
    enqueue_order_event db events order_id EventType.order_reverted
      (Payload.order_reverted order_id o.status) now

abbrev pub noted : Bool → ℕ → List ℕ → List ℕ
noted true order_id ids = order_id ∷ ids
noted false order_id ids = ids

-- The loop over the affected orders: those that reverted.
unfoldable pub recount_orders :
    EventConfig → (now : Time) → List ℕ → Database → Result (List ℕ × Database)
recount_orders events now [] db = ok ([], db)
recount_orders events now (id ∷ ids) db = recalculate_order db id now >>= λ r.
    announce_reversal events now id r.0 r.1 >>= λ next.
    recount_orders events now ids next >>= λ rest. ok (noted r.0 id rest.0, rest.1)

unfoldable pub rebalance_all : List (ℕ × ℕ) → Database → Result Database
rebalance_all [] db = ok db
rebalance_all (k ∷ ks) db = recalculate_balance db k.0 k.1 >>= λ next. rebalance_all ks next

abbrev pub orphan : Payment → Payment
orphan p = record p { status = PaymentStatus.orphaned }

-- `RewindResult`
pub record RewindResult : Type 0 where
  pub orphaned_payments : ℕ
  pub reverted_orders : List ℕ

abbrev pub moved_back : (height stamp : ℕ) → Crawler → Crawler
moved_back height stamp c = record c { last_height = height; updated_at = stamp }

-- `RewindChain`
unfoldable pub rewind_chain :
    (ancestor : ℕ) → EventConfig → (now : Time) → Database → Result (RewindResult × Database)
rewind_chain ancestor events now db = do
  c ← or_error db.crawler no_rows
  guard (ltb ancestor c.last_height) bad_ancestor
  _ ← or_error (block_at db ancestor) no_rows
  let orphaned = record db { payments = update (is_above ancestor) orphan db.payments }
  recounted ← recount_orders events now (affected_orders ancestor db) orphaned
  balanced ← rebalance_all (affected_balances ancestor db) recounted.1
  ok (
    record {
      orphaned_payments = count (is_above ancestor) db.payments;
      reverted_orders = recounted.0;
    },
    record balanced {
      blocks = select (λ b. leb b.height ancestor) balanced.blocks;
      crawler = map_option (moved_back ancestor (unix now)) balanced.crawler;
    },
  )
