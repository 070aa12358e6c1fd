-- ===== src/Confirm/Depth.antt =====
-- What the solidified height does to each payment: the updates by lists of identifiers are one
-- decision per row, and only what is deep, trusted and canonical is confirmed.
use payd.Prelude.{
  ℕ, ◌+◌, true, ◌≡◌, sym, ap, ◌∙◌, subst, List, [], ◌∷◌, ◌++◌, map, some, select, update, ok,
  >>=-eq-ok, ok-injective, or_error, or_error-eq-ok, no_rows, guard, guard-eq-ok, bad_argument,
  ◌==◌, map_option, distinct_by, collect, ltb,
}
use payd.Schema.{Time, unix, Database, Order, OrderStatus, Crawler, EventConfig, EventType}
use payd.Recalc.{recalculate_order}
use payd.Pool.{cool_address}
use payd.Chain.{key_same, rebalance_all, announce_reversal}
use payd.Chain.Links.{
  SameBook, SameBook-refl, SameBook-trans, recalculate_order-SameBook, announce_reversal-SameBook,
  rebalance_all-SameBook, enqueue_order_event-SameBook,
}
use payd.Confirm.Listed.{HasDistinctIds, listed_iff, listed-Leads, review, reviewed_rows}
use payd.Confirm.{
  raise_head, is_mismatched, canonical, is_promotable, reviewed, recheck_orders, confirm_order,
  confirm_orders, promote_paid_orders, payloads_of, is_confirmed_for, is_settleable,
  ConfirmationResult, apply_solidified_height, touched_balances,
}

pub recheck-SameBook :
    (events : EventConfig) (now : Time) (ids : List ℕ) (db : Database) {db' : Database}
    → recheck_orders events now ids db ≡ ok db'
    → SameBook db db'
unfolding recheck_orders
recheck-SameBook events now [] db h = subst (SameBook db) (ok-injective h) (SameBook-refl db)
recheck-SameBook events now (id ∷ ids) db {db'} h =
    let (r, e1, h1) = >>=-eq-ok (recalculate_order db id now) _ h in
    let (next, e2, h2) = >>=-eq-ok (announce_reversal events now id r.0 r.1) _ h1 in
    let first =
      SameBook-trans db r.1 next (recalculate_order-SameBook db id now e1)
        (announce_reversal-SameBook events now id r.0 r.1 e2) in
    SameBook-trans db next db' first (recheck-SameBook events now ids next h2)

confirm_order-payments :
    (events : EventConfig) (last : ℕ) (cooldown now : Time) (o : Order) (db : Database)
    {db' : Database}
    → confirm_order events last cooldown now o db ≡ ok db'
    → db'.payments ≡ db.payments
unfolding confirm_order
confirm_order-payments events last cooldown now o db h =
    let moved = record db {
      orders =
          update (λ r. r.id == o.id)
            (λ r. record r { status = OrderStatus.confirmed; updated_at = unix now }) db.orders;
      addresses = cool_address o.address_id (unix now) (unix (now + cooldown)) db.addresses;
    } in
    let (ps, _, h1) =
      >>=-eq-ok
        (payloads_of (events.decimals o.asset) last
          (select (is_confirmed_for o.id o.asset) db.payments))
        _ h in
    let same = enqueue_order_event-SameBook moved events o.id EventType.order_confirmed _ now h1 in
    same.1

confirm_orders-payments :
    (events : EventConfig) (last : ℕ) (cooldown now : Time) (os : List Order) (db : Database)
    {db' : Database}
    → confirm_orders events last cooldown now os db ≡ ok db'
    → db'.payments ≡ db.payments
unfolding confirm_orders
confirm_orders-payments events last cooldown now [] db h =
    ap (λ d. d.payments) (sym (ok-injective h))
confirm_orders-payments events last cooldown now (o ∷ os) db h =
    let (next, e, h1) = >>=-eq-ok (confirm_order events last cooldown now o db) _ h in
    confirm_orders-payments events last cooldown now os next h1
    ∙ confirm_order-payments events last cooldown now o db e

promote-payments :
    (events : EventConfig) (last : ℕ) (cooldown now : Time) (db : Database) {r : ℕ × Database}
    → promote_paid_orders events last cooldown now db ≡ ok r
    → r.1.payments ≡ db.payments
unfolding promote_paid_orders
promote-payments events last cooldown now db h =
    let (next, e, h1) =
      >>=-eq-ok (confirm_orders events last cooldown now (select (is_settleable db) db.orders) db) _
        h in
    ap (λ r. r.1.payments) (sym (ok-injective h1))
    ∙ confirm_orders-payments events last cooldown now _ db e

-- What a pass at a solidified height has done to the payments.
pub record IsReviewed (height required : ℕ) (now : Time) (db : Database)
    (result : ConfirmationResult) (db' : Database) : Type 0 where
  pub head : Crawler
  pub head_raised : map_option (raise_head height (unix now)) db.crawler ≡ some head
  pub positive : ltb 0 required ≡ true
  pub decided :
      db'.payments
      ≡ map
          (review (unix now) (is_mismatched db.blocks head.solidified_height) (
            is_promotable
              (canonical db.blocks head.last_height)
              db.blocks
              head.last_height
              head.solidified_height
              required
              head.reorg_suspected_from))
          db.payments

-- Where no two payments have one identifier, a pass at a solidified height that succeeds decides
-- each payment by itself, whatever it recomputes for orders and balances in between. A payment that
-- is not confirmed yet (seen, or unattributed without a time of confirmation) is orphaned, without a
-- time of confirmation, when it is at or below the solidified height and a different block is stored
-- at its height. One that is promotable gets the time of confirmation, and the status confirmed if
-- it was seen; an unattributed one keeps its status. Every other payment stays as it is.
pub apply_solidified_height-IsReviewed :
    (height required : ℕ) (cooldown : Time) (events : EventConfig) (now : Time) (db : Database)
    {result : ConfirmationResult} {db' : Database}
    → apply_solidified_height height required cooldown events now db ≡ ok (result, db')
    → HasDistinctIds db.payments
    → IsReviewed height required now db result db'
unfolding apply_solidified_height
apply_solidified_height-IsReviewed height required cooldown events now db h distinct =
    let (_, g, h1) = >>=-eq-ok (guard (ltb 0 required) bad_argument) _ h in
    let raised = map_option (raise_head height (unix now)) db.crawler in
    let (c, e2, h2) = >>=-eq-ok (or_error raised no_rows) _ h1 in
    let m = is_mismatched db.blocks c.solidified_height in
    let q =
      is_promotable (canonical db.blocks c.last_height) db.blocks c.last_height c.solidified_height
        required c.reorg_suspected_from in
    let orphaned = select m db.payments in
    let promotable = select q db.payments in
    let written = record db {
      crawler = raised;
      payments = reviewed (unix now) orphaned promotable db.payments;
    } in
    let (balanced, e3, h3) =
      >>=-eq-ok
        (rebalance_all
          (distinct_by key_same (touched_balances db.addresses (orphaned ++ promotable))) written)
        _ h2 in
    let (rechecked, e4, h4) =
      >>=-eq-ok
        (recheck_orders events now (distinct_by ◌==◌ (collect (λ p. p.order_id) orphaned)) balanced)
        _ h3 in
    let (settled, e5, h5) =
      >>=-eq-ok (promote_paid_orders events c.last_height cooldown now rechecked) _ h4 in
    let same =
      SameBook-trans written balanced rechecked (rebalance_all-SameBook _ written e3)
        (recheck-SameBook events now _ balanced e4) in
    let rows =
      reviewed_rows (unix now) m q orphaned promotable db.payments
        (listed_iff m db.payments distinct) (listed_iff q db.payments distinct)
        (listed-Leads q db.payments distinct) in
    subst (λ r. IsReviewed height required now db r.0 r.1) (ok-injective h5)
      (record {
        head = c;
        head_raised = or_error-eq-ok raised no_rows e2;
        positive = guard-eq-ok (ltb 0 required) bad_argument g;
        decided = promote-payments events c.last_height cooldown now rechecked e5 ∙ same.1 ∙ rows;
      })
