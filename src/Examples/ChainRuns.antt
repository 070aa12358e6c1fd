-- ===== src/Examples/ChainRuns.antt =====
-- Matching, committing, rewinding and confirming, on the small store.
use payd.Prelude.{true, false, ◌≡◌, refl, none, some, [], value_or, find, ◌⊎◌, ◌==◌}
use payd.Schema.{Crawler, Time, Database, Payment, PaymentStatus, is_confirmed, is_orphaned}
use payd.Recalc.{
  recalculate_order_with_transition, recalculate_order, recalculate_balance, sum_from, next_status,
  balance_from, balance_payments, store_balance, add_row,
}
use payd.Payments.{upsert_payment, is_payment, attribution_order, write_payment}
use payd.Payments.Upsert.{IsUpserted, upsert_payment-IsUpserted}
use payd.Matcher.{match_payment, judge, announce_order}
use payd.Decimal.{
  parse_amount, set_string, digits_value, unsigned_value, decimal, digits, to_string, format_units,
  cut, zeros,
}
use payd.Events.{enqueue_order_event, enqueue_global_event, enqueue_to, insert_outbox}
use payd.Matcher.Attribution.{
  IsJudged, match_payment-IsJudged, match_payment_keeps_order, match_payment-SameChain,
}
use payd.Chain.{
  commit_block, rewind_chain, BlockApply, RewindResult, affected_orders, affected_balances,
  recount_orders, rebalance_all, announce_reversal,
}
use payd.Chain.Commit.{IsCommitted, commit_block-IsCommitted}
use payd.Chain.Rewind.{IsRewound, rewind_chain-IsRewound}
use payd.Confirm.{
  canonical, canonical_from, recheck_orders, promote_paid_orders, confirm_orders,
  apply_solidified_height, ConfirmationResult,
}
use payd.Confirm.Ancestry.{IsCanonical, canonical-IsAncestry}
use payd.Confirm.Depth.{IsReviewed, apply_solidified_height-IsReviewed}
use payd.Confirm.Promotion.{IsDeep, apply_solidified_height_confirms}
use payd.Examples.Data.{
  ok_value, is_ok, events, store, transfer, block_at_height, at_second, stored_payment, store_with,
}

abbrev now : Time
now = at_second 20

abbrev matched : Database
matched = value_or store (match_payment events now transfer store)

match_runs : is_ok (match_payment events now transfer store) ≡ true
unfolding match_payment upsert_payment judge attribution_order write_payment announce_order sum_from
    next_status parse_amount set_string digits_value unsigned_value balance_from balance_payments
    store_balance add_row decimal digits to_string format_units cut zeros enqueue_order_event
    enqueue_global_event enqueue_to insert_outbox recalculate_order_with_transition
    recalculate_order recalculate_balance
match_runs = refl

match_payment-IsJudged_example :
    (p : Payment) × (find (is_payment 900 transfer.log_index) matched.payments ≡ some p)
    × IsJudged (attribution_order store 1) transfer p
match_payment-IsJudged_example =
    match_payment-IsJudged events now transfer store 1
      (ok_value store (match_payment events now transfer store) match_runs) refl refl refl

again_runs : is_ok (match_payment events now transfer (store_with 5)) ≡ true
unfolding match_payment upsert_payment judge attribution_order write_payment announce_order sum_from
    next_status parse_amount set_string digits_value unsigned_value balance_from balance_payments
    store_balance add_row decimal digits to_string format_units cut zeros enqueue_order_event
    enqueue_global_event enqueue_to insert_outbox recalculate_order_with_transition
    recalculate_order recalculate_balance
again_runs = refl

match_payment_keeps_order_example :
    (p : Payment) × (find
        (is_payment 900 transfer.log_index)
        (value_or store (match_payment events now transfer (store_with 5))).payments
      ≡ some p)
    × (p.order_id ≡ some 1)
    × (p.amount_raw ≡ (stored_payment 5).amount_raw)
    × (p.block_height ≡ 6)
    × (p.block_id ≡ 1006)
    × (p.block_timestamp ≡ 18)
    × (is_orphaned PaymentStatus.seen ≡ false → p.status ≡ PaymentStatus.seen)
match_payment_keeps_order_example =
    match_payment_keeps_order events now transfer (store_with 5) (stored_payment 5)
      (ok_value store (match_payment events now transfer (store_with 5)) again_runs) refl

upsert_runs : is_ok (upsert_payment transfer now store) ≡ true
unfolding upsert_payment write_payment sum_from next_status parse_amount set_string digits_value
    unsigned_value balance_from balance_payments store_balance add_row decimal digits to_string
    format_units cut zeros enqueue_order_event enqueue_global_event enqueue_to insert_outbox
    recalculate_order_with_transition recalculate_order recalculate_balance
upsert_runs = refl

upsert_payment-IsUpserted_example :
    let r = value_or (false, store) (upsert_payment transfer now store) in
    IsUpserted transfer none store r.0 r.1
upsert_payment-IsUpserted_example =
    upsert_payment-IsUpserted transfer now store
      (ok_value (false, store) (upsert_payment transfer now store) upsert_runs)

abbrev apply : BlockApply
apply = some (match_payment events now transfer)

commit_runs : is_ok (commit_block (block_at_height 6) 5 apply now store) ≡ true
unfolding commit_block match_payment upsert_payment judge attribution_order write_payment
    announce_order sum_from next_status parse_amount set_string digits_value unsigned_value
    balance_from balance_payments store_balance add_row decimal digits to_string format_units cut
    zeros enqueue_order_event enqueue_global_event enqueue_to insert_outbox
    recalculate_order_with_transition recalculate_order recalculate_balance
commit_runs = refl

commit_block-IsCommitted_example :
    IsCommitted
      (block_at_height 6)
      5
      store
      (value_or store (commit_block (block_at_height 6) 5 apply now store))
commit_block-IsCommitted_example =
    commit_block-IsCommitted (block_at_height 6) 5 apply now store
      (ok_value store (commit_block (block_at_height 6) 5 apply now store) commit_runs)
      (λ db db' h. match_payment-SameChain events now transfer db h) (4, (refl, (refl, refl)))

abbrev unrewound : RewindResult × Database
unrewound = (record { orphaned_payments = 0; reverted_orders = [] }, store)

rewind_runs : is_ok (rewind_chain 4 events now (store_with 5)) ≡ true
unfolding rewind_chain affected_orders affected_balances recount_orders rebalance_all
    announce_reversal sum_from next_status parse_amount set_string digits_value unsigned_value
    balance_from balance_payments store_balance add_row decimal digits to_string format_units cut
    zeros enqueue_order_event enqueue_global_event enqueue_to insert_outbox
    recalculate_order_with_transition recalculate_order recalculate_balance
rewind_runs = refl

rewind_chain-IsRewound_example :
    let r = value_or unrewound (rewind_chain 4 events now (store_with 5)) in
    IsRewound 4 (store_with 5) r.0 r.1
rewind_chain-IsRewound_example =
    rewind_chain-IsRewound 4 events now (store_with 5)
      (ok_value unrewound (rewind_chain 4 events now (store_with 5)) rewind_runs)
      (4, (refl, (refl, refl)))

canonical-IsAncestry_example : IsCanonical store.blocks 5 (canonical store.blocks 5)
canonical-IsAncestry_example = canonical-IsAncestry store.blocks 5

abbrev unconfirmed : ConfirmationResult × Database
unconfirmed =
    (record { payments_confirmed = 0; payments_orphaned = 0; orders_confirmed = 0 }, store)

confirm_runs : is_ok (apply_solidified_height 5 1 now events now (store_with 4)) ≡ true
unfolding apply_solidified_height canonical canonical_from recheck_orders promote_paid_orders
    confirm_orders rebalance_all sum_from next_status parse_amount set_string digits_value
    unsigned_value balance_from balance_payments store_balance add_row decimal digits to_string
    format_units cut zeros enqueue_order_event enqueue_global_event enqueue_to insert_outbox
    recalculate_order_with_transition recalculate_order recalculate_balance
confirm_runs = refl

apply_solidified_height-IsReviewed_example :
    let r = value_or unconfirmed (apply_solidified_height 5 1 now events now (store_with 4)) in
    IsReviewed 5 1 now (store_with 4) r.0 r.1
apply_solidified_height-IsReviewed_example =
    apply_solidified_height-IsReviewed 5 1 now events now (store_with 4)
      (ok_value unconfirmed (apply_solidified_height 5 1 now events now (store_with 4))
        confirm_runs)
      (refl, tt)

abbrev reviewed_store : Database
reviewed_store =
    (value_or unconfirmed (apply_solidified_height 5 1 now events now (store_with 4))).1

abbrev confirmed_payment : Payment
confirmed_payment = record (stored_payment 4) {
  status = PaymentStatus.confirmed;
  confirmed_at = some 20;
}

confirmed_row :
    find (λ r. r.id == (stored_payment 4).id) reviewed_store.payments ≡ some confirmed_payment
unfolding apply_solidified_height canonical canonical_from recheck_orders promote_paid_orders
    confirm_orders rebalance_all sum_from next_status parse_amount set_string digits_value
    unsigned_value balance_from balance_payments store_balance add_row decimal digits to_string
    format_units cut zeros enqueue_order_event enqueue_global_event enqueue_to insert_outbox
    recalculate_order_with_transition recalculate_order recalculate_balance
confirmed_row = refl

apply_solidified_height_confirms_example :
    (is_confirmed PaymentStatus.seen ≡ true)
    ⊎ ((head : Crawler) × (store.crawler ≡ some head)
        × IsDeep 5 1 head store.blocks (stored_payment 4))
apply_solidified_height_confirms_example =
    apply_solidified_height_confirms 5 1 now events now (store_with 4) (stored_payment 4).id
      (stored_payment 4) confirmed_payment
      (ok_value unconfirmed (apply_solidified_height 5 1 now events now (store_with 4))
        confirm_runs)
      (refl, tt) refl confirmed_row refl
