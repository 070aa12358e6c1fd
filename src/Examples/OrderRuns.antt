-- ===== src/Examples/OrderRuns.antt =====
-- Orders, their pool and their totals, on the small store.
use payd.Prelude.{
  ℕ, Bool, true, false, ◌≡◌, refl, Option, some, [], ◌∷◌, ok, err, value_or, find, inl, ◌⊎◌, ◌+ℤ◌,
  order_requires_force, external_ref_conflict,
}
use payd.Decimal.{
  parse_amount, set_string, digits_value, unsigned_value, decimal, digits, to_string, format_units,
  cut, zeros,
}
use payd.Schema.{Time, Database, Order, OrderStatus, Balance}
use payd.Recalc.{
  recalculate_order_with_transition, recalculate_order, recalculate_balance, sum_from, next_status,
  balance_from, balance_payments, store_balance, add_row, is_balance_of, is_waiting, is_solid,
  reverts,
}
use payd.Recalc.OrderTotals.{
  by_id, window_end, total_received, IsRecalculated, recalculate_order-IsRecalculated,
}
use payd.Recalc.OrderStability.{recalculate_order_idempotent, recalculate_keeps_status}
use payd.Recalc.BalanceTotals.{net, any_row, HoldsSums, recalculate_balance-HoldsSums}
use payd.Events.{enqueue_order_event, insert_outbox}
use payd.Pool.{next_pool_index, insert_address, next_index_from, free_address, insert_next_address}
use payd.Prelude.{◌≤◌, ◌<◌, ◌-◌, min}
use payd.Pool.TopUp.{Grows, free_count, pool_count, top_up_pool-Grows}
use payd.Pool.{top_up_pool, add_addresses}
use payd.Pool.Indexes.{IsNextFrom, next_pool_index-IsNextFrom}
use payd.Pool.Rows.{IsPool}
use payd.Orders.{
  CreateOrderParams, create_order, cancel_order, extend_order, pick_address, place_order, claim,
  replay, payers, payers_of, insert_sorted,
}
use payd.Orders.Claims.{IsPlaced, create_order-IsPlaced}
use payd.Orders.Replay.{
  create_order_replays, create_order_idempotent, answer_from, FailsToPick, is_exhausted,
}
use payd.Orders.Closing.{
  IsCancelled, IsExtended, cancel_order-IsCancelled, cancel_order_refused, extend_order-IsExtended,
}
use payd.Lifecycle.{expire_order, close_order}
use payd.Lifecycle.Expiry.{IsDealtWith, expire_order-IsDealtWith}
use payd.Pool.{release_cooled}
use payd.Lifecycle.PoolLife.{PoolSteps, stays, follows, cancels, releases, steps-IsPool}
use payd.Examples.Data.{
  ok_value, is_ok, events, store, store_with, pending_order, request, derive, at_second,
}

abbrev now : Time
now = at_second 600

abbrev kept : Bool × Database
kept = (false, store)

recount_runs : is_ok (recalculate_order (store_with 5) 1 now) ≡ true
unfolding recalculate_order recalculate_order_with_transition sum_from next_status parse_amount
    set_string digits_value unsigned_value decimal digits
recount_runs = refl

abbrev recounted : Bool × Database
recounted = value_or kept (recalculate_order (store_with 5) 1 now)

recalculate_order-IsRecalculated_example :
    (o' : Order) × (released : Option ℕ) × (expected : ℕ) × (find (by_id 1) recounted.1.orders
      ≡ some o')
    × (window_end (store_with 5) pending_order ≡ some released)
    × (parse_amount pending_order.expected_raw ≡ ok expected)
    × IsRecalculated pending_order o'
        (total_received pending_order released (store_with 5).payments)
        expected
    × (recounted.0 ≡ reverts OrderStatus.pending o'.status)
recalculate_order-IsRecalculated_example =
    recalculate_order-IsRecalculated (store_with 5) 1 now pending_order
      (ok_value kept (recalculate_order (store_with 5) 1 now) recount_runs) refl refl

with_transition_runs : is_ok (recalculate_order_with_transition (store_with 5) 1 false now) ≡ true
unfolding recalculate_order_with_transition sum_from next_status parse_amount set_string
    digits_value unsigned_value decimal digits
with_transition_runs = refl

abbrev held : Bool × Database
held = value_or kept (recalculate_order_with_transition (store_with 5) 1 false now)

recalculate_order_idempotent_example :
    recalculate_order_with_transition held.1 1 false now ≡ ok (false, held.1)
recalculate_order_idempotent_example = recalculate_order_idempotent (store_with 5) 1 false now (
    ok_value kept (recalculate_order_with_transition (store_with 5) 1 false now)
      with_transition_runs)

recalculate_keeps_status_example :
    (o' : Order) × (find (by_id 1) held.1.orders ≡ some o')
    × (o' ≡ record pending_order {
      received_raw = o'.received_raw;
      overpaid_raw = o'.overpaid_raw;
      updated_at = 600;
    })
    × (held.1 ≡ record (store_with 5) { orders = held.1.orders })
    × (held.0 ≡ false)
recalculate_keeps_status_example =
    recalculate_keeps_status (store_with 5) 1 false now pending_order
      (ok_value kept (recalculate_order_with_transition (store_with 5) 1 false now)
        with_transition_runs)
      refl (inl refl)

balance_runs : is_ok (recalculate_balance (store_with 5) 1 0) ≡ true
unfolding recalculate_balance balance_from balance_payments store_balance add_row sum_from
    next_status parse_amount set_string digits_value unsigned_value decimal digits to_string
balance_runs = refl

recalculate_balance-HoldsSums_example :
    let rows = balance_payments (store_with 5) 1 0 in
    (b : Balance) × (find
        (is_balance_of 1 0)
        (value_or store (recalculate_balance (store_with 5) 1 0)).balances
      ≡ some b)
    × HoldsSums b (net is_waiting rows) (net is_solid rows)
    × (net is_waiting rows +ℤ net is_solid rows ≡ net any_row rows)
recalculate_balance-HoldsSums_example =
    recalculate_balance-HoldsSums (store_with 5) 1 0
      (ok_value store (recalculate_balance (store_with 5) 1 0) balance_runs)

next_pool_index-IsNextFrom_example : IsNextFrom 0 (next_pool_index (0 ∷ 2 ∷ [])) (0 ∷ 2 ∷ [])
next_pool_index-IsNextFrom_example = next_pool_index-IsNextFrom (0 ∷ 2 ∷ [])

store-IsPool : IsPool store.addresses
store-IsPool = record {
  consistent = ((refl, refl, refl), ((refl, refl, refl), tt));
  distinct = (refl, (refl, tt));
}

top_up_runs : is_ok (top_up_pool derive 2 3 10 now store) ≡ true
unfolding top_up_pool add_addresses insert_address next_pool_index next_index_from
top_up_runs = refl

abbrev topped : ℕ × Database
topped = value_or (0, store) (top_up_pool derive 2 3 10 now store)

top_up_pool-Grows_example :
    ((2 ≤ free_count store) × (topped.0 ≡ 0) × (topped.1 ≡ store))
    ⊎ ((free_count store < 2)
        × Grows (min (3 - free_count store) (10 - pool_count store)) topped.0 store topped.1)
top_up_pool-Grows_example =
    top_up_pool-Grows derive 2 3 10 now store
      (ok_value (0, store) (top_up_pool derive 2 3 10 now store) top_up_runs)

abbrev created : Order × Bool × Database
created = value_or (pending_order, false, store) (create_order derive 10 request now store)

create_runs : create_order derive 10 request now store ≡ ok (created.0, true, created.2)
unfolding create_order pick_address free_address insert_next_address next_pool_index next_index_from
    insert_address place_order claim replay decimal digits
create_runs = refl

create_order-IsPlaced_example : IsPlaced request now store created.2 created.0
create_order-IsPlaced_example =
    create_order-IsPlaced derive 10 request now store create_runs store-IsPool

create_order_idempotent_example :
    (create_order derive 3 request now created.2 ≡ ok (created.0, false, created.2))
    ⊎ ((failure : FailsToPick derive 3 now created.2 (create_order derive 3 request now created.2))
        × (is_exhausted failure.reason ≡ false))
create_order_idempotent_example =
    create_order_idempotent derive 10 3 request 77 now now store refl create_runs

-- The first alternative: the full pool lends its first address.
created_again : create_order derive 2 request now created.2 ≡ ok (created.0, false, created.2)
unfolding create_order pick_address free_address insert_next_address next_pool_index next_index_from
    insert_address place_order claim replay decimal digits
created_again = refl

-- A request under the reference of the order that is there, for another amount.
abbrev other_request : CreateOrderParams
other_request = record request { external_ref = some 55 }

create_order_replays_example :
    (create_order derive 10 other_request now store ≡ answer_from pending_order other_request store)
    ⊎ FailsToPick derive 10 now store (create_order derive 10 other_request now store)
create_order_replays_example =
    create_order_replays derive 10 other_request now store pending_order refl

replay_refused :
    create_order derive 10 other_request now store ≡ err (external_ref_conflict false true false)
unfolding create_order pick_address free_address insert_next_address next_pool_index next_index_from
    insert_address place_order claim replay decimal digits
replay_refused = refl

cancel_runs : is_ok (cancel_order 1 false now now store) ≡ true
unfolding cancel_order sum_from next_status parse_amount set_string digits_value unsigned_value
    decimal digits
cancel_runs = refl

cancel_order-IsCancelled_example :
    let r = value_or (pending_order, store) (cancel_order 1 false now now store) in
    IsCancelled 1 store pending_order false now now r.0 r.1
cancel_order-IsCancelled_example =
    cancel_order-IsCancelled 1 false now now store pending_order
      (ok_value (pending_order, store) (cancel_order 1 false now now store) cancel_runs) refl

abbrev paid_order : Order
paid_order = record pending_order { status = OrderStatus.paid }

cancel_order_refused_example :
    cancel_order 1 false now now (record store { orders = paid_order ∷ [] })
    ≡ err order_requires_force
cancel_order_refused_example =
    cancel_order_refused 1 false now now (record store { orders = paid_order ∷ [] }) paid_order refl
      (inl (refl, refl))

extend_runs : is_ok (extend_order 1 (at_second 60) (at_second 5_000) now store) ≡ true
unfolding extend_order
extend_runs = refl

extend_order-IsExtended_example :
    let r =
      value_or (pending_order, store) (extend_order 1 (at_second 60) (at_second 5_000) now store) in
    IsExtended 1 (at_second 60) (at_second 5_000) now store pending_order r.0 r.1
extend_order-IsExtended_example =
    extend_order-IsExtended 1 (at_second 60) (at_second 5_000) now store pending_order
      (ok_value (pending_order, store) (extend_order 1 (at_second 60) (at_second 5_000) now store)
        extend_runs)
      refl

expire_runs : is_ok (expire_order events now now 1 (store_with 5)) ≡ true
unfolding expire_order close_order recalculate_order recalculate_order_with_transition sum_from
    next_status parse_amount set_string digits_value unsigned_value decimal digits to_string
    format_units cut zeros enqueue_order_event insert_outbox payers payers_of insert_sorted
expire_runs = refl

expire_order-IsDealtWith_example :
    IsDealtWith 1
      (store_with 5)
      pending_order
      (value_or kept (expire_order events now now 1 (store_with 5)))
expire_order-IsDealtWith_example =
    expire_order-IsDealtWith events now now 1 (store_with 5) pending_order
      (ok_value kept (expire_order events now now 1 (store_with 5)) expire_runs) refl refl

abbrev cancelled : Order × Database
cancelled = value_or (pending_order, store) (cancel_order 1 false now now store)

pool_steps : PoolSteps store (release_cooled (at_second 2_000) cancelled.1).1
pool_steps =
    follows store cancelled.1 (release_cooled (at_second 2_000) cancelled.1).1
      (follows store store cancelled.1 (stays store) (
        cancels 1 false now now store cancelled.1 pending_order cancelled.0
          (ok_value (pending_order, store) (cancel_order 1 false now now store) cancel_runs) refl))
      (releases (at_second 2_000) cancelled.1)

steps-IsPool_example : IsPool (release_cooled (at_second 2_000) cancelled.1).1.addresses
steps-IsPool_example =
    steps-IsPool store (release_cooled (at_second 2_000) cancelled.1).1 pool_steps store-IsPool
