-- ===== src/Examples/FollowRuns.antt =====
-- The follower at a reorganisation of one block, on the small store.
use payd.Prelude.{
  ℕ, true, ◌≡◌, refl, some, ok, err, ap, arith, false, ok-injective, subst, no_rows, if◌then◌else◌,
  ◌==◌,
}
use payd.Schema.{Time}
use payd.Recalc.{
  sum_from, next_status, balance_from, balance_payments, store_balance, add_row, recalculate_order,
  recalculate_balance, recalculate_order_with_transition,
}
use payd.Decimal.{
  parse_amount, set_string, digits_value, unsigned_value, decimal, digits, to_string, format_units,
  cut, zeros,
}
use payd.Events.{enqueue_order_event, enqueue_global_event, enqueue_to, insert_outbox}
use payd.Matcher.{match_payment}
use payd.Matcher.Attribution.{match_payment-SameChain}
use payd.Chain.{
  BlockApply, rewind_chain, affected_orders, affected_balances, recount_orders, rebalance_all,
  announce_reversal,
}
use payd.Chain.Commit.{KeepsChain}
use payd.Follower.{ChainBlock, Worker, FollowerConfig, Reader, recover_from, process_candidate}
use payd.Follower.Recovery.{IsRecovered, recover_from-IsRecovered}
use payd.Follower.Linked.{IsChain}
use payd.Follower.Candidate.{process_candidate-IsChain}
use payd.Follower.Tick.{Round, tick}
use payd.Follower.Tick.Ends.{Ended, tick-Ended}
use payd.Examples.Data.{events, at_second, transfer, store_with}

abbrev now : Time
now = at_second 20

abbrev config : FollowerConfig
config = record {
  poll_interval = at_second 3;
  reorg_depth = 5;
  events = events;
  prepare = λ b. ok (some (match_payment events now transfer));
}

-- The node has the stored block 4 and another block 5.
abbrev node_block : (height id parent_id : ℕ) → ChainBlock
node_block height id parent_id = record {
  height = height;
  id = id;
  parent_id = parent_id;
  timestamp = 15;
  tx_count = 0;
}

abbrev node : Reader
node h =
    if h == 5
    then ok (node_block 5 2005 1004)
    else if h == 4
    then ok (node_block 4 1004 1003)
    else err no_rows

abbrev worker : Worker
worker = record {
  store = store_with 5;
  suspicion = some (record { height = 5; replacement_id = 2005; first_seen = at_second 10 });
  suspicion_db_known = true;
  is_halted = false;
  suspected = 1;
  confirmed = 0;
  stale_reads = 0;
  latest_height = 5;
  latest_timestamp = 15;
}

recovers : (recover_from config node now 5 5 (node_block 5 2005 1004) worker).0 ≡ ok tt
unfolding recover_from rewind_chain affected_orders affected_balances recount_orders rebalance_all
    announce_reversal sum_from next_status parse_amount set_string digits_value unsigned_value
    balance_from balance_payments store_balance add_row decimal digits to_string format_units cut
    zeros enqueue_order_event enqueue_global_event enqueue_to insert_outbox
    recalculate_order_with_transition recalculate_order recalculate_balance
recovers = refl

recover_from-IsRecovered_example :
    IsRecovered config node now 5 5
      (node_block 5 2005 1004)
      worker
      (recover_from config node now 5 5 (node_block 5 2005 1004) worker).1
recover_from-IsRecovered_example =
    recover_from-IsRecovered config node now 5 5 (node_block 5 2005 1004) worker
      (ap (λ r. (r, (recover_from config node now 5 5 (node_block 5 2005 1004) worker).1)) recovers)
      (omega arith)

matched_keeps :
    (b : ChainBlock) (apply : BlockApply) → config.prepare b ≡ ok apply → KeepsChain apply
matched_keeps b apply e =
    subst KeepsChain (ok-injective e) (λ db db' h. match_payment-SameChain events now transfer db h)

worker-IsChain : IsChain worker.store
worker-IsChain = record { contiguous = (4, (refl, (refl, refl))); linked = (refl, tt) }

process_candidate-IsChain_example :
    IsChain (process_candidate config node now (node_block 6 2006 2005) worker).1.store
process_candidate-IsChain_example =
    process_candidate-IsChain config node now (node_block 6 2006 2005) worker matched_keeps
      worker-IsChain

abbrev rounds : ℕ → Round
rounds left = record { reader = node; now = now }

tick-Ended_example : Ended (tick config rounds now 9 (ok (node_block 6 2006 2005)) worker)
tick-Ended_example =
    tick-Ended config rounds now 9 (node_block 6 2006 2005) worker matched_keeps worker-IsChain
      (omega arith)
