-- ===== src/Examples/EngineRuns.antt =====
-- Withdrawals that a tick sends, that expire, and that rent nothing.
use payd.Prelude.{
  ℕ, ◌+◌, ◌≤◌, true, false, ◌≡◌, refl, ◌↔◌, none, some, [], ◌∷◌, List, pos, arith, ok, value_or,
}
use payd.Schema.{Database, Withdrawal, WithdrawalStatus, ResourceType}
use payd.Withdrawals.{requested_row}
use payd.Rental.{record_provider_failure, purchase_for_withdrawal, latest_purchase}
use payd.Engine.Node.{
  Answer, ResourceState, ReferenceBlock, Lookup, ReceiptLookup, BroadcastCode, delegation_amount,
}
use payd.Engine.Action.{World, Outside, EngineConfig, Effect, Proposal, ProviderOrder, OrderState}
use payd.Prelude.{sort_by, insert_by}
use payd.Decimal.{set_string, digits_value, unsigned_value}
use payd.Withdrawals.{claim_withdrawal, subtract_held}
use payd.Withdrawals.Transitions.{
  set_resource_state, persist_attempt, record_broadcast, where_changed,
}
use payd.Grants.{manual_grant_candidates}
use payd.Engine.Node.{classify}
use payd.Engine.Action.{ask, get, call, write, spend}
use payd.Engine.Broadcast.{reference_block, signing_input}
use payd.Engine.Send.{acquire_and_send}
use payd.Engine.Supply.{energy_gate}
use payd.Engine.Bandwidth.{bandwidth_gate}
use payd.Engine.Resolve.{sign_and_broadcast, send_withdrawal}
use payd.Engine.Balance.{check_provider_balance}
use payd.Engine.Tick.{recover, each, recovery_candidates, awaiting_resources, tick, next_requested}
use payd.Engine.Resolve.{resolve}
use payd.Engine.Rent.{provider_failure, try_rental}
use payd.Engine.Once.{IsOnce, IsKeyed, times, tries}
use payd.Engine.Once.Steps.{EngineSteps, ticks, idle, steps_send_once}
use payd.Engine.Settling.{has_failed, tally}
use payd.Engine.Settling.Chain.{FollowsChain, resolve-FollowsChain}
use payd.Engine.Settling.Expiry.{resolve_fails_expired}
use payd.Engine.Amounts.{IsDelegation, delegation_amount-IsLeast}
use payd.Engine.Action.{set}
use payd.Engine.Circuit.{fifth_failure_opens, BuysNothing}
use payd.Engine.Burning.{IsSourced, source_energy-IsSourced}
use payd.Engine.Energy.{balance_for, source_energy}
use payd.Engine.Delegate.{ensure_delegation, start_delegation}
use payd.Grants.{create_grant, fail_grant}
use payd.Decimal.{parse_units, parse_amount}
use payd.Prelude.{◌-ℤ◌}
use payd.Withdrawals.Outcome.{burned}
use payd.Engine.Queue.{IsFirst, next_requested-IsFirst}
use payd.Examples.Data.{store, payout, events, at_second, hundred, usd, ok_value, is_ok}

abbrev resources : ResourceState
resources = record {
  energy = pos 1000;
  bandwidth = pos 1000;
  total_energy_limit = pos 90;
  total_energy_weight = pos 10;
  total_bandwidth_limit = pos 50;
  total_bandwidth_weight = pos 20;
}

abbrev reference : ReferenceBlock
reference = record { height = 5; timestamp_ms = 100_000_000; id = 1005; is_hexadecimal = true }

-- A node that has not seen a transaction, a signer that signs, and no provider.
abbrev outside : Outside
outside = record {
  clock = λ n. at_second (100_100 + n);
  account_resource = λ n address. Answer.answered resources;
  account_balance = λ n address. Answer.answered 0;
  now_block = λ n. Answer.answered reference;
  transaction = λ n txid. Lookup.known false;
  transaction_info = λ n txid. ReceiptLookup.unsolid;
  can_delegate = λ n owner t. record { text = none; size = none };
  delegate = λ n owner receiver t amount. Proposal.not_proposed 0;
  sign = λ n index t. Answer.answered 77;
  sign_unsigned = λ n index u. Answer.refused 0;
  encode = λ n txid. none;
  send = λ n txid. record {
    status_code = 200;
    text = some 1;
    body = record { parses = true; result = true; code = BroadcastCode.other_code };
    send_error = none;
  };
  provider = none;
}

abbrev config : EngineConfig
config = record {
  enabled = true;
  expiration = at_second 60;
  fee_limit_trx = 100;
  assets = record { symbol = 0; contract = none } ∷ [];
  resource_wallet_index = 9;
  min_energy = 100;
  min_bandwidth = 100;
  delegates_bandwidth = false;
  bandwidth_topup_trx = hundred;
  energy_enabled = true;
  provider_name = 3;
  rent_amount = 100;
  rent_duration = at_second 3600;
  max_price_trx = usd 10;
  balance_warn_trx = usd 1;
  poll_interval = at_second 10;
  poll_timeout = at_second 300;
  fallback_to_burn = false;
  max_burn_trx = hundred;
  events = events;
}

abbrev world_with : List Withdrawal → World
world_with ws = record {
  store = record store { withdrawals = ws };
  reference = none;
  circuit_until = none;
  next_balance_check = none;
  next_energy_poll = [];
  provider_balance = none;
  effects = [];
  calls = 0;
}

abbrev waiting : World
waiting = world_with (requested_row 3 2 payout ∷ [])

waiting-IsKeyed : IsKeyed waiting.store
waiting-IsKeyed (Effect.sent_withdrawal id) = ground arith
waiting-IsKeyed (Effect.sent_grant id) = omega arith
waiting-IsKeyed (Effect.purchased id) = omega arith

waiting-IsOnce : IsOnce waiting
waiting-IsOnce = record { keyed = waiting-IsKeyed; covered = λ e. omega arith }

abbrev after_two : World
after_two = (tick outside config (tick outside config waiting).1).1

two_ticks : EngineSteps waiting after_two
two_ticks =
    ticks waiting (tick outside config waiting).1 outside config
      (ticks waiting waiting outside config (idle waiting))

-- The first tick claims the withdrawal, signs it and sends it.
first_tick_sends : (tick outside config waiting).1.effects ≡ Effect.sent_withdrawal 3 ∷ []
unfolding tick recover ask get each manual_grant_candidates recovery_candidates
    check_provider_balance awaiting_resources next_requested call claim_withdrawal set_string
    digits_value unsigned_value subtract_held acquire_and_send energy_gate bandwidth_gate
    set_resource_state sign_and_broadcast reference_block signing_input send_withdrawal write spend
    persist_attempt record_broadcast classify where_changed sort_by insert_by
first_tick_sends = refl

steps_send_once_example :
    (times (Effect.sent_withdrawal 3) after_two ≤ 1)
    × (times (Effect.sent_withdrawal 3) after_two
        ≤ tries (Effect.sent_withdrawal 3) after_two.store)
steps_send_once_example =
    steps_send_once waiting after_two two_ticks waiting-IsOnce (Effect.sent_withdrawal 3)

abbrev sent : Withdrawal
sent = record (requested_row 3 2 payout) {
  status = WithdrawalStatus.broadcast;
  txid = some 77;
  broadcast_attempted_at = some 100_000;
  expiration_at = some 100_050;
}

abbrev unseen : World
unseen = world_with (sent ∷ [])

resolve-FollowsChain_example :
    FollowsChain outside
      (at_second 100_100)
      (some 100_050)
      none
      (Lookup.known false)
      ReceiptLookup.unsolid
      3
      unseen
      (resolve outside config 3 77 (some 100_050) none unseen).1
resolve-FollowsChain_example = resolve-FollowsChain outside config 3 77 (some 100_050) none 3 unseen

resolve_fails_expired_example :
    ((resolve outside config 3 77 (some 100_050) none unseen).0 ≡ ok tt)
    × (tally has_failed 3 (resolve outside config 3 77 (some 100_050) none unseen).1 ≡ 1)
    × ((resolve outside config 3 77 (some 100_050) none unseen).1.effects ≡ [])
resolve_fails_expired_example =
    resolve_fails_expired outside config 3 77 (some 100_050) unseen refl refl refl

delegation_amount-IsLeast_example :
    (delegation_amount ResourceType.energy (pos 100) resources ≡ ok 11_111_112)
    ↔ IsDelegation (pos 100) (pos 90) (pos 10) 11_111_112
delegation_amount-IsLeast_example =
    delegation_amount-IsLeast ResourceType.energy (pos 100) resources 11_111_112

next_requested-IsFirst_example : IsFirst waiting.store.withdrawals (next_requested waiting.store)
next_requested-IsFirst_example = next_requested-IsFirst waiting.store

-- A provider that quotes and sells.
abbrev order : ProviderOrder
order = record {
  id = some 5;
  state = OrderState.order_pending;
  actual_trx = none;
  delegation_txid = none;
}

abbrev renting : Outside
renting = record outside {
  provider = some (record {
    quote = λ n receiver. Answer.answered (usd 1);
    purchase = λ n id. Answer.answered order;
    status = λ n id. Answer.answered order;
    balance = λ n. Answer.answered (usd 50);
  });
}

abbrev failed_four : Database
failed_four = record waiting.store {
  providers =
      record {
        provider = 3;
        balance_trx = none;
        last_checked_at = none;
        last_error = some 1;
        consecutive_failures = 4;
      }
      ∷ [];
}

abbrev failing : World
failing = record waiting { store = failed_four }

abbrev failed_five : ℕ × Database
failed_five = value_or (0, store) (record_provider_failure 3 8 failed_four)

failure_runs : is_ok (record_provider_failure 3 8 failed_four) ≡ true
unfolding record_provider_failure
failure_runs = refl

fifth : 5 ≤ failed_five.0
unfolding record_provider_failure
fifth = omega arith

unbought : purchase_for_withdrawal 3 failed_five.1 ≡ none
unfolding record_provider_failure latest_purchase
unbought = refl

-- The engine has asked twice more since.
abbrev two_calls_later : World
two_calls_later = record failing {
  store = failed_five.1;
  circuit_until = some (at_second 100_700);
  calls = 3;
}

still_open : two_calls_later.circuit_until ≡ (provider_failure renting 3 8 failing).1.circuit_until
unfolding provider_failure record_provider_failure call ask set
still_open = refl

fifth_failure_opens_example :
    ((provider_failure renting 3 8 failing).1 ≡ record failing {
      store = failed_five.1;
      circuit_until = some (at_second 100_700);
      calls = 1;
    })
    × BuysNothing (try_rental renting config (requested_row 3 2 payout)) two_calls_later
fifth_failure_opens_example =
    fifth_failure_opens renting config (requested_row 3 2 payout) 8 failing failed_five
      two_calls_later (ok_value (0, store) (record_provider_failure 3 8 failed_four) failure_runs)
      fifth still_open (omega arith) unbought

-- An address without energy: nothing is rented, the resource wallet is missing, and TRX is burnt.
abbrev dry : ResourceState
dry = record resources { energy = pos 0 }

abbrev burning : EngineConfig
burning = record config { energy_enabled = false; fallback_to_burn = true }

abbrev dry_world : World
dry_world = record waiting {
  store = record waiting.store {
    chain_params = some (record { energy_fee = 1; transaction_fee = 1 });
  };
}

burns :
    (source_energy outside burning WithdrawalStatus.awaiting_energy
      (requested_row 3 2 payout)
      dry
      dry_world).0
    ≡ ok (some burned)
unfolding source_energy try_rental get latest_purchase ensure_delegation delegation_amount call
    create_grant ask start_delegation fail_grant write balance_for set_string digits_value
    unsigned_value parse_units ◌-ℤ◌ parse_amount
burns = refl

source_energy-IsSourced_example :
    IsSourced burning
      (requested_row 3 2 payout)
      dry
      (some burned)
      (source_energy outside burning WithdrawalStatus.awaiting_energy
        (requested_row 3 2 payout)
        dry
        dry_world).1
source_energy-IsSourced_example =
    source_energy-IsSourced outside burning WithdrawalStatus.awaiting_energy
      (requested_row 3 2 payout) dry dry_world (some burned) burns
