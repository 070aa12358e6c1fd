-- ===== src/Examples/Data.antt =====
-- A store with two addresses, one order, two blocks and one balance.
use payd.Prelude.{
  ℕ, ◌+◌, ◌*◌, Bool, true, false, ◌≡◌, refl, Option, none, some, [], ◌∷◌, Result, ok, err, value_or,
}
use payd.Decimal.{Text}
use payd.Schema.{
  Time, second, Database, BlockRecord, Address, AddressState, Order, OrderStatus, Payment,
  PaymentStatus, LogIndex, Direction, EventConfig, Outbox, OutboxStatus, SequenceKey, EventType,
  Payload, Rat,
}
use payd.Payments.{PaymentRecord}
use payd.Orders.{CreateOrderParams}
use payd.Withdrawals.{CreateWithdrawal}

abbrev pub is_ok {ℓ} : {A : Type ℓ} → Result A → Bool
is_ok (ok a) = true
is_ok (err e) = false

-- A run that succeeds gives its value.
pub ok_value {ℓ} : {A : Type ℓ} (d : A) (r : Result A) → is_ok r ≡ true → r ≡ ok (value_or d r)
ok_value d (ok a) h = refl
ok_value d (err e) h = cc

abbrev pub sixty : Text
sixty = b'6' ∷ b'0' ∷ []

abbrev pub hundred : Text
hundred = b'1' ∷ b'0' ∷ b'0' ∷ []

abbrev pub nothing : Text
nothing = b'0' ∷ []

abbrev pub at_second : ℕ → Time
at_second n = n * second

abbrev pub events : EventConfig
events = record {
  default_consumer = 1;
  consumers = record { name = 1; url = 7; enabled = true; receives_global = true } ∷ [];
  decimals = λ asset. 1;
}

abbrev pub first_address : Address
first_address = record {
  id = 1;
  hd_index = 0;
  address = 100;
  state = AddressState.assigned;
  assigned_order_id = some 1;
  assigned_at = some 10;
  released_at = none;
  cooling_until = none;
  created_at = 1;
}

abbrev pub second_address : Address
second_address = record {
  id = 2;
  hd_index = 1;
  address = 101;
  state = AddressState.free;
  assigned_order_id = none;
  assigned_at = none;
  released_at = none;
  cooling_until = none;
  created_at = 1;
}

abbrev pub pending_order : Order
pending_order = record {
  id = 1;
  external_ref = some 55;
  address_id = 1;
  address = 100;
  asset = 0;
  expected_raw = hundred;
  received_raw = nothing;
  overpaid_raw = nothing;
  status = OrderStatus.pending;
  resolution = none;
  resolution_note = none;
  resolved_at = none;
  price_usd = none;
  price_at = none;
  metadata = 0;
  consumer = none;
  expires_at = 500;
  created_at = 10;
  updated_at = 10;
}

abbrev pub block_at_height : ℕ → BlockRecord
block_at_height h = record {
  height = h;
  id = h + 1000;
  parent_id = h + 999;
  timestamp = h * 3;
  tx_count = 0;
  processed_at = h * 3;
}

abbrev pub store : Database
store = record {
  blocks = block_at_height 4 ∷ block_at_height 5 ∷ [];
  crawler = some (record {
    last_height = 5;
    solidified_height = 0;
    solidified_updated_at = 0;
    updated_at = 15;
    reorg_suspected_from = none;
  });
  addresses = first_address ∷ second_address ∷ [];
  balances =
      record {
        address_id = 2;
        asset = 0;
        confirmed_raw = hundred;
        pending_raw = nothing;
        drift_detected = false;
      }
      ∷ [];
  orders = pending_order ∷ [];
  payments = [];
  outbox = [];
  withdrawals = [];
  audit = [];
  grants = [];
  purchases = [];
  providers = [];
  chain_params = none;
  draws = 10;
}

-- A transfer to the address of the order, in block 6.
abbrev pub transfer : PaymentRecord
transfer = record {
  txid = 900;
  log_index = LogIndex.log 0;
  direction = Direction.incoming;
  block_height = 6;
  block_id = 1006;
  block_timestamp = 18;
  from_address = 300;
  to_address = 100;
  address_id = some 1;
  order_id = none;
  asset = 0;
  amount_raw = sixty;
  is_dust = false;
  status = none;
  detected_at = 19;
  unattributed_reason = none;
}

abbrev pub request : CreateOrderParams
request = record {
  external_ref = some 77;
  asset = 0;
  expected_raw = sixty;
  metadata = none;
  consumer = none;
  expires_at = 900;
  price_usd = none;
  price_at = none;
}

abbrev pub derive : ℕ → Result ℕ
derive index = ok (100 + index)

abbrev pub usd : ℕ → Option Rat
usd n = some (record { num = n; pred_den = 0 })

abbrev pub payout : CreateWithdrawal
payout = record {
  idempotency_key = 5;
  from_address = 101;
  to_address = 400;
  asset = 0;
  amount_raw = sixty;
  amount_usd = usd 60;
  daily_limit_usd = usd 100;
  requested_by = 1;
  ip = 1;
  detail = 0;
  now = at_second 100_000;
}

abbrev pub queued_event : (id created : ℕ) → OutboxStatus → Outbox
queued_event id created status = record {
  id = id;
  order_id = some 1;
  sequence_key = SequenceKey.order_key 1;
  consumer = 1;
  target_url = 7;
  event_type = EventType.order_reverted;
  payload = Payload.order_reverted 1 OrderStatus.pending;
  status = status;
  attempts = 0;
  next_attempt_at = created;
  last_error = none;
  last_status_code = none;
  created_at = created;
  delivered_at = none;
}

-- The transfer as it is stored, one block higher than the ancestor of the rewind.
abbrev pub stored_payment : (height : ℕ) → Payment
stored_payment height = record {
  id = 8;
  txid = 900;
  log_index = LogIndex.log 0;
  direction = Direction.incoming;
  block_height = height;
  block_id = height + 1000;
  block_timestamp = 18;
  from_address = 300;
  to_address = 100;
  address_id = some 1;
  order_id = some 1;
  asset = 0;
  amount_raw = sixty;
  is_dust = false;
  status = PaymentStatus.seen;
  detected_at = 19;
  confirmed_at = none;
  unattributed_reason = none;
}

abbrev pub store_with : (height : ℕ) → Database
store_with height = record store { payments = stored_payment height ∷ [] }
