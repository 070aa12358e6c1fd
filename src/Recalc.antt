-- ===== src/Recalc.antt =====
-- Recalculation of an order and of a balance from the payments (internal/store/follower.go:
-- recalculateOrderWithTransition, recalculateOrder, balancePaymentsQuery, recalculateBalance).
pub mod OrderTotals
pub mod OrderStability
pub mod BalanceTotals
use payd.Prelude.{
  ℕ, ◌+◌, ◌-◌, Bool, true, false, not, ◌&&◌, ◌||◌, Option, none, some, List, [], ◌∷◌, ◌++◌, map,
  leb, ltb, ◌==◌, if◌then◌else◌, holds, is_none, is_some, find, select, update, exists, Result, ok,
  err, no_rows, or_error, ◌>>=◌, ℤ, pos, ◌+ℤ◌,
}
use payd.Decimal.{decimal, to_string, parse_amount, negate}
use payd.Schema.{
  Time, unix, Database, Order, Payment, Address, Balance, OrderStatus, PaymentStatus, Direction,
  is_movable, is_settled, is_unpaid, is_orphaned, is_in, is_confirmed, is_seen, is_unattributed,
  is_pending,
}

-- `(? IS NULL OR block_timestamp < ?)`
abbrev pub before : ℕ → Option ℕ → Bool
before t none = true
before t (some released) = ltb t released

-- The payments that a recalculation of `o` adds up: its own, not orphaned, in its asset and to its
-- address, and inside the assignment window by chain time.
abbrev pub counts_for : Order → Option ℕ → Payment → Bool
counts_for o released p =
    holds p.order_id o.id
    && (holds p.address_id o.address_id
        && (not (is_orphaned p.status)
            && (is_in p.direction
                && (p.asset == o.asset
                    && (leb o.created_at p.block_timestamp && before p.block_timestamp released)))))

-- `received.Add(received, amount)`, row by row.
unfoldable pub sum_from : ℕ → List Payment → Result ℕ
sum_from acc [] = ok acc
sum_from acc (p ∷ ps) = parse_amount p.amount_raw >>= λ amount. sum_from (acc + amount) ps

unfoldable pub next_status : OrderStatus → Bool → (received expected : ℕ) → OrderStatus
next_status old allow received expected =
    if allow && is_movable old
    then if leb expected received
      then OrderStatus.paid
      else if received == 0
      then OrderStatus.pending
      else OrderStatus.partial
    else old

-- `(oldStatus == "paid" || oldStatus == "confirmed") && (newStatus == "partial" || …)`
abbrev pub reverts : OrderStatus → OrderStatus → Bool
reverts old new = is_settled old && is_unpaid new

-- `overpaid` is negative in the source where less was received, and is then set to 0.
abbrev pub settle : (received expected : ℕ) → OrderStatus → ℕ → Order → Order
settle received expected status stamp o = record o {
  received_raw = decimal received;
  overpaid_raw = decimal (received - expected);
  status = status;
  updated_at = stamp;
}

unfoldable pub recalculate_order_with_transition :
    Database → ℕ → (allow : Bool) → (now : Time) → Result (Bool × Database)
unfolding sum_from next_status
recalculate_order_with_transition db order_id allow now = do
  o ← or_error (find (λ o. o.id == order_id) db.orders) no_rows
  a ← or_error (find (λ a. a.id == o.address_id) db.addresses) no_rows
  received ← sum_from 0 (select (counts_for o a.released_at) db.payments)
  expected ← parse_amount o.expected_raw
  let status = next_status o.status allow received expected
  ok (
    reverts o.status status,
    record db {
      orders =
          update (λ r. r.id == order_id) (settle received expected status (unix now)) db.orders;
    },
  )

unfoldable pub recalculate_order : Database → ℕ → (now : Time) → Result (Bool × Database)
unfolding recalculate_order_with_transition
recalculate_order db order_id now = recalculate_order_with_transition db order_id true now

-- The branch of `balancePaymentsQuery` over the payments of the address.
abbrev pub is_own : ℕ → ℕ → Payment → Bool
is_own address_id asset p =
    holds p.address_id address_id && (p.asset == asset && not (is_orphaned p.status))

-- The branch over what other addresses send to this one.
abbrev pub is_received : Address → ℕ → Payment → Bool
is_received a asset p =
    p.to_address == a.address
    && (p.asset == asset
        && (not (is_in p.direction)
            && (not (is_orphaned p.status) && not (holds p.address_id a.id))))

abbrev pub as_incoming : Payment → Payment
as_incoming p = record p { direction = Direction.incoming }

abbrev pub received_rows : Option Address → ℕ → List Payment → List Payment
received_rows none asset ps = []
received_rows (some a) asset ps = map as_incoming (select (is_received a asset) ps)

-- `balancePaymentsQuery`
unfoldable pub balance_payments : Database → ℕ → ℕ → List Payment
balance_payments db address_id asset =
    select (is_own address_id asset) db.payments
    ++ received_rows (find (λ a. a.id == address_id) db.addresses) asset db.payments

abbrev pub is_solid : Payment → Bool
is_solid p = is_confirmed p.status || (is_unattributed p.status && is_some p.confirmed_at)

abbrev pub is_waiting : Payment → Bool
is_waiting p = is_seen p.status || (is_unattributed p.status && is_none p.confirmed_at)

abbrev pub signed_amount : Payment → ℕ → ℤ
signed_amount p n = if is_in p.direction then pos n else negate n

-- The `switch` of the loop, on the pending and the confirmed sum.
unfoldable pub add_row : ℤ × ℤ → Payment → ℕ → ℤ × ℤ
add_row (pending, confirmed) p n =
    if is_solid p
    then (pending, confirmed +ℤ signed_amount p n)
    else if is_waiting p
    then (pending +ℤ signed_amount p n, confirmed)
    else (pending, confirmed)

unfoldable pub balance_from : ℤ × ℤ → List Payment → Result (ℤ × ℤ)
balance_from acc [] = ok acc
balance_from acc (p ∷ ps) = parse_amount p.amount_raw >>= λ n. balance_from (add_row acc p n) ps

abbrev pub is_balance_of : ℕ → ℕ → Balance → Bool
is_balance_of address_id asset b = b.address_id == address_id && b.asset == asset

-- `INSERT … ON CONFLICT(address_id, asset) DO UPDATE`
unfoldable pub store_balance : ℕ → ℕ → (pending confirmed : ℤ) → List Balance → List Balance
store_balance address_id asset pending confirmed bs =
    if exists (is_balance_of address_id asset) bs
    then update (is_balance_of address_id asset)
        (λ b. record b { confirmed_raw = to_string confirmed; pending_raw = to_string pending }) bs
    else bs
      ++ record {
        address_id = address_id;
        asset = asset;
        confirmed_raw = to_string confirmed;
        pending_raw = to_string pending;
        drift_detected = false;
      }
        ∷ []

unfoldable pub recalculate_balance : Database → ℕ → ℕ → Result Database
recalculate_balance db address_id asset = do
  (pending, confirmed) ← balance_from (pos 0, pos 0) (balance_payments db address_id asset)
  ok (record db { balances = store_balance address_id asset pending confirmed db.balances })
