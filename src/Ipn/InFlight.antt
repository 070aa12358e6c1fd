-- ===== src/Ipn/InFlight.antt =====
-- The steps of the delivery of notifications.
use payd.Prelude.{
  count, ◌+◌, ℕ, Bool, true, false, ◌≡◌, refl, Option, some, List, [], ◌∷◌, arith, In, All, update,
  Bool-cases, inl, inr,
}
use payd.Schema.{Time, unix, Outbox, SequenceKey, key_eq}
use payd.Ipn.{
  is_dead, revived, revive_each, replay_dead_ipn, same_pair, precedes, is_failed, is_pending,
  is_row, claim_ipn, recover_claims, deliver_ipn, fail_ipn, retry_ipn,
}
use payd.Ipn.Sequence.{claim_ipn-IsClaimed}
use payd.Ipn.Order.{IsQueue, In-All, quiet-IsQueue, claim-IsQueue}

-- One step of the dispatcher, its recovery at the start, or an operator's retry.
pub data IpnStep : List Outbox → List Outbox → Type 0 where
  claims :
      (now : Time) (consumers : List ℕ) (rows : List Outbox) (q : Outbox) (rows' : List Outbox)
      → claim_ipn now consumers rows ≡ (some q, rows')
      → IpnStep rows rows'
  recovers : (rows : List Outbox) → IpnStep rows (recover_claims rows)
  delivers :
      (id status_code : ℕ) (now : Time) (rows : List Outbox)
      → IpnStep rows (deliver_ipn id status_code now rows)
  fails :
      (id message : ℕ) (status_code : Option ℕ) (dead : Bool) (next_attempt : Time)
      (rows : List Outbox)
      → IpnStep rows (fail_ipn id message status_code dead next_attempt rows)
  retries : (id : ℕ) (now : Time) (rows : List Outbox) → IpnStep rows (retry_ipn id now rows).1
  replays :
      (consumer from to : Option ℕ) (limit : ℕ) (dry_run : Bool) (now : Time) (rows : List Outbox)
      → IpnStep rows (replay_dead_ipn consumer from to limit dry_run now rows).1

-- Any number of steps.
pub data IpnSteps : List Outbox → List Outbox → Type 0 where
  done : (rows : List Outbox) → IpnSteps rows rows
  then_step : (a b c : List Outbox) → IpnSteps a b → IpnStep b c → IpnSteps a c

revive_each-IsQueue :
    (stamp : ℕ) (qs : List Outbox) (n : ℕ) (rows : List Outbox)
    → IsQueue rows
    → IsQueue (revive_each stamp qs n rows).1
unfolding revive_each
revive_each-IsQueue stamp [] n rows queue = queue
revive_each-IsQueue stamp (q ∷ qs) n rows queue =
    revive_each-IsQueue stamp qs (n + count (is_row q.id is_dead) rows)
      (update (is_row q.id is_dead) (revived stamp) rows)
      (quiet-IsQueue _ _ (λ x. (refl, refl, refl, refl)) (λ x e. ground arith)
        (λ x e s. ground arith) rows queue)

replay-IsQueue :
    (consumer from to : Option ℕ) (limit : ℕ) (dry_run : Bool) (now : Time) (rows : List Outbox)
    → IsQueue rows
    → IsQueue (replay_dead_ipn consumer from to limit dry_run now rows).1
unfolding replay_dead_ipn
replay-IsQueue consumer from to limit true now rows queue = queue
replay-IsQueue consumer from to limit false now rows queue =
    revive_each-IsQueue (unix now) _ 0 rows queue

step-IsQueue : (a b : List Outbox) → IpnStep a b → IsQueue a → IsQueue b
unfolding recover_claims deliver_ipn fail_ipn retry_ipn
step-IsQueue a b (claims now consumers rows q rows' e) queue =
    claim-IsQueue now consumers rows q rows' (claim_ipn-IsClaimed now consumers rows e) queue
step-IsQueue a b (recovers rows) queue =
    quiet-IsQueue _ _ (λ x. (refl, refl, refl, refl)) (λ x e. ground arith) (λ x e s. ground arith)
      rows queue
step-IsQueue a b (delivers id code now rows) queue =
    quiet-IsQueue _ _ (λ x. (refl, refl, refl, refl)) (λ x e. ground arith) (λ x e s. ground arith)
      rows queue
step-IsQueue a b (fails id message code dead next rows) queue =
    quiet-IsQueue _ _ (λ x. (refl, refl, refl, refl)) (λ x e. ground arith) (λ x e s. ground arith)
      rows queue
step-IsQueue a b (retries id now rows) queue =
    quiet-IsQueue _ _ (λ x. (refl, refl, refl, refl)) (λ x e. ground arith) (λ x e s. ground arith)
      rows queue
step-IsQueue a b (replays consumer from to limit dry_run now rows) queue =
    replay-IsQueue consumer from to limit dry_run now rows queue

-- Whatever sequence of claims, deliveries, failures, recoveries, retries and replays the queue goes through,
-- an event is in flight or delivered only when all events before it in its sequence, for its
-- consumer, are delivered; and identifiers stay unique.
pub steps-IsQueue : (a b : List Outbox) → IpnSteps a b → IsQueue a → IsQueue b
steps-IsQueue a b (done rows) queue = queue
steps-IsQueue a b (then_step x m y steps last) queue =
    step-IsQueue m y last (steps-IsQueue x m steps queue)

same_flight :
    (rows : List Outbox) (q r : Outbox)
    → IsQueue rows
    → In q rows
    → In r rows
    → same_pair q r ≡ true
    → same_pair r q ≡ true
    → is_failed q.status ≡ true
    → is_failed r.status ≡ true
    → q ≡ r
same_flight rows q r queue iq ir pair pair' fq fr = elim (Bool-cases (precedes q r)) [
  | inl e ↦ let d = queue.in_order q r iq ir pair e (ground arith) in absurd (ground arith)
  | inr e ↦ elim (Bool-cases (precedes r q)) [
    | inl y ↦ let d = queue.in_order r q ir iq pair' y (ground arith) in absurd (ground arith)
    | inr y ↦ queue.unique q r iq ir (ground arith)
  ]
]

key_eq_sym : (a b : SequenceKey) → key_eq a b ≡ key_eq b a
key_eq_sym (SequenceKey.order_key m) (SequenceKey.order_key n) = ground arith
key_eq_sym (SequenceKey.withdrawal_key m) (SequenceKey.withdrawal_key n) = ground arith
key_eq_sym (SequenceKey.address_key m) (SequenceKey.address_key n) = ground arith
key_eq_sym (SequenceKey.energy_key m) (SequenceKey.energy_key n) = ground arith
key_eq_sym SequenceKey.global_key SequenceKey.global_key = refl
key_eq_sym a b = refl

same_pair_sym : (q r : Outbox) → same_pair q r ≡ true → same_pair r q ≡ true
same_pair_sym q r h = let keys = key_eq_sym q.sequence_key r.sequence_key in ground arith

-- A queue in which nothing has been claimed yet.
pending-IsQueue :
    (rows : List Outbox)
    → ((q r : Outbox) → In q rows → In r rows → q.id ≡ r.id → q ≡ r)
    → All (λ q. is_pending q.status ≡ true) rows
    → IsQueue rows
pending-IsQueue rows unique waits = record {
  unique = unique;
  in_order = λ q r i j pair pre started.
      let s = In-All (λ q. is_pending q.status ≡ true) rows r j waits in absurd (ground arith);
}

-- From events of which each has its own identifier and none has been claimed, whatever sequence of
-- claims, deliveries, failures, recoveries, retries and replays follows, at most one event of a
-- sequence and consumer is in flight.
pub single_flight :
    (a b : List Outbox) (q r : Outbox)
    → IpnSteps a b
    → ((x y : Outbox) → In x a → In y a → x.id ≡ y.id → x ≡ y)
    → All (λ x. is_pending x.status ≡ true) a
    → In q b
    → In r b
    → same_pair q r ≡ true
    → is_failed q.status ≡ true
    → is_failed r.status ≡ true
    → q ≡ r
single_flight a b q r steps unique waits iq ir pair fq fr =
    same_flight b q r (steps-IsQueue a b steps (pending-IsQueue a unique waits)) iq ir pair
      (same_pair_sym q r pair) fq fr
