-- ===== src/Examples/QueueRuns.antt =====
-- The notification queue with one event in flight and one that waits for it.
use payd.Prelude.{true, ◌≡◌, refl, some, List, [], ◌∷◌, In, here, there, arith}
use payd.Schema.{Outbox, OutboxStatus}
use payd.Ipn.{claim_ipn, deliver_ipn, first_due}
use payd.Ipn.Sequence.{IsClaimed, claim_ipn-IsClaimed}
use payd.Ipn.Order.{IsQueue}
use payd.Ipn.InFlight.{IpnSteps, claims, delivers, done, then_step, steps-IsQueue, single_flight}
use payd.Ipn.{fail_attempt, fail_ipn, backoff_at}
use payd.Ipn.Dispatch.{RuntimeConfig, answered, dispatch_one}
use payd.Ipn.Attempts.{IsDispatched, dispatch_one-IsDispatched}
use payd.Examples.Data.{queued_event, at_second}

abbrev first_event : Outbox
first_event = queued_event 1 10 OutboxStatus.pending

abbrev second_event : Outbox
second_event = queued_event 2 10 OutboxStatus.pending

abbrev waiting : List Outbox
waiting = first_event ∷ second_event ∷ []

abbrev in_flight : Outbox
in_flight = record first_event { status = OutboxStatus.failed; attempts = 1 }

claim_runs :
    claim_ipn (at_second 20) (1 ∷ []) waiting ≡ (some in_flight, in_flight ∷ second_event ∷ [])
unfolding claim_ipn first_due
claim_runs = refl

claim_ipn-IsClaimed_example :
    IsClaimed (at_second 20) (1 ∷ []) waiting in_flight (in_flight ∷ second_event ∷ [])
claim_ipn-IsClaimed_example = claim_ipn-IsClaimed (at_second 20) (1 ∷ []) waiting claim_runs

waiting_unique : (q r : Outbox) → In q waiting → In r waiting → q.id ≡ r.id → q ≡ r
waiting_unique q r here here e = refl
waiting_unique q r here (there here) e = absurd (omega arith)
waiting_unique q r (there here) here e = absurd (omega arith)
waiting_unique q r (there here) (there here) e = refl
waiting_unique q r (there (there i)) j e = elim i [ ]
waiting_unique q r i (there (there j)) e = elim j [ ]

none_started : (q : Outbox) → In q waiting → q.status ≡ OutboxStatus.pending
none_started q here = refl
none_started q (there here) = refl
none_started q (there (there i)) = elim i [ ]

waiting-IsQueue : IsQueue waiting
waiting-IsQueue = record {
  unique = waiting_unique;
  in_order = λ q r i j pair pre started. let s = none_started r j in absurd (ground arith);
}

abbrev delivered : List Outbox
delivered = deliver_ipn 1 200 (at_second 21) (in_flight ∷ second_event ∷ [])

queue_steps : IpnSteps waiting delivered
queue_steps =
    then_step waiting (in_flight ∷ second_event ∷ []) delivered
      (then_step waiting waiting (in_flight ∷ second_event ∷ []) (done waiting) (
        claims (at_second 20) (1 ∷ []) waiting in_flight (in_flight ∷ second_event ∷ [])
          claim_runs))
      (delivers 1 200 (at_second 21) (in_flight ∷ second_event ∷ []))

steps-IsQueue_example : IsQueue delivered
steps-IsQueue_example = steps-IsQueue waiting delivered queue_steps waiting-IsQueue

claim_steps : IpnSteps waiting (in_flight ∷ second_event ∷ [])
claim_steps =
    then_step waiting waiting (in_flight ∷ second_event ∷ []) (done waiting)
      (claims (at_second 20) (1 ∷ []) waiting in_flight (in_flight ∷ second_event ∷ []) claim_runs)

single_flight_example : in_flight ≡ in_flight
single_flight_example =
    single_flight waiting (in_flight ∷ second_event ∷ []) in_flight in_flight claim_steps
      waiting_unique (refl, (refl, tt)) here here refl refl refl

abbrev one_consumer : RuntimeConfig
one_consumer = record {
  enabled = 1 ∷ [];
  consumers = 1 ∷ [];
  max_attempts = 3;
  backoff = at_second 60 ∷ at_second 120 ∷ at_second 240 ∷ [];
}

dispatch_runs :
    dispatch_one one_consumer (answered 500) (at_second 20) waiting
    ≡ (true, (dispatch_one one_consumer (answered 500) (at_second 20) waiting).1)
unfolding dispatch_one claim_ipn first_due fail_attempt fail_ipn backoff_at
dispatch_runs = refl

dispatch_one-IsDispatched_example :
    IsDispatched one_consumer
      (answered 500)
      (at_second 20)
      waiting
      (dispatch_one one_consumer (answered 500) (at_second 20) waiting).1
dispatch_one-IsDispatched_example =
    dispatch_one-IsDispatched one_consumer (answered 500) (at_second 20) waiting dispatch_runs
      waiting-IsQueue
