-- ===== src/Ipn.antt =====
-- Delivery of queued notifications (internal/store/outbox.go: ClaimIPN, RecoverIPNClaims,
-- DeliverIPN, FailIPN, RetryIPN, ReplayDeadIPN; internal/ipn/dispatcher.go: fail).
pub mod Sequence
pub mod Order
pub mod InFlight
pub mod Dispatch
pub mod Attempts
use payd.Prelude.{
  ℕ, zero, suc, ◌+◌, ◌-◌, Bool, true, false, not, ◌&&◌, ◌||◌, Option, none, some, List, [], ◌∷◌,
  leb, ltb, ◌==◌, if◌then◌else◌, find, select, update, count, exists, first_by, is_some, min,
  length,
}
use payd.Schema.{Time, unix, Outbox, OutboxStatus, SequenceKey, key_eq}

abbrev pub is_pending : OutboxStatus → Bool
is_pending OutboxStatus.pending = true
is_pending _ = false

-- claimed and not answered yet
abbrev pub is_failed : OutboxStatus → Bool
is_failed OutboxStatus.failed = true
is_failed _ = false

abbrev pub is_delivered : OutboxStatus → Bool
is_delivered OutboxStatus.delivered = true
is_delivered _ = false

abbrev pub is_dead : OutboxStatus → Bool
is_dead OutboxStatus.dead = true
is_dead _ = false

-- Events of one sequence for one consumer.
abbrev pub same_pair : Outbox → Outbox → Bool
same_pair a b = key_eq a.sequence_key b.sequence_key && a.consumer == b.consumer

-- `previous` is before `q`: earlier, or as early and inserted before. Row numbers grow with the
-- identifiers, which are handed out in the order of insertion.
abbrev pub precedes : Outbox → Outbox → Bool
precedes previous q =
    ltb previous.created_at q.created_at
    || (previous.created_at == q.created_at && ltb previous.id q.id)

-- The `NOT EXISTS` of the claim, negated: an event before `q` that is not delivered.
abbrev pub blocks : Outbox → Outbox → Bool
blocks q previous =
    same_pair previous q && (precedes previous q && not (is_delivered previous.status))

abbrev pub is_enabled : List ℕ → ℕ → Bool
is_enabled consumers c = exists (λ d. d == c) consumers

abbrev pub is_claimable : (stamp : ℕ) → List ℕ → List Outbox → Outbox → Bool
is_claimable stamp consumers rows q =
    is_pending q.status
    && (leb q.next_attempt_at stamp
        && (is_enabled consumers q.consumer && not (exists (blocks q) rows)))

-- `ORDER BY next_attempt_at, created_at, rowid`
abbrev pub is_due_before : Outbox → Outbox → Bool
is_due_before a b =
    ltb a.next_attempt_at b.next_attempt_at
    || (a.next_attempt_at == b.next_attempt_at
        && (ltb a.created_at b.created_at || (a.created_at == b.created_at && leb a.id b.id)))

unfoldable pub first_due : (Outbox → Bool) → List Outbox → Option Outbox
first_due p [] = none
first_due p (x ∷ xs) =
    let rest = first_due p xs in
    if p x
    then elim rest [ none ↦ some x | some y ↦ if is_due_before x y then some x else some y ]
    else rest

abbrev pub claimed : Outbox → Outbox
claimed q = record q { status = OutboxStatus.failed; attempts = q.attempts + 1 }

abbrev pub is_row : ℕ → (OutboxStatus → Bool) → Outbox → Bool
is_row id p q = q.id == id && p q.status

abbrev pub claim_found : Option Outbox → List Outbox → Option Outbox × List Outbox
claim_found none rows = (none, rows)
claim_found (some q) rows = (some (claimed q), update (is_row q.id is_pending) claimed rows)

-- `ClaimIPN`: the event, if there is one, and the table. Without consumers nothing is claimed.
unfoldable pub claim_ipn : (now : Time) → List ℕ → List Outbox → Option Outbox × List Outbox
unfolding first_due
claim_ipn now consumers rows =
    claim_found (first_due (is_claimable (unix now) consumers rows) rows) rows

-- `RecoverIPNClaims`
unfoldable pub recover_claims : List Outbox → List Outbox
recover_claims = update (λ q. is_failed q.status) (λ q. record q { status = OutboxStatus.pending })

-- `DeliverIPN`
unfoldable pub deliver_ipn : (id status_code : ℕ) (now : Time) → List Outbox → List Outbox
deliver_ipn id status_code now = update (is_row id is_failed) λ q. record q {
  status = OutboxStatus.delivered;
  delivered_at = some (unix now);
  last_error = none;
  last_status_code = some status_code;
}

-- `FailIPN`
unfoldable pub fail_ipn :
    (id message : ℕ) (status_code : Option ℕ) (dead : Bool) (next_attempt : Time)
    → List Outbox
    → List Outbox
fail_ipn id message status_code dead next_attempt = update (is_row id is_failed) λ q. record q {
  status = if dead then OutboxStatus.dead else OutboxStatus.pending;
  next_attempt_at = unix next_attempt;
  last_error = some message;
  last_status_code = status_code;
}

abbrev pub revived : (stamp : ℕ) → Outbox → Outbox
revived stamp q = record q {
  status = OutboxStatus.pending;
  attempts = 0;
  next_attempt_at = stamp;
  last_error = none;
  last_status_code = none;
  delivered_at = none;
}

-- `RetryIPN`: whether a dead row was there.
unfoldable pub retry_ipn : (id : ℕ) (now : Time) → List Outbox → Bool × List Outbox
retry_ipn id now rows =
    (count (is_row id is_dead) rows == 1, update (is_row id is_dead) (revived (unix now)) rows)

-- A filter that is not given lets every row pass.
abbrev pub is_any : Option ℕ → (ℕ → Bool) → Bool
is_any none p = true
is_any (some n) p = p n

-- The condition of `ReplayDeadIPN`: dead, and of the consumer and in the range that are given.
abbrev pub matches_replay : (consumer from to : Option ℕ) → Outbox → Bool
matches_replay consumer from to q =
    is_dead q.status
    && (is_any consumer (λ c. q.consumer == c)
        && (is_any from (λ t. leb t q.created_at) && is_any to (λ t. leb q.created_at t)))

-- `ORDER BY id LIMIT ?`
unfoldable pub insert_by_id : Outbox → List Outbox → List Outbox
insert_by_id q [] = q ∷ []
insert_by_id q (r ∷ rs) = if leb q.id r.id then q ∷ r ∷ rs else r ∷ insert_by_id q rs

unfoldable pub sorted_by_id : List Outbox → List Outbox
sorted_by_id [] = []
sorted_by_id (q ∷ qs) = insert_by_id q (sorted_by_id qs)

abbrev pub take : ℕ → List Outbox → List Outbox
take zero qs = []
take (suc n) [] = []
take (suc n) (q ∷ qs) = q ∷ take n qs

-- The updates, one by one, and how many rows they have changed.
unfoldable pub revive_each : (stamp : ℕ) → List Outbox → ℕ → List Outbox → ℕ × List Outbox
revive_each stamp [] changed rows = (changed, rows)
revive_each stamp (q ∷ qs) changed rows =
    revive_each stamp qs (changed + count (is_row q.id is_dead) rows)
      (update (is_row q.id is_dead) (revived stamp) rows)

-- `ReplayDeadIPN`
unfoldable pub replay_dead_ipn :
    (consumer from to : Option ℕ) (limit : ℕ)
    → (dry_run : Bool) → (now : Time) → List Outbox
    → ℕ × List Outbox
replay_dead_ipn consumer from to limit dry_run now rows =
    let found = take limit (sorted_by_id (select (matches_replay consumer from to) rows)) in
    if dry_run then (length found, rows) else revive_each (unix now) found 0 rows

-- `dispatcher.fail`: dead when the attempts are used up, and else due after the backoff of this
-- attempt. `backoff` has an entry for each attempt, as the configuration demands.
unfoldable pub backoff_at : List Time → ℕ → Time
backoff_at [] n = 0
backoff_at (d ∷ ds) zero = d
backoff_at (d ∷ ds) (suc n) = backoff_at ds n

unfoldable pub fail_attempt :
    (max_attempts : ℕ)
    → List Time
    → Outbox
    → (message : ℕ) → Option ℕ
    → (now : Time) → List Outbox
    → List Outbox
unfolding backoff_at fail_ipn
fail_attempt max_attempts backoff event message status_code now =
    let dead = leb max_attempts event.attempts in
    fail_ipn event.id message status_code dead
      (if dead then now else now + backoff_at backoff (event.attempts - 1))
