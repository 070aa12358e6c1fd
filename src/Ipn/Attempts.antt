-- ===== src/Ipn/Attempts.antt =====
-- What a dispatched event has become.
use payd.Prelude.{
  ℕ, ◌+◌, Bool, true, false, not, ◌≡◌, refl, ap, ◌∙◌, subst, Option, none, some, List, [], ◌∷◌,
  arith, In, here, there, find, find-changed, update, leb, ◌==◌, if◌then◌else◌, Bool-cases, inl,
  inr, ==_self, ◌⊎◌,
}
use payd.Schema.{Time, unix, Outbox, OutboxStatus}
use payd.Events.{consumer_removed}
use payd.Ipn.{
  is_enabled, is_row, is_failed, is_pending, claimed, claim_ipn, deliver_ipn, fail_ipn,
  fail_attempt,
}
use payd.Ipn.Sequence.{claim_ipn-IsClaimed}
use payd.Ipn.Order.{IsQueue}
use payd.Ipn.InFlight.{IpnStep, done, then_step, claims, delivers, fails, steps-IsQueue}
use payd.Ipn.Dispatch.{
  RuntimeConfig, Answer, answered, unanswered, is_success, http_status, settle_answer, settle_event,
  dispatch_claimed, dispatch_one,
}

abbrev has_id : ℕ → Outbox → Bool
has_id id q = q.id == id

find-In :
    (p : Outbox → Bool) (rows : List Outbox) (q : Outbox)
    → In q rows
    → p q ≡ true
    → (a : Outbox) × (find p rows ≡ some a) × In a rows × (p a ≡ true)
find-In p [] q i h = elim i [ ]
find-In p (x ∷ rows) q i h = elim (Bool-cases (p x)) [
  | inl e ↦ (x, rw e refl, here, e)
  | inr e ↦
      let (a, f, j, y) = find-In p rows q (in_rest p x rows q i h e) h in (a, rw e f, there j, y)
]
  where
    in_rest :
        (p : Outbox → Bool) (x : Outbox) (rows : List Outbox) (q : Outbox)
        → In q (x ∷ rows)
        → p q ≡ true
        → p x ≡ false
        → In q rows
    in_rest p x rows q here h e = absurd (ground arith)
    in_rest p x rows q (there i) h e = i

-- In a queue an event is found under its identifier.
queue-find :
    (rows : List Outbox) (q : Outbox) → IsQueue rows → In q rows → find (has_id q.id) rows ≡ some q
queue-find rows q queue i =
    let (a, f, j, y) = find-In (has_id q.id) rows q i (==_self q.id) in
    let same = queue.unique a q j i (ground arith) in f ∙ ap some same

-- The row of an event after an update that changes it.
found_after :
    (id : ℕ) (q : Outbox → Bool) (f : Outbox → Outbox) (rows : List Outbox) (a : Outbox)
    → ((x : Outbox) → (f x).id ≡ x.id)
    → find (has_id id) rows ≡ some a
    → q a ≡ true
    → find (has_id id) (update q f rows) ≡ some (f a)
found_after id q f rows a ids h e =
    let moved = find-changed (has_id id) q f (λ x. ap (λ n. n == id) (ids x)) rows a h in
    rw e at moved

-- The status that an event ends with, by the answer and the attempts that it has had.
abbrev pub final_status : RuntimeConfig → Answer → Outbox → OutboxStatus
final_status cfg answer event =
    if not (is_enabled cfg.consumers event.consumer) then OutboxStatus.dead else elim answer [
      | answered code ↦
          if is_success code
          then OutboxStatus.delivered
          else if leb cfg.max_attempts event.attempts
          then OutboxStatus.dead
          else OutboxStatus.pending
      | unanswered message ↦
          if leb cfg.max_attempts event.attempts then OutboxStatus.dead else OutboxStatus.pending
    ]

-- Every way of settling is one update of the row that is in flight.
pub record IsSettling (cfg : RuntimeConfig) (answer : Answer) (event : Outbox)
    (rows rows' : List Outbox) : Type 0 where
  pub change : Outbox → Outbox
  pub written : rows' ≡ update (is_row event.id is_failed) change rows
  pub id_kept : (x : Outbox) → (change x).id ≡ x.id
  pub status_set : (change event).status ≡ final_status cfg answer event
  pub attempts_kept : (change event).attempts ≡ event.attempts
  pub step : IpnStep rows rows'

-- A failure, with whatever is written of it.
fail-IsSettling :
    (cfg : RuntimeConfig) (answer : Answer) (event : Outbox) (message : ℕ) (code : Option ℕ)
    (dead : Bool) (next : Time) (rows : List Outbox)
    → (if dead then OutboxStatus.dead else OutboxStatus.pending) ≡ final_status cfg answer event
    → IsSettling cfg answer event rows (fail_ipn event.id message code dead next rows)
unfolding fail_ipn
fail-IsSettling cfg answer event message code dead next rows status = record {
  change = λ q. record q {
    status = if dead then OutboxStatus.dead else OutboxStatus.pending;
    next_attempt_at = unix next;
    last_error = some message;
    last_status_code = code;
  };
  written = refl;
  id_kept = λ x. refl;
  status_set = status;
  attempts_kept = refl;
  step = fails event.id message code dead next rows;
}

settle-IsSettling :
    (cfg : RuntimeConfig) (answer : Answer) (now : Time) (event : Outbox) (rows : List Outbox)
    → IsSettling cfg answer event rows (settle_event cfg answer now event rows)
unfolding fail_attempt deliver_ipn
settle-IsSettling cfg answer now event rows =
    elim (Bool-cases (is_enabled cfg.consumers event.consumer)) [
      | inr e ↦
          rw e (fail-IsSettling cfg answer event consumer_removed none true now rows (rw e refl))
      | inl e ↦ rw e (settle_known cfg answer now event rows e)
    ]
  where
    settle_known :
        (cfg : RuntimeConfig) (answer : Answer) (now : Time) (event : Outbox) (rows : List Outbox)
        → is_enabled cfg.consumers event.consumer ≡ true
        → IsSettling cfg answer event rows (settle_answer cfg answer now event rows)
    settle_known cfg (unanswered message) now event rows e =
        fail-IsSettling cfg (unanswered message) event message none
          (leb cfg.max_attempts event.attempts) _ rows (rw e refl)
    settle_known cfg (answered code) now event rows e = elim (Bool-cases (is_success code)) [
      | inr n ↦ rw n (
          fail-IsSettling cfg (answered code) event http_status (some code)
            (leb cfg.max_attempts event.attempts) _ rows (rw (e, n) refl))
      | inl y ↦ rw y (record {
        change = λ q. record q {
          status = OutboxStatus.delivered;
          delivered_at = some (unix now);
          last_error = none;
          last_status_code = some code;
        };
        written = refl;
        id_kept = λ x. refl;
        status_set = rw (e, y) refl;
        attempts_kept = refl;
        step = delivers event.id code now rows;
      })
    ]

-- What a round that finds an event has done.
pub record IsDispatched (cfg : RuntimeConfig) (answer : Answer) (now : Time)
    (rows rows' : List Outbox) : Type 0 where
  pub event : Outbox
  pub queued : In event rows
  pub was_pending : event.status ≡ OutboxStatus.pending
  pub after : Outbox
  pub stored : find (has_id event.id) rows' ≡ some after
  pub status_set : after.status ≡ final_status cfg answer (claimed event)
  pub attempt_counted : after.attempts ≡ event.attempts + 1
  pub queue_kept : IsQueue rows'

-- A round of a worker that finds an event, in a queue that is in order, leaves the queue in order and
-- the event settled: dead where its consumer is gone, delivered exactly after an answer of 200 to
-- 299, and otherwise dead once the attempts, this one included, have reached the maximum, and
-- pending again before that. Its attempts have grown by one.
pub dispatch_one-IsDispatched :
    (cfg : RuntimeConfig) (answer : Answer) (now : Time) (rows : List Outbox) {rows' : List Outbox}
    → dispatch_one cfg answer now rows ≡ (true, rows')
    → IsQueue rows
    → IsDispatched cfg answer now rows rows'
unfolding dispatch_one
dispatch_one-IsDispatched cfg answer now rows {rows'} h queue =
    elim (claim-cases (claim_ipn now cfg.enabled rows)) [
      | inl (rest, e) ↦ let bad = rw (e, dispatch_claimed) at h in absurd (ground arith)
      | inr (q, rest, e) ↦
          let done_claim = claim_ipn-IsClaimed now cfg.enabled rows e in
          let b = done_claim.before in
          let found = queue-find rows b queue done_claim.queued in
          let mine : is_row b.id is_pending b ≡ true =
            let s = done_claim.was_pending in ground arith in
          let flying : find (has_id b.id) rest ≡ some (claimed b) =
            rw (done_claim.marked)
              (found_after b.id (is_row b.id is_pending) claimed rows b (λ x. refl) found mine) in
          let settled = settle-IsSettling cfg answer now (claimed b) rest in
          let same : settle_event cfg answer now (claimed b) rest ≡ rows' =
            subst (λ x. settle_event cfg answer now x rest ≡ rows') done_claim.taken
              (ap (λ r. r.1) (rw (e, dispatch_claimed) at h)) in
          let mine' : is_row b.id is_failed (claimed b) ≡ true = ground arith in
          let final : find (has_id b.id) (settle_event cfg answer now (claimed b) rest)
              ≡ some (settled.change (claimed b)) =
            rw settled.written (
              found_after b.id (is_row b.id is_failed) settled.change rest (claimed b)
                settled.id_kept flying mine') in
          let steps =
            then_step rows rest (settle_event cfg answer now (claimed b) rest)
              (then_step rows rows rest (done rows) (claims now cfg.enabled rows q rest e))
              settled.step in
          subst (IsDispatched cfg answer now rows) same (record {
            event = b;
            queued = done_claim.queued;
            was_pending = done_claim.was_pending;
            after = settled.change (claimed b);
            stored = final;
            status_set = settled.status_set;
            attempt_counted = settled.attempts_kept;
            queue_kept =
                steps-IsQueue rows (settle_event cfg answer now (claimed b) rest) steps queue;
          })
    ]
  where
    claim-cases :
        (c : Option Outbox × List Outbox)
        → ((rest : List Outbox) × (c ≡ (none, rest)))
          ⊎ ((q : Outbox) × (rest : List Outbox) × (c ≡ (some q, rest)))
    claim-cases (none, rest) = inl (rest, refl)
    claim-cases (some q, rest) = inr (q, rest, refl)
