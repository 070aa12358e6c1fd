-- ===== src/Ipn/Dispatch.antt =====
-- One round of a dispatcher's worker (internal/ipn/dispatcher.go: DispatchOne). What the consumer
-- answers to the request is an argument.
use payd.Prelude.{ℕ, Bool, true, false, ◌&&◌, Option, none, some, List, leb, ltb, if◌then◌else◌}
use payd.Schema.{Time, Outbox}
use payd.Events.{consumer_removed}
use payd.Ipn.{is_enabled, claim_ipn, deliver_ipn, fail_ipn, fail_attempt}

-- `runtimeConfig`: the enabled consumers, those whose secret is known, and the attempts.
pub record RuntimeConfig : Type 0 where
  pub enabled : List ℕ
  pub consumers : List ℕ
  pub max_attempts : ℕ
  pub backoff : List Time

-- An HTTP status, or the message of an error before there is one.
pub data Answer : Type 0 where
  answered : (status_code : ℕ) → Answer
  unanswered : (message : ℕ) → Answer

-- `response.StatusCode < 200 || response.StatusCode >= 300`, negated
abbrev pub is_success : ℕ → Bool
is_success status_code = leb 200 status_code && ltb status_code 300

-- The text `HTTP status …`.
abbrev pub http_status : ℕ
http_status = 4

abbrev pub settle_answer :
    RuntimeConfig → Answer → (now : Time) → Outbox → List Outbox → List Outbox
settle_answer cfg (answered status_code) now event rows =
    if is_success status_code
    then deliver_ipn event.id status_code now rows
    else fail_attempt cfg.max_attempts cfg.backoff event http_status (some status_code) now rows
settle_answer cfg (unanswered message) now event rows =
    fail_attempt cfg.max_attempts cfg.backoff event message none now rows

abbrev pub settle_event : RuntimeConfig → Answer → (now : Time) → Outbox → List Outbox → List Outbox
settle_event cfg answer now event rows =
    if is_enabled cfg.consumers event.consumer
    then settle_answer cfg answer now event rows
    else fail_ipn event.id consumer_removed none true now rows

abbrev pub dispatch_claimed :
    RuntimeConfig → Answer → (now : Time) → Option Outbox → List Outbox → Bool × List Outbox
dispatch_claimed cfg answer now none rows = (false, rows)
dispatch_claimed cfg answer now (some event) rows = (true, settle_event cfg answer now event rows)

-- `DispatchOne`: whether there was an event, and the queue.
unfoldable pub dispatch_one :
    RuntimeConfig → Answer → (now : Time) → List Outbox → Bool × List Outbox
dispatch_one cfg answer now rows =
    let claim = claim_ipn now cfg.enabled rows in dispatch_claimed cfg answer now claim.0 claim.1
