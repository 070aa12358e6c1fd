-- ===== src/Events.antt =====
-- Queueing of notifications inside a transaction (internal/store/outbox.go: enqueueOrderEvent,
-- enqueueGlobalEvent, insertOutbox).
use payd.Prelude.{
  ℕ, ◌+◌, not, ◌||◌, Option, none, some, List, [], ◌∷◌, ◌++◌, ◌==◌, if◌then◌else◌, find, coalesce,
  Result, ok, no_rows, or_error, ◌>>=◌,
}
use payd.Schema.{
  Time, unix, Database, OutboxStatus, Payload, SequenceKey, order_key, EventType, EventConsumer,
  EventConfig,
}

-- The text `consumer removed`.
abbrev pub consumer_removed : ℕ
consumer_removed = 1

-- `insertOutbox`: one row with a fresh identifier.
unfoldable pub insert_outbox :
    Database
    → Option ℕ
    → SequenceKey
    → (consumer target_url : ℕ) → EventType
    → Payload
    → OutboxStatus
    → Option ℕ
    → (now : Time) → Database
insert_outbox db order_id key consumer target_url event_type payload status last_error now =
    record db {
      outbox =
          db.outbox
          ++ record {
            id = db.draws;
            order_id = order_id;
            sequence_key = key;
            consumer = consumer;
            target_url = target_url;
            event_type = event_type;
            payload = payload;
            status = status;
            attempts = 0;
            next_attempt_at = unix now;
            last_error = last_error;
            last_status_code = none;
            created_at = unix now;
            delivered_at = none;
          }
            ∷ [];
      draws = db.draws + 1;
    }

-- The status and the error of a new row, and its URL: dead where the consumer is gone or disabled.
abbrev pub route : Option EventConsumer → OutboxStatus × Option ℕ × ℕ
route none = (OutboxStatus.dead, some consumer_removed, 0)
route (some c) =
    if c.enabled
    then (OutboxStatus.pending, none, c.url)
    else (OutboxStatus.dead, some consumer_removed, c.url)

-- `enqueueOrderEvent`
unfoldable pub enqueue_order_event :
    Database → EventConfig → (order_id : ℕ) → EventType → Payload → (now : Time) → Result Database
unfolding insert_outbox
enqueue_order_event db events order_id event_type payload now = do
  o ← or_error (find (λ o. o.id == order_id) db.orders) no_rows
  let consumer = coalesce o.consumer events.default_consumer
  let (status, last_error, url) = route (find (λ c. c.name == consumer) events.consumers)
  ok (
      insert_outbox db (some order_id) (order_key order_id) consumer url event_type payload status
        last_error now)

-- `enqueueGlobalEvent`: the source ranges over a map, so the order of its rows is not fixed; here it
-- is that of the list.
unfoldable pub enqueue_to :
    List EventConsumer → SequenceKey → EventType → Payload → (now : Time) → Database → Database
enqueue_to [] key event_type payload now db = db
enqueue_to (c ∷ cs) key event_type payload now db = enqueue_to cs key event_type payload now (
    if not c.enabled || not c.receives_global
    then db
    else insert_outbox db none key c.name c.url event_type payload OutboxStatus.pending none now)

unfoldable pub enqueue_global_event :
    Database → EventConfig → SequenceKey → EventType → Payload → (now : Time) → Database
unfolding enqueue_to insert_outbox
enqueue_global_event db events key event_type payload now =
    enqueue_to events.consumers key event_type payload now db
