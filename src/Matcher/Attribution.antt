-- ===== src/Matcher/Attribution.antt =====
-- Which order a payment is attributed to, and that the attribution never changes afterwards.
use payd.Prelude.{
  some-injective, ℕ, ◌≤◌, Bool, true, false, not, ◌&&◌, ◌||◌, ◌≡◌, refl, sym, ap, ◌∙◌, subst,
  Option, none, some, ◌⊎◌, inl, inr, arith, find, find-none, coalesce, ok, >>=-eq-ok, ok-injective,
  Bool-cases, ◌==◌, no_rows, or_error, ◌*◌, is_some,
}
use payd.Decimal.{format_units}
use payd.Schema.{
  Time, second, Database, Payment, PaymentStatus, Direction, OrderStatus, Reason, EventConfig,
  EventType, Payload, SequenceKey, is_active, status_eq, is_orphaned,
}
use payd.Recalc.{before}
use payd.Events.{enqueue_order_event}
use payd.Chain.Links.{
  SameChain, SameChain-trans, SameBook, SameBook-refl, SameBook-trans, enqueue_order_event-SameBook,
  enqueue_global_event-SameBook,
}
use payd.Payments.{
  PaymentRecord, AttributionOrder, is_payment, payment_exists, attribution_order, upsert_payment,
}
use payd.Payments.Upsert.{upsert_payment-IsUpserted, row_after}
use payd.Matcher.{
  is_inside, Verdict, attributed, unattributed, judge, stamped, verdict, stamp_record,
  says_unattributed, announce_loose, announce_status, announce_order, announce, match_payment,
}

announce_loose-SameBook :
    (events : EventConfig) (now : Time) (r : PaymentRecord)
    (payload : Option ℕ → Option ℕ → Payload) (address : Option ℕ) (db : Database)
    → SameBook db (announce_loose events now r payload address db)
announce_loose-SameBook events now r payload none db = SameBook-refl db
announce_loose-SameBook events now r payload (some a) db =
    elim (Bool-cases (says_unattributed r.status)) [
      | inl e ↦ rw e (
          enqueue_global_event-SameBook db events (SequenceKey.address_key a)
            EventType.payment_unattributed (payload none none) now)
      | inr e ↦ rw e (SameBook-refl db)
    ]

announce_status-SameBook :
    (events : EventConfig) (now : Time) (id : ℕ) (payload : Payload) (new : OrderStatus)
    (db : Database) {db' : Database}
    → announce_status events now id payload new db ≡ ok db'
    → SameBook db db'
announce_status-SameBook events now id payload OrderStatus.partial db h =
    enqueue_order_event-SameBook db events id _ payload now h
announce_status-SameBook events now id payload OrderStatus.paid db h =
    enqueue_order_event-SameBook db events id _ payload now h
announce_status-SameBook events now id payload OrderStatus.pending db h =
    subst (SameBook db) (ok-injective h) (SameBook-refl db)
announce_status-SameBook events now id payload OrderStatus.confirmed db h =
    subst (SameBook db) (ok-injective h) (SameBook-refl db)
announce_status-SameBook events now id payload OrderStatus.expired db h =
    subst (SameBook db) (ok-injective h) (SameBook-refl db)
announce_status-SameBook events now id payload OrderStatus.expired_funded db h =
    subst (SameBook db) (ok-injective h) (SameBook-refl db)
announce_status-SameBook events now id payload OrderStatus.cancelled db h =
    subst (SameBook db) (ok-injective h) (SameBook-refl db)
announce_status-SameBook events now id payload OrderStatus.cancelled_funded db h =
    subst (SameBook db) (ok-injective h) (SameBook-refl db)

announce_order-SameBook :
    (events : EventConfig) (now : Time) (old : AttributionOrder)
    (payload : Option ℕ → Option ℕ → Payload) (db : Database) {db' : Database}
    → announce_order events now old payload db ≡ ok db'
    → SameBook db db'
unfolding announce_order
announce_order-SameBook events now old payload db {db'} h =
    let (o, _, h1) = >>=-eq-ok (or_error (find (λ o. o.id == old.id) db.orders) no_rows) _ h in
    let body = payload (some old.id) (some o.metadata) in
    let (seen, e, h2) =
      >>=-eq-ok (enqueue_order_event db events old.id EventType.order_payment_seen body now) _ h1 in
    let (o', _, h3) = >>=-eq-ok (or_error (find (λ o. o.id == old.id) seen.orders) no_rows) _ h2 in
    let first = enqueue_order_event-SameBook db events old.id _ body now e in
    elim (Bool-cases (status_eq o'.status old.status)) [
      | inl y ↦ subst (SameBook db) (ok-injective (rw y at h3)) first
      | inr y ↦
          SameBook-trans db seen db' first
            (announce_status-SameBook events now old.id body o'.status seen (rw y at h3))
    ]

announce-SameBook :
    (events : EventConfig) (now : Time) (v : Option Verdict) (r : PaymentRecord)
    (payload : Option ℕ → Option ℕ → Payload) (db : Database) {db' : Database}
    → announce events now v r payload db ≡ ok db'
    → SameBook db db'
announce-SameBook events now none r payload db h =
    subst (SameBook db) (ok-injective h)
      (announce_loose-SameBook events now r payload r.address_id db)
announce-SameBook events now (some (unattributed reason)) r payload db h =
    subst (SameBook db) (ok-injective h)
      (announce_loose-SameBook events now r payload r.address_id db)
announce-SameBook events now (some (attributed o)) r payload db h =
    announce_order-SameBook events now o payload db h

-- A match is an upsert of the stamped record, and then events.
match-upserts :
    (events : EventConfig) (clock : Time) (r : PaymentRecord) (db : Database) {db' : Database}
    → match_payment events clock r db ≡ ok db'
    → (w : Bool × Database) × (upsert_payment (stamp_record (verdict db r) r) clock db ≡ ok w)
      × SameBook w.1 db'
unfolding match_payment
match-upserts events clock r db {db'} h =
    let v = verdict db r in
    let r' = stamp_record v r in
    let (w, e, h1) = >>=-eq-ok (upsert_payment r' clock db) _ h in
    elim (Bool-cases ((payment_exists db r'.txid r'.log_index && not w.0) || r'.is_dust)) [
      | inl y ↦ (w, e, subst (SameBook w.1) (ok-injective (rw y at h1)) (SameBook-refl w.1))
      | inr y ↦
          let (amount, _, h2) =
            >>=-eq-ok (format_units r'.amount_raw (events.decimals r'.asset)) _ (rw y at h1) in
          (w, e, announce-SameBook events (r'.detected_at * second) v r' _ w.1 h2)
    ]

-- The order can take the payment: it is open and in the asset, and the block lies in its window.
pub record Fits (o : AttributionOrder) (r : PaymentRecord) : Type 0 where
  pub active : is_active o.status ≡ true
  pub same_asset : o.asset ≡ r.asset
  pub after_creation : o.created_at ≤ r.block_timestamp
  pub before_release : before r.block_timestamp o.released_at ≡ true

-- What is stored of a payment that was not there: attributed exactly when its address has an order
-- that fits, and else unattributed with a reason.
abbrev pub IsJudged : Option AttributionOrder → PaymentRecord → Payment → Type 0
IsJudged o r p =
    ((a : AttributionOrder) × (o ≡ some a)
      × Fits a r
      × (p.order_id ≡ some a.id)
      × (p.status ≡ coalesce r.status PaymentStatus.seen))
    ⊎ (((a : AttributionOrder) → o ≡ some a → ¬ Fits a r)
        × (p.order_id ≡ none)
        × (p.status ≡ PaymentStatus.unattributed)
        × (is_some p.unattributed_reason ≡ true))

judge-Fits : (o : AttributionOrder) (r : PaymentRecord) → Fits o r → judge (some o) r ≡ attributed o
unfolding judge
judge-Fits o r f =
    let a = f.active in
    let b = f.same_asset in let c = f.after_creation in let d = f.before_release in ground arith

judge_cases :
    (o : AttributionOrder) (r : PaymentRecord)
    → (Fits o r × (judge (some o) r ≡ attributed o))
      ⊎ ((¬ Fits o r) × ((reason : Reason) × (judge (some o) r ≡ unattributed reason)))
unfolding judge
judge_cases o r = elim (Bool-cases (is_active o.status)) [
  | inr e ↦ inr ((λ f. let a = f.active in ground arith), (Reason.no_active_order, rw e refl))
  | inl e ↦ elim (Bool-cases (o.asset == r.asset)) [
    | inr y ↦
        inr ((λ f. let a = f.same_asset in ground arith), (Reason.asset_mismatch, rw (e, y) refl))
    | inl y ↦ elim (Bool-cases (is_inside o r)) [
      | inr z ↦ inr (
        (λ f. let c = f.after_creation in let d = f.before_release in ground arith),
        (Reason.outside_window, rw (e, y, z) refl),
      )
      | inl z ↦ inl (
        record {
          active = e;
          same_asset = ground arith;
          after_creation = ground arith;
          before_release = ground arith;
        },
        rw (e, y, z) refl,
      )
    ]
  ]
]

IsJudged-row :
    (o : Option AttributionOrder) (r : PaymentRecord) (id : ℕ)
    → IsJudged o r (row_after none id (stamped (judge o r) r))
unfolding judge
IsJudged-row none r id = inr ((λ a e. absurd (ground arith)), refl, refl, refl)
IsJudged-row (some o) r id = elim (judge_cases o r) [
  | inl (f, e) ↦ rw e (inl (o, refl, f, refl, refl))
  | inr (n, (reason, e)) ↦
      rw e (inr ((λ a y f. n (subst (λ x. Fits x r) (sym (some-injective y)) f)), refl, refl, refl))
]

stamped_key :
    (v : Option Verdict) (r : PaymentRecord)
    → ((stamp_record v r).txid ≡ r.txid) × ((stamp_record v r).log_index ≡ r.log_index)
stamped_key none r = (refl, refl)
stamped_key (some (attributed o)) r = (refl, refl)
stamped_key (some (unattributed reason)) r = (refl, refl)

stamped_block :
    (v : Option Verdict) (r : PaymentRecord)
    → ((stamp_record v r).block_height ≡ r.block_height)
      × ((stamp_record v r).block_id ≡ r.block_id)
      × ((stamp_record v r).block_timestamp ≡ r.block_timestamp)
stamped_block none r = (refl, refl, refl)
stamped_block (some (attributed o)) r = (refl, refl, refl)
stamped_block (some (unattributed reason)) r = (refl, refl, refl)

-- The row of the payment after a match.
match-row :
    (events : EventConfig) (clock : Time) (r : PaymentRecord) (db : Database) {db' : Database}
    → match_payment events clock r db ≡ ok db'
    → find (is_payment r.txid r.log_index) db'.payments
      ≡ some (
          row_after
            (find (is_payment r.txid r.log_index) db.payments)
            db.draws
            (stamp_record (verdict db r) r))
match-row events clock r db {db'} h =
    let (w, e, same) = match-upserts events clock r db h in
    let r' = stamp_record (verdict db r) r in
    let (txid, index) = stamped_key (verdict db r) r in
    let up = upsert_payment-IsUpserted r' clock db {back = w.0} {db' = w.1} e in
    let found : find (is_payment r'.txid r'.log_index) w.1.payments
        ≡ some (row_after (find (is_payment r'.txid r'.log_index) db.payments) db.draws r') =
      up.found ∙ ap some up.is_row in
    rw same.1 (
      subst
        (λ n.
          find (is_payment n r.log_index) w.1.payments
          ≡ some (row_after (find (is_payment n r.log_index) db.payments) db.draws r'))
        txid
        (subst
          (λ l.
            find (is_payment r'.txid l) w.1.payments
            ≡ some (row_after (find (is_payment r'.txid l) db.payments) db.draws r'))
          index found))

pub match_payment-SameChain :
    (events : EventConfig) (clock : Time) (r : PaymentRecord) (db : Database) {db' : Database}
    → match_payment events clock r db ≡ ok db'
    → SameChain db db'
match_payment-SameChain events clock r db {db'} h =
    let (w, e, same) = match-upserts events clock r db h in
    let up =
      upsert_payment-IsUpserted (stamp_record (verdict db r) r) clock db {back = w.0} {db' = w.1}
        e in
    SameChain-trans db w.1 db' up.chain_kept same.0

-- A new payment that comes in at an address of the pool is attributed to the order of that address
-- exactly when the order is pending, partial or paid, has the payment's asset, and its window holds
-- the time of the block; otherwise it is stored without an order, as unattributed, with a reason.
pub match_payment-IsJudged :
    (events : EventConfig) (clock : Time) (r : PaymentRecord) (db : Database) (address_id : ℕ)
    {db' : Database}
    → match_payment events clock r db ≡ ok db'
    → r.direction ≡ Direction.incoming
    → r.address_id ≡ some address_id
    → payment_exists db r.txid r.log_index ≡ false
    → (p : Payment) × (find (is_payment r.txid r.log_index) db'.payments ≡ some p)
      × IsJudged (attribution_order db address_id) r p
match_payment-IsJudged events clock r db a h incoming at_a new =
    let o = attribution_order db a in
    let judged : verdict db r ≡ some (judge o r) = rw (incoming, at_a) refl in
    let absent = find-none (is_payment r.txid r.log_index) db.payments new in
    let found = match-row events clock r db h in
    (
      row_after none db.draws (stamped (judge o r) r),
      rw (absent, judged) at found,
      IsJudged-row o r db.draws,
    )

-- A match of a payment that is already stored keeps the order that it was attributed to, whatever
-- the window and the status of that order are by now, keeps its amount, and moves it to the block of
-- the record: its height, its identifier and its time. Its status changes only if it was orphaned.
pub match_payment_keeps_order :
    (events : EventConfig) (clock : Time) (r : PaymentRecord) (db : Database) (old : Payment)
    {db' : Database}
    → match_payment events clock r db ≡ ok db'
    → find (is_payment r.txid r.log_index) db.payments ≡ some old
    → (p : Payment) × (find (is_payment r.txid r.log_index) db'.payments ≡ some p)
      × (p.order_id ≡ old.order_id)
      × (p.amount_raw ≡ old.amount_raw)
      × (p.block_height ≡ r.block_height)
      × (p.block_id ≡ r.block_id)
      × (p.block_timestamp ≡ r.block_timestamp)
      × ((is_orphaned old.status ≡ false) → p.status ≡ old.status)
match_payment_keeps_order events clock r db old h e =
    let found = match-row events clock r db h in
    let r' = stamp_record (verdict db r) r in
    let (height, id, timestamp) = stamped_block (verdict db r) r in
    (
      row_after (some old) db.draws r',
      rw e at found,
      refl,
      refl,
      height,
      id,
      timestamp,
      λ n. rw n refl,
    )
