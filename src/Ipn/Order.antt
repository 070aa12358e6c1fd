-- ===== src/Ipn/Order.antt =====
-- The order that the queue of notifications keeps, and the updates that keep it.
use payd.Prelude.{
  ℕ, Bool, true, false, ◌≡◌, refl, sym, ap, ◌∙◌, subst, List, [], ◌∷◌, arith, In, here, there, All,
  if◌then◌else◌, update, Bool-cases, inl, inr, ◌⊎◌,
}
use payd.Schema.{Time, Outbox, OutboxStatus}
use payd.Ipn.{same_pair, precedes, is_delivered, is_pending, is_row, claimed}
use payd.Ipn.Sequence.{IsClaimed}

pub In-All : (P : Outbox → Type 0) (rows : List Outbox) (q : Outbox) → In q rows → All P rows → P q
In-All P [] q i h = elim i [ ]
In-All P (x ∷ rows) q here h = h.0
In-All P (x ∷ rows) q (there i) h = In-All P rows q i h.1

-- A row as an update of those with `p` leaves it.
abbrev pub changed : (Outbox → Bool) → (Outbox → Outbox) → Outbox → Outbox
changed p f x = if p x then f x else x

-- A row of an updated table comes from one that was there.
In-update :
    (p : Outbox → Bool) (f : Outbox → Outbox) (rows : List Outbox) (y : Outbox)
    → In y (update p f rows)
    → (x : Outbox) × In x rows × (y ≡ changed p f x)
In-update p f [] y i = elim i [ ]
In-update p f (x ∷ rows) y here = (x, here, refl)
In-update p f (x ∷ rows) y (there i) = let (z, j, e) = In-update p f rows y i in (z, there j, e)

-- Claimed at least once and not waiting: in flight or delivered.
abbrev pub is_started : OutboxStatus → Bool
is_started OutboxStatus.failed = true
is_started OutboxStatus.delivered = true
is_started _ = false

-- The queue keeps the order of each sequence: where an event is in flight or delivered, all events
-- of its sequence and consumer before it are delivered. Identifiers are unique.
pub record IsQueue (rows : List Outbox) : Type 0 where
  pub unique : (q r : Outbox) → In q rows → In r rows → q.id ≡ r.id → q ≡ r
  pub in_order :
      (q r : Outbox)
      → In q rows
      → In r rows
      → same_pair q r ≡ true
      → precedes q r ≡ true
      → is_started r.status ≡ true
      → is_delivered q.status ≡ true

-- A change of a row that keeps its place in the queue.
pub record KeepsPlace (f : Outbox → Outbox) : Type 0 where
  pub id_kept : (x : Outbox) → (f x).id ≡ x.id
  pub pair_kept : (x y : Outbox) → same_pair (f x) (f y) ≡ same_pair x y
  pub order_kept : (x y : Outbox) → precedes (f x) (f y) ≡ precedes x y

-- An update that starts only events whose predecessors are delivered, and takes back no delivery.
update-IsQueue :
    (p : Outbox → Bool) (f : Outbox → Outbox) (rows : List Outbox)
    → KeepsPlace (changed p f)
    → ((r : Outbox)
        → In r rows
        → is_started (changed p f r).status ≡ true
        → (is_started r.status ≡ true)
          ⊎ ((q : Outbox)
              → In q rows
              → same_pair q r ≡ true
              → precedes q r ≡ true
              → is_delivered q.status ≡ true))
    → ((q : Outbox) → is_delivered q.status ≡ true → is_delivered (changed p f q).status ≡ true)
    → IsQueue rows
    → IsQueue (update p f rows)
update-IsQueue p f rows place starts delivers queue = record {
  unique = λ q' r' iq ir e.
      let (q, jq, eq) = In-update p f rows q' iq in
      let (r, jr, er) = In-update p f rows r' ir in
      let ids =
        sym (place.id_kept q) ∙ ap (λ x. x.id) (sym eq) ∙ e ∙ ap (λ x. x.id) er ∙ place.id_kept r in
      eq ∙ ap (changed p f) (queue.unique q r jq jr ids) ∙ sym er;
  in_order = λ q' r' iq ir pair pre started.
      let (q, jq, eq) = In-update p f rows q' iq in
      let (r, jr, er) = In-update p f rows r' ir in
      let pair' =
        sym (place.pair_kept q r)
        ∙ subst (λ x. same_pair (changed p f q) x ≡ true) er
            (subst (λ x. same_pair x r' ≡ true) eq pair) in
      let pre' =
        sym (place.order_kept q r)
        ∙ subst (λ x. precedes (changed p f q) x ≡ true) er
            (subst (λ x. precedes x r' ≡ true) eq pre) in
      let was : is_delivered q.status ≡ true =
        elim (starts r jr (subst (λ x. is_started x.status ≡ true) er started)) [
          | inl s ↦ queue.in_order q r jq jr pair' pre' s
          | inr all ↦ all q jq pair' pre'
        ] in
      subst (λ x. is_delivered x.status ≡ true) (sym eq) (delivers q was);
}

changed_at :
    (p : Outbox → Bool) (f : Outbox → Outbox) (x : Outbox) → p x ≡ true → changed p f x ≡ f x
changed_at p f x e = rw e refl

unchanged_at :
    (p : Outbox → Bool) (f : Outbox → Outbox) (x : Outbox) → p x ≡ false → changed p f x ≡ x
unchanged_at p f x e = rw e refl

-- The columns that an event is ordered by.
abbrev pub SamePlace : Outbox → Outbox → Type 0
SamePlace x y =
    (y.id ≡ x.id)
    × (y.sequence_key ≡ x.sequence_key)
    × (y.consumer ≡ x.consumer)
    × (y.created_at ≡ x.created_at)

changed-SamePlace :
    (p : Outbox → Bool) (f : Outbox → Outbox)
    → ((x : Outbox) → SamePlace x (f x))
    → (x : Outbox) → SamePlace x (changed p f x)
changed-SamePlace p f same x = elim (Bool-cases (p x)) [
  | inl e ↦ rw e (same x)
  | inr e ↦ rw e (refl, refl, refl, refl)
]

changed-KeepsPlace :
    (p : Outbox → Bool) (f : Outbox → Outbox)
    → ((x : Outbox) → SamePlace x (f x))
    → KeepsPlace (changed p f)
changed-KeepsPlace p f same = record {
  id_kept = λ x. (changed-SamePlace p f same x).0;
  pair_kept = λ x y.
      let (_, k, c, _) = changed-SamePlace p f same x in
      let (_, k', c', _) = changed-SamePlace p f same y in rw (k, k', c, c') refl;
  order_kept = λ x y.
      let (i, _, _, t) = changed-SamePlace p f same x in
      let (i', _, _, t') = changed-SamePlace p f same y in rw (i, i', t, t') refl;
}

-- An update of events that are in flight or not started, which starts none that was not.
pub quiet-IsQueue :
    (p : Outbox → Bool) (f : Outbox → Outbox)
    → ((x : Outbox) → SamePlace x (f x))
    → ((x : Outbox) → p x ≡ true → is_delivered x.status ≡ false)
    → ((x : Outbox) → p x ≡ true → is_started (f x).status ≡ true → is_started x.status ≡ true)
    → (rows : List Outbox) → IsQueue rows
    → IsQueue (update p f rows)
quiet-IsQueue p f same undelivered starts rows queue =
    update-IsQueue p f rows (changed-KeepsPlace p f same)
      (λ r i s. elim (Bool-cases (p r)) [
        | inl e ↦ inl (starts r e (subst (λ x. is_started x.status ≡ true) (changed_at p f r e) s))
        | inr e ↦ inl (subst (λ x. is_started x.status ≡ true) (unchanged_at p f r e) s)
      ])
      (λ q d. elim (Bool-cases (p q)) [
        | inl e ↦ let u = undelivered q e in absurd (ground arith)
        | inr e ↦ subst (λ x. is_delivered x.status ≡ true) (sym (unchanged_at p f q e)) d
      ])
      queue

pub claim-IsQueue :
    (now : Time) (consumers : List ℕ) (rows : List Outbox) (q : Outbox) (rows' : List Outbox)
    → IsClaimed now consumers rows q rows'
    → IsQueue rows
    → IsQueue rows'
claim-IsQueue now consumers rows q rows' done queue =
    let b = done.before in
    let p = is_row b.id is_pending in
    subst IsQueue (sym done.marked) (
      update-IsQueue p claimed rows (changed-KeepsPlace p claimed λ x. (refl, refl, refl, refl))
        (λ r i s. elim (Bool-cases (p r)) [
          | inl e ↦
              let ids : r.id ≡ b.id = ground arith in
              let same = queue.unique r b i done.queued ids in
              inr (λ x j pair pre.
                In-All
                  (λ x. same_pair x b ≡ true → precedes x b ≡ true → is_delivered x.status ≡ true)
                  rows x j done.in_order (subst (λ z. same_pair x z ≡ true) same pair)
                  (subst (λ z. precedes x z ≡ true) same pre))
          | inr e ↦ inl (subst (λ x. is_started x.status ≡ true) (unchanged_at p claimed r e) s)
        ])
        (λ x d. elim (Bool-cases (p x)) [
          | inl e ↦ absurd (ground arith)
          | inr e ↦ subst (λ x. is_delivered x.status ≡ true) (sym (unchanged_at p claimed x e)) d
        ])
        queue)
