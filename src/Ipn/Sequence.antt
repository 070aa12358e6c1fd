-- ===== src/Ipn/Sequence.antt =====
-- The order of delivery: an event is claimed only after those before it in its sequence.
use payd.Prelude.{
  ℕ, Bool, true, false, ◌≡◌, ◌∙◌, sym, ap, subst, some, List, [], ◌∷◌, arith, exists, update, leb,
  &&_iff, Bool-cases, inl, inr, All, In, here, there, ◌≤◌, Option-cases,
}
use payd.Schema.{Time, unix, Outbox, OutboxStatus}
use payd.Ipn.{
  first_due, is_claimable, claim_ipn, claim_found, claimed, same_pair, precedes, blocks,
  is_delivered, is_pending, is_enabled, is_row, is_due_before,
}

first_due-holds :
    (p : Outbox → Bool) (rows : List Outbox) (q : Outbox) → first_due p rows ≡ some q → p q ≡ true
unfolding first_due
first_due-holds p [] q h = cc
first_due-holds p (x ∷ xs) q h = ground (arith, first_due-holds p xs q)

first_due-In :
    (p : Outbox → Bool) (rows : List Outbox) (q : Outbox) → first_due p rows ≡ some q → In q rows
unfolding first_due
first_due-In p [] q h = cc
first_due-In p (x ∷ xs) q h = elim (Bool-cases (p x)) [
  | inr e ↦ there (first_due-In p xs q (rw e at h))
  | inl e ↦ elim (Option-cases (first_due p xs)) [
    | inl n ↦
        let same = rw (e, n) at h in
        let same' : x ≡ q = ground arith in subst (λ z. In z (x ∷ xs)) same' here
    | inr (y, s) ↦ elim (Bool-cases (is_due_before x y)) [
      | inl d ↦
          let same = rw (e, s, d) at h in
          let same' : x ≡ q = ground arith in subst (λ z. In z (x ∷ xs)) same' here
      | inr d ↦
          let same = rw (e, s, d) at h in
          let same' : y ≡ q = ground arith in there (first_due-In p xs q (s ∙ ap some same'))
    ]
  ]
]

none_blocks :
    (q : Outbox) (rows : List Outbox)
    → exists (blocks q) rows ≡ false
    → All (λ r. same_pair r q ≡ true → precedes r q ≡ true → is_delivered r.status ≡ true) rows
none_blocks q [] h = tt
none_blocks q (r ∷ rows) h = elim (Bool-cases (blocks q r)) [
  | inl e ↦ let bad = rw e at h in cc
  | inr e ↦
      let rest = rw e at h in
      ((λ same pre. let d = rw (same, pre) at e in ground arith), none_blocks q rows rest)
]

-- What a claim that finds an event guarantees.
pub record IsClaimed (now : Time) (consumers : List ℕ) (rows : List Outbox) (q : Outbox)
    (rows' : List Outbox) : Type 0 where
  pub before : Outbox
  pub queued : In before rows
  pub taken : q ≡ claimed before
  pub was_pending : before.status ≡ OutboxStatus.pending
  pub was_due : before.next_attempt_at ≤ unix now
  pub enabled : is_enabled consumers before.consumer ≡ true
  pub in_order :
      All
        (λ r. same_pair r before ≡ true → precedes r before ≡ true → is_delivered r.status ≡ true)
        rows
  pub marked : rows' ≡ update (is_row before.id is_pending) claimed rows

claimable_parts :
    (stamp : ℕ) (consumers : List ℕ) (rows : List Outbox) (q : Outbox)
    → is_claimable stamp consumers rows q ≡ true
    → (is_pending q.status ≡ true)
      × (leb q.next_attempt_at stamp ≡ true)
      × (is_enabled consumers q.consumer ≡ true)
      × (exists (blocks q) rows ≡ false)
claimable_parts stamp consumers rows q h =
    let a = (&&_iff _ _).0 h in
    let b = (&&_iff _ _).0 a.1 in let c = (&&_iff _ _).0 b.1 in (a.0, b.0, c.0, ground arith)

-- An event that is claimed was queued, pending and due, its consumer is enabled, and every event of the same
-- sequence and consumer that comes before it has been delivered; it is marked as in flight and its
-- attempt is counted.
pub claim_ipn-IsClaimed :
    (now : Time) (consumers : List ℕ) (rows : List Outbox) {q : Outbox} {rows' : List Outbox}
    → claim_ipn now consumers rows ≡ (some q, rows')
    → IsClaimed now consumers rows q rows'
unfolding claim_ipn
claim_ipn-IsClaimed now consumers rows {q} {rows'} h =
    elim (Option-cases (first_due (is_claimable (unix now) consumers rows) rows)) [
      | inl e ↦ let bad = rw (e, claim_found) at h in absurd (ground arith)
      | inr (x, e) ↦
          let found = rw (e, claim_found) at h in
          let (p, d, c, n) =
            claimable_parts (unix now) consumers rows x (first_due-holds _ rows x e) in
          record {
            before = x;
            queued = first_due-In _ rows x e;
            taken = ground arith;
            was_pending = ground arith;
            was_due = ground arith;
            enabled = c;
            in_order = none_blocks x rows n;
            marked = sym (ap (λ r. r.1) found);
          }
    ]
