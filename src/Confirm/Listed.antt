-- ===== src/Confirm/Listed.antt =====
-- Updates by a list of identifiers that a query has read are one decision for each row.
use payd.Prelude.{
  ℕ, Bool, true, false, ◌≡◌, refl, sym, ap, ◌∙◌, subst, List, [], ◌∷◌, map, none, some, arith, find,
  select, exists, All, Bool-cases, inl, inr, ◌==◌, if◌then◌else◌,
}
use payd.Schema.{Payment}
use payd.Confirm.{withdrawn, promoted, is_one_of, reviewed, status_read}

-- No two payments have one identifier.
abbrev pub HasDistinctIds : List Payment → Type 0
HasDistinctIds [] = Unit
HasDistinctIds (p ∷ ps) = (exists (λ q. q.id == p.id) ps ≡ false) × HasDistinctIds ps

one_of_none :
    (q : Payment → Bool) (ps : List Payment) (x : Payment)
    → exists (λ r. r.id == x.id) ps ≡ false
    → is_one_of (select q ps) x ≡ false
one_of_none q [] x h = refl
one_of_none q (p ∷ ps) x h = elim (Bool-cases (p.id == x.id)) [
  | inl e ↦ let bad = rw e at h in cc
  | inr e ↦
      let rest = one_of_none q ps x (rw e at h) in
      elim (Bool-cases (q p)) [ inl y ↦ rw (y, e) rest | inr y ↦ rw y rest ]
]

listed_tail :
    (x : Payment) (rows ps : List Payment)
    → exists (λ r. r.id == x.id) ps ≡ false
    → All (λ p. is_one_of (x ∷ rows) p ≡ is_one_of rows p) ps
listed_tail x rows [] h = tt
listed_tail x rows (p ∷ ps) h = elim (Bool-cases (p.id == x.id)) [
  | inl e ↦ let bad = rw e at h in cc
  | inr e ↦
      let other : (x.id == p.id) ≡ false = ground arith in
      (rw other refl, listed_tail x rows ps (rw e at h))
]

All-∙ :
    (a b c : Payment → Bool) (ps : List Payment)
    → All (λ p. a p ≡ b p) ps
    → All (λ p. b p ≡ c p) ps
    → All (λ p. a p ≡ c p) ps
All-∙ a b c [] h k = tt
All-∙ a b c (p ∷ ps) h k = (h.0 ∙ k.0, All-∙ a b c ps h.1 k.1)

-- The rows with the identifiers of those that a query found are those that it found.
pub listed_iff :
    (q : Payment → Bool) (ps : List Payment)
    → HasDistinctIds ps
    → All (λ p. is_one_of (select q ps) p ≡ q p) ps
listed_iff q [] h = tt
listed_iff q (p ∷ ps) h = elim (Bool-cases (q p)) [
  | inl e ↦
      let self : (p.id == p.id) ≡ true = ground arith in
      let picked : select q (p ∷ ps) ≡ p ∷ select q ps = rw e refl in
      let head : is_one_of (p ∷ select q ps) p ≡ q p = rw (self, e) refl in
      let tail =
        All-∙ (is_one_of (p ∷ select q ps)) (is_one_of (select q ps)) q ps
          (listed_tail p (select q ps) ps h.0) (listed_iff q ps h.1) in
      subst (λ rows. All (λ p. is_one_of rows p ≡ q p) (p ∷ ps)) (sym picked) (head, tail)
  | inr e ↦
      let skipped : select q (p ∷ ps) ≡ select q ps = rw e refl in
      let head : is_one_of (select q ps) p ≡ q p = one_of_none q ps p h.0 ∙ sym e in
      subst (λ rows. All (λ p. is_one_of rows p ≡ q p) (p ∷ ps)) (sym skipped)
        (head, listed_iff q ps h.1)
]

cons_eq : {x y : Payment} {xs ys : List Payment} → x ≡ y → xs ≡ ys → x ∷ xs ≡ y ∷ ys
cons_eq {y = y} {xs = xs} h k = ap (λ z. z ∷ xs) h ∙ ap (λ zs. y ∷ zs) k

found_tail :
    (x : Payment) (rows ps : List Payment)
    → exists (λ r. r.id == x.id) ps ≡ false
    → All (λ p. find (λ r. r.id == p.id) (x ∷ rows) ≡ find (λ r. r.id == p.id) rows) ps
found_tail x rows [] h = tt
found_tail x rows (p ∷ ps) h = elim (Bool-cases (p.id == x.id)) [
  | inl e ↦ let bad = rw e at h in cc
  | inr e ↦
      let other : (x.id == p.id) ≡ false = ground arith in
      (rw other refl, found_tail x rows ps (rw e at h))
]

-- A payment that a query found is what its identifier leads to among what was found.
abbrev pub Leads : (Payment → Bool) → List Payment → Payment → Type 0
Leads q rows p = q p ≡ true → find (λ r. r.id == p.id) rows ≡ some p

Leads-tail :
    (q : Payment → Bool) (x : Payment) (rows ps : List Payment)
    → All (λ p. find (λ r. r.id == p.id) (x ∷ rows) ≡ find (λ r. r.id == p.id) rows) ps
    → All (Leads q rows) ps
    → All (Leads q (x ∷ rows)) ps
Leads-tail q x rows [] h k = tt
Leads-tail q x rows (p ∷ ps) h k = ((λ y. h.0 ∙ k.0 y), Leads-tail q x rows ps h.1 k.1)

pub listed-Leads :
    (q : Payment → Bool) (ps : List Payment) → HasDistinctIds ps → All (Leads q (select q ps)) ps
listed-Leads q [] h = tt
listed-Leads q (p ∷ ps) h = elim (Bool-cases (q p)) [
  | inl e ↦
      let self : (p.id == p.id) ≡ true = ground arith in
      let picked : select q (p ∷ ps) ≡ p ∷ select q ps = rw e refl in
      let rest =
        Leads-tail q p (select q ps) ps (found_tail p (select q ps) ps h.0)
          (listed-Leads q ps h.1) in
      subst (λ rows. All (Leads q rows) (p ∷ ps)) (sym picked) ((λ y. rw self refl), rest)
  | inr e ↦
      let skipped : select q (p ∷ ps) ≡ select q ps = rw e refl in
      subst (λ rows. All (Leads q rows) (p ∷ ps)) (sym skipped)
        ((λ y. let bad = rw e at y in cc), listed-Leads q ps h.1)
]

-- The decision for one payment.
abbrev pub review : (stamp : ℕ) (mismatched promotable : Payment → Bool) → Payment → Payment
review stamp mismatched promotable p =
    let p' = if mismatched p then withdrawn p else p in
    if promotable p then promoted p.status stamp p' else p'

-- For the payment itself, or as the first update has left it.
reviewed_row :
    (stamp : ℕ) (q : Payment → Bool) (qs : List Payment) (p p' : Payment)
    → is_one_of qs p' ≡ q p
    → (q p ≡ true → find (λ r. r.id == p'.id) qs ≡ some p)
    → (if is_one_of qs p' then promoted (status_read qs p') stamp p' else p')
      ≡ (if q p then promoted p.status stamp p' else p')
reviewed_row stamp q qs p p' one leads = elim (Bool-cases (q p)) [
  | inl e ↦
      let read : status_read qs p' ≡ p.status =
        ap (λ o. elim o [ none ↦ p'.status | some r ↦ r.status ]) (leads e) in
      rw (one, e) (ap (λ status. promoted status stamp p') read)
  | inr e ↦ rw (one, e) refl
]

pub reviewed_rows :
    (stamp : ℕ) (m q : Payment → Bool) (ms qs ps : List Payment)
    → All (λ p. is_one_of ms p ≡ m p) ps
    → All (λ p. is_one_of qs p ≡ q p) ps
    → All (Leads q qs) ps
    → reviewed stamp ms qs ps ≡ map (review stamp m q) ps
reviewed_rows stamp m q ms qs [] h k l = refl
reviewed_rows stamp m q ms qs (p ∷ ps) h k l = elim (Bool-cases (m p)) [
  | inl e ↦
      rw (h.0, e)
        (cons_eq (reviewed_row stamp q qs p (withdrawn p) k.0 l.0)
          (reviewed_rows stamp m q ms qs ps h.1 k.1 l.1))
  | inr e ↦
      rw (h.0, e)
        (cons_eq (reviewed_row stamp q qs p p k.0 l.0)
          (reviewed_rows stamp m q ms qs ps h.1 k.1 l.1))
]
