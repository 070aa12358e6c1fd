-- ===== src/Confirm/Promotion.antt =====
-- Which payments a pass at a solidified height confirms.
use payd.Prelude.{
  ℕ, ◌+◌, ◌≤◌, ◌<◌, Bool, true, false, ◌||◌, ◌&&◌, ◌⊎◌, inl, inr, ◌≡◌, refl, sym, ap, ◌∙◌, subst,
  List, [], ◌∷◌, Option, none, some, arith, find, find-map_kept, exists-In, In, All, Bool-cases,
  ◌==◌, leb, ltb, if◌then◌else◌, map_option, &&_iff, ok, some-injective, coalesce, is_some, min,
}
use payd.Schema.{
  Time, unix, Database, Payment, PaymentStatus, BlockRecord, Crawler, EventConfig, is_confirmed,
  is_seen,
}
use payd.Confirm.{
  ConfirmationResult, apply_solidified_height, canonical, is_promotable, is_mismatched,
  is_unconfirmed, is_canonical, is_below, is_trusted, lowest, raise_head,
}
use payd.Confirm.Listed.{HasDistinctIds, review}
use payd.Confirm.Depth.{apply_solidified_height-IsReviewed}

either : (a b : Bool) → (a || b) ≡ true → (a ≡ true) ⊎ (b ≡ true)
either a b h = ground arith

review-id : (stamp : ℕ) (m q : Payment → Bool) (p : Payment) → (review stamp m q p).id ≡ p.id
review-id stamp m q p = elim (Bool-cases (m p)) [
  | inl e ↦ elim (Bool-cases (q p)) [ inl y ↦ rw (e, y) refl | inr y ↦ rw (e, y) refl ]
  | inr e ↦ elim (Bool-cases (q p)) [ inl y ↦ rw (e, y) refl | inr y ↦ rw (e, y) refl ]
]

-- Every block that is stored is above the height.
abbrev pub IsBelowAll : ℕ → List BlockRecord → Type 0
IsBelowAll height blocks = All (λ b. height < b.height) blocks

split_lowest :
    (height h : ℕ) (low : Option ℕ)
    → is_some low ≡ true
    → is_below (some (coalesce (map_option (min h) low) h)) height ≡ true
    → (height < h) × (is_below low height ≡ true)
split_lowest height h none some_low below = cc
split_lowest height h (some n) some_low below = (ground arith, ground arith)

below_lowest :
    (height : ℕ) (blocks : List BlockRecord)
    → is_below (lowest blocks) height ≡ true
    → IsBelowAll height blocks
below_lowest height [] h = tt
below_lowest height (b ∷ []) h = (ground arith, tt)
below_lowest height (b ∷ c ∷ bs) h =
    let (first, rest) = split_lowest height b.height (lowest (c ∷ bs)) refl h in
    (first, below_lowest height (c ∷ bs) rest)

-- What a payment has that a pass confirms, at the cursor `head`.
pub record IsDeep (height required : ℕ) (head : Crawler) (blocks : List BlockRecord) (p : Payment)
    : Type 0 where
  pub was_seen : p.status ≡ PaymentStatus.seen
  pub solid : (p.block_height ≤ height) ⊎ (p.block_height ≤ head.solidified_height)
  pub deep : p.block_height + required ≤ head.last_height
  pub trusted :
      (head.reorg_suspected_from ≡ none)
      ⊎ ((from : ℕ) × (head.reorg_suspected_from ≡ some from) × (p.block_height < from))
  pub anchored :
      ((b : BlockRecord) × In b (canonical blocks head.last_height)
        × (b.height ≡ p.block_height)
        × (b.id ≡ p.block_id))
      ⊎ IsBelowAll p.block_height blocks

trusted_cases :
    (suspected : Option ℕ) (height : ℕ)
    → is_trusted suspected height ≡ true
    → (suspected ≡ none) ⊎ ((from : ℕ) × (suspected ≡ some from) × (height < from))
trusted_cases none height h = inl refl
trusted_cases (some from) height h = inr (from, refl, ground arith)

anchored_cases :
    (chain blocks : List BlockRecord) (p : Payment)
    → (is_canonical chain p || is_below (lowest blocks) p.block_height) ≡ true
    → ((b : BlockRecord) × In b chain × (b.height ≡ p.block_height) × (b.id ≡ p.block_id))
      ⊎ IsBelowAll p.block_height blocks
anchored_cases chain blocks p h =
    elim (either (is_canonical chain p) (is_below (lowest blocks) p.block_height) h) [
      | inl c ↦
          let (b, i, e) =
            exists-In (λ b. (b.height == p.block_height) && (b.id == p.block_id)) chain c in
          inl (b, i, ground arith, ground arith)
      | inr l ↦ inr (below_lowest p.block_height blocks l)
    ]

raise_head-heights :
    (height stamp : ℕ) (c : Crawler)
    → let c' = raise_head height stamp c in
      (c'.last_height ≡ c.last_height)
      × (c'.reorg_suspected_from ≡ c.reorg_suspected_from)
      × ((c'.solidified_height ≡ height) ⊎ (c'.solidified_height ≡ c.solidified_height))
raise_head-heights height stamp c = elim (Bool-cases (ltb c.solidified_height height)) [
  | inl e ↦ rw e (refl, refl, inl refl)
  | inr e ↦ rw e (refl, refl, inr refl)
]

seen_of :
    (s : PaymentStatus)
    → is_confirmed (if is_seen s then PaymentStatus.confirmed else s) ≡ true
    → is_confirmed s ≡ false
    → s ≡ PaymentStatus.seen
seen_of PaymentStatus.seen h was = refl
seen_of PaymentStatus.confirmed h was = cc
seen_of PaymentStatus.orphaned h was = cc
seen_of PaymentStatus.unattributed h was = cc

-- Only a payment that is promotable and was seen becomes confirmed.
review-confirms :
    (stamp : ℕ) (m q : Payment → Bool) (p : Payment)
    → is_confirmed (review stamp m q p).status ≡ true
    → is_confirmed p.status ≡ false
    → (q p ≡ true) × (p.status ≡ PaymentStatus.seen)
review-confirms stamp m q p h was = elim (Bool-cases (q p)) [
  | inl e ↦ (e, seen_of p.status (rw e at h) was)
  | inr e ↦ elim (Bool-cases (m p)) [
    | inl y ↦ let bad = rw (e, y) at h in cc
    | inr y ↦ let bad = rw (e, y) at h in cc
  ]
]

IsDeep-promotable :
    (height required stamp : ℕ) (c : Crawler) (blocks : List BlockRecord) (p : Payment)
    → p.status ≡ PaymentStatus.seen
    → let head = raise_head height stamp c in
      is_promotable
          (canonical blocks head.last_height)
          blocks
          head.last_height
          head.solidified_height
          required
          head.reorg_suspected_from
          p
        ≡ true
      → IsDeep height required c blocks p
IsDeep-promotable height required stamp c blocks p seen e =
    let head = raise_head height stamp c in
    let (last_kept, suspected_kept, solid) = raise_head-heights height stamp c in
    let (a, e1) = (&&_iff (is_unconfirmed p) _).0 e in
    let (b, e2) = (&&_iff (leb p.block_height head.solidified_height) _).0 e1 in
    let (d, e3) =
      (&&_iff
          (is_canonical (canonical blocks head.last_height) p
            || is_below (lowest blocks) p.block_height)
          _).0
        e2 in
    let (f, t) =
      (&&_iff (leb (p.block_height + required) head.last_height)
          (is_trusted head.reorg_suspected_from p.block_height)).0
        e3 in
    record {
      was_seen = seen;
      solid = elim solid [ inl y ↦ inl (ground arith) | inr y ↦ inr (ground arith) ];
      deep = ground arith;
      trusted =
          trusted_cases c.reorg_suspected_from p.block_height
            (subst (λ s. is_trusted s p.block_height ≡ true) suspected_kept t);
      anchored =
          subst
            (λ n.
              ((b : BlockRecord) × In b (canonical blocks n)
                × (b.height ≡ p.block_height)
                × (b.id ≡ p.block_id))
              ⊎ IsBelowAll p.block_height blocks)
            last_kept (anchored_cases (canonical blocks head.last_height) blocks p d);
    }

raised_from :
    (height stamp : ℕ) (o : Option Crawler) (head : Crawler)
    → map_option (raise_head height stamp) o ≡ some head
    → (c : Crawler) × (o ≡ some c) × (head ≡ raise_head height stamp c)
raised_from height stamp none head h = cc
raised_from height stamp (some c) head h = (c, refl, sym (some-injective h))

-- Where no two payments have one identifier, a pass at a solidified height that succeeds makes a
-- payment confirmed only if it was confirmed before, or if it was seen and lies at or below the
-- solidified height (that of the call or of the cursor), at least the required number of blocks below
-- the cursor, below any height from which a reorganisation is suspected, and either in a block of the
-- canonical chain or below every stored block.
pub apply_solidified_height_confirms :
    (height required : ℕ) (cooldown : Time) (events : EventConfig) (now : Time) (db : Database)
    (id : ℕ) (p p' : Payment) {result : ConfirmationResult} {db' : Database}
    → apply_solidified_height height required cooldown events now db ≡ ok (result, db')
    → HasDistinctIds db.payments
    → find (λ r. r.id == id) db.payments ≡ some p
    → find (λ r. r.id == id) db'.payments ≡ some p'
    → is_confirmed p'.status ≡ true
    → (is_confirmed p.status ≡ true)
      ⊎ ((head : Crawler) × (db.crawler ≡ some head) × IsDeep height required head db.blocks p)
apply_solidified_height_confirms height required cooldown events now db id p p' {result} {db'} h
      distinct was found confirmed =
    let r = apply_solidified_height-IsReviewed height required cooldown events now db h distinct in
    let m = is_mismatched db.blocks r.head.solidified_height in
    let q =
      is_promotable (canonical db.blocks r.head.last_height) db.blocks r.head.last_height
        r.head.solidified_height required r.head.reorg_suspected_from in
    let kept =
      find-map_kept (λ r. r.id == id) (review (unix now) m q)
        (λ x. ap (λ n. n == id) (review-id (unix now) m q x)) db.payments p was in
    let same : p' ≡ review (unix now) m q p =
      some-injective (sym found ∙ ap (find (λ r. r.id == id)) r.decided ∙ kept) in
    elim (Bool-cases (is_confirmed p.status)) [
      | inl y ↦ inl y
      | inr y ↦
          let (chosen, seen) =
            review-confirms (unix now) m q p
              (subst (λ x. is_confirmed x.status ≡ true) same confirmed) y in
          let (c, stored, raised) = raised_from height (unix now) db.crawler r.head r.head_raised in
          inr (
            c,
            stored,
            IsDeep-promotable height required (unix now) c db.blocks p seen (
                subst
                  (λ k.
                    is_promotable (canonical db.blocks k.last_height) db.blocks k.last_height
                      k.solidified_height required k.reorg_suspected_from p
                    ≡ true)
                  raised chosen),
          )
    ]
