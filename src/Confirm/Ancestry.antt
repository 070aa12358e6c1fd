-- ===== src/Confirm/Ancestry.antt =====
-- The walk along the parent links: each block is the parent of the one before it, and the walk ends
-- only where no parent is stored.
use payd.Prelude.{
  ℕ, zero, suc, ◌+◌, ◌<◌, ◌&&◌, ◌≡◌, refl, sym, ◌∙◌, List, [], ◌∷◌, Option, none, some, arith, find,
  find-holds, Option-cases, inl, inr, ◌==◌, &&_iff, ==_iff,
}
use payd.Schema.{BlockRecord}
use payd.Confirm.{canonical_from, canonical}

-- The stored parent of a block.
abbrev pub parent_of : List BlockRecord → BlockRecord → Option BlockRecord
parent_of blocks b = find (λ a. (a.height + 1 == b.height) && (a.id == b.parent_id)) blocks

-- Each block is followed by its stored parent, and only the last one has none.
abbrev pub IsAncestry : List BlockRecord → List BlockRecord → Type 0
IsAncestry blocks [] = Unit
IsAncestry blocks (b ∷ []) = parent_of blocks b ≡ none
IsAncestry blocks (b ∷ a ∷ rest) = (parent_of blocks b ≡ some a) × IsAncestry blocks (a ∷ rest)

-- The head of a chain.
abbrev pub first_block : List BlockRecord → Option BlockRecord
first_block [] = none
first_block (b ∷ rest) = some b

parent-height :
    (blocks : List BlockRecord) (b a : BlockRecord)
    → parent_of blocks b ≡ some a
    → a.height + 1 ≡ b.height
parent-height blocks b a h =
    let both = find-holds (λ a. (a.height + 1 == b.height) && (a.id == b.parent_id)) blocks a h in
    (==_iff (a.height + 1) b.height).0
      ((&&_iff (a.height + 1 == b.height) (a.id == b.parent_id)).0 both).0

walk-IsAncestry :
    (fuel : ℕ) (blocks : List BlockRecord) (b : BlockRecord)
    → b.height < fuel
    → IsAncestry blocks (canonical_from fuel blocks (some b))
unfolding canonical_from
walk-IsAncestry zero blocks b lt = absurd (omega arith)
walk-IsAncestry (suc zero) blocks b lt = elim (Option-cases (parent_of blocks b)) [
  | inl e ↦ e
  | inr (a, e) ↦ let above = parent-height blocks b a e in absurd (omega arith)
]
walk-IsAncestry (suc (suc fuel)) blocks b lt = elim (Option-cases (parent_of blocks b)) [
  | inl e ↦ rw (e, canonical_from) e
  | inr (a, e) ↦
      let above = parent-height blocks b a e in
      rw (e, canonical_from) (e, walk-IsAncestry (suc fuel) blocks a (omega arith))
]

-- The chain starts at the block that is stored at height `last`, and follows the parents from it.
pub record IsCanonical (blocks : List BlockRecord) (last : ℕ) (chain : List BlockRecord)
    : Type 0 where
  pub starts : first_block chain ≡ find (λ b. b.height == last) blocks
  pub ancestry : IsAncestry blocks chain

walk-starts :
    (fuel : ℕ) (blocks : List BlockRecord) (b : BlockRecord)
    → b.height < fuel
    → first_block (canonical_from fuel blocks (some b)) ≡ some b
unfolding canonical_from
walk-starts zero blocks b lt = absurd (omega arith)
walk-starts (suc fuel) blocks b lt = refl

-- The canonical chain of the stored blocks is empty only where no block is stored at the height of
-- the cursor; otherwise it begins with that block, follows the parent links down without a gap, and breaks off only at a block whose parent is not stored: the bound on the
-- number of rounds is never what ends it.
pub canonical-IsAncestry :
    (blocks : List BlockRecord) (last : ℕ) → IsCanonical blocks last (canonical blocks last)
unfolding canonical
canonical-IsAncestry blocks last = elim (Option-cases (find (λ b. b.height == last) blocks)) [
  | inl e ↦ rw (e, canonical_from) (record { starts = sym e; ancestry = tt })
  | inr (b, e) ↦
      let at_last = (==_iff b.height last).0 (find-holds (λ b. b.height == last) blocks b e) in
      rw e (record {
        starts = walk-starts (suc last) blocks b (omega arith) ∙ sym e;
        ancestry = walk-IsAncestry (suc last) blocks b (omega arith);
      })
]
