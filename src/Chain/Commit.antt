-- ===== src/Chain/Commit.antt =====
-- The stored blocks stay an unbroken run up to the cursor when a block is committed.
use payd.Prelude.{
  ℕ, ◌+◌, ◌≤◌, true, false, not, ◌≡◌, refl, sym, ap, ◌∙◌, subst, List, [], ◌∷◌, ◌++◌, Option, none,
  some, arith, select, exists, find_append, find-none, find-select, All-selected, All, ok,
  >>=-eq-ok, guard, guard-eq-ok, ok-injective, Bool-cases, inl, inr, ltb, ◌==◌, bad_argument,
  not_next_height, constraint,
}
use payd.Schema.{Time, unix, Database, BlockRecord, Crawler}
use payd.Chain.{BlockApply, run_apply, is_next, advance, is_retained, commit_block, block_at}
use payd.Chain.Links.{SameChain}

-- One block for each height from `from` to below `to`.
abbrev pub IsRun : ℕ → List BlockRecord → ℕ → Type 0
IsRun from [] to = from ≡ to
IsRun from (b ∷ bs) to = (b.height ≡ from) × IsRun (from + 1) bs to

-- Nothing is stored before the first block, and then a run that ends at the cursor.
abbrev pub IsContiguous : Option Crawler → List BlockRecord → Type 0
IsContiguous none blocks = blocks ≡ []
IsContiguous (some c) blocks = (low : ℕ) × IsRun low blocks (c.last_height + 1)

pub append-IsRun :
    (from to : ℕ) (bs : List BlockRecord) (b : BlockRecord)
    → IsRun from bs to
    → b.height ≡ to
    → IsRun from (bs ++ b ∷ []) (to + 1)
append-IsRun from to [] b h e = (e ∙ sym h, ap (λ n. n + 1) h)
append-IsRun from to (x ∷ bs) b h e = (h.0, append-IsRun (from + 1) to bs b h.1 e)

pub all_retained :
    (height depth from to : ℕ) (bs : List BlockRecord)
    → height ≤ from + depth
    → IsRun from bs to
    → select (is_retained height depth) bs ≡ bs
all_retained height depth from to [] le h = refl
all_retained height depth from to (b ∷ bs) le h =
    let kept : is_retained height depth b ≡ true = let e = h.0 in ground arith in
    rw (kept, all_retained height depth (from + 1) to bs (omega arith) h.1)

-- Pruning drops a prefix of the run.
retained-IsRun :
    (height depth from to : ℕ) (bs : List BlockRecord)
    → IsRun from bs to
    → (low : ℕ) × IsRun low (select (is_retained height depth) bs) to
retained-IsRun height depth from to [] h = (from, h)
retained-IsRun height depth from to (b ∷ bs) h = elim (Bool-cases (is_retained height depth b)) [
  | inl e ↦
      let at_b = h.0 in
      let le : height ≤ from + 1 + depth = ground arith in
      rw (e, all_retained height depth (from + 1) to bs le h.1) (from, h)
  | inr e ↦ rw e (retained-IsRun height depth (from + 1) to bs h.1)
]

committed-IsContiguous :
    (c : Option Crawler) (bs : List BlockRecord) (block : BlockRecord) (depth : ℕ) (moved : Crawler)
    → IsContiguous c bs
    → is_next c block.height ≡ true
    → moved.last_height ≡ block.height
    → IsContiguous (some moved) (select (is_retained block.height depth) (bs ++ block ∷ []))
committed-IsContiguous none bs block depth moved h next e =
    retained-IsRun block.height depth block.height (moved.last_height + 1) (bs ++ block ∷ [])
      (rw h (refl, ap (λ n. n + 1) (sym e)))
committed-IsContiguous (some c) bs block depth moved (low, h) next e =
    let at_next : block.height ≡ c.last_height + 1 = ground arith in
    let run = append-IsRun low (c.last_height + 1) bs block h at_next in
    let end : c.last_height + 1 + 1 ≡ moved.last_height + 1 = omega arith in
    retained-IsRun block.height depth low (moved.last_height + 1) (bs ++ block ∷ [])
      (subst (IsRun low (bs ++ block ∷ [])) end run)

-- A payment write that leaves the chain, the addresses and the withdrawals alone.
abbrev pub KeepsChain : BlockApply → Type 0
KeepsChain apply = (db db' : Database) → run_apply apply db ≡ ok db' → SameChain db db'

advance-height :
    (c d : Option Crawler) (height stamp : ℕ) (moved : Crawler)
    → advance c d height stamp ≡ ok moved
    → moved.last_height ≡ height
advance-height none d height stamp moved h = sym (ap (λ c. c.last_height) (ok-injective h))
advance-height (some c) none height stamp moved h = cc
advance-height (some c) (some d) height stamp moved h =
    elim (Bool-cases (d.last_height == c.last_height)) [
      | inl e ↦ sym (ap (λ c. c.last_height) (ok-injective (rw e at h)))
      | inr e ↦ let bad = rw e at h in cc
    ]

-- What a commit that succeeds guarantees.
pub record IsCommitted (block : BlockRecord) (depth : ℕ) (db db' : Database) : Type 0 where
  pub next : is_next db.crawler block.height ≡ true
  pub moved : Crawler
  pub cursor_moved : db'.crawler ≡ some moved
  pub at_block : moved.last_height ≡ block.height
  pub stored : block_at db' block.height ≡ some block
  pub pruned : All (λ b. is_retained block.height depth b ≡ true) db'.blocks
  pub contiguous : IsContiguous db'.crawler db'.blocks
  pub kept : db'.blocks ≡ select (is_retained block.height depth) (db.blocks ++ block ∷ [])

-- Where the stored blocks are an unbroken run that ends at the cursor and the payment writes leave
-- the chain, the addresses and the withdrawals alone, a commit that succeeds was of the next height;
-- it puts the cursor on the block, stores it after the earlier ones, drops exactly those that are
-- not within the reorganisation depth below it, and leaves an unbroken run that ends at the cursor
-- again.
pub commit_block-IsCommitted :
    (block : BlockRecord) (depth : ℕ) (apply : BlockApply) (now : Time) (db : Database)
    {db' : Database}
    → commit_block block depth apply now db ≡ ok db'
    → KeepsChain apply
    → IsContiguous db.crawler db.blocks
    → IsCommitted block depth db db'
unfolding commit_block
commit_block-IsCommitted block depth apply now db {db'} h keeps run =
    let (_, g1, h1) = >>=-eq-ok (guard (ltb 0 depth) bad_argument) _ h in
    let (_, g2, h2) = >>=-eq-ok (guard (is_next db.crawler block.height) not_next_height) _ h1 in
    let (_, g3, h3) =
      >>=-eq-ok (guard (not (exists (λ b. b.height == block.height) db.blocks)) constraint) _ h2 in
    let stored = record db { blocks = db.blocks ++ block ∷ [] } in
    let (applied, e4, h4) = >>=-eq-ok (run_apply apply stored) _ h3 in
    let (moved, e5, h5) =
      >>=-eq-ok (advance db.crawler applied.crawler block.height (unix now)) _ h4 in
    let next = guard-eq-ok _ not_next_height g2 in
    let new : exists (λ b. b.height == block.height) db.blocks ≡ false =
      let g = guard-eq-ok _ constraint g3 in ground arith in
    let same = keeps stored applied e4 in
    let height = advance-height db.crawler applied.crawler block.height (unix now) moved e5 in
    let p = λ (b : BlockRecord). b.height == block.height in
    let found = find_append p db.blocks block (find-none p db.blocks new) (ground arith) in
    let retains : (b : BlockRecord) → p b ≡ true → is_retained block.height depth b ≡ true =
      λ b y. ground arith in
    subst (IsCommitted block depth db) (ok-injective h5) (record {
      next = next;
      moved = moved;
      cursor_moved = refl;
      at_block = height;
      stored = rw same.0 (
          find-select p (is_retained block.height depth) retains (db.blocks ++ block ∷ []) block
            found);
      pruned = All-selected (is_retained block.height depth) applied.blocks;
      contiguous =
          rw same.0 (committed-IsContiguous db.crawler db.blocks block depth moved run next height);
      kept = ap (select (is_retained block.height depth)) same.0;
    })
