-- ===== src/Follower/Linked.antt =====
-- The stored blocks stay linked by their parents, whatever the node answers.
use payd.Prelude.{
  ℕ, ◌+◌, ◌≤◌, ◌<◌, true, false, ◌≡◌, refl, sym, ap, ◌∙◌, List, [], ◌∷◌, ◌++◌, Option, none, some,
  arith, find, select, Result, ok, err, Bool-cases, inl, inr, ◌==◌, leb, map_option,
}
use payd.Schema.{Time, Database, BlockRecord, Crawler}
use payd.Chain.{
  BlockApply, is_retained, is_next, commit_block, unsuspected, suspected_from, set_reorg_suspicion,
  clear_reorg_suspicion,
}
use payd.Chain.Commit.{
  IsRun, IsContiguous, KeepsChain, commit_block-IsCommitted, all_retained, append-IsRun,
}
use payd.Chain.Rewind.{none_kept}
use payd.Follower.{
  ChainBlock, Worker, FollowerConfig, stored, record_of, commit, commit_prepared, clear_suspicion,
  suspect,
}

-- Each block is the parent of the next one.
abbrev pub IsLinked : List BlockRecord → Type 0
IsLinked [] = Unit
IsLinked (b ∷ []) = Unit
IsLinked (b ∷ c ∷ bs) = (c.parent_id ≡ b.id) × IsLinked (c ∷ bs)

tail-IsLinked : (b : BlockRecord) (bs : List BlockRecord) → IsLinked (b ∷ bs) → IsLinked bs
tail-IsLinked b [] h = tt
tail-IsLinked b (c ∷ bs) h = h.1

run_le : (from to : ℕ) (bs : List BlockRecord) → IsRun from bs to → from ≤ to
run_le from to [] h = omega arith
run_le from to (b ∷ bs) h = let le = run_le (from + 1) to bs h.1 in omega arith

append-IsLinked :
    (from last : ℕ) (bs : List BlockRecord) (b p : BlockRecord)
    → IsRun from bs (last + 1)
    → find (λ b. b.height == last) bs ≡ some p
    → b.parent_id ≡ p.id
    → IsLinked bs
    → IsLinked (bs ++ b ∷ [])
append-IsLinked from last [] b p run found e h = tt
append-IsLinked from last (x ∷ []) b p run found e h =
    let same : x ≡ p = ground arith in (e ∙ ap (λ p. p.id) (sym same), tt)
append-IsLinked from last (x ∷ y ∷ bs) b p run found e h =
    let at_x = run.0 in
    let le = run_le (from + 1 + 1) (last + 1) bs run.1.1 in
    let other : (x.height == last) ≡ false = ground arith in
    (h.0, append-IsLinked (from + 1) last (y ∷ bs) b p run.1 (rw other at found) e h.1)

retained-IsLinked :
    (height depth from to : ℕ) (bs : List BlockRecord)
    → IsRun from bs to
    → IsLinked bs
    → IsLinked (select (is_retained height depth) bs)
retained-IsLinked height depth from to [] run h = tt
retained-IsLinked height depth from to (b ∷ bs) run h =
    elim (Bool-cases (is_retained height depth b)) [
      | inl e ↦
          let at_b = run.0 in
          let le : height ≤ from + 1 + depth = ground arith in
          rw (e, all_retained height depth (from + 1) to bs le run.1) h
      | inr e ↦ rw e (retained-IsLinked height depth (from + 1) to bs run.1 (tail-IsLinked b bs h))
    ]

pub cut-IsLinked :
    (ancestor from to : ℕ) (bs : List BlockRecord)
    → IsRun from bs to
    → IsLinked bs
    → IsLinked (select (λ b. leb b.height ancestor) bs)
cut-IsLinked ancestor from to [] run h = tt
cut-IsLinked ancestor from to (b ∷ []) run h = elim (Bool-cases (leb b.height ancestor)) [
  | inl e ↦ rw e tt
  | inr e ↦ rw e tt
]
cut-IsLinked ancestor from to (b ∷ c ∷ bs) run h =
    let rest = cut-IsLinked ancestor (from + 1) to (c ∷ bs) run.1 h.1 in
    elim (Bool-cases (leb b.height ancestor)) [
      | inl e ↦ elim (Bool-cases (leb c.height ancestor)) [
        | inl y ↦ let rest' = rw y at rest in rw (e, y) (h.0, rest')
        | inr y ↦
            let at_c = run.1.0 in
            let above : ancestor < from + 1 + 1 = ground arith in
            rw (e, y, none_kept ancestor (from + 1 + 1) to bs above run.1.1) tt
      ]
      | inr e ↦ rw e rest
    ]

-- A store whose blocks are an unbroken run that ends at the cursor, each the parent of the next.
pub record IsChain (db : Database) : Type 0 where
  pub contiguous : IsContiguous db.crawler db.blocks
  pub linked : IsLinked db.blocks

moved-IsContiguous :
    (f : Crawler → Crawler) (c : Option Crawler) (bs : List BlockRecord)
    → ((c : Crawler) → (f c).last_height ≡ c.last_height)
    → IsContiguous c bs
    → IsContiguous (map_option f c) bs
moved-IsContiguous f none bs same h = h
moved-IsContiguous f (some c) bs same h = (h.0, rw (same c) h.1)

pub clear_suspicion-IsChain : (w : Worker) → IsChain w.store → IsChain (clear_suspicion w).store
unfolding clear_suspicion clear_reorg_suspicion
clear_suspicion-IsChain w h = record {
  contiguous =
      moved-IsContiguous unsuspected w.store.crawler w.store.blocks (λ c. refl) h.contiguous;
  linked = h.linked;
}

pub suspect-IsChain :
    (now : Time) (r : ChainBlock) (w : Worker) → IsChain w.store → IsChain (suspect now r w).store
unfolding set_reorg_suspicion
suspect-IsChain now r w h = record {
  contiguous =
      moved-IsContiguous (suspected_from r.height) w.store.crawler w.store.blocks (λ c. refl)
        h.contiguous;
  linked = h.linked;
}

-- The block of the cursor, where there is one, is the parent.
abbrev pub IsParent : Option Crawler → List BlockRecord → (parent_id : ℕ) → Type 0
IsParent none bs parent_id = Unit
IsParent (some c) bs parent_id =
    (p : BlockRecord) × (find (λ b. b.height == c.last_height) bs ≡ some p) × (parent_id ≡ p.id)

grown-IsLinked :
    (c : Option Crawler) (bs : List BlockRecord) (b : BlockRecord) (depth : ℕ)
    → IsContiguous c bs
    → IsParent c bs b.parent_id
    → is_next c b.height ≡ true
    → IsLinked bs
    → IsLinked (select (is_retained b.height depth) (bs ++ b ∷ []))
grown-IsLinked none bs b depth run parent next h =
    retained-IsLinked b.height depth b.height (b.height + 1) (bs ++ b ∷ []) (rw run (refl, refl))
      (rw run tt)
grown-IsLinked (some c) bs b depth (low, run) (p, found, e) next h =
    retained-IsLinked b.height depth low (c.last_height + 1 + 1) (bs ++ b ∷ [])
      (append-IsRun low (c.last_height + 1) bs b run (ground arith))
      (append-IsLinked low c.last_height bs b p run found e h)

-- The preparation of a block gives writes that leave the chain alone.
abbrev pub PreparesPayments : FollowerConfig → Type 0
PreparesPayments cfg =
    (b : ChainBlock) (apply : BlockApply) → cfg.prepare b ≡ ok apply → KeepsChain apply

stored-IsChain :
    (w : Worker) (r : Result Database)
    → IsChain w.store
    → ((db : Database) → r ≡ ok db → IsChain db)
    → IsChain (stored w r).1.store
stored-IsChain w (ok db) h new = new db refl
stored-IsChain w (err e) h new = h

commit_prepared-IsChain :
    (cfg : FollowerConfig) (now : Time) (block : ChainBlock) (w : Worker) (r : Result BlockApply)
    → ((apply : BlockApply) → r ≡ ok apply → KeepsChain apply)
    → IsParent w.store.crawler w.store.blocks block.parent_id
    → IsChain w.store
    → IsChain (commit_prepared cfg now block w r).1.store
commit_prepared-IsChain cfg now block w (err e) keeps parent h = h
commit_prepared-IsChain cfg now block w (ok apply) keeps parent h =
    let b = record_of block now in
    stored-IsChain w (commit_block b cfg.reorg_depth apply now w.store) h (λ db e.
      let c =
        commit_block-IsCommitted b cfg.reorg_depth apply now w.store e (keeps apply refl)
          h.contiguous in
      record {
        contiguous = c.contiguous;
        linked = rw c.kept (
            grown-IsLinked w.store.crawler w.store.blocks b cfg.reorg_depth h.contiguous parent
              c.next h.linked);
      })

pub commit-IsChain :
    (cfg : FollowerConfig) (now : Time) (block : ChainBlock) (w : Worker)
    → PreparesPayments cfg
    → IsParent w.store.crawler w.store.blocks block.parent_id
    → IsChain w.store
    → IsChain (commit cfg now block w).1.store
unfolding commit
commit-IsChain cfg now block w keeps parent h =
    commit_prepared-IsChain cfg now block w (cfg.prepare block) (λ apply e. keeps block apply e)
      parent h
