-- ===== src/Chain/Rewind.antt =====
-- A rewind to a common ancestor: the blocks and the payments above it.
use payd.Prelude.{
  ℕ, ap, ◌+◌, ◌≤◌, ◌<◌, true, false, ◌≡◌, refl, subst, List, [], ◌∷◌, some, arith, find, select,
  update, count, find-select, All-selected, All, ok, >>=-eq-ok, guard, guard-eq-ok, ok-injective,
  Bool-cases, inl, inr, leb, ltb, ◌==◌, bad_ancestor, no_rows, or_error, or_error-eq-ok,
}
use payd.Schema.{Time, unix, Database, BlockRecord, Crawler, EventConfig}
use payd.Chain.{
  rewind_chain, RewindResult, block_at, is_above, orphan, moved_back, recount_orders, rebalance_all,
  affected_orders, affected_balances,
}
use payd.Chain.Links.{recount_orders-SameBook, rebalance_all-SameBook, SameBook-trans}
use payd.Chain.Commit.{IsRun, IsContiguous}

found_in_run :
    (a from to : ℕ) (bs : List BlockRecord) (b : BlockRecord)
    → IsRun from bs to
    → find (λ b. b.height == a) bs ≡ some b
    → from ≤ a
found_in_run a from to [] b h e = cc
found_in_run a from to (x ∷ bs) b h e = elim (Bool-cases (x.height == a)) [
  | inl y ↦ let q = h.0 in ground arith
  | inr y ↦ let r = found_in_run a (from + 1) to bs b h.1 (rw y at e) in omega arith
]

pub none_kept :
    (ancestor from to : ℕ) (bs : List BlockRecord)
    → ancestor < from
    → IsRun from bs to
    → select (λ b. leb b.height ancestor) bs ≡ []
none_kept ancestor from to [] lt h = refl
none_kept ancestor from to (b ∷ bs) lt h =
    let q = h.0 in
    let drops : leb b.height ancestor ≡ false = ground arith in
    rw (drops, none_kept ancestor (from + 1) to bs (omega arith) h.1)

-- What is kept of a run up to the ancestor ends at it.
cut-IsRun :
    (ancestor from to : ℕ) (bs : List BlockRecord)
    → from ≤ ancestor + 1
    → ancestor + 1 ≤ to
    → IsRun from bs to
    → IsRun from (select (λ b. leb b.height ancestor) bs) (ancestor + 1)
cut-IsRun ancestor from to [] le ge h = omega arith
cut-IsRun ancestor from to (b ∷ bs) le ge h =
    let q = h.0 in
    elim (Bool-cases (leb b.height ancestor)) [
      | inl e ↦
          let le' : from + 1 ≤ ancestor + 1 = ground arith in
          rw e (q, cut-IsRun ancestor (from + 1) to bs le' ge h.1)
      | inr e ↦
          let lt : ancestor < from + 1 = ground arith in
          let end : from ≡ ancestor + 1 = ground arith in
          rw (e, none_kept ancestor (from + 1) to bs lt h.1) end
    ]

-- What a rewind that succeeds guarantees.
pub record IsRewound (ancestor : ℕ) (db : Database) (result : RewindResult) (db' : Database)
    : Type 0 where
  pub moved : Crawler
  pub cursor_moved : db'.crawler ≡ some moved
  pub at_ancestor : moved.last_height ≡ ancestor
  pub block : BlockRecord
  pub ancestor_stored : block_at db ancestor ≡ some block
  pub ancestor_kept : block_at db' ancestor ≡ some block
  pub cut : All (λ b. leb b.height ancestor ≡ true) db'.blocks
  pub contiguous : IsContiguous db'.crawler db'.blocks
  pub kept : db'.blocks ≡ select (λ b. leb b.height ancestor) db.blocks
  pub orphaned : db'.payments ≡ update (is_above ancestor) orphan db.payments
  pub counted : result.orphaned_payments ≡ count (is_above ancestor) db.payments
  pub addresses_kept : db'.addresses ≡ db.addresses

-- On stored blocks that are an unbroken run up to the cursor, a rewind that succeeds puts the cursor
-- on the ancestor, which was stored and is kept, keeps exactly the blocks up to it and leaves an
-- unbroken run that ends at it. Exactly the payments above the ancestor are orphaned, and counted; no other
-- payment and no address changes.
pub rewind_chain-IsRewound :
    (ancestor : ℕ) (events : EventConfig) (now : Time) (db : Database) {result : RewindResult}
    {db' : Database}
    → rewind_chain ancestor events now db ≡ ok (result, db')
    → IsContiguous db.crawler db.blocks
    → IsRewound ancestor db result db'
unfolding rewind_chain
rewind_chain-IsRewound ancestor events now db h run =
    let (c, e1, h1) = >>=-eq-ok (or_error db.crawler no_rows) _ h in
    let (_, g2, h2) = >>=-eq-ok (guard (ltb ancestor c.last_height) bad_ancestor) _ h1 in
    let (b, e3, h3) = >>=-eq-ok (or_error (block_at db ancestor) no_rows) _ h2 in
    let orphaned = record db { payments = update (is_above ancestor) orphan db.payments } in
    let (counted, e4, h4) =
      >>=-eq-ok (recount_orders events now (affected_orders ancestor db) orphaned) _ h3 in
    let (balanced, e5, h5) =
      >>=-eq-ok (rebalance_all (affected_balances ancestor db) counted.1) _ h4 in
    let found = or_error-eq-ok _ no_rows e3 in
    let below = guard-eq-ok _ bad_ancestor g2 in
    let at_c = or_error-eq-ok _ no_rows e1 in
    let same =
      SameBook-trans orphaned counted.1 balanced (recount_orders-SameBook events now _ orphaned e4)
        (rebalance_all-SameBook _ counted.1 e5) in
    let low = rw at_c at run in
    let from_le = found_in_run ancestor low.0 _ db.blocks b low.1 found in
    let cut_run =
      cut-IsRun ancestor low.0 (c.last_height + 1) db.blocks (omega arith) (ground arith) low.1 in
    let p = λ (b : BlockRecord). b.height == ancestor in
    let keeps : (b : BlockRecord) → p b ≡ true → leb b.height ancestor ≡ true =
      λ b y. ground arith in
    subst (λ r. IsRewound ancestor db r.0 r.1) (ok-injective h5)
      (record {
        moved = moved_back ancestor (unix now) c;
        cursor_moved = rw (same.0.1, at_c) refl;
        at_ancestor = refl;
        block = b;
        ancestor_stored = found;
        ancestor_kept =
            rw same.0.0 (find-select p (λ b. leb b.height ancestor) keeps db.blocks b found);
        cut = All-selected (λ b. leb b.height ancestor) balanced.blocks;
        contiguous = rw (same.0.0, same.0.1, at_c) (low.0, cut_run);
        orphaned = same.1;
        counted = refl;
        addresses_kept = same.0.2;
        kept = ap (select (λ b. leb b.height ancestor)) same.0.0;
      })
