-- ===== src/Follower/Tick/Rounds.antt =====
-- One round of the loop: it leaves no suspicion, and without a suspicion it moves the cursor on.
use payd.Prelude.{
  ◌+◌, true, false, ◌≡◌, refl, sym, ap, ◌∙◌, subst, Option, none, some, arith, is_none, Result, ok,
  err, Bool-cases, Option-cases, inl, inr, ◌==◌,
}
use payd.Schema.{Time, Database, BlockRecord, Crawler}
use payd.Chain.{BlockApply, block_at, commit_block, unsuspected, clear_reorg_suspicion}
use payd.Chain.Commit.{KeepsChain, commit_block-IsCommitted}
use payd.Chain.Rewind.{rewind_chain-IsRewound}
use payd.Follower.{
  ChainBlock, Suspicion, Worker, FollowerConfig, Reader, Run, stored, record_of, clear_suspicion,
  without_suspicion, is_same_suspicion, is_too_early, commit, commit_prepared, check_replacement,
  confirm_mismatch, recover_from, recovered, after_check, processed, process_after, process_next,
  process_candidate,
}
use payd.Follower.Recovery.{recover_from-IsRecovered}
use payd.Follower.Linked.{IsChain, PreparesPayments}
use payd.Follower.Candidate.{without_suspicion-IsChain}

-- A round after which the tick goes on.
abbrev pub IsRound : (w : Worker) (c : Crawler) (w' : Worker) → Type 0
IsRound w c w' =
    (w'.suspicion ≡ none)
    × (c' : Crawler) × (w'.store.crawler ≡ some c')
    × (w.suspicion ≡ none → c'.last_height ≡ c.last_height + 1)

stored-ok :
    (w : Worker) (r : Result Database) {u : Unit {0}} {w' : Worker}
    → stored w r ≡ (ok u, w')
    → (db : Database) × (r ≡ ok db) × (w' ≡ record w { store = db })
stored-ok w (ok db) h = (db, refl, sym (ap (λ r. r.1) h))
stored-ok w (err e) h = absurd (ground arith)

committed :
    (cfg : FollowerConfig) (now : Time) (block : ChainBlock) (w : Worker) (r : Result BlockApply)
    {u : Unit {0}} {w' : Worker}
    → ((apply : BlockApply) → r ≡ ok apply → KeepsChain apply)
    → IsChain w.store
    → commit_prepared cfg now block w r ≡ (ok u, w')
    → (w'.suspicion ≡ w.suspicion)
      × (c : Crawler) × (w'.store.crawler ≡ some c)
      × (c.last_height ≡ block.height)
committed cfg now block w (err e) keeps h run = absurd (ground arith)
committed cfg now block w (ok apply) keeps h run =
    let b = record_of block now in
    let (db, e, moved) = stored-ok w (commit_block b cfg.reorg_depth apply now w.store) run in
    let c =
      commit_block-IsCommitted b cfg.reorg_depth apply now w.store e (keeps apply refl)
        h.contiguous in
    rw moved (refl, c.moved, c.cursor_moved, c.at_block)

processed-ok : (r : Run (Unit {0})) {w' : Worker} → processed r ≡ (ok true, w') → r ≡ (ok tt, w')
processed-ok (ok u, w) h = ap (λ r. (ok tt, r.1)) h
processed-ok (err e, w) h = absurd (ground arith)

recovered-ok :
    (r : Run (Unit {0})) {w' : Worker}
    → recovered r ≡ (ok true, w')
    → (w'' : Worker) × (r ≡ (ok tt, w'')) × (w' ≡ clear_suspicion w'')
recovered-ok (ok u, w) h = (w, refl, sym (ap (λ r. r.1) h))
recovered-ok (err e, w) h = absurd (ground arith)

same_suspected :
    (s : Option Suspicion) (r : ChainBlock) → is_same_suspicion s r ≡ true → is_none s ≡ false
same_suspected none r h = absurd (ground arith)
same_suspected (some s) r h = refl

-- A mismatch is confirmed only where it was suspected before.
confirmed_suspected :
    (cfg : FollowerConfig) (now : Time) (p : BlockRecord) (r : Result ChainBlock) (w : Worker)
    {b : ChainBlock} {w' : Worker}
    → check_replacement cfg now p r w ≡ (ok (some b), w')
    → (is_none w.suspicion ≡ false) × (w'.store ≡ w.store)
confirmed_suspected cfg now p (err e) w h = absurd (ground arith)
confirmed_suspected cfg now p (ok r) w h = elim (Bool-cases (r.height == p.height)) [
  | inr n ↦ let bad = rw n at h in absurd (ground arith)
  | inl y ↦ elim (Bool-cases (r.id == p.id)) [
    | inl same ↦ let bad = rw (y, same) at h in absurd (ground arith)
    | inr other ↦ elim (Bool-cases (is_same_suspicion w.suspicion r)) [
      | inr n ↦ let bad = rw (y, other, n) at h in absurd (ground arith)
      | inl again ↦ elim (Bool-cases (is_too_early w.suspicion cfg.poll_interval now)) [
        | inl early ↦ let bad = rw (y, other, again, early) at h in absurd (ground arith)
        | inr late ↦
            let done = rw (y, other, again, late) at h in
            (same_suspected w.suspicion r again, sym (ap (λ r. r.1.store) done))
      ]
    ]
  ]
]

without_suspicion_lem : (w : Worker) → (without_suspicion w).suspicion ≡ none
unfolding clear_suspicion
without_suspicion_lem w = elim (Option-cases w.suspicion) [
  | inl e ↦ elim (Bool-cases w.suspicion_db_known) [ inl y ↦ rw (y, e) refl | inr y ↦ rw y refl ]
  | inr (s, e) ↦ elim (Bool-cases w.suspicion_db_known) [
    | inl y ↦ rw (y, e) refl
    | inr y ↦ rw y refl
  ]
]

checked-IsRound :
    (cfg : FollowerConfig) (reader : Reader) (now : Time) (p : BlockRecord)
    (r : Run (Option ChainBlock)) (w : Worker) (c : Crawler) {w' : Worker}
    → ((b : ChainBlock) (v : Worker)
        → r ≡ (ok (some b), v)
        → (is_none w.suspicion ≡ false) × (v.store ≡ w.store))
    → IsChain w.store
    → after_check cfg reader now p r ≡ (ok true, w')
    → IsRound w c w'
unfolding clear_suspicion clear_reorg_suspicion
checked-IsRound cfg reader now p (err e, v) w c suspected h run = absurd (ground arith)
checked-IsRound cfg reader now p (ok none, v) w c suspected h run = absurd (ground arith)
checked-IsRound cfg reader now p (ok (some r), v) w c suspected h run =
    let (some_there, same) = suspected r v refl in
    let (u, e, moved) = recovered-ok (recover_from cfg reader now p.height p.height r v) run in
    let found = recover_from-IsRecovered cfg reader now p.height p.height r v e (omega arith) in
    let chain = subst IsChain (sym same) h in
    let cut =
      rewind_chain-IsRewound found.ancestor cfg.events now v.store found.rewinds chain.contiguous in
    rw moved (
      refl,
      unsuspected cut.moved,
      rw cut.cursor_moved refl,
      λ none_there. let bad = rw none_there at some_there in absurd (ground arith),
    )

after-IsRound :
    (cfg : FollowerConfig) (reader : Reader) (now : Time) (b : ChainBlock) (w : Worker)
    (c : Crawler) (previous : Option BlockRecord) {w' : Worker}
    → PreparesPayments cfg
    → IsChain w.store
    → w.store.crawler ≡ some c
    → block_at w.store c.last_height ≡ previous
    → b.height ≡ c.last_height + 1
    → process_after cfg reader now b previous w ≡ (ok true, w')
    → IsRound w c w'
unfolding commit confirm_mismatch
after-IsRound cfg reader now b w c none keeps h at_c found next run = absurd (ground arith)
after-IsRound cfg reader now b w c (some p) keeps h at_c found next run =
    elim (Bool-cases (b.parent_id == p.id)) [
      | inl y ↦
          let calm = without_suspicion w in
          let chain =
            (without_suspicion-IsChain w c b.parent_id at_c (p, found, ground arith) h).0 in
          let ran = processed-ok (commit cfg now b calm) (rw y at run) in
          let (same, c', at_c', height) =
            committed cfg now b calm (cfg.prepare b) (λ apply e. keeps b apply e) chain ran in
          (same ∙ without_suspicion_lem w, c', at_c', λ none_there. height ∙ next)
      | inr y ↦
          checked-IsRound cfg reader now p (confirm_mismatch cfg reader now p w) w c
            (λ r v e. confirmed_suspected cfg now p (reader p.height) w e) h (rw y at run)
    ]

pub process_candidate-IsRound :
    (cfg : FollowerConfig) (reader : Reader) (now : Time) (b : ChainBlock) (w : Worker)
    (c : Crawler) {w' : Worker}
    → PreparesPayments cfg
    → IsChain w.store
    → w.store.crawler ≡ some c
    → process_candidate cfg reader now b w ≡ (ok true, w')
    → IsRound w c w'
unfolding process_candidate
process_candidate-IsRound cfg reader now b w c {w'} keeps h at_c run =
    let ran = subst (λ k. process_next cfg reader now b k w ≡ (ok true, w')) at_c run in
    elim (Bool-cases (b.height == c.last_height + 1)) [
      | inl y ↦
          after-IsRound cfg reader now b w c (block_at w.store c.last_height) keeps h at_c refl
            (ground arith) (rw y at ran)
      | inr y ↦ let bad = rw y at ran in absurd (ground arith)
    ]
