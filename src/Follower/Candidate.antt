-- ===== src/Follower/Candidate.antt =====
-- One candidate block on a linked store (internal/follower/follower.go: processCandidate).
use payd.Prelude.{
  ℕ, zero, suc, ◌+◌, ◌-◌, ◌&&◌, ◌≡◌, refl, sym, ap, ◌∙◌, subst, find, Option, none, some, arith,
  is_none, Result, ok, err, Bool-cases, Option-cases, Result-cases, inl, inr, ◌==◌, ltb,
}
use payd.Schema.{Time, Database, BlockRecord, Crawler}
use payd.Chain.{RewindResult, block_at, rewind_chain, clear_reorg_suspicion}
use payd.Chain.Rewind.{rewind_chain-IsRewound}
use payd.Follower.{
  ChainBlock, Worker, FollowerConfig, Reader, Run, clear_suspicion, without_suspicion,
  is_same_suspicion, is_too_early, commit, rewound, judge_replacement, check_replacement,
  confirm_mismatch, recover_from, recovered, after_check, processed, process_after, process_next,
  process_candidate,
}
use payd.Follower.Linked.{
  IsChain, IsParent, PreparesPayments, cut-IsLinked, commit-IsChain, clear_suspicion-IsChain,
  suspect-IsChain,
}

-- The worker that a run ends with.
abbrev Ends : {A : Type 0} → Run A → Type 0
Ends r = IsChain r.1.store

cut-IsChain :
    (a : ℕ) (cfg : FollowerConfig) (now : Time) (db : Database) {x : RewindResult × Database}
    → rewind_chain a cfg.events now db ≡ ok x
    → IsChain db
    → IsChain x.1
cut-IsChain a cfg now db e h =
    let c = rewind_chain-IsRewound a cfg.events now db e h.contiguous in
    elim (Option-cases db.crawler) [
      | inl none_there ↦
          let empty = rw none_there at h.contiguous in
          let missing : some c.block ≡ none =
            sym c.ancestor_stored ∙ ap (find (λ b. b.height == a)) empty in
          absurd (ground arith)
      | inr (k, there) ↦
          let low = rw there at h.contiguous in
          record {
            contiguous = c.contiguous;
            linked = rw c.kept (cut-IsLinked a low.0 (k.last_height + 1) db.blocks low.1 h.linked);
          }
    ]

rewound-IsChain :
    (w : Worker) (r : Result (RewindResult × Database))
    → IsChain w.store
    → ((x : RewindResult × Database) → r ≡ ok x → IsChain x.1)
    → Ends (rewound w r)
rewound-IsChain w (ok x) h new = new x refl
rewound-IsChain w (err e) h new = h

recover_from-IsChain :
    (cfg : FollowerConfig) (reader : Reader) (now : Time) (last height : ℕ) (r : ChainBlock)
    (w : Worker)
    → IsChain w.store
    → Ends (recover_from cfg reader now last height r w)
unfolding recover_from
recover_from-IsChain cfg reader now last zero r w h = elim (Option-cases (block_at w.store 0)) [
  | inl e ↦ rw (e, recover_from) h
  | inr (s, e) ↦ elim (Bool-cases (r.id == s.id)) [
    | inl y ↦
        rw (e, y, recover_from)
          (rewound-IsChain w (rewind_chain 0 cfg.events now w.store) h
            (λ x f. cut-IsChain 0 cfg now w.store f h))
    | inr y ↦ rw (e, y, recover_from) h
  ]
]
recover_from-IsChain cfg reader now last (suc below) r w h =
    elim (Option-cases (block_at w.store (suc below))) [
      | inl e ↦ rw (e, recover_from) h
      | inr (s, e) ↦ elim (Bool-cases (r.id == s.id)) [
        | inl y ↦
            rw (e, y, recover_from)
              (rewound-IsChain w (rewind_chain (suc below) cfg.events now w.store) h
                (λ x f. cut-IsChain (suc below) cfg now w.store f h))
        | inr y ↦ elim (Bool-cases (ltb cfg.reorg_depth (last - suc below + 1))) [
          | inl deep ↦ rw (e, y, deep, recover_from) h
          | inr near ↦ elim (Result-cases (reader below)) [
            | inr (x, f) ↦ rw (e, y, near, f, recover_from) h
            | inl (next, f) ↦ elim (Bool-cases (next.height == below)) [
              | inr z ↦ rw (e, y, near, f, z, recover_from) h
              | inl z ↦
                  rw (e, y, near, f, z, recover_from)
                    (recover_from-IsChain cfg reader now last below next w h)
            ]
          ]
        ]
      ]
    ]

recovered-IsChain : (r : Run (Unit {0})) → Ends r → Ends (recovered r)
recovered-IsChain (ok u, w) h = clear_suspicion-IsChain w h
recovered-IsChain (err e, w) h = h

processed-IsChain : (r : Run (Unit {0})) → Ends r → Ends (processed r)
processed-IsChain (ok u, w) h = h
processed-IsChain (err e, w) h = h

judge_replacement-IsChain :
    (cfg : FollowerConfig) (now : Time) (previous : BlockRecord) (r : ChainBlock) (w : Worker)
    → IsChain w.store
    → Ends (judge_replacement cfg now previous r w)
judge_replacement-IsChain cfg now previous r w h = elim (Bool-cases (r.id == previous.id)) [
  | inl y ↦ rw y (clear_suspicion-IsChain w h)
  | inr n ↦ elim (Bool-cases (is_same_suspicion w.suspicion r)) [
    | inr y ↦ rw (n, y) (suspect-IsChain now r w h)
    | inl y ↦ elim (Bool-cases (is_too_early w.suspicion cfg.poll_interval now)) [
      | inl z ↦ rw (n, y, z) h
      | inr z ↦ rw (n, y, z) h
    ]
  ]
]

check_replacement-IsChain :
    (cfg : FollowerConfig) (now : Time) (previous : BlockRecord) (r : Result ChainBlock)
    (w : Worker)
    → IsChain w.store
    → Ends (check_replacement cfg now previous r w)
check_replacement-IsChain cfg now previous (err e) w h = h
check_replacement-IsChain cfg now previous (ok r) w h =
    elim (Bool-cases (r.height == previous.height)) [
      | inl y ↦ rw y (
          judge_replacement-IsChain cfg now previous r (record w { suspected = w.suspected + 1 }) h)
      | inr y ↦ rw y h
    ]

after_check-IsChain :
    (cfg : FollowerConfig) (reader : Reader) (now : Time) (previous : BlockRecord)
    (r : Run (Option ChainBlock))
    → Ends r
    → Ends (after_check cfg reader now previous r)
after_check-IsChain cfg reader now previous (err e, w) h = h
after_check-IsChain cfg reader now previous (ok none, w) h = h
after_check-IsChain cfg reader now previous (ok (some r), w) h =
    recovered-IsChain (recover_from cfg reader now previous.height previous.height r w)
      (recover_from-IsChain cfg reader now previous.height previous.height r w h)

pub without_suspicion-IsChain :
    (w : Worker) (c : Crawler) (parent_id : ℕ)
    → w.store.crawler ≡ some c
    → IsParent (some c) w.store.blocks parent_id
    → IsChain w.store
    → IsChain (without_suspicion w).store
      × IsParent (without_suspicion w).store.crawler (without_suspicion w).store.blocks parent_id
unfolding clear_suspicion clear_reorg_suspicion
without_suspicion-IsChain w c parent_id at_c parent h =
    elim (Bool-cases (w.suspicion_db_known && is_none w.suspicion)) [
      | inl y ↦ rw y (h, rw at_c parent)
      | inr y ↦ rw y (clear_suspicion-IsChain w h, rw at_c parent)
    ]

process_after-IsChain :
    (cfg : FollowerConfig) (reader : Reader) (now : Time) (block : ChainBlock) (w : Worker)
    (c : Crawler) (previous : Option BlockRecord)
    → PreparesPayments cfg
    → w.store.crawler ≡ some c
    → block_at w.store c.last_height ≡ previous
    → IsChain w.store
    → Ends (process_after cfg reader now block previous w)
unfolding confirm_mismatch
process_after-IsChain cfg reader now block w c none keeps at_c found h = h
process_after-IsChain cfg reader now block w c (some p) keeps at_c found h =
    elim (Bool-cases (block.parent_id == p.id)) [
      | inl y ↦
          let (chain, parent) =
            without_suspicion-IsChain w c block.parent_id at_c (p, found, ground arith) h in
          rw y (
            processed-IsChain (commit cfg now block (without_suspicion w))
              (commit-IsChain cfg now block (without_suspicion w) keeps parent chain))
      | inr y ↦ rw y (
          after_check-IsChain cfg reader now p (confirm_mismatch cfg reader now p w)
            (check_replacement-IsChain cfg now p (reader p.height) w h))
    ]

process_next-IsChain :
    (cfg : FollowerConfig) (reader : Reader) (now : Time) (block : ChainBlock) (w : Worker)
    (c : Option Crawler)
    → PreparesPayments cfg
    → w.store.crawler ≡ c
    → IsChain w.store
    → Ends (process_next cfg reader now block c w)
process_next-IsChain cfg reader now block w none keeps e h =
    processed-IsChain (commit cfg now block w) (
      commit-IsChain cfg now block w keeps
        (subst (λ c. IsParent c w.store.blocks block.parent_id) (sym e) tt) h)
process_next-IsChain cfg reader now block w (some c) keeps e h =
    elim (Bool-cases (block.height == c.last_height + 1)) [
      | inl y ↦ rw y (
          process_after-IsChain cfg reader now block w c (block_at w.store c.last_height) keeps e
            refl h)
      | inr y ↦ rw y h
    ]

-- Whatever the node answers, and whether the step succeeds or fails, a candidate block leaves a
-- store whose blocks are an unbroken run that ends at the cursor, each the parent of the next, where
-- the store was such a one before and the writes of the block's payments leave the chain, the
-- addresses and the withdrawals alone.
pub process_candidate-IsChain :
    (cfg : FollowerConfig) (reader : Reader) (now : Time) (block : ChainBlock) (w : Worker)
    → PreparesPayments cfg
    → IsChain w.store
    → IsChain (process_candidate cfg reader now block w).1.store
unfolding process_candidate
process_candidate-IsChain cfg reader now block w keeps h =
    process_next-IsChain cfg reader now block w w.store.crawler keeps refl h
