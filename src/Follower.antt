-- ===== src/Follower.antt =====
-- The follower's treatment of one candidate block (internal/follower/follower.go: processCandidate,
-- confirmMismatch, clearReorgSuspicion, recoverReorg, halt, commit). The node is an argument, as a
-- function from a height to the decoded answer: of one candidate each height is asked at most once.
-- So is the preparation of a block's payments.
pub mod Recovery
pub mod Linked
pub mod Candidate
pub mod Tick
use payd.Prelude.{
  ℕ, zero, suc, ◌+◌, ◌-◌, Bool, true, false, not, ◌&&◌, ◌||◌, Option, none, some, leb, ltb, ◌==◌,
  if◌then◌else◌, is_none, Result, ok, err, no_rows, bad_block, reorg_depth_exceeded,
}
use payd.Schema.{Time, unix, Database, BlockRecord, Crawler, EventConfig}
use payd.Chain.{
  BlockApply, RewindResult, block_at, commit_block, rewind_chain, set_reorg_suspicion,
  clear_reorg_suspicion,
}

-- `Block`, as the node sends it.
pub record ChainBlock : Type 0 where
  pub height : ℕ
  pub id : ℕ
  pub parent_id : ℕ
  pub timestamp : ℕ
  pub tx_count : ℕ

-- `reorgSuspicion`
pub record Suspicion : Type 0 where
  pub height : ℕ
  pub replacement_id : ℕ
  pub first_seen : Time

-- The worker's own state, beside the store.
pub record Worker : Type 0 where
  pub store : Database
  pub suspicion : Option Suspicion
  pub suspicion_db_known : Bool
  pub is_halted : Bool
  pub suspected : ℕ
  pub confirmed : ℕ
  pub stale_reads : ℕ
  pub latest_height : ℕ
  pub latest_timestamp : ℕ

pub record FollowerConfig : Type 0 where
  pub poll_interval : Time
  pub reorg_depth : ℕ
  pub events : EventConfig
  pub prepare : ChainBlock → Result BlockApply

abbrev pub Reader : Type 0
Reader = ℕ → Result ChainBlock

-- A step ends with a value or an error, and in both cases with the worker's state.
abbrev pub Run : Type 0 → Type 0
Run A = Result A × Worker

abbrev pub stored : Worker → Result Database → Run (Unit {0})
stored w (ok db) = (ok tt, record w { store = db })
stored w (err e) = (err e, w)

-- `halt`
abbrev pub halt : Worker → Run (Unit {0})
halt w = (err reorg_depth_exceeded, record w { is_halted = true })

-- `clearReorgSuspicion`
unfoldable pub clear_suspicion : Worker → Worker
clear_suspicion w = record w {
  store = clear_reorg_suspicion w.store;
  suspicion = none;
  suspicion_db_known = true;
}

abbrev pub record_of : ChainBlock → (now : Time) → BlockRecord
record_of b now = record {
  height = b.height;
  id = b.id;
  parent_id = b.parent_id;
  timestamp = b.timestamp;
  tx_count = b.tx_count;
  processed_at = unix now;
}

abbrev pub commit_prepared :
    FollowerConfig → (now : Time) → ChainBlock → Worker → Result BlockApply → Run (Unit {0})
commit_prepared cfg now block w (err e) = (err e, w)
commit_prepared cfg now block w (ok apply) =
    stored w (commit_block (record_of block now) cfg.reorg_depth apply now w.store)

-- `commit`
unfoldable pub commit : FollowerConfig → (now : Time) → ChainBlock → Worker → Run (Unit {0})
commit cfg now block w = commit_prepared cfg now block w (cfg.prepare block)

abbrev pub is_same_suspicion : Option Suspicion → ChainBlock → Bool
is_same_suspicion none r = false
is_same_suspicion (some s) r = s.height == r.height && s.replacement_id == r.id

-- `now.Sub(firstSeen) < pollInterval`
abbrev pub is_too_early : Option Suspicion → (poll now : Time) → Bool
is_too_early none poll now = false
is_too_early (some s) poll now = ltb now (s.first_seen + poll)

abbrev pub suspect : (now : Time) → ChainBlock → Worker → Worker
suspect now r w = record w {
  store = set_reorg_suspicion r.height w.store;
  suspicion = some (record { height = r.height; replacement_id = r.id; first_seen = now });
  suspicion_db_known = true;
}

-- The answer for the height of the stored block: no reorganisation, one that is suspected, or one
-- that has been seen twice, at least one poll apart.
abbrev pub judge_replacement :
    FollowerConfig → (now : Time) → BlockRecord → ChainBlock → Worker → Run (Option ChainBlock)
judge_replacement cfg now previous r w =
    if r.id == previous.id
    then (ok none, clear_suspicion w)
    else if not (is_same_suspicion w.suspicion r)
    then (ok none, suspect now r w)
    else if is_too_early w.suspicion cfg.poll_interval now
    then (ok none, w)
    else (ok (some r), record w { confirmed = w.confirmed + 1 })

abbrev pub check_replacement :
    FollowerConfig
    → (now : Time) → BlockRecord
    → Result ChainBlock
    → Worker
    → Run (Option ChainBlock)
check_replacement cfg now previous (err e) w = (err e, w)
check_replacement cfg now previous (ok r) w =
    if r.height == previous.height
    then judge_replacement cfg now previous r (record w { suspected = w.suspected + 1 })
    else (err bad_block, w)

-- `confirmMismatch`
unfoldable pub confirm_mismatch :
    FollowerConfig → Reader → (now : Time) → BlockRecord → Worker → Run (Option ChainBlock)
confirm_mismatch cfg reader now previous w =
    check_replacement cfg now previous (reader previous.height) w

abbrev pub rewound : Worker → Result (RewindResult × Database) → Run (Unit {0})
rewound w (ok r) = (ok tt, record w { store = r.1 })
rewound w (err e) = (err e, w)

-- `recoverReorg`, from a height down; `last` is where the walk began.
unfoldable pub recover_from :
    FollowerConfig
    → Reader
    → (now : Time) → (last height : ℕ) → ChainBlock
    → Worker
    → Run (Unit {0})
recover_from cfg reader now last zero replacement w = elim (block_at w.store zero) [
  | none ↦ halt w
  | some s ↦
      if replacement.id == s.id
      then rewound w (rewind_chain zero cfg.events now w.store)
      else halt w
]
recover_from cfg reader now last (suc below) replacement w = elim (block_at w.store (suc below)) [
  | none ↦ halt w
  | some s ↦
      if replacement.id == s.id
      then rewound w (rewind_chain (suc below) cfg.events now w.store)
      else if ltb cfg.reorg_depth (last - suc below + 1)
      then halt w
      else elim (reader below) [
        | err e ↦ (err e, w)
        | ok r ↦
            if r.height == below
            then recover_from cfg reader now last below r w
            else (err bad_block, w)
      ]
]

-- After a recovery the suspicion is cleared and the tick goes on from the new cursor.
abbrev pub recovered : Run (Unit {0}) → Run Bool
recovered (ok u, w) = (ok true, clear_suspicion w)
recovered (err e, w) = (err e, w)

abbrev pub after_check :
    FollowerConfig → Reader → (now : Time) → BlockRecord → Run (Option ChainBlock) → Run Bool
after_check cfg reader now previous (err e, w) = (err e, w)
after_check cfg reader now previous (ok none, w) = (ok false, w)
after_check cfg reader now previous (ok (some r), w) =
    recovered (recover_from cfg reader now previous.height previous.height r w)

abbrev pub processed : Run (Unit {0}) → Run Bool
processed (ok u, w) = (ok true, w)
processed (err e, w) = (err e, w)

abbrev pub without_suspicion : Worker → Worker
without_suspicion w = if w.suspicion_db_known && is_none w.suspicion then w else clear_suspicion w

abbrev pub process_after :
    FollowerConfig → Reader → (now : Time) → ChainBlock → Option BlockRecord → Worker → Run Bool
process_after cfg reader now block none w = (err no_rows, w)
process_after cfg reader now block (some previous) w =
    if block.parent_id == previous.id
    then processed (commit cfg now block (without_suspicion w))
    else after_check cfg reader now previous (confirm_mismatch cfg reader now previous w)

abbrev pub process_next :
    FollowerConfig → Reader → (now : Time) → ChainBlock → Option Crawler → Worker → Run Bool
process_next cfg reader now block none w = processed (commit cfg now block w)
process_next cfg reader now block (some c) w =
    if block.height == c.last_height + 1
    then process_after cfg reader now block (block_at w.store c.last_height) w
    else (err bad_block, w)

-- `processCandidate`: whether the tick goes on.
unfoldable pub process_candidate :
    FollowerConfig → Reader → (now : Time) → ChainBlock → Worker → Run Bool
process_candidate cfg reader now block w = process_next cfg reader now block w.store.crawler w
