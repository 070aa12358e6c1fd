-- ===== src/Follower/Tick.antt =====
-- One poll of the node (internal/follower/follower.go: Tick).
pub mod Rounds
pub mod Ends
use payd.Prelude.{
  ℕ, zero, suc, ◌+◌, true, false, Option, none, some, leb, ltb, ◌==◌, if◌then◌else◌, Result, ok,
  err, bad_block, halted,
}
use payd.Schema.{Time, Crawler}
use payd.Follower.{ChainBlock, Worker, FollowerConfig, Reader, Run, commit, process_candidate}

-- What the node and the clock say in one round of the loop: a round asks each height at most once.
pub record Round : Type 0 where
  pub reader : Reader
  pub now : Time

abbrev pub height_of : Option Crawler → ℕ
height_of none = 0
height_of (some c) = c.last_height

abbrev pub fetched : (next : ℕ) → Result ChainBlock → Result ChainBlock
fetched next (err e) = err e
fetched next (ok b) = if b.height == next then ok b else err bad_block

-- The tip itself, or the block that is missing before it.
abbrev pub candidate : (tip : ChainBlock) → Reader → (next : ℕ) → Result ChainBlock
candidate tip reader next = if next == tip.height then ok tip else fetched next (reader next)

-- The loop of `Tick`, on a bound for its rounds; `none` where the bound is too small.
unfoldable pub catch_up :
    FollowerConfig → (ℕ → Round) → (tip : ChainBlock) → ℕ → Worker → Option (Run (Unit {0}))
catch_up cfg rounds tip zero w = none
catch_up cfg rounds tip (suc left) w = elim (leb tip.height (height_of w.store.crawler)) [
  | true ↦ some (ok tt, w)
  | false ↦ elim (candidate tip (rounds left).reader (height_of w.store.crawler + 1)) [
    | err e ↦ some (err e, w)
    | ok b ↦ elim (process_candidate cfg (rounds left).reader (rounds left).now b w).0 [
      | err e ↦ some (err e, (process_candidate cfg (rounds left).reader (rounds left).now b w).1)
      | ok goes_on ↦ elim goes_on [
        | true ↦
            catch_up cfg rounds tip left
              (process_candidate cfg (rounds left).reader (rounds left).now b w).1
        | false ↦ some (ok tt, (process_candidate cfg (rounds left).reader (rounds left).now b w).1)
      ]
    ]
  ]
]

abbrev pub tick_at :
    FollowerConfig
    → (ℕ → Round)
    → (now : Time) → (bound : ℕ) → (tip : ChainBlock) → Option Crawler
    → Worker
    → Option (Run (Unit {0}))
tick_at cfg rounds now bound tip none w = some (commit cfg now tip w)
tick_at cfg rounds now bound tip (some c) w =
    if ltb tip.height c.last_height
    then some (ok tt, record w { stale_reads = w.stale_reads + 1 })
    else if tip.height == c.last_height
    then some (ok tt, w)
    else catch_up cfg rounds tip bound w

abbrev pub tick_on :
    FollowerConfig
    → (ℕ → Round)
    → (now : Time) → (bound : ℕ) → Result ChainBlock
    → Worker
    → Option (Run (Unit {0}))
tick_on cfg rounds now bound (err e) w = some (err e, w)
tick_on cfg rounds now bound (ok tip) w =
    tick_at cfg rounds now bound tip w.store.crawler
      (record w { latest_height = tip.height; latest_timestamp = tip.timestamp })

-- `Tick`, with the node's answer for the current block.
unfoldable pub tick :
    FollowerConfig
    → (ℕ → Round)
    → (now : Time) → (bound : ℕ) → Result ChainBlock
    → Worker
    → Option (Run (Unit {0}))
tick cfg rounds now bound tip w =
    if w.is_halted then some (err halted, w) else tick_on cfg rounds now bound tip w
