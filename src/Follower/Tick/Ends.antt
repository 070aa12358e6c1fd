-- ===== src/Follower/Tick/Ends.antt =====
-- A tick ends: at most one reorganisation is resolved in it, and each other round moves the cursor on.
use payd.Prelude.{
  ℕ, zero, suc, ◌+◌, ◌≤◌, ◌<◌, Bool, true, false, ◌≡◌, refl, sym, ap, subst, Option, none, some,
  arith, ok, err, Bool-cases, Result-cases, inl, inr, ◌==◌, leb, ltb, halted, if◌then◌else◌,
}
use payd.Schema.{Time, Crawler}
use payd.Follower.{ChainBlock, Worker, FollowerConfig, Run, commit, process_candidate}
use payd.Follower.Linked.{IsChain, IsParent, PreparesPayments, commit-IsChain}
use payd.Follower.Candidate.{process_candidate-IsChain}
use payd.Follower.Tick.{Round, height_of, candidate, catch_up, tick_at, tick}
use payd.Follower.Tick.Rounds.{IsRound, process_candidate-IsRound}

-- A tick that ended, on a store that is linked still.
abbrev pub Ended : Option (Run (Unit {0})) → Type 0
Ended r = (x : Run (Unit {0})) × (r ≡ some x) × IsChain x.1.store

-- One round: it ends the tick, or goes on after a round of the kind above.
round-Ended :
    (cfg : FollowerConfig) (rounds : ℕ → Round) (tip : ChainBlock) (left : ℕ) (w : Worker)
    (c : Crawler)
    → PreparesPayments cfg
    → IsChain w.store
    → w.store.crawler ≡ some c
    → ((w' : Worker)
        → IsChain w'.store
        → IsRound w c w'
        → c.last_height < tip.height
        → Ended (catch_up cfg rounds tip left w'))
    → Ended (catch_up cfg rounds tip (suc left) w)
unfolding catch_up
round-Ended cfg rounds tip left w c keeps h at_c goes_on =
    let at_height : height_of w.store.crawler ≡ c.last_height = ap height_of at_c in
    let reader = (rounds left).reader in
    let now = (rounds left).now in
    elim (Bool-cases (leb tip.height (height_of w.store.crawler))) [
      | inl y ↦ rw (y, catch_up) ((ok tt, w), refl, h)
      | inr y ↦ elim (Result-cases (candidate tip reader (height_of w.store.crawler + 1))) [
        | inr (x, e) ↦ rw (y, e, catch_up) ((err x, w), refl, h)
        | inl (b, e) ↦
            let ran = process_candidate cfg reader now b w in
            let chain = process_candidate-IsChain cfg reader now b w keeps h in
            elim (Result-cases ran.0) [
              | inr (x, f) ↦ rw (y, e, f, catch_up) ((err x, ran.1), refl, chain)
              | inl (true, f) ↦
                  let round =
                    process_candidate-IsRound cfg reader now b w c keeps h at_c
                      (ap (λ r. (r, ran.1)) f) in
                  rw (y, e, f, catch_up) (goes_on ran.1 chain round (ground arith))
              | inl (false, f) ↦ rw (y, e, f, catch_up) ((ok tt, ran.1), refl, chain)
            ]
      ]
    ]

calm-Ended :
    (cfg : FollowerConfig) (rounds : ℕ → Round) (tip : ChainBlock) (left : ℕ) (w : Worker)
    (c : Crawler)
    → PreparesPayments cfg
    → IsChain w.store
    → w.store.crawler ≡ some c
    → w.suspicion ≡ none
    → 1 ≤ left
    → tip.height + 1 ≤ c.last_height + left
    → Ended (catch_up cfg rounds tip left w)
calm-Ended cfg rounds tip zero w c keeps h at_c calm some_left enough = absurd (omega arith)
calm-Ended cfg rounds tip (suc left) w c keeps h at_c calm some_left enough =
    round-Ended cfg rounds tip left w c keeps h at_c (λ w' chain (calm', c', at_c', up) below.
      let higher = up calm in
      calm-Ended cfg rounds tip left w' c' keeps chain at_c' calm' (omega arith) (omega arith))

catch_up-Ended :
    (cfg : FollowerConfig) (rounds : ℕ → Round) (tip : ChainBlock) (bound : ℕ) (w : Worker)
    (c : Crawler)
    → PreparesPayments cfg
    → IsChain w.store
    → w.store.crawler ≡ some c
    → tip.height + 2 ≤ bound
    → Ended (catch_up cfg rounds tip bound w)
catch_up-Ended cfg rounds tip zero w c keeps h at_c enough = absurd (omega arith)
catch_up-Ended cfg rounds tip (suc left) w c keeps h at_c enough =
    round-Ended cfg rounds tip left w c keeps h at_c (λ w' chain (calm', c', at_c', up) below.
      calm-Ended cfg rounds tip left w' c' keeps chain at_c' calm' (omega arith) (omega arith))

tick_at-Ended :
    (cfg : FollowerConfig) (rounds : ℕ → Round) (now : Time) (tip : ChainBlock) (bound : ℕ)
    (c : Option Crawler) (w : Worker)
    → PreparesPayments cfg
    → IsChain w.store
    → w.store.crawler ≡ c
    → tip.height + 2 ≤ bound
    → Ended (tick_at cfg rounds now bound tip c w)
tick_at-Ended cfg rounds now tip bound none w keeps h at_c enough = (
  commit cfg now tip w,
  refl,
  commit-IsChain cfg now tip w keeps
      (subst (λ c. IsParent c w.store.blocks tip.parent_id) (sym at_c) tt) h,
)
tick_at-Ended cfg rounds now tip bound (some c) w keeps h at_c enough =
    elim (Bool-cases (ltb tip.height c.last_height)) [
      | inl y ↦ rw y ((ok tt, record w { stale_reads = w.stale_reads + 1 }), refl, h)
      | inr n ↦ elim (Bool-cases (tip.height == c.last_height)) [
        | inl y ↦ rw (n, y) ((ok tt, w), refl, h)
        | inr y ↦ rw (n, y) (catch_up-Ended cfg rounds tip bound w c keeps h at_c enough)
      ]
    ]

unless-Ended :
    (is_halted : Bool) (w : Worker) (r : Option (Run (Unit {0})))
    → IsChain w.store
    → Ended r
    → Ended (if is_halted then some (err halted, w) else r)
unless-Ended true w r h ended = ((err halted, w), refl, h)
unless-Ended false w r h ended = ended

-- A tick that the node has told its tip ends, whatever the node and the clock say in each round: a
-- bound of the tip's height and two more rounds is enough. Its store is then, also after an error, an unbroken run of blocks up to
-- the cursor, each the parent of the next, where it was such a one before and the writes of a block's
-- payments leave the chain, the addresses and the withdrawals alone.
pub tick-Ended :
    (cfg : FollowerConfig) (rounds : ℕ → Round) (now : Time) (bound : ℕ) (tip : ChainBlock)
    (w : Worker)
    → PreparesPayments cfg
    → IsChain w.store
    → tip.height + 2 ≤ bound
    → Ended (tick cfg rounds now bound (ok tip) w)
unfolding tick
tick-Ended cfg rounds now bound tip w keeps h enough =
    let polled = record w { latest_height = tip.height; latest_timestamp = tip.timestamp } in
    unless-Ended w.is_halted w _ h
      (tick_at-Ended cfg rounds now tip bound polled.store.crawler polled keeps h refl enough)
