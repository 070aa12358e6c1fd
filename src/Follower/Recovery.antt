-- ===== src/Follower/Recovery.antt =====
-- The search for the common ancestor of the stored chain and the node's.
use payd.Prelude.{
  ℕ, zero, suc, ◌+◌, ◌-◌, ◌≤◌, ◌<◌, true, false, ◌≡◌, refl, sym, ap, subst, some, arith, Result, ok,
  err, ◌⊎◌, inl, inr, Bool-cases, Option-cases, Result-cases, ◌==◌, ltb,
}
use payd.Schema.{Time, Database, BlockRecord}
use payd.Chain.{RewindResult, block_at, rewind_chain}
use payd.Follower.{ChainBlock, Worker, FollowerConfig, Reader, rewound, recover_from}

-- The node has the stored block of this height: in the answer that the walk began with, or in the
-- one for the height itself.
abbrev pub IsCommon : Reader → (height : ℕ) → ChainBlock → (ancestor : ℕ) → BlockRecord → Type 0
IsCommon reader height replacement ancestor s =
    ((ancestor ≡ height) × (replacement.id ≡ s.id))
    ⊎ ((r : ChainBlock) × (reader ancestor ≡ ok r) × (r.height ≡ ancestor) × (r.id ≡ s.id))

-- The node and the store have other blocks at the height.
abbrev pub Differs : Reader → Worker → ℕ → Type 0
Differs reader w h =
    (s : BlockRecord) × (r : ChainBlock) × (block_at w.store h ≡ some s)
    × (reader h ≡ ok r)
    × ((r.id == s.id) ≡ false)

-- What a search that succeeds has found and done.
pub record IsRecovered (cfg : FollowerConfig) (reader : Reader) (now : Time) (last height : ℕ)
    (replacement : ChainBlock) (w w' : Worker) : Type 0 where
  pub ancestor : ℕ
  pub common : BlockRecord
  pub is_stored : block_at w.store ancestor ≡ some common
  pub is_common : IsCommon reader height replacement ancestor common
  pub not_above : ancestor ≤ height
  pub within : (ancestor ≡ height) ⊎ (last ≤ ancestor + cfg.reorg_depth)
  pub result : RewindResult
  pub rewinds : rewind_chain ancestor cfg.events now w.store ≡ ok (result, w'.store)
  pub highest : (h : ℕ) → ancestor < h → h < height → Differs reader w h
  pub differs_at_start :
      ancestor < height
      → (s : BlockRecord) × (block_at w.store height ≡ some s) × ((replacement.id == s.id) ≡ false)
  pub not_halted : w'.is_halted ≡ w.is_halted

rewound-ok :
    (w : Worker) (r : Result (RewindResult × Database)) {u : Unit {0}} {w' : Worker}
    → rewound w r ≡ (ok u, w')
    → (x : RewindResult × Database) × (r ≡ ok x) × (w' ≡ record w { store = x.1 })
rewound-ok w (ok x) h = (x, refl, sym (ap (λ r. r.1) h))
rewound-ok w (err e) h = absurd (ground arith)

-- The walk ends at the height where it stands.
found-IsRecovered :
    (cfg : FollowerConfig) (reader : Reader) (now : Time) (last height : ℕ)
    (replacement : ChainBlock) (w : Worker) {u : Unit {0}} {w' : Worker} (s : BlockRecord)
    → block_at w.store height ≡ some s
    → (replacement.id == s.id) ≡ true
    → rewound w (rewind_chain height cfg.events now w.store) ≡ (ok u, w')
    → IsRecovered cfg reader now last height replacement w w'
found-IsRecovered cfg reader now last height replacement w s found same h =
    let (x, e, moved) = rewound-ok w (rewind_chain height cfg.events now w.store) h in
    subst (IsRecovered cfg reader now last height replacement w) (sym moved) (record {
      ancestor = height;
      common = s;
      is_stored = found;
      is_common = inl (refl, ground arith);
      not_above = omega arith;
      within = inl refl;
      result = x.0;
      rewinds = e;
      highest = λ h lt gt. absurd (omega arith);
      differs_at_start = λ lt. absurd (omega arith);
      not_halted = refl;
    })

lower-IsCommon :
    (reader : Reader) (height below ancestor : ℕ) (replacement r : ChainBlock) (s : BlockRecord)
    → reader below ≡ ok r
    → (r.height == below) ≡ true
    → IsCommon reader below r ancestor s
    → IsCommon reader height replacement ancestor s
lower-IsCommon reader height below ancestor replacement r s e y (inl (same, id)) =
    inr (r, subst (λ n. reader n ≡ ok r) (sym same) e, ground arith, id)
lower-IsCommon reader height below ancestor replacement r s e y (inr common) = inr common

near_enough :
    (ancestor below last depth : ℕ)
    → (ancestor ≡ below) ⊎ (last ≤ ancestor + depth)
    → ltb depth (last - suc below + 1) ≡ false
    → suc below ≤ last
    → last ≤ ancestor + depth
near_enough ancestor below last depth (inl e) near le = ground arith
near_enough ancestor below last depth (inr h) near le = h

below-Differs :
    (reader : Reader) (w : Worker) (below ancestor : ℕ) (r : ChainBlock)
    → reader below ≡ ok r
    → ((h : ℕ) → ancestor < h → h < below → Differs reader w h)
    → (ancestor < below
        → (s : BlockRecord) × (block_at w.store below ≡ some s) × ((r.id == s.id) ≡ false))
    → (h : ℕ) → ancestor < h
    → h < suc below
    → Differs reader w h
below-Differs reader w below ancestor r e above start h lt gt = elim (Bool-cases (ltb h below)) [
  | inl y ↦ above h lt (ground arith)
  | inr y ↦
      let same : below ≡ h = ground arith in
      let (s, f, d) = start (omega arith) in subst (Differs reader w) same (s, r, f, e, d)
]

-- A walk from the last height down that succeeds has rewound the store to the highest height where
-- the node has the stored block: that height is at most the reorganisation depth below the last
-- one, and at every height above it, up to where the walk began, the node has another block than
-- the store. The worker is not halted by it.
pub recover_from-IsRecovered :
    (cfg : FollowerConfig) (reader : Reader) (now : Time) (last height : ℕ)
    (replacement : ChainBlock) (w : Worker) {u : Unit {0}} {w' : Worker}
    → recover_from cfg reader now last height replacement w ≡ (ok u, w')
    → height ≤ last
    → IsRecovered cfg reader now last height replacement w w'
unfolding recover_from
recover_from-IsRecovered cfg reader now last zero replacement w h le =
    elim (Option-cases (block_at w.store 0)) [
      | inl e ↦ let bad = rw (e, recover_from) at h in absurd (ground arith)
      | inr (s, e) ↦ elim (Bool-cases (replacement.id == s.id)) [
        | inl y ↦
            found-IsRecovered cfg reader now last 0 replacement w s e y
              (rw (e, y, recover_from) at h)
        | inr y ↦ let bad = rw (e, y, recover_from) at h in absurd (ground arith)
      ]
    ]
recover_from-IsRecovered cfg reader now last (suc below) replacement w {u} {w'} h le =
    elim (Option-cases (block_at w.store (suc below))) [
      | inl e ↦ let bad = rw (e, recover_from) at h in absurd (ground arith)
      | inr (s, e) ↦ elim (Bool-cases (replacement.id == s.id)) [
        | inl y ↦
            found-IsRecovered cfg reader now last (suc below) replacement w s e y
              (rw (e, y, recover_from) at h)
        | inr y ↦ elim (Bool-cases (ltb cfg.reorg_depth (last - suc below + 1))) [
          | inl deep ↦ let bad = rw (e, y, deep, recover_from) at h in absurd (ground arith)
          | inr near ↦ elim (Result-cases (reader below)) [
            | inr (x, f) ↦ let bad = rw (e, y, near, f, recover_from) at h in absurd (ground arith)
            | inl (r, f) ↦ elim (Bool-cases (r.height == below)) [
              | inr z ↦ let bad = rw (e, y, near, f, z, recover_from) at h in absurd (ground arith)
              | inl z ↦
                  let rest =
                    recover_from-IsRecovered cfg reader now last below r w
                      (rw (e, y, near, f, z, recover_from) at h) (omega arith) in
                  record {
                    ancestor = rest.ancestor;
                    common = rest.common;
                    is_stored = rest.is_stored;
                    is_common =
                        lower-IsCommon reader (suc below) below rest.ancestor replacement r
                          rest.common f z rest.is_common;
                    not_above = let na = rest.not_above in omega arith;
                    within =
                        inr (
                          near_enough rest.ancestor below last cfg.reorg_depth rest.within near le);
                    result = rest.result;
                    rewinds = rest.rewinds;
                    highest = λ n lt gt.
                        below-Differs reader w below rest.ancestor r f rest.highest
                          rest.differs_at_start n lt gt;
                    differs_at_start = λ lt. (s, e, y);
                    not_halted = rest.not_halted;
                  }
            ]
          ]
        ]
      ]
    ]
