-- ===== src/Engine/Queue.antt =====
-- The withdrawal that a tick claims (internal/store/withdrawals.go: NextRequestedWithdrawal).
use payd.Prelude.{
  Bool, true, false, ◌&&◌, ◌≡◌, refl, Option, none, some, List, [], ◌∷◌, arith, Bool-cases, inl,
  inr, is_none, select, insert_by, sort_by, All, All-map, ◌++◌, ap,
}
use payd.Schema.{Database, Withdrawal}
use payd.Withdrawals.{is_requested}
use payd.Engine.Tick.{is_earlier, first_of, next_requested}

-- What may be claimed.
abbrev pub may_be_claimed : Withdrawal → Bool
may_be_claimed w = is_requested w.status && is_none w.txid

abbrev pub IsIn : Withdrawal → List Withdrawal → Type 0
IsIn w ws = (before : List Withdrawal) × (after : List Withdrawal) × (ws ≡ before ++ w ∷ after)

-- The first, in the order of creation and then of the identifiers, of those in the list that may be
-- claimed; none where there are none.
abbrev pub IsFirst : List Withdrawal → Option Withdrawal → Type 0
IsFirst ws none = All (λ v. may_be_claimed v ≡ false) ws
IsFirst ws (some w) =
    (may_be_claimed w ≡ true)
    × IsIn w ws
    × All (λ v. (may_be_claimed v && is_earlier v w) ≡ false) ws

behind : (x w : Withdrawal) (ws : List Withdrawal) → IsIn w ws → IsIn w (x ∷ ws)
behind x w ws (before, after, e) = (x ∷ before, after, ap (λ l. x ∷ l) e)

passes :
    (x : Withdrawal) (ws : List Withdrawal) (o : Option Withdrawal)
    → may_be_claimed x ≡ false
    → IsFirst ws o
    → IsFirst (x ∷ ws) o
passes x ws none skip h = (skip, h)
passes x ws (some w) skip (p, place, all) = (p, behind x w ws place, (ground arith, all))

earlier_than :
    (x y v : Withdrawal)
    → is_earlier y x ≡ false
    → (may_be_claimed v && is_earlier v y) ≡ false
    → (may_be_claimed v && is_earlier v x) ≡ false
earlier_than x y v late h = ground arith

insert_by-IsFirst :
    (x : Withdrawal) (ws sorted : List Withdrawal)
    → may_be_claimed x ≡ true
    → IsFirst ws (first_of sorted)
    → IsFirst (x ∷ ws) (first_of (insert_by is_earlier x sorted))
unfolding insert_by
insert_by-IsFirst x ws [] may h =
    (may, ([], ws, refl), (ground arith, All-map ws (λ v p. ground (arith, p)) h))
insert_by-IsFirst x ws (y ∷ rest) may (p, place, all) = elim (Bool-cases (is_earlier y x)) [
  | inl e ↦ rw e (p, behind x y ws place, (ground (arith, e), all))
  | inr e ↦
      rw e (may, ([], ws, refl), (ground arith, All-map ws (λ v h. earlier_than x y v e h) all))
]

sorted-IsFirst :
    (ws : List Withdrawal) → IsFirst ws (first_of (sort_by is_earlier (select may_be_claimed ws)))
unfolding sort_by
sorted-IsFirst [] = tt
sorted-IsFirst (x ∷ ws) = elim (Bool-cases (may_be_claimed x)) [
  | inl e ↦ rw e (insert_by-IsFirst x ws _ e (sorted-IsFirst ws))
  | inr e ↦ rw e (passes x ws _ e (sorted-IsFirst ws))
]

-- The next withdrawal to be claimed is one of the table that is requested and has no transaction, and
-- no other such row was created before it, or in the same second with a smaller identifier; there is
-- none only where no row is requested without a transaction.
pub next_requested-IsFirst : (db : Database) → IsFirst db.withdrawals (next_requested db)
unfolding next_requested
next_requested-IsFirst db = sorted-IsFirst db.withdrawals
