-- ===== src/Payments/Upsert.antt =====
-- What an upsert leaves in the payment table.
use payd.Prelude.{
  count-append, count-update, ℕ, ◌≤◌, Bool, true, false, not, ◌≡◌, refl, ap, ◌∙◌, subst, List, [],
  ◌∷◌, Option, none, some, arith, find, count, exists, find-update, find_append, find-none,
  map_option, ok, >>=-eq-ok, ok-injective, Bool-cases, inl, inr, ◌==◌, if◌then◌else◌, &&_iff,
  ==_self, is_some,
}
use payd.Schema.{Time, Database, Payment, LogIndex, log_eq}
use payd.Chain.Links.{
  SameChain, SameChain-trans, SameBook, SameBook-refl, SameBook-trans, recalculate-SameBook,
  recalculate_balance-SameBook,
}
use payd.Payments.{
  PaymentRecord, is_payment, payment_exists, row_of, refreshed, write_payment, recount, rebalance,
  owned_recipient, first_some, order_of_row, was_orphaned, upsert_payment,
}
use payd.Recalc.{recalculate_order_with_transition}

recount-SameBook :
    (db : Database) (id : Option ℕ) (allow : Bool) (now : Time) {db' : Database}
    → recount db id allow now ≡ ok db'
    → SameBook db db'
recount-SameBook db none allow now h = subst (SameBook db) (ok-injective h) (SameBook-refl db)
recount-SameBook db (some id) allow now h =
    let (r, e, h1) = >>=-eq-ok (recalculate_order_with_transition db id allow now) _ h in
    subst (SameBook db) (ok-injective h1) (recalculate-SameBook db id allow now e)

rebalance-SameBook :
    (db : Database) (address_id : Option ℕ) (asset : ℕ) {db' : Database}
    → rebalance db address_id asset ≡ ok db'
    → SameBook db db'
rebalance-SameBook db none asset h = subst (SameBook db) (ok-injective h) (SameBook-refl db)
rebalance-SameBook db (some a) asset h = recalculate_balance-SameBook db a asset h

-- Everything that an upsert does after the write leaves the chain and the payments alone.
pub upsert-written :
    (r : PaymentRecord) (now : Time) (db : Database) {back : Bool} {db' : Database}
    → upsert_payment r now db ≡ ok (back, db')
    → (back ≡ was_orphaned (find (is_payment r.txid r.log_index) db.payments))
      × SameBook (write_payment db r) db'
unfolding upsert_payment
upsert-written r now db {back} {db'} h =
    let old = find (is_payment r.txid r.log_index) db.payments in
    let wrote = write_payment db r in
    let (c, e1, h1) =
      >>=-eq-ok (recount wrote (first_some (order_of_row old) r.order_id) (not r.is_dust) now) _
        h in
    let (o, e2, h2) = >>=-eq-ok (rebalance c r.address_id r.asset) _ h1 in
    let (b, e3, h3) =
      >>=-eq-ok (rebalance o (owned_recipient o r.direction r.to_address) r.asset) _ h2 in
    let same =
      SameBook-trans wrote c o (recount-SameBook wrote _ _ now e1)
        (rebalance-SameBook c r.address_id r.asset e2) in
    let all =
      SameBook-trans wrote o b same
        (rebalance-SameBook o (owned_recipient o r.direction r.to_address) r.asset e3) in
    subst (λ x. (x.0 ≡ was_orphaned old) × SameBook wrote x.1) (ok-injective h3) (refl, all)

pub write_payment-SameChain :
    (db : Database) (r : PaymentRecord) → SameChain db (write_payment db r)
unfolding write_payment
write_payment-SameChain db r = elim (Bool-cases (payment_exists db r.txid r.log_index)) [
  | inl e ↦ rw e (refl, refl, refl, refl)
  | inr e ↦ rw e (refl, refl, refl, refl)
]

log_eq_self : (l : LogIndex) → log_eq l l ≡ true
log_eq_self LogIndex.fee = refl
log_eq_self (LogIndex.log n) = ==_self n

-- The row of the payment after the write: the old one with its block moved, or a new one.
abbrev pub row_after : Option Payment → ℕ → PaymentRecord → Payment
row_after none id r = row_of id r
row_after (some p) id r = refreshed r p

find_exists :
    (p : Payment → Bool) (ps : List Payment)
    → exists p ps ≡ true
    → (a : Payment) × (find p ps ≡ some a)
find_exists p [] h = cc
find_exists p (x ∷ ps) h = elim (Bool-cases (p x)) [
  | inl e ↦ rw e (x, refl)
  | inr e ↦ rw e (find_exists p ps (rw e at h))
]

pub write_payment-finds :
    (db : Database) (r : PaymentRecord)
    → find (is_payment r.txid r.log_index) (write_payment db r).payments
      ≡ some (row_after (find (is_payment r.txid r.log_index) db.payments) db.draws r)
unfolding write_payment
write_payment-finds db r =
    let p = is_payment r.txid r.log_index in
    elim (Bool-cases (payment_exists db r.txid r.log_index)) [
      | inl e ↦
          let (old, eo) = find_exists p db.payments e in
          rw (e, eo)
            (find-update p (refreshed r) (λ x. refl) db.payments ∙ ap (map_option (refreshed r)) eo)
      | inr e ↦
          let n = find-none p db.payments e in
          rw (e, n)
            (find_append p db.payments (row_of db.draws r) n
              (rw (==_self r.txid, log_eq_self r.log_index) refl))
    ]

count_none : (p : Payment → Bool) (xs : List Payment) → exists p xs ≡ false → count p xs ≡ 0
count_none p [] h = refl
count_none p (x ∷ xs) h = ground (arith, count_none p xs)

-- No two rows have one transaction and log index.
abbrev pub IsKeyed : List Payment → Type 0
IsKeyed ps = (txid : ℕ) (l : LogIndex) → count (is_payment txid l) ps ≤ 1

log_eq_to : (a b : LogIndex) → log_eq a b ≡ true → a ≡ b
log_eq_to a b h = ground arith

pub write_payment-IsKeyed :
    (db : Database) (r : PaymentRecord)
    → IsKeyed db.payments
    → IsKeyed (write_payment db r).payments
unfolding write_payment
write_payment-IsKeyed db r h txid l = elim (Bool-cases (payment_exists db r.txid r.log_index)) [
  | inl e ↦
      rw
        (
          e,
          count-update (is_payment txid l) (is_payment r.txid r.log_index) (refreshed r) (λ x. refl)
              db.payments,
        )
        (h txid l)
  | inr e ↦
      let row = row_of db.draws r in
      let le = h txid l in
      elim (Bool-cases (is_payment txid l row)) [
        | inl y ↦
            let (t, g) = (&&_iff (r.txid == txid) (log_eq r.log_index l)).0 y in
            let same_txid : r.txid ≡ txid = ground arith in
            let absent = count_none (is_payment r.txid r.log_index) db.payments e in
            let none_yet : count (is_payment txid l) db.payments ≡ 0 =
              subst (λ k. count (is_payment txid k) db.payments ≡ 0) (log_eq_to r.log_index l g)
                (subst (λ n. count (is_payment n r.log_index) db.payments ≡ 0) same_txid absent) in
            rw (e, count-append (is_payment txid l) db.payments (row ∷ []), none_yet, y)
              (omega arith)
        | inr y ↦ rw (e, count-append (is_payment txid l) db.payments (row ∷ []), y) (omega arith)
      ]
]

-- What an upsert that succeeds guarantees, for the row that was there before.
pub record IsUpserted (r : PaymentRecord) (old : Option Payment) (db : Database) (back : Bool)
    (db' : Database) : Type 0 where
  pub row : Payment
  pub found : find (is_payment r.txid r.log_index) db'.payments ≡ some row
  pub is_row : row ≡ row_after old db.draws r
  pub block_moved : (row.block_height ≡ r.block_height) × (row.block_id ≡ r.block_id)
  pub order_kept : row.order_id ≡ (if is_some old then order_of_row old else r.order_id)
  pub comes_back : back ≡ was_orphaned old
  pub keyed : IsKeyed db.payments → IsKeyed db'.payments
  pub chain_kept : SameChain db db'

row_after_parts :
    (old : Option Payment) (id : ℕ) (r : PaymentRecord)
    → let row = row_after old id r in
      ((row.block_height ≡ r.block_height) × (row.block_id ≡ r.block_id))
      × (row.order_id ≡ (if is_some old then order_of_row old else r.order_id))
row_after_parts none id r = ((refl, refl), refl)
row_after_parts (some p) id r = ((refl, refl), refl)

-- An upsert that succeeds stores the payment in the block of the record: the row that had its key
-- moves to that block and keeps its order, and else a new row takes the order of the record. It
-- reports a payment as back exactly when the row was orphaned, stores no key twice where none was,
-- and leaves blocks, cursor, addresses and withdrawals alone.
pub upsert_payment-IsUpserted :
    (r : PaymentRecord) (now : Time) (db : Database) {back : Bool} {db' : Database}
    → upsert_payment r now db ≡ ok (back, db')
    → IsUpserted r (find (is_payment r.txid r.log_index) db.payments) db back db'
upsert_payment-IsUpserted r now db {back} {db'} h =
    let (flag, same) = upsert-written r now db h in
    let old = find (is_payment r.txid r.log_index) db.payments in
    let (block, order) = row_after_parts old db.draws r in
    record {
      row = row_after old db.draws r;
      found = rw same.1 (write_payment-finds db r);
      is_row = refl;
      block_moved = block;
      order_kept = order;
      comes_back = flag;
      keyed = λ k. rw same.1 (write_payment-IsKeyed db r k);
      chain_kept =
          SameChain-trans db (write_payment db r) db' (write_payment-SameChain db r) same.0;
    }
