-- ===== src/Engine/Once/Granting.antt =====
-- The store's methods on grants, as the engine calls them.
use payd.Prelude.{
  ℕ, zero, suc, ◌≡◌, refl, subst, Option, none, some, arith, Bool-cases, Option-cases, inl, inr,
  ◌==◌, ltb, find, exists, ◌||◌, ok, ok-injective, >>=-eq-ok, or_error, no_rows, [], ◌∷◌, ◌++◌, ◌+◌,
  address_not_found,
}
use payd.Decimal.{Text, set_string, decimal}
use payd.Schema.{
  Time, unix, Database, Address, LogIndex, ResourceGrant, ResourceType, GrantSource, is_topup,
}
use payd.Payments.{is_payment}
use payd.Withdrawals.Outcome.{trx}
use payd.Grants.{
  create_manual_grant, create_grant, requested_grant, grant_for_withdrawal, record_grant_broadcast,
  fail_grant, confirm_grant, record_grant_receipt, record_grant_lookup, grant_needs_operator,
  where_grant, fee_of, charge_receipt, receive_topup, with_topup, with_fee, resource_wallet,
  with_receipt, answered_grant, unanswered_grant, failures_of,
}
use payd.Engine.Once.Advance.{
  Advances, Advances-refl, Advances-trans, Calm, Calm-trans, Calm-Advances,
  recalculate_balance-Calm, grants-Advances, new_grant-Advances,
}

pub create_grant-Advances :
    (withdrawal_id address_id receiver : ℕ) (t : ResourceType) (source : GrantSource)
    (amount : Text) (now : Time) (db : Database)
    → Advances db (create_grant withdrawal_id address_id receiver t source amount now db).1
unfolding create_grant
create_grant-Advances withdrawal_id address_id receiver t source amount now db =
    elim (Option-cases (grant_for_withdrawal withdrawal_id t db)) [
      | inl e ↦
          rw (e, create_grant)
            (new_grant-Advances
              (requested_grant db.draws (some withdrawal_id) address_id receiver t source amount
                (unix now))
              db refl)
      | inr (g, e) ↦ rw (e, create_grant) (Advances-refl db)
    ]

pub create_manual_grant-Advances :
    (address : ℕ) (t : ResourceType) (amount : Text) (actor detail : ℕ) (now : Time) (db : Database)
    {x : ResourceGrant × Database}
    → create_manual_grant address t amount actor detail now db ≡ ok x
    → Advances db x.1
unfolding create_manual_grant
create_manual_grant-Advances address t amount actor detail now db h =
    let (a, _, h1) =
      >>=-eq-ok (or_error (find (λ a. a.address == address) db.addresses) address_not_found) _ h in
    let g =
      requested_grant db.draws none a.id address t GrantSource.self_delegated amount (unix now) in
    let moved = record db { grants = db.grants ++ g ∷ []; draws = db.draws + 1 } in
    subst (λ x. Advances db x.1) (ok-injective h1)
      (Advances-trans db moved _ (new_grant-Advances g db refl)
        (Calm-Advances moved _ (refl, refl, refl, omega arith)))

pub record_grant_broadcast-Advances :
    (id response : ℕ) (db : Database) → Advances db (record_grant_broadcast id response db)
unfolding record_grant_broadcast
record_grant_broadcast-Advances id response db = grants-Advances _ _ (λ x. refl) (λ x t. t) db

pub fail_grant-Advances :
    (id : ℕ) (response : Option ℕ) (reason : ℕ) (db : Database)
    → Advances db (fail_grant id response reason db)
unfolding fail_grant
fail_grant-Advances id response reason db = grants-Advances _ _ (λ x. refl) (λ x t. t) db

pub confirm_grant-Advances :
    (id : ℕ) (now : Time) (db : Database) → Advances db (confirm_grant id now db)
unfolding confirm_grant
confirm_grant-Advances id now db = grants-Advances _ _ (λ x. refl) (λ x t. t) db

pub grant_needs_operator-Advances :
    (id reason : ℕ) (db : Database) → Advances db (grant_needs_operator id reason db)
unfolding grant_needs_operator
grant_needs_operator-Advances id reason db = grants-Advances _ _ (λ x. refl) (λ x t. t) db

pub record_grant_lookup-Advances :
    (id : ℕ) (lookup_error : Option ℕ) (db : Database) {x : ℕ × Database}
    → record_grant_lookup id lookup_error db ≡ ok x
    → Advances db x.1
unfolding record_grant_lookup
record_grant_lookup-Advances id none db h =
    subst (λ x. Advances db x.1) (ok-injective h)
      (grants-Advances (λ g. g.id == id) answered_grant (λ x. refl) (λ x t. t) db)
record_grant_lookup-Advances id (some message) db h =
    let next = where_grant (λ g. g.id == id) (unanswered_grant message) db in
    let (n, _, h1) = >>=-eq-ok (failures_of id next.grants) _ h in
    subst (λ x. Advances db x.1) (ok-injective h1)
      (grants-Advances (λ g. g.id == id) (unanswered_grant message) (λ x. refl) (λ x t. t) db)

with_fee-Calm :
    (txid fee : ℕ) (wallet : Address) (height timestamp stamp : ℕ) (db : Database)
    → Calm db (with_fee txid fee wallet height timestamp stamp db)
with_fee-Calm txid zero wallet height timestamp stamp db = (refl, refl, refl, omega arith)
with_fee-Calm txid (suc n) wallet height timestamp stamp db =
    elim (Bool-cases (exists (is_payment txid LogIndex.fee) db.payments)) [
      | inl y ↦ rw y (refl, refl, refl, omega arith)
      | inr y ↦ rw y (refl, refl, refl, omega arith)
    ]

with_topup-Calm :
    (txid : ℕ) (g : ResourceGrant) (wallet : Address) (height timestamp stamp : ℕ) (db : Database)
    → Calm db (with_topup txid g wallet height timestamp stamp db)
with_topup-Calm txid g wallet height timestamp stamp db =
    elim (Bool-cases (exists (is_payment txid (LogIndex.log 0)) db.payments)) [
      | inl y ↦ rw y (refl, refl, refl, omega arith)
      | inr y ↦ rw y (refl, refl, refl, omega arith)
    ]

receive_topup-Calm :
    (txid : ℕ) (g : ResourceGrant) (wallet : Address) (height timestamp stamp : ℕ) (db : Database)
    {db' : Database}
    → receive_topup txid g wallet height timestamp stamp db ≡ ok db'
    → Calm db db'
receive_topup-Calm txid g wallet height timestamp stamp db {db'} h =
    elim (Bool-cases (is_topup g.source)) [
      | inr n ↦ subst (Calm db) (ok-injective (rw n at h)) (refl, refl, refl, omega arith)
      | inl y ↦
          let (a, _, h1) =
            >>=-eq-ok
              (or_error (find (λ (a : Address). a.address == g.receiver_address) db.addresses)
                no_rows)
              _ (rw y at h) in
          let paid = with_topup txid g wallet height timestamp stamp db in
          Calm-trans db paid db' (with_topup-Calm txid g wallet height timestamp stamp db)
            (recalculate_balance-Calm paid a.id trx h1)
    ]

charge_receipt-Calm :
    (txid fee : ℕ) (g : ResourceGrant) (height timestamp index stamp : ℕ) (db : Database)
    {db' : Database}
    → charge_receipt txid fee g height timestamp index stamp db ≡ ok db'
    → Calm db db'
unfolding charge_receipt
charge_receipt-Calm txid fee g height timestamp index stamp db {db'} h =
    elim (Bool-cases (ltb 0 fee || is_topup g.source)) [
      | inr n ↦ subst (Calm db) (ok-injective (rw n at h)) (refl, refl, refl, omega arith)
      | inl y ↦
          let (wallet, _, h1) = >>=-eq-ok (resource_wallet index db) _ (rw y at h) in
          let charged = with_fee txid fee wallet height timestamp stamp db in
          let (paid, e2, h2) =
            >>=-eq-ok (receive_topup txid g wallet height timestamp stamp charged) _ h1 in
          Calm-trans db charged db' (with_fee-Calm txid fee wallet height timestamp stamp db) (
            Calm-trans charged paid db'
              (receive_topup-Calm txid g wallet height timestamp stamp charged e2)
              (recalculate_balance-Calm paid wallet.id trx h2))
    ]

pub record_grant_receipt-Advances :
    (id : ℕ) (fee_raw : Text) (height timestamp index : ℕ) (now : Time) (db : Database)
    {db' : Database}
    → record_grant_receipt id fee_raw height timestamp index now db ≡ ok db'
    → Advances db db'
unfolding record_grant_receipt
record_grant_receipt-Advances id fee_raw height timestamp index now db {db'} h =
    let (fee, _, h1) = >>=-eq-ok (fee_of (set_string fee_raw)) _ h in
    let (g, _, h2) = >>=-eq-ok (or_error (find (λ g. g.id == id) db.grants) no_rows) _ h1 in
    let (txid, _, h3) = >>=-eq-ok (or_error g.txid no_rows) _ h2 in
    let noted = where_grant (λ g. g.id == id) (with_receipt (decimal fee)) db in
    Advances-trans db noted db'
      (grants-Advances (λ g. g.id == id) (with_receipt (decimal fee)) (λ x. refl) (λ x t. t) db)
      (Calm-Advances noted db'
        (charge_receipt-Calm txid fee g height timestamp index (unix now) noted h3))
