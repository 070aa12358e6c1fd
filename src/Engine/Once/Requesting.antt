-- ===== src/Engine/Once/Requesting.antt =====
-- Requests for withdrawals, and what the operator decides, in between.
use payd.Prelude.{
  ℕ, ◌+◌, Bool, ◌≡◌, refl, sym, subst, [], ◌∷◌, ◌++◌, arith, Bool-cases, Option-cases, inl, inr,
  ◌==◌, find, count, ok, ok-injective, >>=-eq-ok, guard, idempotency_reuse, withdrawal_state,
}
use payd.Schema.{Time, unix, Database, Withdrawal, WithdrawalStatus}
use payd.Withdrawals.{
  CreateWithdrawal, create_withdrawal, insert_withdrawal, replay_or_insert, is_same_request,
  requested_row,
}
use payd.Withdrawals.Methods.{insert-adds}
use payd.Withdrawals.Transitions.{is_final}
use payd.Withdrawals.Outcome.{resolve_withdrawal, awaits_operator, resolved_row, not_resolvable}
use payd.Engine.Once.Advance.{
  Advances, Advances-refl, Advances-trans, Calm-Advances, withdrawals-Advances,
  new_withdrawal-Advances,
}

insert-Advances :
    (r : CreateWithdrawal) (db : Database) {x : Withdrawal × Database}
    → insert_withdrawal r db ≡ ok x
    → Advances db x.1
insert-Advances r db {x = x} h =
    let (a, e) = insert-adds r db {x = x} h in
    let moved = record db {
      withdrawals = db.withdrawals ++ requested_row db.draws a r ∷ [];
      draws = db.draws + 1;
    } in
    subst (λ x. Advances db x.1) (sym e)
      (Advances-trans db moved _ (new_withdrawal-Advances (requested_row db.draws a r) db refl)
        (Calm-Advances moved _ (refl, refl, refl, omega arith)))

pub create-Advances :
    (r : CreateWithdrawal) (db : Database) {x : Withdrawal × Bool × Database}
    → create_withdrawal r db ≡ ok x
    → Advances db x.2
unfolding create_withdrawal
create-Advances r db h =
    elim (Option-cases (find (λ w. w.idempotency_key == r.idempotency_key) db.withdrawals)) [
      | inr (w, e) ↦
          let (_, _, h1) =
            >>=-eq-ok (guard (is_same_request r w) idempotency_reuse) _
              (rw (e, replay_or_insert) at h) in
          subst (λ x. Advances db x.2) (ok-injective h1) (Advances-refl db)
      | inl e ↦
          let (x, e1, h1) = >>=-eq-ok (insert_withdrawal r db) _ (rw (e, replay_or_insert) at h) in
          subst (λ x. Advances db x.2) (ok-injective h1) (insert-Advances r db {x = x} e1)
    ]

pub resolve-Advances :
    (id : ℕ) (outcome : WithdrawalStatus) (reason actor : ℕ) (now : Time) (db : Database)
    {db' : Database}
    → resolve_withdrawal id outcome reason actor now db ≡ ok db'
    → Advances db db'
unfolding resolve_withdrawal
resolve-Advances id outcome reason actor now db h =
    let (_, _, h1) = >>=-eq-ok (guard (is_final outcome) withdrawal_state) _ h in
    let ws =
      withdrawals-Advances (awaits_operator id) (resolved_row outcome reason (unix now)) (λ x. refl)
        (λ x t. t) db in
    elim (Bool-cases (count (awaits_operator id) db.withdrawals == 1)) [
      | inl e ↦
          subst (Advances db) (ok-injective (rw e at h1))
            (Advances-trans db _ _ ws (Calm-Advances _ _ (refl, refl, refl, omega arith)))
      | inr e ↦ elim (Option-cases (find (λ w. w.id == id) db.withdrawals)) [
        | inl n ↦ let bad = rw (e, n, not_resolvable) at h1 in cc
        | inr (w, n) ↦ let bad = rw (e, n, not_resolvable) at h1 in cc
      ]
    ]
