-- ===== src/Engine/Once/Topups.antt =====
-- The top-ups.
use payd.Prelude.{ℕ, false, Option, none, some, Result, ok, err}
use payd.Schema.{Address, Withdrawal, ResourceGrant}
use payd.Engine.Node.{Answer, ReferenceBlock}
use payd.Engine.Action.{Action, Outside, EngineConfig, Transfer}
use payd.Engine.Action.Keeps.{Keeps, Keeps-pure}
use payd.Engine.Broadcast.{attempt}
use payd.Engine.Delegate.{
  send_topup, sign_topup, topup_by, topup_from, start_topup, topup_anew, topup_with, ensure_topup,
}
use payd.Engine.Once.{IsOnce}
use payd.Decimal.{parse_units}
use payd.Engine.Once.Grants.{
  keeps_rules, give_up-Keeps, broadcast-Keeps, reference_block-Keeps, created_grant-Keeps,
  reconcile_grant-Keeps,
}

attempt-Keeps : {A : Type 0} (act : Action A) → Keeps IsOnce act → Keeps IsOnce (attempt act)
unfolding attempt
attempt-Keeps act h = record { at = λ w p. h.at w p }

send_topup-Keeps :
    (out : Outside) (cfg : EngineConfig) (g : ResourceGrant) (r : ReferenceBlock) (a : Answer ℕ)
    → Keeps IsOnce (send_topup out cfg g r a)
send_topup-Keeps out cfg g r (Answer.refused m) = give_up-Keeps g _ _
send_topup-Keeps out cfg g r (Answer.answered txid) = broadcast-Keeps out g txid _

sign_topup-Keeps :
    (out : Outside) (cfg : EngineConfig) (g : ResourceGrant) (r : ReferenceBlock)
    (t : Result Transfer)
    → Keeps IsOnce (sign_topup out cfg g r t)
sign_topup-Keeps out cfg g r (err e) = give_up-Keeps g _ _
sign_topup-Keeps out cfg g r (ok t) = search (keeps_rules, send_topup-Keeps)

topup_by-Keeps :
    (out : Outside) (cfg : EngineConfig) (g : ResourceGrant) (owner : ℕ) (r : Result ReferenceBlock)
    → Keeps IsOnce (topup_by out cfg g owner r)
topup_by-Keeps out cfg g owner (err e) = give_up-Keeps g _ _
topup_by-Keeps out cfg g owner (ok r) = sign_topup-Keeps out cfg g r _

topup_from-Keeps :
    (out : Outside) (cfg : EngineConfig) (g : ResourceGrant) (r : Result Address)
    → Keeps IsOnce (topup_from out cfg g r)
topup_from-Keeps out cfg g (err e) = give_up-Keeps g _ _
topup_from-Keeps out cfg g (ok wallet) =
    search (keeps_rules, attempt-Keeps, reference_block-Keeps, topup_by-Keeps)

start_topup-Keeps :
    (out : Outside) (cfg : EngineConfig) (g : ResourceGrant) → Keeps IsOnce (start_topup out cfg g)
start_topup-Keeps out cfg g = search (keeps_rules, topup_from-Keeps, reconcile_grant-Keeps)

topup_anew-Keeps :
    (out : Outside) (cfg : EngineConfig) (w : Withdrawal) (r : Result ℕ)
    → Keeps IsOnce (topup_anew out cfg w r)
topup_anew-Keeps out cfg w (err e) = Keeps-pure false
topup_anew-Keeps out cfg w (ok amount) =
    search (keeps_rules, created_grant-Keeps, start_topup-Keeps)

topup_with-Keeps :
    (out : Outside) (cfg : EngineConfig) (w : Withdrawal) (g : Option ResourceGrant)
    → Keeps IsOnce (topup_with out cfg w g)
topup_with-Keeps out cfg w (some g) = start_topup-Keeps out cfg g
topup_with-Keeps out cfg w none = topup_anew-Keeps out cfg w (parse_units cfg.bandwidth_topup_trx 6)

pub ensure_topup-Keeps :
    (out : Outside) (cfg : EngineConfig) (w : Withdrawal) → Keeps IsOnce (ensure_topup out cfg w)
unfolding ensure_topup
ensure_topup-Keeps out cfg w = search (keeps_rules, topup_with-Keeps)
