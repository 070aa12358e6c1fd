-- ===== src/Engine/Resolve.antt =====
-- The signature and the one broadcast of a withdrawal, and what becomes of its transaction
-- (internal/withdraw/engine.go: signAndBroadcast, resolve).
use payd.Prelude.{
  ℕ, Bool, true, false, Option, none, some, leb, ◌==◌, if◌then◌else◌, find, map_option, coalesce,
  Result, ok, err, external,
}
use payd.Schema.{Time, unix, Database, Withdrawal}
use payd.Withdrawals.Transitions.{
  persist_attempt, record_broadcast, record_lookup, withdrawal_needs_operator, fail_absent,
}
use payd.Withdrawals.Outcome.{confirm_withdrawal}
use payd.Engine.Node.{
  Answer, Lookup, Receipt, ReceiptLookup, Response, Classification, ReferenceBlock, classify,
  raw_response,
}
use payd.Engine.Action.{
  Action, Outside, EngineConfig, Effect, Transfer, Asset, ◌>>=◌, ◌>>◌, pure, raise, ask, get, write,
  spend,
}
use payd.Engine.Broadcast.{
  code_text, absent_after_expiration, message_of, reference_block, signing_input, expires_at,
}

abbrev pub settle_solid :
    EngineConfig → (now : Time) → (id : ℕ) → Receipt → Option ℕ → Action (Unit {0})
settle_solid cfg now id r (some result) = write (withdrawal_needs_operator id result now cfg.events)
settle_solid cfg now id r none =
    write (
      confirm_withdrawal id r.fee_raw r.energy_used r.block_height r.block_timestamp cfg.events now)

abbrev pub settle_receipt :
    EngineConfig → (now : Time) → (id : ℕ) → ReceiptLookup → Action (Unit {0})
settle_receipt cfg now id (ReceiptLookup.unreachable m) = pure tt
settle_receipt cfg now id (ReceiptLookup.unreadable m) = raise (external m)
settle_receipt cfg now id ReceiptLookup.unsolid = pure tt
settle_receipt cfg now id (ReceiptLookup.solid r) = settle_solid cfg now id r r.result

abbrev pub has_expired : Option ℕ → (now : Time) → Bool
has_expired none now = false
has_expired (some e) now = leb e (unix now)

-- The node does not know the transaction: `code` is that of a broadcast which it refused.
abbrev pub settle_absent :
    EngineConfig → (now : Time) → (id : ℕ) → (expiration code : Option ℕ) → Action (Unit {0})
settle_absent cfg now id expiration (some code) = write (fail_absent id code now cfg.events)
settle_absent cfg now id expiration none =
    if has_expired expiration now
    then write (fail_absent id absent_after_expiration now cfg.events)
    else write (record_lookup id false none now cfg.events)

abbrev pub settle_unreachable :
    EngineConfig → (now : Time) → (id : ℕ) → (code : Option ℕ) → (message : ℕ) → Action (Unit {0})
settle_unreachable cfg now id (some code) message =
    write (withdrawal_needs_operator id message now cfg.events)
settle_unreachable cfg now id none message =
    write (record_lookup id false (some message) now cfg.events)

abbrev pub settle :
    Outside
    → EngineConfig
    → (now : Time) → (id txid : ℕ) → (expiration code : Option ℕ) → Lookup
    → Action (Unit {0})
settle out cfg now id txid expiration code (Lookup.unreachable m) =
    settle_unreachable cfg now id code m
settle out cfg now id txid expiration code (Lookup.unreadable m) =
    write (record_lookup id false (some m) now cfg.events)
settle out cfg now id txid expiration code (Lookup.known false) =
    settle_absent cfg now id expiration code
settle out cfg now id txid expiration code (Lookup.known true) =
    write (record_lookup id true none now cfg.events)
    >> (ask (λ n. out.transaction_info n txid) >>= settle_receipt cfg now id)

-- `resolve`
unfoldable pub resolve :
    Outside → EngineConfig → (id txid : ℕ) → (expiration code : Option ℕ) → Action (Unit {0})
resolve out cfg id txid expiration code = do
  now ← ask out.clock
  lookup ← ask (λ n. out.transaction n txid)
  settle out cfg now id txid expiration code lookup

-- The one broadcast of a transaction that is recorded before it: the store refuses a second attempt.
unfoldable pub send_withdrawal :
    Outside → (id txid : ℕ) → (now : Time) → (expiration : ℕ) → Action Response
send_withdrawal out id txid now expiration = do
  write (persist_attempt id txid now expiration)
  spend (Effect.sent_withdrawal id) (λ n. out.send n txid)

abbrev pub after_send :
    Outside → EngineConfig → (id txid expiration : ℕ) → Classification → Action (Unit {0})
after_send out cfg id txid expiration (Classification.deterministic code) =
    resolve out cfg id txid (some expiration) (some (code_text code))
after_send out cfg id txid expiration _ = pure tt

abbrev pub operator_for : Outside → EngineConfig → (id reason : ℕ) → Action (Unit {0})
operator_for out cfg id reason =
    ask out.clock >>= λ now. write (withdrawal_needs_operator id reason now cfg.events)

abbrev pub send_encoded :
    Outside → EngineConfig → (id txid : ℕ) → ReferenceBlock → Option ℕ → Action (Unit {0})
send_encoded out cfg id txid reference (some m) = operator_for out cfg id m
send_encoded out cfg id txid reference none = do
  now ← ask out.clock
  r ← send_withdrawal out id txid now (expires_at cfg reference)
  write (record_broadcast id (raw_response r) now)
  after_send out cfg id txid (expires_at cfg reference) (classify r)

abbrev pub broadcast_signed :
    Outside → EngineConfig → (id : ℕ) → ReferenceBlock → Answer ℕ → Action (Unit {0})
broadcast_signed out cfg id reference (Answer.refused m) = operator_for out cfg id m
broadcast_signed out cfg id reference (Answer.answered txid) =
    ask (λ n. out.encode n txid) >>= send_encoded out cfg id txid reference

-- The index of the key that signs is that of the withdrawal's address.
abbrev pub hd_index_of : (address_id : ℕ) → Database → ℕ
hd_index_of address_id db =
    coalesce (map_option (λ a. a.hd_index) (find (λ a. a.id == address_id) db.addresses)) 0

abbrev pub sign_input :
    Outside → EngineConfig → Withdrawal → ReferenceBlock → Result Transfer → Action (Unit {0})
sign_input out cfg w reference (err e) = operator_for out cfg w.id (message_of e)
sign_input out cfg w reference (ok t) = do
  index ← get (λ x. hd_index_of w.address_id x.store)
  signed ← ask (λ n. out.sign n index t)
  broadcast_signed out cfg w.id reference signed

-- `signAndBroadcast`
unfoldable pub sign_and_broadcast : Outside → EngineConfig → Withdrawal → Asset → Action (Unit {0})
sign_and_broadcast out cfg w asset = do
  reference ← reference_block out
  sign_input out cfg w reference
      (signing_input cfg w.from_address w.to_address w.amount_raw asset.contract reference)
