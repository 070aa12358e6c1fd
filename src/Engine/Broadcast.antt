-- ===== src/Engine/Broadcast.antt =====
-- What is signed and sent, and the one broadcast of a grant (internal/withdraw/engine.go:
-- referenceBlock, signingInput, broadcastResourceGrant).
use payd.Prelude.{
  ℕ, suc, ◌+◌, ◌*◌, ◌/◌, Bool, true, false, not, ◌&&◌, ◌||◌, Option, none, some, ltb, if◌then◌else◌,
  is_none, ℤ, pos, Result, ok, err, Error, external, bad_argument,
}
use payd.Decimal.{Text, set_string}
use payd.Schema.{Time, second, Crawler, ResourceGrant}
use payd.Orders.{max_int64}
use payd.Grants.{persist_grant_attempt, record_grant_broadcast, fail_grant}
use payd.Engine.Node.{
  ReferenceBlock, Lookup, Response, BroadcastCode, Classification, classify, raw_response,
}
use payd.Engine.Action.{
  Action, Outside, EngineConfig, Effect, Transfer, ◌>>=◌, ◌>>◌, pure, ask, expect, get, write,
  spend,
}

-- The texts of the engine's own reasons.
abbrev pub code_text : BroadcastCode → ℕ
code_text BroadcastCode.sigerror = 10
code_text BroadcastCode.tapos_error = 11
code_text BroadcastCode.expiration_error = 12
code_text BroadcastCode.contract_validate_error = 13
code_text BroadcastCode.bandwith_error = 14
code_text BroadcastCode.other_code = 15

abbrev pub invalid_delegation : ℕ
invalid_delegation = 20

abbrev pub insufficient_resource : ℕ
insufficient_resource = 21

abbrev pub txid_mismatch : ℕ
txid_mismatch = 22

abbrev pub grant_not_visible : ℕ
grant_not_visible = 23

abbrev pub absent_after_expiration : ℕ
absent_after_expiration = 24

abbrev pub store_error : ℕ
store_error = 25

abbrev pub message_of : Error → ℕ
message_of (external m) = m
message_of e = store_error

-- `cursor.LastHeight-reference.Height > 10`, negated
abbrev pub is_recent : ReferenceBlock → Option Crawler → Bool
is_recent r none = true
is_recent r (some c) = not (ltb (r.height + 10) c.last_height)

abbrev pub choose_reference :
    Outside → Option ReferenceBlock → Option Crawler → Action ReferenceBlock
choose_reference out none c = ask out.now_block >>= expect
choose_reference out (some r) c = if is_recent r c then pure r else (ask out.now_block >>= expect)

-- `referenceBlock`
unfoldable pub reference_block : Outside → Action ReferenceBlock
reference_block out = do
  latest ← get (λ w. w.reference)
  cursor ← get (λ w. w.store.crawler)
  choose_reference out latest cursor

abbrev pub positive_amount : Option ℤ → Result ℕ
positive_amount (some (pos (suc n))) = ok (suc n)
positive_amount _ = err bad_argument

abbrev pub milliseconds : Time → ℕ
milliseconds t = t / 1_000_000

-- `signingInput`
unfoldable pub signing_input :
    EngineConfig
    → (from_address to_address : ℕ) (amount_raw : Text) (contract : Option ℕ) → ReferenceBlock
    → Result Transfer
signing_input cfg from_address to_address amount_raw contract reference =
    elim (positive_amount (set_string amount_raw)) [
      | err e ↦ err e
      | ok amount ↦
          if not reference.is_hexadecimal || (is_none contract && ltb max_int64 amount)
          then err bad_argument
          else ok (record {
            from_address = from_address;
            to_address = to_address;
            contract = contract;
            amount = amount;
            timestamp_ms = reference.timestamp_ms;
            expiration_ms = reference.timestamp_ms + milliseconds cfg.expiration;
            fee_limit = cfg.fee_limit_trx * 1_000_000;
            reference = reference;
          })
    ]

-- The second after which the transaction cannot be included.
abbrev pub expires_at : EngineConfig → ReferenceBlock → ℕ
expires_at cfg reference = reference.timestamp_ms / 1000 + cfg.expiration / second

-- A grant that fails is not pending.
abbrev pub give_up : ResourceGrant → (response : Option ℕ) → (reason : ℕ) → Action Bool
give_up g response reason = write (λ db. ok (fail_grant g.id response reason db)) >> pure false

-- The one broadcast of a transaction that is recorded before it: the store refuses a second attempt.
unfoldable pub send_grant : Outside → (id txid expiration : ℕ) → Action Response
send_grant out id txid expiration = do
  now ← ask out.clock
  write (persist_grant_attempt id txid now expiration)
  spend (Effect.sent_grant id) (λ n. out.send n txid)

abbrev pub unless_absent : ResourceGrant → Response → BroadcastCode → Lookup → Action Bool
unless_absent g r code (Lookup.known false) = give_up g (some (raw_response r)) (code_text code)
unless_absent g r code _ = pure true

abbrev pub after_broadcast :
    Outside → ResourceGrant → (txid : ℕ) → Response → Classification → Action Bool
after_broadcast out g txid r (Classification.deterministic code) =
    ask (λ n. out.transaction n txid) >>= unless_absent g r code
after_broadcast out g txid r _ = pure true

abbrev pub broadcast_encoded :
    Outside → ResourceGrant → (txid expiration : ℕ) → Option ℕ → Action Bool
broadcast_encoded out g txid expiration (some m) = give_up g none m
broadcast_encoded out g txid expiration none = do
  r ← send_grant out g.id txid expiration
  write (λ db. ok (record_grant_broadcast g.id (raw_response r) db))
  after_broadcast out g txid r (classify r)

-- `broadcastResourceGrant`: whether the grant is pending.
unfoldable pub broadcast_resource_grant :
    Outside → ResourceGrant → (txid expiration : ℕ) → Action Bool
broadcast_resource_grant out g txid expiration =
    ask (λ n. out.encode n txid) >>= broadcast_encoded out g txid expiration

-- A run whose error the caller handles.
unfoldable pub attempt : {A : Type 0} → Action A → Action (Result A)
attempt act w = let (r, w') = act w in (ok r, w')
