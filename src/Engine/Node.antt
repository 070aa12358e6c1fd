-- ===== src/Engine/Node.antt =====
-- What the node answers, after the decoding of JSON, and what the engine computes of it
-- (internal/withdraw/engine.go: resourceState, classifyBroadcast, delegationAmount, receipt).
use payd.Prelude.{
  ℕ, suc, ◌+◌, ◌*◌, ◌/◌, Bool, true, false, not, ◌&&◌, Option, none, some, leb, ltb, if◌then◌else◌,
  ℤ, pos, Result, ok, err, bad_argument, coalesce,
}
use payd.Decimal.{Text}
use payd.Schema.{ResourceType}
use payd.Orders.{max_int64}

-- An answer from outside: a value, or an error with its text.
pub data Answer (A : Type 0) : Type 0 where
  answered : A → Answer A
  refused : (message : ℕ) → Answer A

-- `resourceState`: signed, since what is used may exceed a limit that was lowered.
pub record ResourceState : Type 0 where
  pub energy : ℤ
  pub bandwidth : ℤ
  pub total_energy_limit : ℤ
  pub total_energy_weight : ℤ
  pub total_bandwidth_limit : ℤ
  pub total_bandwidth_weight : ℤ

-- `ReferenceBlock`: the engine computes with the height and the time; its other fields are texts
-- that are all hexadecimal or not.
pub record ReferenceBlock : Type 0 where
  pub height : ℕ
  pub timestamp_ms : ℕ
  pub id : ℕ
  pub is_hexadecimal : Bool

-- The answer for a transaction: an error of the call, a body that does not parse, or whether the
-- transaction is known (`transactionFound`).
pub data Lookup : Type 0 where
  unreachable unreadable : (message : ℕ) → Lookup
  known : Bool → Lookup

-- `receipt`; `result` is none where the text is empty or `SUCCESS`.
pub record Receipt : Type 0 where
  pub fee_raw : Text
  pub energy_used : ℕ
  pub block_height : ℕ
  pub block_timestamp : ℕ
  pub result : Option ℕ

-- The answer of the solidified node: likewise, and `unsolid` where it has no receipt yet.
pub data ReceiptLookup : Type 0 where
  unreachable unreadable : (message : ℕ) → ReceiptLookup
  unsolid : ReceiptLookup
  solid : Receipt → ReceiptLookup

-- The code of a broadcast, in upper case: one for which the source looks, or another.
pub data BroadcastCode : Type 0 where
  sigerror tapos_error expiration_error contract_validate_error bandwith_error : BroadcastCode
  other_code : BroadcastCode

-- What the decoder leaves of the body, also where it ends with an error.
pub record Body : Type 0 where
  pub parses : Bool
  pub result : Bool
  pub code : BroadcastCode

-- `chain.Response` and the error of the call; `text` is none where it is empty.
pub record Response : Type 0 where
  pub status_code : ℕ
  pub text : Option ℕ
  pub body : Body
  pub send_error : Option ℕ

pub data Classification : Type 0 where
  accepted ambiguous : Classification
  deterministic : BroadcastCode → Classification

abbrev pub by_code : BroadcastCode → Classification
by_code BroadcastCode.other_code = Classification.ambiguous
by_code c = Classification.deterministic c

abbrev pub has_error : Response → Bool
has_error r = elim r.send_error [ none ↦ false | some m ↦ true ]

-- `rawResponse`
abbrev pub raw_response : Response → ℕ
raw_response r = coalesce r.text (coalesce r.send_error 0)

abbrev pub is_success_code : ℕ → Bool
is_success_code c = leb 200 c && ltb c 300

-- `classifyBroadcast`
unfoldable pub classify : Response → Classification
classify r =
    if r.body.parses && (r.body.result && (not (has_error r) && is_success_code r.status_code))
    then Classification.accepted
    else by_code r.body.code

abbrev pub one_trx : ℕ
one_trx = 1_000_000

-- The division of `delegationAmount`, rounded up, and the least amount that the protocol takes.
abbrev pub rounded_up : (missing weight pred_limit : ℕ) → ℕ
rounded_up missing weight pred_limit = (missing * weight * one_trx + pred_limit) / suc pred_limit

abbrev pub at_least_one : ℕ → ℕ
at_least_one n = if ltb n one_trx then one_trx else n

abbrev pub int64_or_error : ℕ → Result ℕ
int64_or_error n = if leb n max_int64 then ok n else err bad_argument

-- missing ≤ 0, limit ≤ 0 or weight ≤ 0 is an error
abbrev pub amount_for : (missing limit weight : ℤ) → Result ℕ
amount_for (pos (suc m)) (pos (suc l)) (pos (suc w)) =
    int64_or_error (at_least_one (rounded_up (suc m) (suc w) l))
amount_for _ _ _ = err bad_argument

-- `delegationAmount`
unfoldable pub delegation_amount : ResourceType → (missing : ℤ) → ResourceState → Result ℕ
delegation_amount ResourceType.energy missing r =
    amount_for missing r.total_energy_limit r.total_energy_weight
delegation_amount ResourceType.bandwidth missing r =
    amount_for missing r.total_bandwidth_limit r.total_bandwidth_weight
