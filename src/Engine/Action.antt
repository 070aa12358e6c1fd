-- ===== src/Engine/Action.antt =====
-- The world of the engine and its actions (internal/withdraw/engine.go: Engine, the interfaces
-- Reader, SolidityReader, Broadcaster and Signer; internal/energy/provider.go: Provider).
pub mod Keeps
use payd.Prelude.{
  ℕ, ◌+◌, Bool, Option, none, some, List, [], ◌∷◌, ◌++◌, ℤ, Result, ok, err, Error, external,
}
use payd.Decimal.{Text}
use payd.Schema.{Time, Database, Price, ResourceType, EventConfig}
use payd.Engine.Node.{Answer, ResourceState, ReferenceBlock, Lookup, ReceiptLookup, Response}

-- `GetCanDelegatedMaxSize`: the text of the answer, none where it is empty, and the size, none where
-- the call fails or the text does not parse.
pub record Capacity : Type 0 where
  pub text : Option ℕ
  pub size : Option ℕ

-- `DelegateResource` of the node: the transaction that it proposes.
pub record Unsigned : Type 0 where
  pub text : ℕ
  pub txid : ℕ
  pub expiration : ℕ

-- What `unsignedTransaction` reads of it.
pub data Proposal : Type 0 where
  not_proposed : (message : ℕ) → Proposal
  malformed : (text message : ℕ) → Proposal
  proposed : Unsigned → Proposal

-- `signingInput`: who pays whom how much in which contract, with the times of the reference block.
pub record Transfer : Type 0 where
  pub from_address : ℕ
  pub to_address : ℕ
  pub contract : Option ℕ
  pub amount : ℕ
  pub timestamp_ms : ℕ
  pub expiration_ms : ℕ
  pub fee_limit : ℕ
  pub reference : ReferenceBlock

pub data OrderState : Type 0 where
  order_failed order_success order_pending : OrderState

-- `energy.Order` and `energy.Status`
pub record ProviderOrder : Type 0 where
  pub id : Option ℕ
  pub state : OrderState
  pub actual_trx : Option Price
  pub delegation_txid : Option ℕ

-- `config.Asset`: the contract of a token, or none where the asset is native.
pub record Asset : Type 0 where
  pub symbol : ℕ
  pub contract : Option ℕ

-- The settings that the engine reads.
pub record EngineConfig : Type 0 where
  pub enabled : Bool
  pub expiration : Time
  pub fee_limit_trx : ℕ
  pub assets : List Asset
  pub resource_wallet_index : ℕ
  pub min_energy : ℕ
  pub min_bandwidth : ℕ
  pub delegates_bandwidth : Bool
  pub bandwidth_topup_trx : Text
  pub energy_enabled : Bool
  pub provider_name : ℕ
  pub rent_amount : ℕ
  pub rent_duration : Time
  pub max_price_trx : Price
  pub balance_warn_trx : Price
  pub poll_interval : Time
  pub poll_timeout : Time
  pub fallback_to_burn : Bool
  pub max_burn_trx : Text
  pub events : EventConfig

-- A call that commits something outside: a broadcast for a withdrawal or for a grant, or a prepaid
-- purchase.
pub data Effect : Type 0 where
  sent_withdrawal sent_grant purchased : ℕ → Effect

-- The store, the engine's own state, and what has gone out. `calls` counts the calls outside, so
-- that no two of them need have the same answer.
pub record World : Type 0 where
  pub store : Database
  pub reference : Option ReferenceBlock
  pub circuit_until : Option Time
  pub next_balance_check : Option Time
  pub next_energy_poll : List (ℕ × Time)
  pub provider_balance : Option (Price × Bool)
  pub effects : List Effect
  pub calls : ℕ

-- The provider of energy, by the number of the call.
pub record Provider : Type 0 where
  pub quote : ℕ → (receiver : ℕ) → Answer Price
  pub purchase : ℕ → (purchase_id : ℕ) → Answer ProviderOrder
  pub status : ℕ → (order_id : Option ℕ) → Answer ProviderOrder
  pub balance : ℕ → Answer Price

-- What is outside, likewise: the clock, the node, the signer, and the provider, which is absent where
-- renting is not configured. The signer signs and extracts the identifier; `encode` is
-- `broadcastHexPayload`, with the message where the payload cannot be encoded.
pub record Outside : Type 0 where
  pub clock : ℕ → Time
  pub account_resource : ℕ → (address : ℕ) → Answer ResourceState
  pub account_balance : ℕ → (address : ℕ) → Answer ℕ
  pub now_block : ℕ → Answer ReferenceBlock
  pub transaction : ℕ → (txid : ℕ) → Lookup
  pub transaction_info : ℕ → (txid : ℕ) → ReceiptLookup
  pub can_delegate : ℕ → (owner : ℕ) → ResourceType → Capacity
  pub delegate : ℕ → (owner receiver : ℕ) → ResourceType → (amount : ℤ) → Proposal
  pub sign : ℕ → (index : ℕ) → Transfer → Answer ℕ
  pub sign_unsigned : ℕ → (index : ℕ) → Unsigned → Answer ℕ
  pub encode : ℕ → (txid : ℕ) → Option ℕ
  pub send : ℕ → (txid : ℕ) → Response
  pub provider : Option Provider

-- An action ends with a value or an error; the world it leaves is kept in both cases, since each
-- method of the store is a transaction of its own.
abbrev pub Action : Type 0 → Type 0
Action A = World → Result A × World

abbrev pub pure : {A : Type 0} → A → Action A
pure a w = (ok a, w)

abbrev pub raise : {A : Type 0} → Error → Action A
raise e w = (err e, w)

abbrev pub follow : {A B : Type 0} → Result A × World → (A → Action B) → Result B × World
follow (ok a, w) next = next a w
follow (err e, w) next = (err e, w)

infixl 5 ◌>>=◌ ◌>>◌
abbrev pub ◌>>=◌ : {A B : Type 0} → Action A → (A → Action B) → Action B
◌>>=◌ act next w = follow (act w) next

abbrev pub ◌>>◌ : {B : Type 0} → Action (Unit {0}) → Action B → Action B
act >> next = act >>= λ u. next

-- A call outside: its answer depends on the number of the call.
unfoldable pub ask : {A : Type 0} → (ℕ → A) → Action A
ask answer w = (ok (answer w.calls), record w { calls = w.calls + 1 })

abbrev pub expect : {A : Type 0} → Answer A → Action A
expect (Answer.answered a) = pure a
expect (Answer.refused m) = raise (external m)

-- Reading the world.
unfoldable pub get : {A : Type 0} → (World → A) → Action A
get f w = (ok (f w), w)

-- A method of the store that writes.
abbrev pub written : World → Result Database → Result (Unit {0}) × World
written w (ok db) = (ok tt, record w { store = db })
written w (err e) = (err e, w)

unfoldable pub write : (Database → Result Database) → Action (Unit {0})
write f w = written w (f w.store)

abbrev pub returned : {A : Type 0} → World → Result (A × Database) → Result A × World
returned w (ok (a, db)) = (ok a, record w { store = db })
returned w (err e) = (err e, w)

-- A method of the store that writes and returns a value.
unfoldable pub call : {A : Type 0} → (Database → Result (A × Database)) → Action A
call f w = returned w (f w.store)

-- The engine's own fields, under its mutex: no field of the store and nothing outside.
pub record Fields : Type 0 where
  pub circuit_until : Option Time
  pub next_balance_check : Option Time
  pub next_energy_poll : List (ℕ × Time)
  pub provider_balance : Option (Price × Bool)

abbrev pub fields : World → Fields
fields w = record {
  circuit_until = w.circuit_until;
  next_balance_check = w.next_balance_check;
  next_energy_poll = w.next_energy_poll;
  provider_balance = w.provider_balance;
}

unfoldable pub set : (Fields → Fields) → Action (Unit {0})
set f w =
    let new = f (fields w) in
    (
      ok tt,
      record w {
        circuit_until = new.circuit_until;
        next_balance_check = new.next_balance_check;
        next_energy_poll = new.next_energy_poll;
        provider_balance = new.provider_balance;
      },
    )

-- The calls outside that commit something: each is recorded.
unfoldable pub spend : {A : Type 0} → Effect → (ℕ → A) → Action A
spend effect answer w =
    (ok (answer w.calls), record w { calls = w.calls + 1; effects = w.effects ++ effect ∷ [] })
