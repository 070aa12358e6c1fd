-- ===== src/Engine.antt =====
-- The withdrawal engine (internal/withdraw/engine.go).
--   Action     the world of the engine, its actions, and the calls that leave the program
--   Node       the decoded answers of the node, classifyBroadcast, delegationAmount
--   Delegate   the grants of resources: startDelegation to reconcileResourceGrant
--   Rent       the purchases of rented energy and the provider's circuit breaker
--   Broadcast  referenceBlock, signingInput, broadcastResourceGrant
--   Energy     sourceEnergy
--   Resolve    resolve, signAndBroadcast
--   Balance    checkProviderBalance
--   Supply, Bandwidth, Send
--              acquireAndSend, canBurnBandwidth, sourceBandwidth
--   Tick       recover, Tick
--   Manual     EstimateResources, DelegateResources
--   Amounts, Circuit, Queue, Burning, Settling, Once
--              theorems
pub mod Node
pub mod Action
pub mod Broadcast
pub mod Delegate
pub mod Rent
pub mod Balance
pub mod Energy
pub mod Resolve
pub mod Supply
pub mod Bandwidth
pub mod Send
pub mod Tick
pub mod Manual
pub mod Amounts
pub mod Settling
pub mod Circuit
pub mod Queue
pub mod Burning
pub mod Once
