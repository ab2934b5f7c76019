-- ===== src/Commands.antt =====
-- Commands: the contract of packages/contracts, and packages/game-engine's atomic dispatch of a
-- command with its versions and idempotency keys, and the dispatcher of the basic commands.
pub mod Contract
pub mod Atomic
pub mod Model
pub mod Payload
pub mod Plan
pub mod Campaigns
pub mod Dispatcher
