-- ===== src/Effects.antt =====
-- Card and regime effects: packages/game-engine/src/m2b.ts over packages/domain/src/m2b.ts.
pub mod Types
pub mod Names
pub mod Parameters
pub mod Cards
pub mod Influence
pub mod Resources
pub mod Regime
pub mod Legitimacy
pub mod Registry
pub mod Handlers
pub mod Ends
pub mod Wealth
pub mod Moves
pub mod Steps
pub mod Dispatch
pub mod Scheduler
pub mod Tests
