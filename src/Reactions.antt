-- ===== src/Reactions.antt =====
-- Reaction windows: packages/game-engine/src/m2b-reaction.ts over packages/domain/src/m2b-reaction.ts.
pub mod Window
pub mod Play
pub mod Turns
pub mod Atomicity
pub mod Veto
pub mod Tests
