-- ===== src/Endgame.antt =====
-- The end of the game: packages/game-engine/src/m2b-endgame.ts over packages/domain/src/m2b-endgame.ts.
pub mod Winners
pub mod Objectives
pub mod Final
pub mod Tests
