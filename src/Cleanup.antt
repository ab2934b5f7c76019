-- ===== src/Cleanup.antt =====
-- packages/game-engine/src/m2b-lifecycle.ts over the types of packages/domain/src/m2b-lifecycle.ts:
-- the cleanup at the end of a turn.
pub mod Aging
pub mod Viral
pub mod Continuation
pub mod Tests
pub mod Rows
pub mod Origins
pub mod Spread
pub mod Completion
