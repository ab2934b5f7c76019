-- ===== src/Sessions.antt =====
-- packages/authz: who is behind a command, from the token's session to the actor of a game.
pub mod Registry
pub mod Authority
pub mod Tests
