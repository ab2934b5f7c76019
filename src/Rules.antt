-- ===== src/Rules.antt =====
-- The pure rule kernel, packages/rules/src: campaign values, two-to-one cancellation of influence
-- cubes, the effect resolution table and the global numeric invariants.
pub mod Types
pub mod CampaignValue
pub mod Cubes
pub mod Ert
pub mod Invariants
pub mod Tests
