-- ===== src/Rules/Cubes.antt =====
-- packages/rules/src/cubes.ts
pub mod Cancellation
use malign_ai.Base.{ℕ, ◌-◌, ◌*◌, ◌/◌, leb, if◌then◌else◌, Result, ok, ◌>>=◌, Exception}
use malign_ai.Base.Number.{Number, require_count}

pub record TwoToOneResolution : Type 0 where
  pub generated : ℕ
  pub consumed_in_cancellation : ℕ
  pub opposite_removed : ℕ
  pub placed : ℕ
  pub opposite_remaining : ℕ

-- The body of `resolveTwoToOne` on the counts that its checks let through.
unfoldable pub two_to_one : ℕ → ℕ → TwoToOneResolution
two_to_one generated opposite =
    let half = generated / 2 in
    let removed = if leb half opposite then half else opposite in
    record {
      generated = generated;
      consumed_in_cancellation = removed * 2;
      opposite_removed = removed;
      placed = generated - removed * 2;
      opposite_remaining = opposite - removed;
    }

unfoldable pub resolve_two_to_one : Number → Number → Result Exception TwoToOneResolution
resolve_two_to_one incoming_count opposite_existing = do
  generated ← require_count incoming_count
  opposite ← require_count opposite_existing
  ok (two_to_one generated opposite)
