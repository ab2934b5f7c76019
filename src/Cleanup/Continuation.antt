-- ===== src/Cleanup/Continuation.antt =====
-- m2b-lifecycle.ts: the steps of a cleanup as a continuation that the game's version guards.
use malign_ai.Base.{
  ℕ, ◌+◌, ◌==◌, nat_eq, not, String, Option, some, none, List, Result, ok, ◌>>=◌, ◌>>◌, fail_if,
  or_fail,
}
use malign_ai.Base.Dict.{Dict}
use malign_ai.Effects.Types.{InfluenceType}
use malign_ai.Cleanup.Viral.{
  ViralOrigin, Variant, LifecycleError, stale_cleanup_continuation, invalid_cleanup_step,
}

pub data CleanupStep : Type 0 where
  aging viral_snapshot viral_resolution reset end_turn complete : CleanupStep

pub record CleanupContinuation : Type 0 where
  pub id : String
  pub expected_game_version : ℕ
  pub step : CleanupStep
  pub viral_origins : List ViralOrigin
  pub next_origin_index : ℕ
  pub variant : Option Variant
  pub tie_choices : Option (Dict InfluenceType)

unfoldable pub make_cleanup_continuation :
    String → ℕ → CleanupStep → List ViralOrigin → ℕ → CleanupContinuation
make_cleanup_continuation id version step origins index = record {
  id = id;
  expected_game_version = version;
  step = step;
  viral_origins = origins;
  next_origin_index = index;
  variant = none;
  tie_choices = none;
}

-- `steps[index + 1]`
abbrev pub next_step : CleanupStep → Option CleanupStep
next_step aging = some viral_snapshot
next_step viral_snapshot = some viral_resolution
next_step viral_resolution = some reset
next_step reset = some end_turn
next_step end_turn = some complete
next_step complete = none

unfoldable pub advance_cleanup_continuation :
    CleanupContinuation → ℕ → Result LifecycleError CleanupContinuation
advance_cleanup_continuation continuation current_version = do
  fail_if (not (continuation.expected_game_version == current_version)) stale_cleanup_continuation
  step ← or_fail (next_step continuation.step) invalid_cleanup_step
  ok (record continuation { expected_game_version = current_version + 1; step = step })

-- The steps that are left.
abbrev pub steps_left : CleanupStep → ℕ
steps_left aging = 5
steps_left viral_snapshot = 4
steps_left viral_resolution = 3
steps_left reset = 2
steps_left end_turn = 1
steps_left complete = 0
