-- ===== src/Cleanup/Completion.antt =====
-- m2b-lifecycle.ts: a cleanup comes to its end.
use malign_ai.Base.{
  ℕ, ◌+◌, suc, zero, ◌==◌, nat_eq, Result, ok, err, ◌>>=◌, ◌≡◌, refl, ap, ◌∙◌, arith, ◌≤◌,
  if◌then◌else◌, Option,
}
use malign_ai.Cleanup.Viral.{LifecycleError, stale_cleanup_continuation, invalid_cleanup_step}
use malign_ai.Cleanup.Continuation.{
  CleanupContinuation, CleanupStep, aging, viral_snapshot, viral_resolution, reset, end_turn,
  complete, steps_left, advance_cleanup_continuation, next_step,
}

-- Advancing while there is a next step, each time at the version that the continuation expects.
pub advance_all : ℕ → CleanupContinuation → Result LifecycleError CleanupContinuation
unfolding advance_cleanup_continuation
advance_all zero c = ok c
advance_all (suc n) c = advance_cleanup_continuation c c.expected_game_version >>= advance_all n

abbrev finished : ℕ → CleanupContinuation → CleanupContinuation
finished n c = record c { expected_game_version = c.expected_game_version + n; step = complete }

-- Advancing at the version that is expected, while the continuation has a step after its own.
advance_step :
    (s t : CleanupStep) (c : CleanupContinuation)
    → c.step ≡ s
    → next_step s ≡ Option.some t
    → advance_cleanup_continuation c c.expected_game_version
      ≡ ok (record c { expected_game_version = c.expected_game_version + 1; step = t })
unfolding advance_cleanup_continuation
advance_step s t c e n = ground arith

advance_through :
    (s t : CleanupStep) (n : ℕ) (c : CleanupContinuation)
    → next_step s ≡ Option.some t
    → ((d : CleanupContinuation) → d.step ≡ t → advance_all n d ≡ ok (finished n d))
    → c.step ≡ s
    → advance_all (suc n) c ≡ ok (finished (suc n) c)
unfolding advance_all
advance_through s t n c next rest e =
    let d : CleanupContinuation = record c {
      expected_game_version = c.expected_game_version + 1;
      step = t;
    } in
    ap (λ r. r >>= advance_all n) (advance_step s t c e next)
    ∙ rest d refl
    ∙ ap (λ v. ok (record c { expected_game_version = v; step = complete })) (omega arith)

abbrev Completes : ℕ → CleanupStep → Type 0
Completes n s = (c : CleanupContinuation) → c.step ≡ s → advance_all n c ≡ ok (finished n c)

from_complete : Completes 0 complete
unfolding advance_all
from_complete c e = ground arith

from_end_turn : Completes 1 end_turn
from_end_turn c = advance_through end_turn complete 0 c refl from_complete

from_reset : Completes 2 reset
from_reset c = advance_through reset end_turn 1 c refl from_end_turn

from_resolution : Completes 3 viral_resolution
from_resolution c = advance_through viral_resolution reset 2 c refl from_reset

from_snapshot : Completes 4 viral_snapshot
from_snapshot c = advance_through viral_snapshot viral_resolution 3 c refl from_resolution

from_aging : Completes 5 aging
from_aging c = advance_through aging viral_snapshot 4 c refl from_snapshot

from_any : (s : CleanupStep) → Completes (steps_left s) s
from_any aging = from_aging
from_any viral_snapshot = from_snapshot
from_any viral_resolution = from_resolution
from_any reset = from_reset
from_any end_turn = from_end_turn
from_any complete = from_complete

-- Advanced again and again at the version that it expects, a cleanup is completed by just the steps
-- that are left, five at the most. Each takes the version up by one, and its id and its viral origins
-- stay; once completed it is advanced no more, at the expected version nor at another.
pub advance_all_completes :
    (c : CleanupContinuation)
    → (d : CleanupContinuation) × (advance_all (steps_left c.step) c ≡ ok d)
      × (d.step ≡ complete)
      × (steps_left c.step ≤ 5)
      × (d.expected_game_version ≡ c.expected_game_version + steps_left c.step)
      × (d.id ≡ c.id)
      × (d.viral_origins ≡ c.viral_origins)
      × ((version : ℕ)
          → advance_cleanup_continuation d version
            ≡ err (
                if d.expected_game_version == version
                then invalid_cleanup_step
                else stale_cleanup_continuation))
unfolding advance_cleanup_continuation
advance_all_completes c = (
  finished (steps_left c.step) c,
  from_any c.step c refl,
  refl,
  at_most_five c.step,
  refl,
  refl,
  refl,
  λ version. ground arith,
)
  where
    at_most_five : (s : CleanupStep) → steps_left s ≤ 5
    at_most_five s = ground arith
