-- ===== src/Commands/Dispatcher/Safety.antt =====
-- dispatcher.ts: no readable command of a sound game throws, and each leaves a sound game.
use malign_ai.Base.{true, ◌≡◌, ℕ, String, Bool, List, refl, not, string_eq, ltb, length}
use malign_ai.Base.Dict.{lookup}
use malign_ai.Base.Int.{pos}
use malign_ai.Base.Number.{int}
use malign_ai.Commands.Model.{
  GameState, GameCommandType, GameCommandPayload, plan_payload, empty_payload, construct_payload,
  modify_payload, activate_payload, set_action_plan, lock_action_plan, construct, modify, activate,
  end_game_scoring, ParticipantState, PlanSlot, is_locked,
}
use malign_ai.Commands.Payload.{slots_in, as_construct, as_activate, has_slots}
use malign_ai.Commands.Plan.{
  set_plan_from, Reduced, exceeds, total_cost, set_plan, lock_plan, valid_action_plan,
}
use malign_ai.Commands.Dispatcher.{
  Envelope, IsReadable, reduce, run_command, is_scoring, is_in_phase,
}
use malign_ai.Commands.Dispatcher.Ensures.{
  Ensures, returns, refuses, after_fail_if, after_or_fail, Ensures-map,
}
use malign_ai.Commands.Dispatcher.Sound.{IsSound}
use malign_ai.Commands.Dispatcher.Activation.{activate_campaign-Activated}
use malign_ai.Commands.Dispatcher.Construction.{construct_campaign-Constructed}
use malign_ai.Commands.Dispatcher.Modification.{modify_from-Modified}

abbrev pub Leaves : Reduced → Type 0
Leaves r = IsSound r.state

set_plan-IsSound :
    (s : GameState) (key : String) (p : ParticipantState) (slots : List PlanSlot)
    → IsSound s
    → Ensures Leaves (set_plan s key p slots)
unfolding set_plan
set_plan-IsSound s key p slots h =
    after_fail_if (is_locked p.plan_status) "ACTION_PLAN_LOCKED" _ λ _.
      after_fail_if (not (valid_action_plan slots)) "INVALID_ACTION_PLAN" _
        λ _. returns _ refl (record { named = h.named; counts = h.counts; placed = h.placed })

lock_plan-IsSound :
    (f : ℕ → Bool) (s : GameState) (key : String) (p : ParticipantState) (command_id : String)
    → IsSound s
    → Ensures Leaves (lock_plan f s key p command_id)
unfolding lock_plan
lock_plan-IsSound f s key p command_id h =
    after_fail_if (is_locked p.plan_status) "ACTION_PLAN_LOCKED" _ λ _.
      after_fail_if (ltb 3 (length p.plan)) "INSUFFICIENT_AP" _ λ _.
        after_fail_if (exceeds f (total_cost (int (pos 0)) p.plan) p.action_points_available)
          "INSUFFICIENT_AP" _
          λ _.
            after_fail_if (not (valid_action_plan p.plan)) "INVALID_ACTION_PLAN" _
              λ _. returns _ refl (record { named = h.named; counts = h.counts; placed = h.placed })

set_plan_from-IsSound :
    (s : GameState) (key : String) (p : ParticipantState) (payload : GameCommandPayload)
    → has_slots set_action_plan payload ≡ true
    → IsSound s
    → Ensures Leaves (set_plan_from s key p (slots_in payload))
set_plan_from-IsSound s key p (plan_payload slots) e h = set_plan-IsSound s key p slots h
set_plan_from-IsSound s key p empty_payload e h = absurd (cc)
set_plan_from-IsSound s key p (construct_payload _) e h = absurd (cc)
set_plan_from-IsSound s key p (modify_payload _) e h = absurd (cc)
set_plan_from-IsSound s key p (activate_payload _) e h = absurd (cc)

run_command-IsSound :
    (f : ℕ → Bool) (s : GameState) (key : String) (p : ParticipantState) (command_id : String)
    (command : GameCommandType) (payload : GameCommandPayload)
    → has_slots command payload ≡ true
    → IsSound s
    → Ensures Leaves (run_command f s key p command_id command payload)
run_command-IsSound f s key p command_id set_action_plan payload e h =
    set_plan_from-IsSound s key p payload e h
run_command-IsSound f s key p command_id lock_action_plan payload e h =
    lock_plan-IsSound f s key p command_id h
run_command-IsSound f s key p command_id construct payload e h =
    Ensures-map (λ _ both. both.0)
      (construct_campaign-Constructed s p.id command_id (as_construct payload) h)
run_command-IsSound f s key p command_id modify payload e h =
    Ensures-map (λ _ both. both.0) (modify_from-Modified s p.id command_id payload h)
run_command-IsSound f s key p command_id activate payload e h =
    Ensures-map (λ _ both. both.0)
      (activate_campaign-Activated s p.id command_id (as_activate payload) h)
run_command-IsSound f s key p command_id end_game_scoring payload e h =
    refuses "ILLEGAL_STATE_TRANSITION" refl

-- A sound game has cards under their own ids with definitions that are there, definitions whose
-- influence values are counts, and campaigns whose assigned cards carry a value for their slots. A
-- readable command has slots if it sets a plan, and names no id that every record inherits. Such a
-- command of such a game does not throw: `reduce` either refuses with a code, or returns, and then
-- the game it leaves is sound again.
pub reduce-IsSound :
    (fraction_exceeds : ℕ → Bool) (s : GameState) (envelope : Envelope)
    → IsSound s
    → IsReadable envelope
    → Ensures Leaves (reduce fraction_exceeds s envelope)
unfolding reduce
reduce-IsSound f s envelope h readable =
    after_fail_if (is_scoring envelope.command_type) "ILLEGAL_STATE_TRANSITION" _ λ _.
      after_fail_if (not (is_in_phase envelope.command_type s.phase)) "WRONG_PHASE" _ λ _.
        after_or_fail (envelope.actor_context).participant_id "NOT_AUTHORIZED" _ λ key _.
          after_or_fail (lookup key s.participants) "NOT_AUTHORIZED" _ λ participant _.
            run_command-IsSound f s key participant envelope.command_id envelope.command_type
              envelope.payload readable.slots h
