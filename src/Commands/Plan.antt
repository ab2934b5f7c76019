-- ===== src/Commands/Plan.antt =====
-- packages/game-engine/src/dispatcher.ts: the checks of an action plan and its commands.
use malign_ai.Base.{
  missing_reference, err, some, ℕ, ◌+◌, ◌-◌, String, Bool, true, false, List, [], ◌∷◌, ◌++◌, ◌==◌,
  nat_eq, ◌&&◌, ltb, not, if◌then◌else◌, Result, ok, ◌>>◌, fail_if, length, map, all_distinct,
  Exception, Option, none,
}
use malign_ai.Base.Int.{pos, negsuc, ◌+ℤ◌, ltb_ℤ}
use malign_ai.Base.Number.{Number, int, non_integer}
use malign_ai.Base.Dict.{insert}
use malign_ai.Base.Text.{◌<>◌}
use malign_ai.Commands.Contract.{ErrorCode}
use malign_ai.Commands.Model.{
  GameState, GameEvent, ParticipantState, PlanSlot, is_locked, locked, action_plan_locked,
  ap_committed, CampaignState,
}
use malign_ai.Rules.CampaignValue.{CampaignValueResult}

-- How a command fails: with a code, or with an exception.
pub data Failure : Type 0 where
  refusal : ErrorCode → Failure
  thrown : Exception → Failure

pub data ReplyPayload : Type 0 where
  created : CampaignState → ReplyPayload
  value : CampaignValueResult → ReplyPayload

-- What `reduce` returns, with the state that it leaves.
pub record Reduced : Type 0 where
  pub state : GameState
  pub code : String
  pub payload : Option ReplyPayload
  pub events : List GameEvent

-- `participant.x = …`, through the reference that the participants hold under the key.
abbrev pub write_participant : String → ParticipantState → GameState → GameState
write_participant key participant state = record state {
  participants = insert key participant state.participants;
}

-- `x === n` for a number and a count.
abbrev pub is_nat : Number → ℕ → Bool
is_nat (int (pos m)) n = m == n
is_nat (int (negsuc m)) n = false
is_nat non_integer n = false

-- `every(…)` over the slots, from the index that the first one has.
abbrev pub slots_in_order : ℕ → List PlanSlot → Bool
slots_in_order i [] = true
slots_in_order i (s ∷ ss) =
    is_nat s.ap_cost 1 && is_nat s.sequence_index (i + 1) && slots_in_order (i + 1) ss

-- The element of the `Set`; it is read only where every index is a count.
abbrev index_value : PlanSlot → ℕ
index_value s = elim s.sequence_index [ int (pos n) ↦ n | int (negsuc n) ↦ 0 | non_integer ↦ 0 ]

unfoldable pub valid_action_plan : List PlanSlot → Bool
valid_action_plan slots =
    if ltb 3 (length slots)
    then false
    else (slots_in_order 0 slots && all_distinct (map index_value slots))

abbrev pub add_number : Number → Number → Number
add_number (int a) (int b) = int (a +ℤ b)
add_number (int a) non_integer = non_integer
add_number non_integer b = non_integer

abbrev pub total_cost : Number → List PlanSlot → Number
total_cost sum [] = sum
total_cost sum (s ∷ ss) = total_cost (add_number sum s.ap_cost) ss

-- `apCost > available`. For a sum that is not an integer the answer of the floating-point order is
-- the parameter.
abbrev pub exceeds : (ℕ → Bool) → Number → ℕ → Bool
exceeds fraction_exceeds (int c) n = ltb_ℤ (pos n) c
exceeds fraction_exceeds non_integer n = fraction_exceeds n

-- The value of a cost that the checks have let through.
abbrev pub cost_value : Number → ℕ
cost_value (int (pos n)) = n
cost_value (int (negsuc n)) = 0
cost_value non_integer = 0

unfoldable pub set_plan :
    GameState → String → ParticipantState → List PlanSlot → Result Failure Reduced
set_plan state key participant slots = do
  fail_if (is_locked participant.plan_status) (refusal "ACTION_PLAN_LOCKED")
  fail_if (not (valid_action_plan slots)) (refusal "INVALID_ACTION_PLAN")
  ok (record {
    state = write_participant key (record participant { plan = slots }) state;
    code = "ACTION_PLAN_SET";
    payload = none;
    events = [];
  })

-- A payload without slots makes `validActionPlan` throw.
abbrev pub set_plan_from :
    GameState → String → ParticipantState → Option (List PlanSlot) → Result Failure Reduced
set_plan_from state key participant (some slots) = set_plan state key participant slots
set_plan_from state key participant none = do
  fail_if (is_locked participant.plan_status) (refusal "ACTION_PLAN_LOCKED")
  err (thrown missing_reference)

abbrev pub lock_events : String → List GameEvent
lock_events command_id =
    (record { id = command_id <> ":plan-locked"; event_type = action_plan_locked })
    ∷ (record { id = command_id <> ":ap"; event_type = ap_committed })
    ∷ []

unfoldable pub lock_plan :
    (ℕ → Bool) → GameState → String → ParticipantState → String → Result Failure Reduced
lock_plan fraction_exceeds state key participant command_id = do
  fail_if (is_locked participant.plan_status) (refusal "ACTION_PLAN_LOCKED")
  let cost = total_cost (int (pos 0)) participant.plan
  fail_if (ltb 3 (length participant.plan)) (refusal "INSUFFICIENT_AP")
  fail_if (exceeds fraction_exceeds cost participant.action_points_available)
      (refusal "INSUFFICIENT_AP")
  fail_if (not (valid_action_plan participant.plan)) (refusal "INVALID_ACTION_PLAN")
  let held = record participant {
    action_points_available = participant.action_points_available - cost_value cost;
    plan_status = locked;
  }
  let written = write_participant key held state
  ok (record {
    state = record written { events = written.events ++ lock_events command_id };
    code = "ACTION_PLAN_LOCKED";
    payload = none;
    events = lock_events command_id;
  })
