-- ===== src/Reactions/Window.antt =====
-- m2b-reaction.ts: the windows, in which participants react or pass in the order of priority.
use malign_ai.Base.{
  ℕ, suc, ◌+◌, String, Bool, Option, none, some, List, [], ◌∷◌, ◌++◌, ◌==◌, nat_eq, string_eq,
  if◌then◌else◌, not, leb, length, index_of, get_elem?, take, drop, Result, ok, ◌>>◌, fail_if,
}

pub data WindowStatus : Type 0 where
  window_open waiting_for_priority_player resolving_reaction child_window closed : WindowStatus

pub data ReactionTrigger : Type 0 where
  double_agent corruption cyberattack hack_back pre_roll narrative leaks_drawn : ReactionTrigger

abbrev pub trigger_index : ReactionTrigger → ℕ
trigger_index double_agent = 0
trigger_index corruption = 1
trigger_index cyberattack = 2
trigger_index hack_back = 3
trigger_index pre_roll = 4
trigger_index narrative = 5
trigger_index leaks_drawn = 6

abbrev pub is_closed : WindowStatus → Bool
is_closed closed = Bool.true
is_closed _ = Bool.false

pub data PlayOutcome : Type 0 where
  negated failed pending_child vote_pending : PlayOutcome

pub record ReactionPlayRecord : Type 0 where
  pub participant_id : String
  pub card_id : String
  pub effect_id : String
  pub outcome : PlayOutcome

-- `version` is 1 and `expiresAt` is null in every window.
pub record ReactionWindow : Type 0 where
  pub id : String
  pub trigger : ReactionTrigger
  pub triggering_participant_id : String
  pub triggering_campaign_id : Option String
  pub triggering_card_id : Option String
  pub priority_participant_ids : List String
  pub priority_index : ℕ
  pub status : WindowStatus
  pub parent_window_id : Option String
  pub passes : List String
  pub plays : List ReactionPlayRecord

pub data ReactionError : Type 0 where
  reaction_window_closed reaction_not_eligible reaction_not_priority : ReactionError
  veto_abuse stale_continuation invalid_reaction_input : ReactionError

-- Those after the actor in the initiative, and then those before.
abbrev pub rotated_at : Option ℕ → List String → List String
rotated_at none initiative = []
rotated_at (some i) initiative = drop (suc i) initiative ++ take i initiative

unfoldable pub reaction_priority : List String → String → List String
reaction_priority initiative actor_id = rotated_at (index_of actor_id initiative) initiative

-- The campaign and the card that triggered the window, if there are such.
unfoldable pub open_reaction_window :
    String
    → ReactionTrigger
    → String
    → List String
    → Option String
    → Option String
    → Option String
    → ReactionWindow
open_reaction_window id trigger actor_id initiative parent campaign_id card_id = record {
  id = id;
  trigger = trigger;
  triggering_participant_id = actor_id;
  triggering_campaign_id = campaign_id;
  triggering_card_id = card_id;
  priority_participant_ids = reaction_priority initiative actor_id;
  priority_index = 0;
  status = waiting_for_priority_player;
  parent_window_id = parent;
  passes = [];
  plays = [];
}

-- `priorityParticipantIds[priorityIndex] !== participantId`
abbrev is_participant : Option String → String → Bool
is_participant none participant_id = Bool.false
is_participant (some id) participant_id = id == participant_id

abbrev pub has_priority : ReactionWindow → String → Bool
has_priority window participant_id =
    is_participant (get_elem? window.priority_participant_ids window.priority_index) participant_id

-- The window after a participant has passed.
abbrev pub passed_on : ReactionWindow → String → ReactionWindow
passed_on window participant_id = record window {
  passes = window.passes ++ participant_id ∷ [];
  priority_index = window.priority_index + 1;
  status =
      if leb (length window.priority_participant_ids) (window.priority_index + 1)
      then closed
      else window.status;
}

unfoldable pub pass_reaction_priority :
    ReactionWindow → String → Result ReactionError ReactionWindow
pass_reaction_priority window participant_id = do
  fail_if (is_closed window.status) reaction_window_closed
  fail_if (not (has_priority window participant_id)) reaction_not_priority
  ok (passed_on window participant_id)
