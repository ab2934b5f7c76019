-- ===== src/Commands/Dispatcher/Tests.antt =====
-- dispatcher.ts: a game of one player, with one campaign.
use malign_ai.Base.{
  missing_reference, ℕ, ◌+◌, ◌≤◌, String, Bool, true, false, none, some, [], ◌∷◌, ◌≡◌, refl, ok,
  err, arith, eq_iff, Result, length,
}
use malign_ai.Base.Int.{◌+ℤ◌}
use malign_ai.Base.Number.{nat, Number}
use malign_ai.Base.Dict.{lookup, insert}
use malign_ai.Rules.Types.{malign, intent, method, SlotValues, at_slot, CampaignSlot}
use malign_ai.Rules.CampaignValue.{CampaignValueResult, calculate_campaign_value}
use malign_ai.Commands.Contract.{player, CommandResult}
use malign_ai.Commands.Model.{
  GameState, resolution_stage, action_stage_plan, GamePhase, active, campaign, aligned,
  CardDefinition, CardInstance, construct_campaign, editing, ParticipantState, row_one,
  CampaignState, ActivateCampaignPayload, GameCommandType, GameCommandPayload, activate,
  set_action_plan, empty_payload, activate_payload,
}
use malign_ai.Commands.Plan.{
  valid_action_plan, Failure, refusal, Reduced, ReplyPayload, value, lock_plan, set_plan,
}
use malign_ai.Commands.Campaigns.{activate_campaign}
use malign_ai.Commands.Atomic.Memory.{MemoryStore}
use malign_ai.Commands.Dispatcher.{thrown, Envelope, IsReadable, reduce, dispatch}
use malign_ai.Commands.Dispatcher.Ensures.{Ensures}
use malign_ai.Commands.Dispatcher.Sound.{is_counted, IsSound}
use malign_ai.Commands.Dispatcher.Safety.{Leaves, reduce-IsSound}
use malign_ai.Commands.Dispatcher.Activation.{Activated}
use malign_ai.Commands.Dispatcher.Once.{lock_plan_charges, activate_campaign_once}
use malign_ai.Commands.Dispatcher.Rows.{OneRow, one_row, reduce-OneRow}
use malign_ai.Commands.Dispatcher.Store.{IsStored, dispatch-IsStored}

abbrev three_at_all : SlotValues
three_at_all = record { at_intent = some (nat 3); at_method = some (nat 3); at_amplifier = none }

abbrev definition : String → CardDefinition
definition id = record {
  id = id;
  alignment = aligned malign;
  influence_value_by_slot = three_at_all;
  target_dt_id = some "dt";
  pair_bonus_with = none;
}

abbrev card : String → String → CardInstance
card id definition_id = record {
  id = id;
  definition_id = definition_id;
  controller_participant_id = "p";
  zone = campaign;
}

abbrev planner : ParticipantState
planner = record {
  id = "p";
  action_points_available = 3;
  resources = 5;
  plan =
      (record { sequence_index = nat 1; action_type = construct_campaign; ap_cost = nat 1 }) ∷ [];
  plan_status = editing;
}

abbrev owned : CampaignState
owned = record {
  id = "g1";
  owner_participant_id = "p";
  row = row_one;
  alignment = malign;
  target_dt_id = "dt";
  assignments =
      (record { slot = intent; card_instance_id = "c1" })
      ∷ (record { slot = method; card_instance_id = "c2" })
      ∷ [];
  activated_count_this_turn = 0;
}

abbrev game : GamePhase → GameState
game phase = record {
  id = "g";
  version = 7;
  phase = phase;
  overlay = active;
  participants = ("p", planner) ∷ [];
  card_definitions = ("d1", definition "d1") ∷ ("d2", definition "d2") ∷ [];
  cards = ("c1", card "c1" "d1") ∷ ("c2", card "c2" "d2") ∷ [];
  campaigns = ("g1", owned) ∷ [];
  population_demographics = ("pd", record { id = "pd"; demographic_token_ids = "dt" ∷ [] }) ∷ [];
  events = [];
}

game-IsSound : (phase : GamePhase) → IsSound (game phase)
game-IsSound phase = record {
  named = λ k c e. ground (
    arith,
    eq_iff "c1" k,
    eq_iff "c2" k,
    eq_iff "d1" c.definition_id,
    eq_iff "d2" c.definition_id,
  );
  counts = λ k d slot v e f. counted k d slot v e f;
  placed = λ k c e. ground (arith, eq_iff "g1" k);
}
  where
    counted :
        (k : String) (d : CardDefinition) (slot : CampaignSlot) (v : Number)
        → lookup k (game phase).card_definitions ≡ some d
        → at_slot d.influence_value_by_slot slot ≡ some v
        → is_counted (some v) ≡ true
    counted k d slot v e f = ground (arith, eq_iff "d1" k, eq_iff "d2" k)

game-OneRow : (phase : GamePhase) → OneRow (game phase).campaigns
game-OneRow phase = one_row (λ k j c d e f _ _ _. ground (arith, eq_iff "g1" k, eq_iff "g1" j))

abbrev payload : ActivateCampaignPayload
payload = record {
  campaign_id = "g1";
  requested_target_pd_id = "pd";
  names_extra_activation = false;
}

abbrev envelope : GameCommandType → GameCommandPayload → Envelope
envelope command given = record {
  engine_contract_version = "1";
  command_id = "c";
  idempotency_key = "k";
  game_id = "g";
  actor_context = record {
    actor_id = "a";
    actor_type = player;
    participant_id = some "p";
    player_seat_id = none;
    country_id = none;
    authenticated_session_id = "s";
    permissions = [];
  };
  expected_game_version = nat 7;
  command_type = command;
  payload_schema_version = "1";
  payload = given;
}

abbrev activation : Envelope
activation = envelope activate (activate_payload payload)

readable : IsReadable activation
readable = record { slots = refl; names = refl }

abbrev no_fraction : ℕ → Bool
no_fraction n = false

reduce-IsSound_example : Ensures Leaves (reduce no_fraction (game resolution_stage) activation)
reduce-IsSound_example =
    reduce-IsSound no_fraction (game resolution_stage) activation (game-IsSound resolution_stage)
      readable

reduce-OneRow_example :
    Ensures
      (λ r. OneRow r.state.campaigns × (r.state.id ≡ "g"))
      (reduce no_fraction (game resolution_stage) activation)
reduce-OneRow_example =
    reduce-OneRow no_fraction (game resolution_stage) activation (game-IsSound resolution_stage)
      (game-OneRow resolution_stage) readable

-- A plan that comes without slots throws.
throws :
    reduce no_fraction (game action_stage_plan) (envelope set_action_plan empty_payload)
    ≡ err (thrown missing_reference)
unfolding reduce
throws = refl

abbrev stored_game : MemoryStore GameState ReplyPayload
stored_game = record { states = ("g", game resolution_stage) ∷ []; idempotency = []; told = [] }

stored_game-IsStored : IsStored "g" stored_game
stored_game-IsStored = record {
  state = game resolution_stage;
  at = refl;
  is_named = refl;
  sound = game-IsSound resolution_stage;
  rows = game-OneRow resolution_stage;
}

dispatch-IsStored_example :
    ((answer : CommandResult ReplyPayload) × ((dispatch no_fraction "now"
          (λ _. "f")
          "g"
          activation
          stored_game).result
        ≡ ok answer))
    × IsStored "g" (dispatch no_fraction "now" (λ _. "f") "g" activation stored_game).store
dispatch-IsStored_example =
    dispatch-IsStored no_fraction "now" (λ _. "f") "g" activation stored_game stored_game-IsStored
      readable

abbrev locked_reply : Result Failure Reduced → Reduced
locked_reply (ok r) = r
locked_reply (err _) = record {
  state = game action_stage_plan;
  code = "";
  payload = none;
  events = [];
}

abbrev locked : Reduced
unfolding lock_plan valid_action_plan
locked = locked_reply (lock_plan no_fraction (game action_stage_plan) "p" planner "c")

lock_answered : lock_plan no_fraction (game action_stage_plan) "p" planner "c" ≡ ok locked
unfolding lock_plan valid_action_plan locked ◌+ℤ◌
lock_answered = refl

lock_plan_charges_example :
    (held : ParticipantState) × (locked.state.participants
      ≡ insert "p" held (game action_stage_plan).participants)
    × (held.action_points_available + length planner.plan ≡ planner.action_points_available)
    × (length planner.plan ≤ 3)
    × (held.plan ≡ planner.plan)
    × (held.resources ≡ planner.resources)
    × (set_plan locked.state "p" held [] ≡ err (refusal "ACTION_PLAN_LOCKED"))
    × (lock_plan no_fraction locked.state "p" held "d" ≡ err (refusal "ACTION_PLAN_LOCKED"))
lock_plan_charges_example =
    lock_plan_charges no_fraction (game action_stage_plan) "p" planner "c" "d" [] locked
      lock_answered

abbrev activated : Reduced
unfolding activate_campaign
activated = locked_reply (activate_campaign (game resolution_stage) "p" "c" payload)

activate_answered : activate_campaign (game resolution_stage) "p" "c" payload ≡ ok activated
unfolding activate_campaign activated calculate_campaign_value
activate_answered = refl

activate_campaign_once_example :
    Activated (game resolution_stage) "p" payload activated
    × ((cv : CampaignValueResult) × (activated.payload ≡ some (value cv))
        × (1 ≤ cv.base_cost)
        × (cv.base_cost ≤ 3))
    × (activate_campaign activated.state "p" "d" payload
        ≡ err (refusal "CAMPAIGN_ALREADY_ACTIVATED"))
activate_campaign_once_example =
    activate_campaign_once (game resolution_stage) "p" "c" "d" payload payload activated
      (game-IsSound resolution_stage) activate_answered refl refl
