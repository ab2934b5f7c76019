-- ===== src/Commands/Model.antt =====
-- packages/game-engine/src/model.ts: the state of the basic game and its commands.
use malign_ai.Base.{ℕ, String, Bool, true, false, Option, List}
use malign_ai.Base.Number.{Number}
use malign_ai.Base.Dict.{Dict}
use malign_ai.Rules.Types.{CampaignAlignment, CampaignSlot, SlotValues}

pub data GamePhase : Type 0 where
  initiative_stage action_stage_plan resolution_stage : GamePhase

pub data GameOverlay : Type 0 where
  active paused : GameOverlay

pub data CardZone : Type 0 where
  hand planned_action campaign discard : CardZone

-- `CampaignAlignment | 'DUAL'`
pub data CardAlignment : Type 0 where
  aligned : CampaignAlignment → CardAlignment
  dual : CardAlignment

pub record CardDefinition : Type 0 where
  pub id : String
  pub alignment : CardAlignment
  pub influence_value_by_slot : SlotValues
  pub target_dt_id : Option String
  pub pair_bonus_with : Option String

pub record CardInstance : Type 0 where
  pub id : String
  pub definition_id : String
  pub controller_participant_id : String
  pub zone : CardZone

pub data ActionType : Type 0 where
  construct_campaign modify_campaign activate_campaign : ActionType

pub record PlanSlot : Type 0 where
  pub sequence_index : Number
  pub action_type : ActionType
  pub ap_cost : Number

pub data PlanStatus : Type 0 where
  editing locked : PlanStatus

pub record ParticipantState : Type 0 where
  pub id : String
  pub action_points_available : ℕ
  pub resources : ℕ
  pub plan : List PlanSlot
  pub plan_status : PlanStatus

pub record CampaignAssignment : Type 0 where
  pub slot : CampaignSlot
  pub card_instance_id : String

pub data CampaignRow : Type 0 where
  row_one row_two : CampaignRow

pub record CampaignState : Type 0 where
  pub id : String
  pub owner_participant_id : String
  pub row : CampaignRow
  pub alignment : CampaignAlignment
  pub target_dt_id : String
  pub assignments : List CampaignAssignment
  pub activated_count_this_turn : ℕ

pub record PopulationDemographicState : Type 0 where
  pub id : String
  pub demographic_token_ids : List String

pub data GameEventType : Type 0 where
  action_plan_locked ap_committed campaign_created campaign_modified : GameEventType
  campaign_activated : GameEventType

pub record GameEvent : Type 0 where
  pub id : String
  pub event_type : GameEventType

pub record GameState : Type 0 where
  pub id : String
  pub version : ℕ
  pub phase : GamePhase
  pub overlay : GameOverlay
  pub participants : Dict ParticipantState
  pub card_definitions : Dict CardDefinition
  pub cards : Dict CardInstance
  pub campaigns : Dict CampaignState
  pub population_demographics : Dict PopulationDemographicState
  pub events : List GameEvent

pub record ConstructCampaignPayload : Type 0 where
  pub campaign_id : String
  pub intent_card_instance_id : String
  pub method_card_instance_id : Option String
  pub amplifier_card_instance_id : Option String
  pub target_dt_id : String

pub record ModifyCampaignPayload : Type 0 where
  pub campaign_id : String
  pub slot : CampaignSlot
  pub replacement_card_instance_id : String

-- `names_extra_activation` is `'extraActivation' in payload`.
pub record ActivateCampaignPayload : Type 0 where
  pub campaign_id : String
  pub requested_target_pd_id : String
  pub names_extra_activation : Bool

pub data GameCommandType : Type 0 where
  set_action_plan lock_action_plan construct modify activate end_game_scoring : GameCommandType

-- A member of the union, whatever the type of the command is. It has no fields but the declared ones
-- and `extraActivation`.
pub data GameCommandPayload : Type 0 where
  plan_payload : List PlanSlot → GameCommandPayload
  empty_payload : GameCommandPayload
  construct_payload : ConstructCampaignPayload → GameCommandPayload
  modify_payload : ModifyCampaignPayload → GameCommandPayload
  activate_payload : ActivateCampaignPayload → GameCommandPayload

abbrev pub is_hand : CardZone → Bool
is_hand hand = true
is_hand planned_action = false
is_hand campaign = false
is_hand discard = false

abbrev pub is_locked : PlanStatus → Bool
is_locked editing = false
is_locked locked = true

abbrev pub is_row_one : CampaignRow → Bool
is_row_one row_one = true
is_row_one row_two = false

abbrev pub is_paused : GameOverlay → Bool
is_paused active = false
is_paused paused = true
