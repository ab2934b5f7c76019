-- ===== src/Commands/Campaigns.antt =====
-- packages/game-engine/src/dispatcher.ts: constructing, modifying and activating a campaign.
use malign_ai.Base.{
  ◌+◌, ◌-◌, String, Bool, true, false, Option, none, some, List, [], ◌∷◌, ◌++◌, ◌==◌, nat_eq,
  string_eq, ◌&&◌, ltb, not, if◌then◌else◌, Result, ok, err, ◌>>=◌, ◌>>◌, fail_if, or_fail, any,
  contains, all_distinct, is_some, find, Exception, missing_reference,
}
use malign_ai.Base.Number.{Number, nat}
use malign_ai.Base.Dict.{modify, Dict, lookup, insert, values, has_key}
use malign_ai.Base.Dict as Dict
use malign_ai.Base.Text.{◌<>◌}
use malign_ai.Rules.Types.{
  CampaignSlot, intent, method, amplifier, CampaignAlignment, AssignedCampaignComponent, at_slot,
  slot_eq, alignment_eq,
}
use malign_ai.Rules.CampaignValue.{calculate_campaign_value}
use malign_ai.Commands.Model.{
  GameCommandPayload, GameState, GameEvent, GameEventType, CardInstance, CardDefinition, CardZone,
  CardAlignment, aligned, dual, CampaignState, CampaignAssignment, ConstructCampaignPayload,
  ModifyCampaignPayload, ActivateCampaignPayload, is_hand, is_row_one, row_one, campaign, discard,
  campaign_created, campaign_modified, campaign_activated,
}
use malign_ai.Commands.Payload.{as_modify, campaign_id_in}
use malign_ai.Commands.Plan.{Failure, refusal, thrown, Reduced, created, value, write_participant}

abbrev pub is_controlled : String → CardInstance → Bool
is_controlled participant_id card =
    card.controller_participant_id == participant_id && is_hand card.zone

abbrev pub keep_if : {A : Type 0} → (A → Bool) → Option A → Option A
keep_if p none = none
keep_if p (some a) = if p a then some a else none

-- `controlledCard`
unfoldable pub controlled_card : GameState → String → String → Option CardInstance
controlled_card state participant_id card_id =
    keep_if (is_controlled participant_id) (lookup card_id state.cards)

-- `card.zone = zone` for the card that `state.cards` holds under the key.
abbrev pub move_card : CardZone → String → Dict CardInstance → Dict CardInstance
move_card zone key = Dict.modify key (λ card. record card { zone = zone })

abbrev pub optional : Option String → List String
optional none = []
optional (some id) = id ∷ []

-- The amplifier is left out, or a card that the participant controls.
abbrev pub controlled_if_given :
    GameState → String → Option String → Result Failure (Option CardInstance)
controlled_if_given state participant_id none = ok none
controlled_if_given state participant_id (some id) =
    or_fail (controlled_card state participant_id id) (refusal "CARD_NOT_CONTROLLED") >>= λ c.
    ok (some c)

abbrev pub definition_in : Dict CardDefinition → Option CardInstance → Option CardDefinition
definition_in definitions none = none
definition_in definitions (some card) = lookup card.definition_id definitions

abbrev pub has_value : CampaignSlot → CardDefinition → Bool
has_value slot definition = is_some (at_slot definition.influence_value_by_slot slot)

abbrev pub has_value_if_defined : CampaignSlot → Option CardDefinition → Bool
has_value_if_defined slot none = true
has_value_if_defined slot (some definition) = has_value slot definition

abbrev pub is_dual_or : CampaignAlignment → CardAlignment → Bool
is_dual_or alignment dual = true
is_dual_or alignment (aligned a) = a == alignment

abbrev pub is_compatible : CampaignAlignment → Option CardDefinition → Bool
is_compatible alignment none = true
is_compatible alignment (some definition) = is_dual_or alignment definition.alignment

abbrev pub single_alignment : CardAlignment → Option CampaignAlignment
single_alignment dual = none
single_alignment (aligned a) = some a

abbrev pub is_text : Option String → String → Bool
is_text none t = false
is_text (some s) t = s == t

abbrev pub assign_if_given : Option CardInstance → List CampaignAssignment
assign_if_given none = []
assign_if_given (some card) = (record { slot = amplifier; card_instance_id = card.id }) ∷ []

abbrev pub owns_row_one : String → CampaignState → Bool
owns_row_one participant_id c = c.owner_participant_id == participant_id && is_row_one c.row

abbrev pub move_cards : CardZone → List String → Dict CardInstance → Dict CardInstance
move_cards zone [] cards = cards
move_cards zone (id ∷ ids) cards = move_cards zone ids (move_card zone id cards)

abbrev pub event_of : String → String → GameEventType → GameEvent
event_of command_id suffix t = record { id = command_id <> suffix; event_type = t }

unfoldable pub construct_campaign :
    GameState → String → String → ConstructCampaignPayload → Result Failure Reduced
construct_campaign state participant_id command_id payload = do
  fail_if (has_key payload.campaign_id state.campaigns) (refusal "CAMPAIGN_ID_CONFLICT")
  fail_if (any (owns_row_one participant_id) (values state.campaigns))
      (refusal "CAMPAIGN_ROW_OCCUPIED")
  method_id ← or_fail payload.method_card_instance_id (refusal "CAMPAIGN_INVALID_STRUCTURE")
  let ids =
      payload.intent_card_instance_id ∷ method_id ∷ optional payload.amplifier_card_instance_id
  fail_if (not (all_distinct ids)) (refusal "DUPLICATE_CARD_INSTANCE")
  intent_card ←
      or_fail (controlled_card state participant_id payload.intent_card_instance_id)
        (refusal "CARD_NOT_CONTROLLED")
  method_card ←
      or_fail (controlled_card state participant_id method_id) (refusal "CARD_NOT_CONTROLLED")
  amplifier_card ← controlled_if_given state participant_id payload.amplifier_card_instance_id
  intent_definition ←
      or_fail (lookup intent_card.definition_id state.card_definitions) (refusal "INVALID_DT")
  method_definition ←
      or_fail (lookup method_card.definition_id state.card_definitions) (refusal "INVALID_DT")
  let amplifier_definition = definition_in state.card_definitions amplifier_card
  fail_if (not (is_text intent_definition.target_dt_id payload.target_dt_id)) (refusal "INVALID_DT")
  fail_if
      (not (
        has_value intent intent_definition
        && has_value method method_definition
        && has_value_if_defined amplifier amplifier_definition))
      (refusal "CARD_NOT_ELIGIBLE")
  alignment ←
      or_fail (single_alignment intent_definition.alignment) (refusal "CAMPAIGN_ALIGNMENT_MISMATCH")
  fail_if
      (not (
        is_compatible alignment (some method_definition)
        && is_compatible alignment amplifier_definition))
      (refusal "CAMPAIGN_ALIGNMENT_MISMATCH")
  let new_campaign : CampaignState = record {
    id = payload.campaign_id;
    owner_participant_id = participant_id;
    row = row_one;
    alignment = alignment;
    target_dt_id = payload.target_dt_id;
    assignments =
        (record { slot = intent; card_instance_id = intent_card.id })
        ∷ (record { slot = method; card_instance_id = method_card.id })
        ∷ assign_if_given amplifier_card;
    activated_count_this_turn = 0;
  }
  let event = event_of command_id ":campaign-created" campaign_created
  ok (record {
    state = record state {
      cards = move_cards campaign ids state.cards;
      campaigns = insert new_campaign.id new_campaign state.campaigns;
      events = state.events ++ event ∷ [];
    };
    code = "CAMPAIGN_CREATED";
    payload = some (created new_campaign);
    events = event ∷ [];
  })

abbrev pub has_slot : CampaignSlot → CampaignAssignment → Bool
has_slot slot a = a.slot == slot

-- `filter((assignment) => assignment !== replaced)`, for the first assignment of the slot.
abbrev pub without_first : CampaignSlot → List CampaignAssignment → List CampaignAssignment
without_first slot [] = []
without_first slot (a ∷ rest) = if has_slot slot a then rest else a ∷ without_first slot rest

abbrev pub discard_replaced : Option CampaignAssignment → Dict CardInstance → Dict CardInstance
discard_replaced none cards = cards
discard_replaced (some a) cards = move_card discard a.card_instance_id cards

abbrev pub is_intent : CampaignSlot → Bool
is_intent slot = slot == intent

unfoldable pub modify_campaign :
    GameState → String → String → ModifyCampaignPayload → Result Failure Reduced
modify_campaign state participant_id command_id payload = do
  found ← or_fail (lookup payload.campaign_id state.campaigns) (refusal "CAMPAIGN_NOT_FOUND")
  fail_if (not (found.owner_participant_id == participant_id)) (refusal "CAMPAIGN_NOT_OWNED")
  fail_if (is_intent payload.slot) (refusal "INVALID_SLOT")
  replacement ←
      or_fail (controlled_card state participant_id payload.replacement_card_instance_id)
        (refusal "CARD_NOT_CONTROLLED")
  definition ←
      or_fail (lookup replacement.definition_id state.card_definitions)
        (refusal "CAMPAIGN_ALIGNMENT_MISMATCH")
  fail_if (not (is_dual_or found.alignment definition.alignment))
      (refusal "CAMPAIGN_ALIGNMENT_MISMATCH")
  fail_if (not (has_value payload.slot definition)) (refusal "CARD_NOT_ELIGIBLE")
  let replaced = find (has_slot payload.slot) found.assignments
  let assigned : CampaignState = record found {
    assignments =
        without_first payload.slot found.assignments
        ++ (record { slot = payload.slot; card_instance_id = replacement.id }) ∷ [];
  }
  let event = event_of command_id ":campaign-modified" campaign_modified
  ok (record {
    state = record state {
      cards =
          move_card campaign payload.replacement_card_instance_id
            (discard_replaced replaced state.cards);
      campaigns = insert payload.campaign_id assigned state.campaigns;
      events = state.events ++ event ∷ [];
    };
    code = "CAMPAIGN_MODIFIED";
    payload = none;
    events = event ∷ [];
  })

-- With a payload without a slot: whatever the card, it has no value for the slot `undefined`.
unfoldable pub modify_without_slot : GameState → String → String → Result Failure Reduced
modify_without_slot state participant_id campaign_id = do
  found ← or_fail (lookup campaign_id state.campaigns) (refusal "CAMPAIGN_NOT_FOUND")
  fail_if (not (found.owner_participant_id == participant_id)) (refusal "CAMPAIGN_NOT_OWNED")
  replacement ←
      or_fail (controlled_card state participant_id "undefined") (refusal "CARD_NOT_CONTROLLED")
  definition ←
      or_fail (lookup replacement.definition_id state.card_definitions)
        (refusal "CAMPAIGN_ALIGNMENT_MISMATCH")
  fail_if (not (is_dual_or found.alignment definition.alignment))
      (refusal "CAMPAIGN_ALIGNMENT_MISMATCH")
  err (refusal "CARD_NOT_ELIGIBLE")

abbrev pub modify_from : GameState → String → String → GameCommandPayload → Result Failure Reduced
modify_from state participant_id command_id payload = elim (as_modify payload) [
  | none ↦ modify_without_slot state participant_id (campaign_id_in payload)
  | some p ↦ modify_campaign state participant_id command_id p
]

-- The component of an assignment; a card or a definition that is missing throws.
abbrev pub component_from :
    CampaignSlot → Option CardDefinition → Result Failure AssignedCampaignComponent
component_from slot none = err (thrown missing_reference)
component_from slot (some definition) =
    ok (record { slot = slot; influence_value_by_slot = definition.influence_value_by_slot })

abbrev pub component_of : GameState → CampaignAssignment → Result Failure AssignedCampaignComponent
component_of state a =
    component_from a.slot
      (definition_in state.card_definitions (lookup a.card_instance_id state.cards))

abbrev pub components_of :
    GameState → List CampaignAssignment → Result Failure (List AssignedCampaignComponent)
components_of state [] = ok []
components_of state (a ∷ rest) = do
  c ← component_of state a
  cs ← components_of state rest
  ok (c ∷ cs)

abbrev definition_id_of : GameState → CampaignAssignment → List String
definition_id_of state a = optional (card_definition_id (lookup a.card_instance_id state.cards))
  where
    card_definition_id : Option CardInstance → Option String
    card_definition_id none = none
    card_definition_id (some card) = some card.definition_id

abbrev pub definition_ids_of : GameState → List CampaignAssignment → List String
definition_ids_of state [] = []
definition_ids_of state (a ∷ rest) = definition_id_of state a ++ definition_ids_of state rest

abbrev pair_of : Option CardDefinition → Option String
pair_of none = none
pair_of (some definition) = definition.pair_bonus_with

abbrev contains_text : Option String → List String → Bool
contains_text none ids = false
contains_text (some t) ids = contains t ids

abbrev pub has_pair : GameState → List String → Bool
has_pair state ids = any (λ id. contains_text (pair_of (lookup id state.card_definitions)) ids) ids

-- `hasPair ? [2] : []`
abbrev pub bonus_of : GameState → List CampaignAssignment → List Number
bonus_of state assignments =
    if has_pair state (definition_ids_of state assignments) then nat 2 ∷ [] else []

-- An exception of the rules passes through.
abbrev pub throwing : {A : Type 0} → Result Exception A → Result Failure A
throwing (ok a) = ok a
throwing (err e) = err (thrown e)

unfoldable pub activate_campaign :
    GameState → String → String → ActivateCampaignPayload → Result Failure Reduced
activate_campaign state participant_id command_id payload = do
  fail_if payload.names_extra_activation (refusal "EXTRA_ACTIVATION_NOT_AUTHORIZED")
  found ← or_fail (lookup payload.campaign_id state.campaigns) (refusal "CAMPAIGN_NOT_FOUND")
  fail_if (not (found.owner_participant_id == participant_id)) (refusal "CAMPAIGN_NOT_OWNED")
  fail_if (ltb 0 found.activated_count_this_turn) (refusal "CAMPAIGN_ALREADY_ACTIVATED")
  pd ←
      or_fail (lookup payload.requested_target_pd_id state.population_demographics)
        (refusal "INVALID_TARGET_PD")
  fail_if (not (contains found.target_dt_id pd.demographic_token_ids)) (refusal "INVALID_DT")
  components ← components_of state found.assignments
  cv ← throwing (calculate_campaign_value components (bonus_of state found.assignments))
  participant ← or_fail (lookup participant_id state.participants) (refusal "NOT_AUTHORIZED")
  fail_if (ltb participant.resources cv.base_cost) (refusal "INSUFFICIENT_RESOURCES")
  let charged = record participant { resources = participant.resources - cv.base_cost }
  let activated : CampaignState = record found {
    activated_count_this_turn = found.activated_count_this_turn + 1;
  }
  let event = event_of command_id ":campaign-activated" campaign_activated
  let written = write_participant participant_id charged state
  ok (record {
    state = record written {
      campaigns = insert payload.campaign_id activated state.campaigns;
      events = state.events ++ event ∷ [];
    };
    code = "CAMPAIGN_ACTIVATED";
    payload = some (value cv);
    events = event ∷ [];
  })
