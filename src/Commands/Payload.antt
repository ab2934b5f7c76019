-- ===== src/Commands/Payload.antt =====
-- dispatcher.ts, `payload as …` in `reduce`: what the fields of a payload read as, whatever payload a
-- command brings. A field that is not there is `undefined`, which is the key "undefined" of a record.
use malign_ai.Base.{◌++◌, String, Bool, true, false, Option, none, some, List, [], ◌∷◌, not, all}
use malign_ai.Base.Dict.{is_inherited}
use malign_ai.Commands.Model.{
  PlanSlot, GameCommandType, set_action_plan, GameCommandPayload, plan_payload, empty_payload,
  construct_payload, modify_payload, activate_payload, ConstructCampaignPayload,
  ModifyCampaignPayload, ActivateCampaignPayload,
}

abbrev pub slots_in : GameCommandPayload → Option (List PlanSlot)
slots_in (plan_payload slots) = some slots
slots_in empty_payload = none
slots_in (construct_payload _) = none
slots_in (modify_payload _) = none
slots_in (activate_payload _) = none

abbrev pub campaign_id_in : GameCommandPayload → String
campaign_id_in (plan_payload _) = "undefined"
campaign_id_in empty_payload = "undefined"
campaign_id_in (construct_payload p) = p.campaign_id
campaign_id_in (modify_payload p) = p.campaign_id
campaign_id_in (activate_payload p) = p.campaign_id

-- Of another payload the campaign's id alone is there: without a method card nothing else is read.
abbrev without_method : String → ConstructCampaignPayload
without_method campaign_id = record {
  campaign_id = campaign_id;
  intent_card_instance_id = "undefined";
  method_card_instance_id = none;
  amplifier_card_instance_id = none;
  target_dt_id = "undefined";
}

abbrev pub as_construct : GameCommandPayload → ConstructCampaignPayload
as_construct (construct_payload p) = p
as_construct (plan_payload _) = without_method "undefined"
as_construct empty_payload = without_method "undefined"
as_construct (modify_payload p) = without_method p.campaign_id
as_construct (activate_payload p) = without_method p.campaign_id

-- `none` for a payload without a slot.
abbrev pub as_modify : GameCommandPayload → Option ModifyCampaignPayload
as_modify (modify_payload p) = some p
as_modify (plan_payload _) = none
as_modify empty_payload = none
as_modify (construct_payload _) = none
as_modify (activate_payload _) = none

abbrev without_target : String → ActivateCampaignPayload
without_target campaign_id = record {
  campaign_id = campaign_id;
  requested_target_pd_id = "undefined";
  names_extra_activation = false;
}

abbrev pub as_activate : GameCommandPayload → ActivateCampaignPayload
as_activate (activate_payload p) = p
as_activate (plan_payload _) = without_target "undefined"
as_activate empty_payload = without_target "undefined"
as_activate (construct_payload p) = without_target p.campaign_id
as_activate (modify_payload p) = without_target p.campaign_id

-- No plan is to be set without a list of slots.
abbrev pub has_slots : GameCommandType → GameCommandPayload → Bool
has_slots set_action_plan (plan_payload _) = true
has_slots set_action_plan empty_payload = false
has_slots set_action_plan (construct_payload _) = false
has_slots set_action_plan (modify_payload _) = false
has_slots set_action_plan (activate_payload _) = false
has_slots _ _ = true

abbrev ids_given : Option String → List String
ids_given none = []
ids_given (some id) = id ∷ []

-- The ids that a command names, under which records are read.
abbrev names_in : GameCommandPayload → List String
names_in (plan_payload _) = []
names_in empty_payload = []
names_in (construct_payload p) =
    p.campaign_id ∷ p.intent_card_instance_id ∷ ids_given p.method_card_instance_id
    ++ ids_given p.amplifier_card_instance_id
names_in (modify_payload p) = p.campaign_id ∷ p.replacement_card_instance_id ∷ []
names_in (activate_payload p) = p.campaign_id ∷ p.requested_target_pd_id ∷ []

-- None of them, nor the actor's, is a name that every record inherits.
abbrev pub names_own : Option String → GameCommandPayload → Bool
names_own actor payload = all (λ id. not (is_inherited id)) (ids_given actor ++ names_in payload)
