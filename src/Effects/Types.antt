-- ===== src/Effects/Types.antt =====
-- packages/domain/src/m2b.ts: the state that card and regime effects act on.
use malign_ai.Base.{
  ℕ, ◌≡◌, ◌↔◌, String, Bool, Option, List, Eq, ◌==◌, nat_eq, arith, Result, err, Exception,
}
use malign_ai.Base.Int.{ℤ}
use malign_ai.Base.Number.{Number}
use malign_ai.Base.Dict.{Dict}
use malign_ai.Rules.Types.{CampaignAlignment}

pub data CountryId : Type 0 where
  arden fluma ursaria presque dinesia : CountryId

abbrev pub country_text : CountryId → String
country_text arden = "ARDEN"
country_text fluma = "FLUMA"
country_text ursaria = "URSARIA"
country_text presque = "PRESQUE"
country_text dinesia = "DINESIA"

abbrev pub country_index : CountryId → ℕ
country_index arden = 0
country_index fluma = 1
country_index ursaria = 2
country_index presque = 3
country_index dinesia = 4

abbrev pub country_beq : CountryId → CountryId → Bool
country_beq a b = country_index a == country_index b

pub country_beq_iff : (a b : CountryId) → (country_beq a b ≡ Bool.true) ↔ (a ≡ b)
country_beq_iff a b = ground arith

instance abbrev pub country_eq : Eq CountryId
country_eq = record { are_same = country_beq; are_same_iff = country_beq_iff }

-- `InfluenceType` is the union of the same two literals as `CampaignAlignment`.
abbrev pub InfluenceType : Type 0
InfluenceType = CampaignAlignment

pub data CardZone : Type 0 where
  deck hand discard campaign planned_action removed_from_game : CardZone

abbrev pub zone_index : CardZone → ℕ
zone_index deck = 0
zone_index hand = 1
zone_index discard = 2
zone_index campaign = 3
zone_index planned_action = 4
zone_index removed_from_game = 5

abbrev pub zone_beq : CardZone → CardZone → Bool
zone_beq a b = zone_index a == zone_index b

pub zone_beq_iff : (a b : CardZone) → (zone_beq a b ≡ Bool.true) ↔ (a ≡ b)
zone_beq_iff a b = ground arith

instance abbrev pub zone_eq : Eq CardZone
zone_eq = record { are_same = zone_beq; are_same_iff = zone_beq_iff }

pub data CardClass : Type 0 where
  action starter campaign : CardClass

abbrev pub is_starter : CardClass → Bool
is_starter action = Bool.false
is_starter starter = Bool.true
is_starter campaign = Bool.false

pub data CardAlignment : Type 0 where
  aligned : InfluenceType → CardAlignment
  dual unaligned : CardAlignment

pub record Card : Type 0 where
  pub id : String
  pub definition_id : String
  pub owner_participant_id : String
  pub controller_participant_id : String
  pub card_class : CardClass
  pub alignment : CardAlignment
  pub zone : CardZone
  pub return_to_owner_on_discard : Bool

pub data CampaignRow : Type 0 where
  row_i row_ii : CampaignRow

pub record Campaign : Type 0 where
  pub id : String
  pub owner_participant_id : String
  pub row : CampaignRow
  pub card_ids : List String
  pub activation_count_this_turn : ℕ
  pub target_dt_id : Option String

pub record InfluenceStack : Type 0 where
  pub pd_id : String
  pub type : InfluenceType
  pub attribution_country_id : CountryId
  pub count : ℤ

pub record Participant : Type 0 where
  pub id : String
  pub country_id : CountryId
  pub resources : ℤ
  pub victory_points : ℤ
  pub card_ids : List String
  pub regime_ability_used : Bool
  pub core_modifier_used : Bool

pub data Scalar : Type 0 where
  text : String → Scalar
  number : ℤ → Scalar
  flag : Bool → Scalar

pub record AuditRecord : Type 0 where
  pub type : String
  pub actor_participant_id : String
  pub payload : Dict Scalar

pub data SchedulerStatus : Type 0 where
  ready suspended complete : SchedulerStatus

pub record SchedulerState : Type 0 where
  pub participant_index : ℕ
  pub slot_index : ℕ
  pub status : SchedulerStatus

pub data SpendReason : Type 0 where
  action_cost card_cost campaign_cost coalition_contribution core_modifier : SpendReason

pub record ResourceSpend : Type 0 where
  pub id : String
  pub participant_id : String
  pub amount : ℤ
  pub reason : SpendReason

pub record FlumaRegime : Type 0 where
  pub active : Bool
  pub processed_spend_ids : List String

pub record State : Type 0 where
  pub version : ℕ
  pub registry_version : String
  pub participants : Dict Participant
  pub cards : Dict Card
  pub campaigns : Dict Campaign
  pub influence : List InfluenceStack
  pub legitimacy_by_pd : Dict (Option String)
  pub scheduler : SchedulerState
  pub audit : List AuditRecord
  pub resource_spends : Option (List ResourceSpend)
  pub fluma_regime : Option FlumaRegime

-- What a client may send for an effect's parameter.
mutual
  pub data Value : Type 0 where
    null : Value
    bool : Bool → Value
    num : Number → Value
    str : String → Value
    array : Items → Value
    object : Fields → Value

  pub data Items : Type 0 where
    no_items : Items
    cons : Value → Items → Items

  pub data Fields : Type 0 where
    no_fields : Fields
    field : String → Value → Fields → Fields

pub record EffectContext : Type 0 where
  pub actor_participant_id : String
  pub effect_id : String
  pub effect_version : String
  pub parameters : Dict Value

pub data EffectError : Type 0 where
  effect_unknown effect_disabled effect_version_mismatch invalid_effect_input : EffectError
  insufficient_resources card_not_eligible card_wrong_zone regime_ability_already_used : EffectError
  roll_modifier_already_used invalid_die_value : EffectError

-- How a handler ends other than with a new state: an error code, or an exception.
pub data Failure : Type 0 where
  rejected : EffectError → Failure
  thrown : Exception → Failure

-- `return error;`
abbrev pub reject {ℓ} : {A : Type ℓ} → EffectError → Result Failure A
reject e = err (rejected e)
