-- ===== src/Effects/Handlers.antt =====
-- m2b.ts: the handlers of the card effects.
pub mod Balance
pub mod Collection
use malign_ai.Base.{
  ℕ, zero, suc, ◌+◌, ◌*◌, String, Bool, true, false, Option, none, some, List, [], ◌∷◌, ◌++◌, ◌==◌,
  ◌&&◌, ◌||◌, not, string_eq, nat_eq, if◌then◌else◌, Result, ok, err, ◌>>=◌, ◌>>◌, any, all, filter,
  contains, length, map, all_distinct, index_of, get_elem?, sort_by, leb, min,
}
use malign_ai.Base.Int.{ℤ, pos, ◌+ℤ◌, ◌-ℤ◌, ltb_ℤ, leb_ℤ, min_ℤ, max_ℤ, int_eq}
use malign_ai.Base.Number.{int}
use malign_ai.Base.Dict.{Dict, lookup, modify, insert, has_key, keys, values}
use malign_ai.Base.Text.{join, string_leb}
use malign_ai.Rules.Types.{malign, resiliency}
use malign_ai.Effects.Types.{
  State, Card, hand, zone_eq, Participant, Campaign, EffectContext, Scalar, text, number, flag,
  InfluenceType, EffectError, invalid_effect_input, invalid_die_value, effect_unknown, Failure,
  rejected, reject, Value, object, num, str, Fields, no_fields, field,
}
use malign_ai.Effects.Parameters.{string_parameter, integer_parameter, string_array_parameter}
use malign_ai.Effects.Cards.{discard_campaign}
use malign_ai.Effects.Influence.{apply_direct_influence}
use malign_ai.Effects.Resources.{
  actor, audit, pay, transfer, or_reject, reject_if, or_throw, add_resources, take_resources,
}
use malign_ai.Effects.Regime.{is_die}
use malign_ai.Effects.Registry.{
  base_2025_pair_bonuses, pair_bonus_effect_ids, calculate_registered_pair_bonus, is_present,
}

abbrev gain : State → String → ℤ → State
gain state participant_id amount = record state {
  participants = modify participant_id (add_resources amount) state.participants;
}

-- As in all handlers, the ids are no inherited names, see `Dict`: of another target the source finds a
-- member of `Object.prototype`, whose `resources` it changes.
unfoldable pub trade_agreements : State → EffectContext → Result Failure State
trade_agreements state context = do
  participant ← or_reject (actor state context) invalid_effect_input
  target_id ← or_reject (string_parameter context "targetParticipantId") invalid_effect_input
  target ← or_reject (lookup target_id state.participants) invalid_effect_input
  reject_if (target.id == participant.id) invalid_effect_input
  ok (
      audit (gain (gain state context.actor_participant_id (pos 2)) target_id (pos 2)) context
        "RESOURCE_GAINED"
        (("amount", number (pos 2)) ∷ ("targetParticipantId", text target.id) ∷ []))

unfoldable pub fixed_gain_4 : State → EffectContext → Result Failure State
fixed_gain_4 state context = do
  _ ← or_reject (actor state context) invalid_effect_input
  ok (
      audit (gain state context.actor_participant_id (pos 4)) context "RESOURCE_GAINED"
        (("amount", number (pos 4)) ∷ []))

unfoldable pub target_dt_set : State → EffectContext → Result Failure State
target_dt_set state context = do
  campaign_id ← or_reject (string_parameter context "campaignId") invalid_effect_input
  campaign ← or_reject (lookup campaign_id state.campaigns) invalid_effect_input
  target_dt_id ← or_reject (string_parameter context "targetDtId") invalid_effect_input
  source_id ← or_reject (string_parameter context "sourceCardInstanceId") invalid_effect_input
  reject_if
      (not (campaign.owner_participant_id == context.actor_participant_id)
        || not (contains source_id campaign.card_ids))
      invalid_effect_input
  ok (
      audit
        (record state {
          campaigns =
              modify campaign_id (λ c. record c { target_dt_id = some target_dt_id })
                state.campaigns;
        })
        context "CAMPAIGN_TARGET_DT_SET"
        (("campaignId", text campaign_id) ∷ ("targetDtId", text target_dt_id) ∷ []))

unfoldable pub sanctions : State → EffectContext → Result Failure State
sanctions state context = do
  target_id ← or_reject (string_parameter context "targetParticipantId") invalid_effect_input
  participant ← or_reject (actor state context) invalid_effect_input
  target ← or_reject (lookup target_id state.participants) invalid_effect_input
  reject_if (participant.id == target.id) invalid_effect_input
  let amount = min_ℤ (pos 2) target.resources
  let taken = modify target_id (take_resources amount) state.participants
  ok (
      audit
        (record state {
          participants = modify context.actor_participant_id (add_resources amount) taken;
        })
        context "RESOURCE_TRANSFERRED"
        (("targetParticipantId", text target.id) ∷ ("amount", number amount) ∷ []))

abbrev influence_type : String → Option InfluenceType
influence_type type =
    if type == "MALIGN" then some malign else if type == "RESILIENCY" then some resiliency else none

abbrev pub type_parameter : EffectContext → Option InfluenceType
type_parameter context = elim (string_parameter context "type") [
  | none ↦ none
  | some type ↦ influence_type type
]

abbrev type_text : InfluenceType → String
type_text malign = "MALIGN"
type_text resiliency = "RESILIENCY"

unfoldable pub direct_influence : State → EffectContext → Result Failure State
direct_influence state context = do
  pd_id ← or_reject (string_parameter context "pdId") invalid_effect_input
  type ← or_reject (type_parameter context) invalid_effect_input
  amount ← or_reject (integer_parameter context "amount") invalid_effect_input
  reject_if (ltb_ℤ amount (pos 0)) invalid_effect_input
  participant ← or_reject (actor state context) invalid_effect_input
  (placement, after) ←
      or_throw (apply_direct_influence state pd_id type participant.country_id amount)
  ok (
      audit after context "DIRECT_INFLUENCE_APPLIED" (
        ("pdId", text pd_id)
        ∷ ("type", text (type_text type))
        ∷ ("generated", number amount)
        ∷ ("placed", number (pos placement.placed))
        ∷ ("removed", number (pos placement.removed))
        ∷ []))

abbrev pub lose_points : ℤ → Participant → Participant
lose_points amount p = record p { victory_points = max_ℤ (pos 0) (p.victory_points -ℤ amount) }

unfoldable pub vp_penalty : State → EffectContext → Result Failure State
vp_penalty state context = do
  target_id ← or_reject (string_parameter context "targetParticipantId") invalid_effect_input
  target ← or_reject (lookup target_id state.participants) invalid_effect_input
  amount ← or_reject (integer_parameter context "amount") invalid_effect_input
  reject_if (ltb_ℤ amount (pos 0)) invalid_effect_input
  ok (
      audit
        (record state { participants = modify target_id (lose_points amount) state.participants })
        context "VP_CHANGED"
        (("targetParticipantId", text target.id)
          ∷ ("delta", number ((lose_points amount target).victory_points -ℤ target.victory_points))
          ∷ []))

unfoldable pub corruption : State → EffectContext → Result Failure State
corruption state context = do
  paid ← pay state context (pos 1)
  vp_penalty paid
      (record context { parameters = insert "amount" (num (int (pos 2))) context.parameters })

unfoldable pub pay_and_direct_influence : State → EffectContext → Result Failure State
pay_and_direct_influence state context = do
  cost ← or_reject (integer_parameter context "cost") invalid_effect_input
  paid ← pay state context cost
  direct_influence paid context

-- A call whose error code is returned.
abbrev pub or_error : Result EffectError State → Result Failure State
or_error (ok s) = ok s
or_error (err e) = reject e

-- For an inherited name as the campaign's id, see `Dict`, the source pays and then throws.
unfoldable pub pay_and_discard_campaign : State → EffectContext → Result Failure State
pay_and_discard_campaign state context = do
  campaign_id ← or_reject (string_parameter context "campaignId") invalid_effect_input
  _ ← or_reject (lookup campaign_id state.campaigns) invalid_effect_input
  paid ← pay state context (pos 1)
  discarded ← or_error (discard_campaign paid campaign_id)
  ok (audit discarded context "CAMPAIGN_DISCARDED" (("campaignId", text campaign_id) ∷ []))

unfoldable pub double_action : State → EffectContext → Result Failure State
double_action state context = do
  campaign_id ← or_reject (string_parameter context "campaignId") invalid_effect_input
  campaign ← or_reject (lookup campaign_id state.campaigns) invalid_effect_input
  reject_if (not (campaign.owner_participant_id == context.actor_participant_id))
      invalid_effect_input
  paid ← pay state context (pos 1)
  ok (
      audit
        (record paid {
          campaigns =
              modify campaign_id
                (λ c. record c { activation_count_this_turn = c.activation_count_this_turn + 1 })
                paid.campaigns;
        })
        context "EXTRA_CAMPAIGN_ACTIVATION_GRANTED"
        (("campaignId", text campaign.id)
          ∷ ("activationCountThisTurn", number (pos (campaign.activation_count_this_turn + 1)))
          ∷ []))

-- `Object.keys` of a parameter, and the value of a key.
abbrev pub field_keys : Fields → List String
field_keys no_fields = []
field_keys (field key value rest) = key ∷ field_keys rest

abbrev field_value : String → Fields → Option Value
field_value key no_fields = none
field_value key (field k value rest) = if k == key then some value else field_value key rest

abbrev object_value : Value → Option Fields
object_value (object fields) = some fields
object_value _ = none

abbrev pub rolls_parameter : EffectContext → Option Fields
rolls_parameter context = elim (lookup "rollsByParticipant" context.parameters) [
  | none ↦ none
  | some value ↦ object_value value
]

abbrev die_value : Value → Option ℤ
die_value (num (int n)) = if is_die n then some n else none
die_value _ = none

-- The roll of a participant, if it is a die's value.
abbrev pub die_in : String → Fields → Option ℤ
die_in participant_id rolls = elim (field_value participant_id rolls) [
  | none ↦ none
  | some value ↦ die_value value
]

-- Whose roll came to 4 or less, if every roll is a die's value.
pub passing : List String → Fields → Result Failure (List String)
passing [] rolls = ok []
passing (participant_id ∷ ids) rolls = do
  roll ← or_reject (die_in participant_id rolls) invalid_die_value
  rest ← passing ids rolls
  ok (if leb_ℤ roll (pos 4) then participant_id ∷ rest else rest)

-- One audit record for each roll.
pub audit_roll : String → Option ℤ → EffectContext → State → State
audit_roll participant_id none context state = state
audit_roll participant_id (some roll) context state = audit state context "DIE_ROLLED" (
    ("rollerParticipantId", text participant_id)
    ∷ ("rawValue", number roll)
    ∷ ("manual", flag false)
    ∷ [])

pub audit_rolls : List String → Fields → EffectContext → State → State
unfolding audit_roll
audit_rolls [] rolls context state = state
audit_rolls (participant_id ∷ ids) rolls context state =
    audit_rolls ids rolls context
      (audit_roll participant_id (die_in participant_id rolls) context state)

abbrev pub holds_some : Option Participant → Bool
holds_some none = false
holds_some (some p) = ltb_ℤ (pos 0) p.resources

abbrev pub has_resources : State → String → Bool
has_resources state participant_id = holds_some (lookup participant_id state.participants)

-- Every payer hands one resource to the recipient.
pub collect : List String → Participant → EffectContext → State → State
collect [] recipient context state = state
collect (payer ∷ payers) recipient context state = collect payers recipient context (
    audit
      (record state {
        participants =
            modify context.actor_participant_id (add_resources (pos 1))
              (modify payer (take_resources (pos 1)) state.participants);
      })
      context "RESOURCE_TRANSFERRED"
      (("sourceParticipantId", text payer)
        ∷ ("targetParticipantId", text recipient.id)
        ∷ ("amount", number (pos 1))
        ∷ []))

abbrev pub other_ids : State → EffectContext → List String
other_ids state context =
    sort_by string_leb
      (filter (λ id. not (id == context.actor_participant_id)) (keys state.participants))

unfoldable pub multi_roll_resource_transfer : State → EffectContext → Result Failure State
unfolding passing audit_rolls collect
multi_roll_resource_transfer state context = do
  recipient ← or_reject (actor state context) invalid_effect_input
  rolls ← or_reject (rolls_parameter context) invalid_effect_input
  let others = other_ids state context
  reject_if (not (join "|" (sort_by string_leb (field_keys rolls)) == join "|" others))
      invalid_effect_input
  payers ← passing others rolls
  let audited = audit_rolls others rolls context state
  ok (collect (filter (has_resources audited) payers) recipient context audited)

-- The ids of the cards in a hand, in the order of `sort`.
abbrev hand_ids : State → String → List String
hand_ids state participant_id = sort_by string_leb (
    map (λ (card : Card). card.id)
      (filter (λ c. c.controller_participant_id == participant_id && c.zone == hand)
        (values state.cards)))

pub audit_reveals : List String → String → EffectContext → State → State
audit_reveals [] target_id context state = state
audit_reveals (card_id ∷ ids) target_id context state = audit_reveals ids target_id context (
    audit state context "CARD_REVEALED" (
      ("cardId", text card_id)
      ∷ ("targetParticipantId", text target_id)
      ∷ ("viewerParticipantId", text context.actor_participant_id)
      ∷ []))

unfoldable pub random_hand_review : State → EffectContext → Result Failure State
unfolding audit_reveals
random_hand_review state context = do
  target_id ← or_reject (string_parameter context "targetParticipantId") invalid_effect_input
  _ ← or_reject (lookup target_id state.participants) invalid_effect_input
  selected ← or_reject (string_array_parameter context "selectedCardIds") invalid_effect_input
  reject_if (not (all_distinct selected)) invalid_effect_input
  let eligible = hand_ids state target_id
  reject_if
      (not (length selected == min 3 (length eligible))
        || any (λ card_id. not (contains card_id eligible)) selected)
      invalid_effect_input
  ok (audit_reveals selected target_id context state)

unfoldable pub registered_pair_bonus : State → EffectContext → Result Failure State
registered_pair_bonus state context = do
  definition_ids ← or_reject (string_array_parameter context "definitionIds") invalid_effect_input
  index ← or_reject (index_of context.effect_id pair_bonus_effect_ids) effect_unknown
  pair ← or_reject (get_elem? base_2025_pair_bonuses index) effect_unknown
  ok (
      audit state context "REGISTERED_PAIR_BONUS_CALCULATED"
        (("amount", number (pos (if is_present definition_ids pair then 2 else 0))) ∷ []))
