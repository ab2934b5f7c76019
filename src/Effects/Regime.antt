-- ===== src/Effects/Regime.antt =====
-- m2b.ts: the regime abilities of the five countries.
pub mod Balance
pub mod Debt
pub mod Tests
use malign_ai.Base.{
  ℕ, zero, suc, ◌+◌, String, Bool, true, false, Option, none, some, List, [], ◌∷◌, ◌++◌, ◌==◌, ◌&&◌,
  ◌||◌, not, string_eq, nat_eq, if◌then◌else◌, Result, ok, err, ◌>>=◌, ◌>>◌, any, all, filter,
  contains, length, map, all_distinct, find, ltb, leb, is_some,
}
use malign_ai.Base.Int.{ℤ, pos, ◌+ℤ◌, ◌-ℤ◌, ltb_ℤ, leb_ℤ, pos_part, int_eq}
use malign_ai.Base.Number.{Number, int, non_integer}
use malign_ai.Base.Dict.{Dict, lookup, modify, insert, has_key, keys}
use malign_ai.Base.Text.{starts_with}
use malign_ai.Rules.Types.{malign, resiliency, alignment_eq}
use malign_ai.Effects.Types.{
  State, Card, CardAlignment, aligned, dual, unaligned, hand, zone_eq, Participant, EffectContext,
  Scalar, text, number, flag, ResourceSpend, FlumaRegime, InfluenceStack, CountryId, arden, fluma,
  ursaria, presque, dinesia, country_eq, country_text, EffectError, invalid_effect_input,
  invalid_die_value, regime_ability_already_used, Failure, rejected, reject,
}
use malign_ai.Effects.Parameters.{
  string_parameter, integer_parameter, string_array_parameter, truthy_parameter,
}
use malign_ai.Effects.Cards.{discard_all}
use malign_ai.Effects.Influence.{apply_direct_influence, is_held, Placement}
use malign_ai.Effects.Resources.{actor, audit, pay, or_reject, reject_if, or_throw, spends_of}

abbrev pub is_from : CountryId → Option Participant → Bool
is_from country none = false
is_from country (some p) = p.country_id == country

-- `regimeAbilityUsed = true`
abbrev pub use_ability : State → String → State
use_ability state participant_id = record state {
  participants =
      modify participant_id (λ p. record p { regime_ability_used = true }) state.participants;
}

abbrev pub is_die : ℤ → Bool
is_die roll = not (ltb_ℤ roll (pos 1) || ltb_ℤ (pos 10) roll)

-- `validateManualDie`
unfoldable validate_manual_die : Number → Option EffectError
validate_manual_die (int roll) = if is_die roll then none else some invalid_die_value
validate_manual_die non_integer = some invalid_die_value

-- The stack that `find` gives for a malign stack on a demographic with an attribution.
abbrev pub is_malign_of : String → String → InfluenceStack → Bool
is_malign_of pd_id attribution stack =
    stack.pd_id == pd_id
    && stack.type == malign
    && country_text stack.attribution_country_id == attribution

abbrev pub has_malign_of : String → String → List InfluenceStack → Bool
has_malign_of pd_id attribution =
    any (λ stack. is_malign_of pd_id attribution stack && ltb_ℤ (pos 0) stack.count)

-- One cube is taken off the first stack that passes the test.
pub take_cube : (InfluenceStack → Bool) → List InfluenceStack → List InfluenceStack
take_cube test [] = []
take_cube test (stack ∷ stacks) =
    if test stack
    then record stack { count = stack.count -ℤ pos 1 } ∷ stacks
    else stack ∷ take_cube test stacks

-- What a roll of 4 or less does.
pub arden_removal : State → EffectContext → Result Failure State
unfolding take_cube
arden_removal state context = do
  pd_id ← or_reject (string_parameter context "pdId") invalid_effect_input
  reject_if (not (starts_with pd_id "ARDEN_PD_")) invalid_effect_input
  attribution ← or_reject (string_parameter context "attributionCountryId") invalid_effect_input
  reject_if (not (has_malign_of pd_id attribution state.influence)) invalid_effect_input
  ok (
      audit
        (record state {
          influence =
              take_cube (λ stack. is_malign_of pd_id attribution stack && ltb_ℤ (pos 0) stack.count)
                state.influence;
        })
        context "REGIME_INFLUENCE_REMOVED"
        (("pdId", text pd_id)
          ∷ ("attributionCountryId", text attribution)
          ∷ ("amount", number (pos 1))
          ∷ []))

unfoldable pub regime_die_remove : State → EffectContext → Result Failure State
unfolding arden_removal
regime_die_remove state context = do
  reject_if (not (is_from arden (actor state context))) invalid_die_value
  participant ← or_reject (actor state context) invalid_die_value
  roll ← or_reject (integer_parameter context "roll") invalid_die_value
  reject_if (not (is_die roll)) invalid_die_value
  reject_if participant.regime_ability_used regime_ability_already_used
  let rolled =
      audit (use_ability state context.actor_participant_id) context "DIE_ROLLED"
        (("rawValue", number roll) ∷ ("manual", flag (truthy_parameter context "manual")) ∷ [])
  (if leb_ℤ roll (pos 4) then arden_removal rolled context else ok rolled)

-- `MALIGN` or `DUAL`
abbrev pub is_malign_card : CardAlignment → Bool
is_malign_card (aligned malign) = true
is_malign_card (aligned resiliency) = false
is_malign_card dual = true
is_malign_card unaligned = false

abbrev pub may_give_up : State → String → String → Bool
may_give_up state participant_id card_id = elim (lookup card_id state.cards) [
  | none ↦ false
  | some card ↦
      card.controller_participant_id == participant_id
      && card.zone == hand
      && is_malign_card card.alignment
]

-- The second loop over the attributions: the first stack of each loses a cube, whatever it holds.
pub take_malign : String → List String → List InfluenceStack → List InfluenceStack
unfolding take_cube
take_malign pd_id [] stacks = stacks
take_malign pd_id (attribution ∷ rest) stacks =
    take_malign pd_id rest (take_cube (is_malign_of pd_id attribution) stacks)

abbrev pub text_at : ℕ → List String → String
text_at n [] = ""
text_at zero (t ∷ ts) = t
text_at (suc n) (t ∷ ts) = text_at n ts

-- Two cards of the hand against the cubes, once the cards have passed the test.
pub ursaria_exchange :
    State → EffectContext → List String → String → List String → Result Failure State
unfolding take_malign
ursaria_exchange state context card_ids pd_id attributions = do
  reject_if (not (all (λ a. has_malign_of pd_id a state.influence) attributions))
      invalid_effect_input
  let gone = discard_all card_ids state
  let taken = record gone { influence = take_malign pd_id attributions gone.influence }
  ok (
      audit
        (audit taken context "REGIME_CARDS_DISCARDED" (
          ("firstCardId", text (text_at 0 card_ids))
          ∷ ("secondCardId", text (text_at 1 card_ids))
          ∷ []))
        context "REGIME_INFLUENCE_REMOVED"
        (("pdId", text pd_id) ∷ ("amount", number (pos (length attributions))) ∷ []))

unfoldable pub regime_ursaria : State → EffectContext → Result Failure State
unfolding ursaria_exchange
regime_ursaria state context = do
  reject_if (not (is_from ursaria (actor state context))) invalid_effect_input
  participant ← or_reject (actor state context) invalid_effect_input
  card_ids ← or_reject (string_array_parameter context "cardIds") invalid_effect_input
  reject_if (not (length card_ids == 2) || not (all_distinct card_ids)) invalid_effect_input
  pd_id ← or_reject (string_parameter context "pdId") invalid_effect_input
  reject_if (not (starts_with pd_id "URSARIA_PD_")) invalid_effect_input
  attributions ←
      or_reject (string_array_parameter context "attributionCountryIds") invalid_effect_input
  reject_if (ltb 3 (length attributions)) invalid_effect_input
  reject_if participant.regime_ability_used regime_ability_already_used
  let used = use_ability state context.actor_participant_id
  (if all (may_give_up used participant.id) card_ids
      then ursaria_exchange used context card_ids pd_id attributions
      else ok used)

abbrev regime_of : State → FlumaRegime
regime_of state = elim state.fluma_regime [
  | none ↦ record { active = false; processed_spend_ids = [] }
  | some regime ↦ regime
]

-- The inner loop, over the units of one spend, with the demographics that are still to be used.
pub spend_units :
    ℕ → ℕ → String → String → List String → State → Result Failure (List String × State)
spend_units zero unit actor_id spend_id targets state = ok (targets, state)
spend_units (suc rounds) unit actor_id spend_id [] state = ok ([], state)
spend_units (suc rounds) unit actor_id spend_id (pd_id ∷ targets) state = do
  (placement, after) ← or_throw (apply_direct_influence state pd_id malign fluma (pos 2))
  spend_units rounds (unit + 1) actor_id spend_id targets (record after {
    audit =
        after.audit
        ++ record {
          type = "FLUMA_SPEND_TRIGGER_RESOLVED";
          actor_participant_id = actor_id;
          payload =
              ("spendId", text spend_id)
              ∷ ("unit", number (pos (unit + 1)))
              ∷ ("pdId", text pd_id)
              ∷ ("generated", number (pos 2))
              ∷ ("placed", number (pos placement.placed))
              ∷ ("removed", number (pos placement.removed))
              ∷ [];
        }
          ∷ [];
  })

abbrev processed : State → List String
processed state = (regime_of state).processed_spend_ids

pub spend_each : String → List ResourceSpend → List String → State → Result Failure State
unfolding spend_units
spend_each actor_id [] targets state = ok state
spend_each actor_id (spend ∷ spends) targets state = do
  (rest, after) ← spend_units (pos_part spend.amount) 0 actor_id spend.id targets state
  spend_each actor_id spends rest (record after {
    fluma_regime =
        some (record (regime_of after) { processed_spend_ids = processed after ++ spend.id ∷ [] });
  })

pub total_amount : List ResourceSpend → ℤ
total_amount [] = pos 0
total_amount (spend ∷ spends) = spend.amount +ℤ total_amount spends

unfoldable pub eligible_spends : State → String → List ResourceSpend
eligible_spends state actor_id =
    filter
      (λ spend. not (spend.participant_id == actor_id) && not (contains spend.id (processed state)))
      (spends_of state)

unfoldable pub resolve_fluma_regime_spends : State → String → List String → Result Failure State
unfolding spend_each total_amount eligible_spends
resolve_fluma_regime_spends state actor_id target_pd_ids = do
  reject_if (not (is_from fluma (lookup actor_id state.participants))) invalid_effect_input
  let eligible = eligible_spends state actor_id
  reject_if
      (not (pos (length target_pd_ids) == total_amount eligible)
        || any (λ pd_id. not (starts_with pd_id "ARDEN_PD_")) target_pd_ids)
      invalid_effect_input
  after ←
      spend_each actor_id eligible target_pd_ids
        (record state { fluma_regime = some (regime_of state) })
  ok (record after { fluma_regime = some (record (regime_of after) { active = true }) })

unfoldable pub regime_fluma : State → EffectContext → Result Failure State
regime_fluma state context = do
  reject_if (not (is_from fluma (actor state context))) invalid_effect_input
  participant ← or_reject (actor state context) invalid_effect_input
  target_pd_ids ← or_reject (string_array_parameter context "targetPdIds") invalid_effect_input
  reject_if (participant.regime_ability_used && not (regime_of state).active)
      regime_ability_already_used
  resolved ← resolve_fluma_regime_spends state participant.id target_pd_ids
  ok (
      audit (use_ability resolved context.actor_participant_id) context "FLUMA_REGIME_ACTIVATED"
        (("processedSpendCount", number (pos (length (processed resolved)))) ∷ []))

-- The demographics whose marker a participant owns.
abbrev pub owned_markers : State → String → List String
owned_markers state participant_id = keys (
    filter (λ e. elim (e.1) [ none ↦ false | some owner ↦ owner == participant_id ])
      state.legitimacy_by_pd)

abbrev pub set_marker : String → Option String → State → State
set_marker pd_id owner state = record state {
  legitimacy_by_pd = insert pd_id owner state.legitimacy_by_pd;
}

-- `state.legitimacyByPd[pdId] ?? ''`
abbrev marker_owner : State → String → String
marker_owner state pd_id = elim (lookup pd_id state.legitimacy_by_pd) [
  | none ↦ ""
  | some owner ↦ elim owner [ none ↦ "" | some participant_id ↦ participant_id ]
]

-- The marker that goes when a fourth one would come: one of one's own, and not the new one.
abbrev give_up_marker : State → String → String → Option String → Result Failure State
give_up_marker state participant_id pd_id none = reject invalid_effect_input
give_up_marker state participant_id pd_id (some own) =
    if not (contains own (owned_markers state participant_id)) || own == pd_id
    then reject invalid_effect_input
    else ok (set_marker own none state)

-- What a roll of 4 or less does. The `pdId` is no inherited name, see `Dict`: the source finds a marker
-- under the others.
pub presque_replacement : State → EffectContext → Participant → Result Failure State
presque_replacement state context participant = do
  pd_id ← or_reject (string_parameter context "pdId") invalid_effect_input
  reject_if (not (has_key pd_id state.legitimacy_by_pd)) invalid_effect_input
  freed ←
      (if leb 3 (length (owned_markers state participant.id))
        then give_up_marker state participant.id pd_id (string_parameter context "removeOwnPdId")
        else ok state)
  ok (
      audit (set_marker pd_id (some participant.id) freed) context "REGIME_LEGITIMACY_REPLACED"
        (("pdId", text pd_id) ∷ ("previousParticipantId", text (marker_owner freed pd_id)) ∷ []))

unfoldable pub regime_presque : State → EffectContext → Result Failure State
unfolding presque_replacement
regime_presque state context = do
  reject_if (not (is_from presque (actor state context))) invalid_die_value
  participant ← or_reject (actor state context) invalid_die_value
  roll ← or_reject (integer_parameter context "roll") invalid_die_value
  reject_if (not (is_die roll)) invalid_die_value
  reject_if participant.regime_ability_used regime_ability_already_used
  let rolled =
      audit (use_ability state context.actor_participant_id) context "DIE_ROLLED"
        (("rawValue", number roll) ∷ ("manual", flag (truthy_parameter context "manual")) ∷ [])
  (if ltb_ℤ (pos 4) roll then ok rolled else presque_replacement rolled context participant)

unfoldable pub regime_dinesia : State → EffectContext → Result Failure State
regime_dinesia state context = do
  reject_if (not (is_from dinesia (actor state context))) invalid_effect_input
  participant ← or_reject (actor state context) invalid_effect_input
  pd_id ← or_reject (string_parameter context "pdId") invalid_effect_input
  reject_if (not (starts_with pd_id "DINESIA_PD_")) invalid_effect_input
  reject_if participant.regime_ability_used regime_ability_already_used
  paid ← pay (use_ability state context.actor_participant_id) context (pos 2)
  (placement, after) ← or_throw (apply_direct_influence paid pd_id resiliency dinesia (pos 1))
  ok (
      audit after context "REGIME_DIRECT_INFLUENCE" (
        ("pdId", text pd_id)
        ∷ ("generated", number (pos 1))
        ∷ ("placed", number (pos placement.placed))
        ∷ ("removed", number (pos placement.removed))
        ∷ []))
