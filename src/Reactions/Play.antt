-- ===== src/Reactions/Play.antt =====
-- m2b-reaction.ts: `playReaction`.
use malign_ai.Base.{
  String, Bool, true, false, Option, none, some, List, [], ◌∷◌, ◌++◌, ◌==◌, ◌&&◌, ◌||◌, not, nat_eq,
  string_eq, if◌then◌else◌, is_some, Result, ok, err,
}
use malign_ai.Base.Int.{pos, leb_ℤ}
use malign_ai.Base.Number.{Number, int}
use malign_ai.Base.Dict.{Dict, lookup}
use malign_ai.Base.Text.{◌<>◌}
use malign_ai.Effects.Types.{EffectError, State, hand, zone_eq}
use malign_ai.Effects.Regime.{is_die}
use malign_ai.Effects.Registry.{effect}
use malign_ai.Effects.Cards.{discard_with_lifecycle, discard_campaign, or_same}
use malign_ai.Reactions.Window.{
  ReactionWindow, ReactionTrigger, ReactionError, PlayOutcome, negated, failed, pending_child,
  vote_pending, closed, child_window, trigger_index, is_closed, has_priority, open_reaction_window,
  double_agent, corruption, cyberattack, hack_back, pre_roll, narrative, leaks_drawn,
  reaction_window_closed, reaction_not_priority, reaction_not_eligible, veto_abuse,
  invalid_reaction_input,
}

unfoldable pub reaction_effects : Dict ReactionTrigger
reaction_effects =
    (effect "010", hack_back)
    ∷ (effect "012", double_agent)
    ∷ (effect "022", cyberattack)
    ∷ (effect "036", corruption)
    ∷ (effect "040", pre_roll)
    ∷ (effect "048", narrative)
    ∷ (effect "054", leaks_drawn)
    ∷ []

pub record PlayReactionInput : Type 0 where
  pub participant_id : String
  pub card_id : String
  pub effect_id : String
  pub roll : Option Number
  pub abuses_veto : Bool

-- `!Number.isInteger(rolled) || rolled < 1 || rolled > 10`, negated.
abbrev pub is_die_roll : Option Number → Bool
is_die_roll (some (int n)) = is_die n
is_die_roll _ = false

abbrev is_low_roll : Option Number → Bool
is_low_roll (some (int n)) = leb_ℤ n (pos 4)
is_low_roll _ = false

abbrev pub is_effect : PlayReactionInput → String → Bool
is_effect input number = input.effect_id == effect number

-- Corruption and the reaction before a roll, which need a die.
abbrev pub needs_roll : PlayReactionInput → Bool
needs_roll input = is_effect input "036" || is_effect input "040"

abbrev in_hand_of : State → String → String → Bool
in_hand_of state card_id participant_id = elim (lookup card_id state.cards) [
  | none ↦ false
  | some card ↦ card.zone == hand && card.controller_participant_id == participant_id
]

abbrev triggers : PlayReactionInput → ReactionWindow → Bool
triggers input window = elim (lookup input.effect_id reaction_effects) [
  | none ↦ false
  | some trigger ↦ trigger_index trigger == trigger_index window.trigger
]

-- The campaign that the window is about is gone.
abbrev pub is_gone : State → Option String → Bool
is_gone state none = false
is_gone state (some id) = not (is_some (lookup id state.campaigns))

abbrev pub campaign_is_gone : State → ReactionWindow → Bool
campaign_is_gone state window = is_gone state window.triggering_campaign_id

-- The drawn card is not the one that the reaction is for.
abbrev is_other_card : State → ReactionWindow → Bool
is_other_card state window = elim window.triggering_card_id [
  | none ↦ false
  | some id ↦ elim (lookup id state.cards) [
    | none ↦ true
    | some drawn ↦
        not (drawn.definition_id == "BASE_CARD_026")
        || not (drawn.controller_participant_id == window.triggering_participant_id)
        || not (drawn.zone == hand)
  ]
]

-- The error of the first check that fails.
abbrev pub first_error : List (Bool × ReactionError) → Option ReactionError
first_error [] = none
first_error ((fails, e) ∷ checks) = if fails then some e else first_error checks

-- The early returns, in their order.
unfoldable pub play_checks :
    State → ReactionWindow → PlayReactionInput → List (Bool × ReactionError)
unfolding reaction_effects
play_checks state window input =
    (is_closed window.status, reaction_window_closed)
    ∷ (not (has_priority window input.participant_id), reaction_not_priority)
    ∷ (
      not (in_hand_of state input.card_id input.participant_id) || not (triggers input window),
      reaction_not_eligible,
    )
    ∷ (is_effect input "048" && input.abuses_veto, veto_abuse)
    ∷ (needs_roll input && not (is_die_roll input.roll), invalid_reaction_input)
    ∷ (is_effect input "040" && campaign_is_gone state window, invalid_reaction_input)
    ∷ (is_effect input "054" && is_other_card state window, invalid_reaction_input)
    ∷ []

abbrev pub play_error : State → ReactionWindow → PlayReactionInput → Option ReactionError
play_error state window input = first_error (play_checks state window input)

abbrev pub is_successful : PlayReactionInput → Bool
is_successful input = if needs_roll input then is_low_roll input.roll else true

-- The campaign goes that the reaction before a roll negates.
abbrev pub without_campaign : State → Option String → Result EffectError State
without_campaign state none = ok state
without_campaign state (some id) = discard_campaign state id

abbrev pub discard_option : State → Option String → State
discard_option state none = state
discard_option state (some id) = or_same state (discard_with_lifecycle state id)

abbrev pub child_of : ReactionWindow → PlayReactionInput → Option ReactionWindow
child_of window input =
    if is_effect input "022"
    then some (
        open_reaction_window (window.id <> ":child") hack_back input.participant_id
          (input.participant_id ∷ window.triggering_participant_id ∷ []) (some window.id) none
          (some input.card_id))
    else none

abbrev outcome_of : PlayReactionInput → PlayOutcome
outcome_of input =
    if is_effect input "022"
    then pending_child
    else if is_effect input "048"
    then vote_pending
    else if is_successful input
    then negated
    else failed

-- The window after a reaction.
abbrev pub played_in : ReactionWindow → PlayReactionInput → ReactionWindow
played_in window input = record window {
  plays =
      window.plays
      ++ record {
        participant_id = input.participant_id;
        card_id = input.card_id;
        effect_id = input.effect_id;
        outcome = outcome_of input;
      }
        ∷ [];
  status = if is_effect input "022" then child_window else closed;
}

-- What the caller gets, with the state and the window as they are left.
pub data PlayResult : Type 0 where
  refused : ReactionError → State → ReactionWindow → PlayResult
  played : Bool → Option ReactionWindow → State → ReactionWindow → PlayResult

-- The card of every reaction but the veto's goes at once.
abbrev pub after_card : State → PlayReactionInput → State
after_card state input =
    if is_effect input "048"
    then state
    else or_same state (discard_with_lifecycle state input.card_id)

-- The part after the discard of the campaign.
abbrev pub conclude :
    ReactionWindow → PlayReactionInput → State → Result EffectError State → PlayResult
conclude window input state (err e) = refused invalid_reaction_input state window
conclude window input state (ok after) =
    played (is_successful input) (child_of window input)
      (if is_effect input "054" then discard_option after window.triggering_card_id else after)
      (played_in window input)

abbrev pub play_checked :
    Option ReactionError → State → ReactionWindow → PlayReactionInput → PlayResult
play_checked (some e) state window input = refused e state window
play_checked none state window input =
    let discarded = after_card state input in
    conclude window input discarded (
      if is_effect input "040" && is_successful input
      then without_campaign discarded window.triggering_campaign_id
      else ok discarded)

unfoldable pub play_reaction : State → ReactionWindow → PlayReactionInput → PlayResult
play_reaction state window input = play_checked (play_error state window input) state window input
