-- ===== src/Reactions/Tests.antt =====
-- Reaction windows of three participants.
use malign_ai.Base.{
  true, err, ltb, ◌&&◌, ◌==◌, if◌then◌else◌, true, err, ◌≡◌, refl, String, false, none, some, List,
  [], ◌∷◌, ◌⊎◌, ok, string_eq,
}
use malign_ai.Base.Int.{pos}
use malign_ai.Base.Number.{int}
use malign_ai.Base.Dict.{Dict, lookup, values}
use malign_ai.Effects.Types.{Campaign, row_i, Campaign, State, Card, ready, action, aligned, hand}
use malign_ai.Rules.Types.{malign}
use malign_ai.Reactions.Window.{
  reaction_not_eligible, ReactionWindow, ReactionError, reaction_not_eligible, reaction_priority,
  open_reaction_window, closed, corruption,
}
use malign_ai.Reactions.Turns.{pass_each, pass_each_closes}
use malign_ai.Reactions.Play.{
  PlayReactionInput, play_reaction, play_error, refused, played, is_successful, child_of, played_in,
}
use malign_ai.Reactions.Atomicity.{play_reaction_decides}
use malign_ai.Reactions.Veto.{
  Vote, acceptable, unacceptable, resolve_veto, apply_veto, is_in_hand, count_acceptable,
  count_unacceptable, apply_veto_by_majority,
}

abbrev initiative : List String
initiative = "a" ∷ "b" ∷ "c" ∷ []

order_of_b : reaction_priority initiative "b" ≡ "c" ∷ "a" ∷ []
unfolding reaction_priority
order_of_b = refl

abbrev window : ReactionWindow
window = open_reaction_window "w" corruption "b" initiative none none none

pass_each_closes_example :
    (u : ReactionWindow) × (pass_each ("c" ∷ "a" ∷ []) window ≡ ok u)
    × (u.status ≡ closed)
    × (u.passes ≡ "c" ∷ "a" ∷ [])
    × (u.plays ≡ [])
pass_each_closes_example =
    pass_each_closes "w" "b" corruption initiative none none none "c" ("a" ∷ []) order_of_b

abbrev card_of_c : Card
card_of_c = record {
  id = "x";
  definition_id = "BASE_CARD_065";
  owner_participant_id = "c";
  controller_participant_id = "c";
  card_class = action;
  alignment = aligned malign;
  zone = hand;
  return_to_owner_on_discard = false;
}

abbrev table : State
table = record {
  version = 1;
  registry_version = "0.1";
  participants = [];
  cards = ("x", card_of_c) ∷ [];
  campaigns = [];
  influence = [];
  legitimacy_by_pd = [];
  scheduler = record { participant_index = 0; slot_index = 0; status = ready };
  audit = [];
  resource_spends = none;
  fluma_regime = none;
}

abbrev corrupting : PlayReactionInput
corrupting = record {
  participant_id = "c";
  card_id = "x";
  effect_id = "CARD_EFFECT_BASE_2025_E036";
  roll = some (int (pos 3));
  abuses_veto = false;
}

play_reaction_decides_example :
    ((e : ReactionError) × (play_error table window corrupting ≡ some e)
      × (play_reaction table window corrupting ≡ refused e table window))
    ⊎ ((after : State) × (play_error table window corrupting ≡ none)
        × (play_reaction table window corrupting
            ≡ played
                (is_successful corrupting)
                (child_of window corrupting)
                after
                (played_in window corrupting)))
play_reaction_decides_example = play_reaction_decides table window corrupting

abbrev campaign_of_a : Campaign
campaign_of_a = record {
  id = "k";
  owner_participant_id = "a";
  row = row_i;
  card_ids = [];
  activation_count_this_turn = 0;
  target_dt_id = none;
}

abbrev disputed : State
disputed = record table { campaigns = ("k", campaign_of_a) ∷ [] }

abbrev votes : Dict Vote
votes = ("a", acceptable) ∷ ("b", unacceptable) ∷ ("c", unacceptable) ∷ []

apply_veto_by_majority_example :
    ((apply_veto disputed "k" "x" (resolve_veto votes) ≡ err reaction_not_eligible)
      × (is_in_hand disputed "x" ≡ false))
    ⊎ ((after : State) × (apply_veto disputed "k" "x" (resolve_veto votes) ≡ ok after)
        × (is_in_hand disputed "x" ≡ true)
        × ((id : String)
            → lookup id after.campaigns ≡ (
                if ltb (count_acceptable (values votes)) (count_unacceptable (values votes))
                  && "k" == id
                then none
                else lookup id disputed.campaigns)))
apply_veto_by_majority_example = apply_veto_by_majority disputed votes "k" "x"

-- A tie does not reject the campaign.
tie : (resolve_veto (("a", acceptable) ∷ ("b", unacceptable) ∷ [])).rejected_campaign ≡ false
unfolding resolve_veto
tie = refl
