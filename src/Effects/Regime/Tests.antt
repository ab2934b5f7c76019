-- ===== src/Effects/Regime/Tests.antt =====
-- m2b.ts, the exchange of Ursaria: a player with two malign cards, and a stack of one cube.
use malign_ai.Base.{String, false, none, [], ◌∷◌, ◌≡◌, refl, ok, arith}
use malign_ai.Base.Int.{pos, negsuc}
use malign_ai.Rules.Types.{malign}
use malign_ai.Effects.Types.{
  State, EffectContext, Participant, Card, InfluenceStack, ursaria, arden, ready, action, aligned,
  hand, str, array, cons, no_items,
}
use malign_ai.Effects.Parameters.{string_parameter, string_array_parameter}
use malign_ai.Effects.Regime.{regime_ursaria}
use malign_ai.Effects.Regime.Debt.{regime_ursaria_overdraws}

abbrev dealer : Participant
dealer = record {
  id = "u";
  country_id = ursaria;
  resources = pos 2;
  victory_points = pos 3;
  card_ids = [];
  regime_ability_used = false;
  core_modifier_used = false;
}

abbrev card : String → Card
card id = record {
  id = id;
  definition_id = "BASE_CARD_065";
  owner_participant_id = "u";
  controller_participant_id = "u";
  card_class = action;
  alignment = aligned malign;
  zone = hand;
  return_to_owner_on_discard = false;
}

abbrev one_cube : InfluenceStack
one_cube = record {
  pd_id = "URSARIA_PD_1";
  type = malign;
  attribution_country_id = arden;
  count = pos 1;
}

abbrev table : State
table = record {
  version = 1;
  registry_version = "0.1";
  participants = ("u", dealer) ∷ [];
  cards = ("x", card "x") ∷ ("y", card "y") ∷ [];
  campaigns = [];
  influence = one_cube ∷ [];
  legitimacy_by_pd = [];
  scheduler = record { participant_index = 0; slot_index = 0; status = ready };
  audit = [];
  resource_spends = none;
  fluma_regime = none;
}

abbrev named_twice : EffectContext
named_twice = record {
  actor_participant_id = "u";
  effect_id = "REGIME_EFFECT_URSARIA";
  effect_version = "0.1";
  parameters =
      ("cardIds", array (cons (str "x") (cons (str "y") no_items)))
      ∷ ("pdId", str "URSARIA_PD_1")
      ∷ ("attributionCountryIds", array (cons (str "ARDEN") (cons (str "ARDEN") no_items)))
      ∷ [];
}

regime_ursaria_overdraws_example :
    (t : State) × (regime_ursaria table named_twice ≡ ok t)
    × (t.influence ≡ record one_cube { count = negsuc 0 } ∷ [])
unfolding string_parameter string_array_parameter
regime_ursaria_overdraws_example =
    regime_ursaria_overdraws table named_twice dealer ("x" ∷ "y" ∷ []) "URSARIA_PD_1" "ARDEN" 0 2 []
      one_cube [] refl refl refl refl refl refl refl refl refl refl (omega arith) refl tt refl refl
      (omega arith)
