-- ===== src/Endgame/Final/Tests.antt =====
-- m2b-endgame.ts: the end of a game of one player.
use malign_ai.Base.{Bool, Exception, none, [], ◌∷◌, ◌≡◌, refl, Result, ok, err, ◌+◌}
use malign_ai.Base.Int.{pos}
use malign_ai.Effects.Types.{State, Participant, ursaria, fluma, ready}
use malign_ai.Endgame.Objectives.{Metrics, evaluate_objectives}
use malign_ai.Endgame.Final.{EndGameState, GameOutcome, finalize_game, awards_so_far}
use malign_ai.Endgame.Final.Once.{
  AreScoresOf, awarded, objectives, finalize_game_once, finalize_game_adds_up,
}

abbrev last_player : Participant
last_player = record {
  id = "p";
  country_id = ursaria;
  resources = pos 3;
  victory_points = pos 4;
  card_ids = [];
  regime_ability_used = Bool.false;
  core_modifier_used = Bool.false;
}

abbrev last_state : State
last_state = record {
  version = 1;
  registry_version = "1";
  participants = ("p", last_player) ∷ [];
  cards = [];
  campaigns = [];
  influence = [];
  legitimacy_by_pd = [];
  scheduler = record { participant_index = 0; slot_index = 0; status = ready };
  audit = [];
  resource_spends = none;
  fluma_regime = none;
}

abbrev last_metrics : Metrics
last_metrics =
    (
      "FLUMA_PD_1",
      record {
        host_country_id = fluma;
        traits = [];
        total_malign = 3;
        total_resiliency = 0;
        attributed_malign = ("URSARIA", 3) ∷ [];
        attributed_resiliency = [];
        narrative_tagged_countries = none;
      },
    )
    ∷ []

abbrev unscored : EndGameState
unscored = record {
  idempotency_results = [];
  awarded_objective_keys = [];
  objective_awards = none;
  outcome = none;
}

abbrev value_of : Result Exception (GameOutcome × EndGameState) → GameOutcome × EndGameState
value_of (ok r) = r
value_of (err e) =
    (record { scores = []; winner_participant_ids = []; shared_victory = Bool.false }, unscored)

abbrev scored : GameOutcome × EndGameState
unfolding finalize_game evaluate_objectives
scored = value_of (finalize_game unscored last_state last_metrics "k")

scored_once : finalize_game unscored last_state last_metrics "k" ≡ ok scored
unfolding finalize_game evaluate_objectives scored
scored_once = refl

finalize_game_once_example : finalize_game scored.1 last_state [] "k" ≡ ok (scored.0, scored.1)
finalize_game_once_example =
    finalize_game_once unscored last_state last_state last_metrics [] "k" scored.0 scored.1
      scored_once

finalize_game_adds_up_example :
    AreScoresOf last_metrics (last_player ∷ []) (scored.0).scores
    × (awarded (awards_so_far (scored.1).objective_awards)
        ≡ awarded (awards_so_far unscored.objective_awards) + objectives (scored.0).scores)
finalize_game_adds_up_example =
    finalize_game_adds_up unscored last_state last_metrics "k" scored.0 scored.1 refl scored_once
