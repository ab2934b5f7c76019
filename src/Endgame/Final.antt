-- ===== src/Endgame/Final.antt =====
-- m2b-endgame.ts: the final scores, once for each idempotency key.
pub mod Once
pub mod Tests
use malign_ai.Base.{
  ℕ, String, Bool, Option, none, some, List, [], ◌∷◌, ◌++◌, length, ltb, ◌==◌, Result, ok, err,
  ◌>>=◌, Exception,
}
use malign_ai.Base.Int.{ℤ, pos, ◌+ℤ◌}
use malign_ai.Base.Dict.{Dict, lookup, insert, values}
use malign_ai.Base.Text.{◌<>◌}
use malign_ai.Effects.Types.{State, Participant, CountryId, country_text}
use malign_ai.Endgame.Winners.{FinalParticipantScore, determine_winners}
use malign_ai.Endgame.Objectives.{
  Metrics, ObjectiveEvaluation, evaluate_objectives, entries_for, total_over,
}

-- `status` is `GAME_COMPLETED` in every outcome.
pub record GameOutcome : Type 0 where
  pub scores : List FinalParticipantScore
  pub winner_participant_ids : List String
  pub shared_victory : Bool

pub data ObjectiveTier : Type 0 where
  hard medium easy : ObjectiveTier

abbrev pub tier_text : ObjectiveTier → String
tier_text hard = "HARD"
tier_text medium = "MEDIUM"
tier_text easy = "EASY"

pub record ObjectiveAwardRecord : Type 0 where
  pub participant_id : String
  pub country_id : CountryId
  pub objective_logical_id : String
  pub tier : ObjectiveTier
  pub vp_awarded : ℕ
  pub evaluation : ObjectiveEvaluation

pub record EndGameState : Type 0 where
  pub idempotency_results : Dict GameOutcome
  pub awarded_objective_keys : List String
  pub objective_awards : Option (List ObjectiveAwardRecord)
  pub outcome : Option GameOutcome

abbrev pub awards_so_far : Option (List ObjectiveAwardRecord) → List ObjectiveAwardRecord
awards_so_far none = []
awards_so_far (some awards) = awards

abbrev award : Participant → ObjectiveEvaluation → ObjectiveTier → ℕ → ObjectiveAwardRecord
award participant e tier vp = record {
  participant_id = participant.id;
  country_id = participant.country_id;
  objective_logical_id = country_text participant.country_id <> "_" <> tier_text tier;
  tier = tier;
  vp_awarded = vp;
  evaluation = e;
}

abbrev pub awards_of : Participant → ObjectiveEvaluation → List ObjectiveAwardRecord
awards_of p e =
    award p e hard e.hard_vp ∷ award p e medium e.medium_vp ∷ award p e easy e.easy_vp ∷ []

abbrev pub score_of : Metrics → Participant → ObjectiveEvaluation → FinalParticipantScore
score_of metrics p e = record {
  participant_id = p.id;
  country_id = p.country_id;
  base_vp = p.victory_points;
  objective_vp = pos e.total_vp;
  final_vp = p.victory_points +ℤ pos e.total_vp;
  own_country_malign = pos (total_over (λ m. m.total_malign) (entries_for metrics p.country_id));
}

abbrev pub awarded_to : EndGameState → Participant → ObjectiveEvaluation → EndGameState
awarded_to g p e = record g {
  awarded_objective_keys = g.awarded_objective_keys ++ (p.id <> ":FINAL_OBJECTIVES") ∷ [];
  objective_awards = some (awards_so_far g.objective_awards ++ awards_of p e);
}

-- The `map` over the participants. An exception ends it, and what earlier participants were awarded
-- is then not told here.
unfoldable pub score_all :
    Metrics
    → List Participant
    → EndGameState
    → Result Exception (List FinalParticipantScore × EndGameState)
score_all metrics [] g = ok ([], g)
score_all metrics (p ∷ ps) g = do
  e ← evaluate_objectives p.country_id metrics
  (scores, after) ← score_all metrics ps (awarded_to g p e)
  ok (score_of metrics p e ∷ scores, after)

abbrev pub concluded :
    String → List FinalParticipantScore → EndGameState → GameOutcome × EndGameState
concluded key scores g =
    let winners = determine_winners scores in
    let outcome : GameOutcome = record {
      scores = scores;
      winner_participant_ids = winners;
      shared_victory = ltb 1 (length winners);
    } in
    (
      outcome,
      record g {
        outcome = some outcome;
        idempotency_results = insert key outcome g.idempotency_results;
      },
    )

abbrev pub finalized :
    EndGameState
    → State
    → Metrics
    → String
    → Option GameOutcome
    → Result Exception (GameOutcome × EndGameState)
finalized g state metrics key (some prior) = ok (prior, g)
finalized g state metrics key none = score_all metrics (values state.participants) g >>= λ scored.
    ok (concluded key scored.0 scored.1)

unfoldable pub finalize_game :
    EndGameState → State → Metrics → String → Result Exception (GameOutcome × EndGameState)
unfolding score_all
finalize_game g state metrics key = finalized g state metrics key (lookup key g.idempotency_results)
