-- ===== src/Endgame/Final/Once.antt =====
-- m2b-endgame.ts: `finalizeGame` counts once for each key, and its awards add up.
use malign_ai.Base.{
  ℕ, ◌+◌, String, Option, none, some, List, [], ◌∷◌, ◌++◌, ◌≡◌, refl, ap, arith, Result, ok,
  Exception, string_eq, eq_iff, subst, >>=-eq-ok,
}
use malign_ai.Base.Int.{pos, pos_part, ◌+ℤ◌}
use malign_ai.Base.Dict.{lookup, lookup-insert, values}
use malign_ai.Effects.Types.{State, Participant, CountryId, arden, fluma, ursaria, presque, dinesia}
use malign_ai.Endgame.Winners.{FinalParticipantScore}
use malign_ai.Endgame.Objectives.{
  Metrics, ObjectiveEvaluation, entries_for, total_over, evaluate_objectives, arden_objectives,
  ursaria_objectives, presque_objectives, fluma_objectives, dinesia_objectives,
}
use malign_ai.Endgame.Final.{
  EndGameState, GameOutcome, ObjectiveAwardRecord, awards_so_far, score_all, finalize_game,
  finalized, concluded, awarded_to, awards_of,
}

evaluate_objectives_sum :
    (c : CountryId) (metrics : Metrics) (e : ObjectiveEvaluation)
    → evaluate_objectives c metrics ≡ ok e
    → e.total_vp ≡ e.hard_vp + e.medium_vp + e.easy_vp
unfolding evaluate_objectives arden_objectives ursaria_objectives presque_objectives
    fluma_objectives dinesia_objectives
evaluate_objectives_sum arden metrics e q = ground arith
evaluate_objectives_sum fluma metrics e q = ground arith
evaluate_objectives_sum ursaria metrics e q = ground arith
evaluate_objectives_sum presque metrics e q = ground arith
evaluate_objectives_sum dinesia metrics e q = ground arith

-- The points of a list of awards, and those of a list of scores.
abbrev pub awarded : List ObjectiveAwardRecord → ℕ
awarded [] = 0
awarded (a ∷ rest) = a.vp_awarded + awarded rest

abbrev pub objectives : List FinalParticipantScore → ℕ
objectives [] = 0
objectives (s ∷ ss) = pos_part s.objective_vp + objectives ss

awarded-append : (xs ys : List ObjectiveAwardRecord) → awarded (xs ++ ys) ≡ awarded xs + awarded ys
awarded-append [] ys = omega arith
awarded-append (x ∷ xs) ys = omega (arith, awarded-append xs ys)

ok_inj : {A : Type 0} {a b : A} → ◌≡◌ {A = Result Exception A} (ok a) (ok b) → a ≡ b
ok_inj e = cc

-- The scores are the participants' in turn: for each one the points that they had, and those of the
-- three objectives of their country, beside their country's malign cubes.
pub data IsScoreOf (metrics : Metrics) (p : Participant) (s : FinalParticipantScore) : Type 0 where
  is_score :
      (e : ObjectiveEvaluation)
      → evaluate_objectives p.country_id metrics ≡ ok e
      → s.participant_id ≡ p.id
      → s.country_id ≡ p.country_id
      → s.base_vp ≡ p.victory_points
      → s.objective_vp ≡ pos (e.hard_vp + e.medium_vp + e.easy_vp)
      → s.final_vp ≡ p.victory_points +ℤ pos (e.hard_vp + e.medium_vp + e.easy_vp)
      → s.own_country_malign
        ≡ pos (total_over (λ m. m.total_malign) (entries_for metrics p.country_id))
      → IsScoreOf metrics p s

abbrev pub AreScoresOf : Metrics → List Participant → List FinalParticipantScore → Type 0
AreScoresOf metrics [] [] = Unit
AreScoresOf metrics [] (s ∷ ss) = ⊥
AreScoresOf metrics (p ∷ ps) [] = ⊥
AreScoresOf metrics (p ∷ ps) (s ∷ ss) = IsScoreOf metrics p s × AreScoresOf metrics ps ss

-- What scoring leaves: the points awarded, the results of the keys, and the scores.
abbrev Scored :
    Metrics → List Participant → EndGameState → List FinalParticipantScore × EndGameState → Type 0
Scored metrics ps g r =
    (awarded (awards_so_far (r.1).objective_awards)
      ≡ awarded (awards_so_far g.objective_awards) + objectives r.0)
    × ((r.1).idempotency_results ≡ g.idempotency_results)
    × AreScoresOf metrics ps r.0

score_all-Scored :
    (metrics : Metrics) (ps : List Participant) (g : EndGameState)
    (r : List FinalParticipantScore × EndGameState)
    → score_all metrics ps g ≡ ok r
    → Scored metrics ps g r
unfolding score_all
score_all-Scored metrics [] g r e = subst (Scored metrics [] g) (ok_inj e) (omega arith, refl, tt)
score_all-Scored metrics (p ∷ ps) g r e =
    let (v, evaluated, rest) = >>=-eq-ok (evaluate_objectives p.country_id metrics) _ e in
    let (t, scored_rest, last) = >>=-eq-ok (score_all metrics ps (awarded_to g p v)) _ rest in
    let (sum, kept, finals) = score_all-Scored metrics ps (awarded_to g p v) t scored_rest in
    let total : v.total_vp ≡ v.hard_vp + v.medium_vp + v.easy_vp =
      evaluate_objectives_sum p.country_id metrics v evaluated in
    subst (Scored metrics (p ∷ ps) g) (ok_inj last) (
      omega (arith, sum, awarded-append (awards_so_far g.objective_awards) (awards_of p v), total),
      kept,
      (
        is_score v evaluated refl refl refl (ap pos total)
            (ap (λ n. p.victory_points +ℤ pos n) total) refl,
        finals,
      ),
    )

concluded-Scored :
    (g : EndGameState) (state : State) (metrics : Metrics) (key : String)
    (r : GameOutcome × EndGameState)
    → lookup key g.idempotency_results ≡ none
    → finalize_game g state metrics key ≡ ok r
    → (t : List FinalParticipantScore × EndGameState) × Scored metrics
        (values state.participants)
        g
        t
      × (concluded key t.0 t.1 ≡ r)
unfolding finalize_game
concluded-Scored g state metrics key r fresh e =
    let (t, scored, last) =
      >>=-eq-ok (score_all metrics (values state.participants) g) _ (rw fresh at e) in
    (t, score_all-Scored metrics (values state.participants) g t scored, ok_inj last)

-- A game is scored once for each key. Whatever has become of the map and the players, a second call
-- with the key gives the first call's outcome and changes nothing.
pub finalize_game_once :
    (g : EndGameState) (state later : State) (metrics new_metrics : Metrics) (key : String)
    (outcome : GameOutcome) (after : EndGameState)
    → finalize_game g state metrics key ≡ ok (outcome, after)
    → finalize_game after later new_metrics key ≡ ok (outcome, after)
unfolding finalize_game
finalize_game_once g state later metrics new_metrics key outcome after e =
    ap (λ (o : Option GameOutcome). finalized after later new_metrics key o)
      (kept (lookup key g.idempotency_results) refl)
  where
    kept :
        (o : Option GameOutcome)
        → lookup key g.idempotency_results ≡ o
        → lookup key after.idempotency_results ≡ some outcome
    kept none q =
        let (t, _, last) = concluded-Scored g state metrics key (outcome, after) q e in
        ground (
          arith,
          last,
          lookup-insert key key (concluded key t.0 t.1).0 (t.1).idempotency_results,
          eq_iff key key,
        )
    kept (some prior) q = ground arith

-- The first call with a key scores the participants in turn, each with the points that they had and
-- in addition those of their country's three objectives, and the awards by the tiers of the objectives
-- grow by just as many points as the scores count for objectives.
pub finalize_game_adds_up :
    (g : EndGameState) (state : State) (metrics : Metrics) (key : String) (outcome : GameOutcome)
    (after : EndGameState)
    → lookup key g.idempotency_results ≡ none
    → finalize_game g state metrics key ≡ ok (outcome, after)
    → AreScoresOf metrics (values state.participants) outcome.scores
      × (awarded (awards_so_far after.objective_awards)
          ≡ awarded (awards_so_far g.objective_awards) + objectives outcome.scores)
finalize_game_adds_up g state metrics key outcome after fresh e =
    let (t, (sum, _, finals), last) =
      concluded-Scored g state metrics key (outcome, after) fresh e in
    subst
      (λ (r : GameOutcome × EndGameState).
        AreScoresOf metrics (values state.participants) (r.0).scores
        × (awarded (awards_so_far (r.1).objective_awards)
            ≡ awarded (awards_so_far g.objective_awards) + objectives (r.0).scores))
      last (finals, sum)
