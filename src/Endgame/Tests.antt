-- ===== src/Endgame/Tests.antt =====
-- The final scores of three participants, of whom two lead.
use malign_ai.Base.{◌≡◌, refl, String, true, List, [], ◌∷◌, All, contains, string_eq}
use malign_ai.Base.Int.{ℤ, pos, ◌≤ℤ◌}
use malign_ai.Effects.Types.{arden, fluma, ursaria, CountryId}
use malign_ai.Endgame.Winners.{FinalParticipantScore, determine_winners}
use malign_ai.Endgame.Winners.Ranking.{
  In, NotAhead, determine_winners_best, determine_winners_someone,
}

abbrev score : String → CountryId → ℤ → ℤ → FinalParticipantScore
score id country points cubes = record {
  participant_id = id;
  country_id = country;
  base_vp = points;
  objective_vp = pos 0;
  final_vp = points;
  own_country_malign = cubes;
}

abbrev rest_of_scores : List FinalParticipantScore
rest_of_scores = score "f" fluma (pos 9) (pos 2) ∷ score "u" ursaria (pos 7) (pos 0) ∷ []

abbrev first_score : FinalParticipantScore
first_score = score "a" arden (pos 9) (pos 4)

winner_f : contains "f" (determine_winners (first_score ∷ rest_of_scores)) ≡ true
unfolding determine_winners
winner_f = refl

determine_winners_best_example :
    (s : FinalParticipantScore) × In s (first_score ∷ rest_of_scores)
    × (s.participant_id ≡ "f")
    × All (λ t. t.final_vp ≤ℤ s.final_vp) (first_score ∷ rest_of_scores)
    × All (NotAhead s) (first_score ∷ rest_of_scores)
determine_winners_best_example = determine_winners_best (first_score ∷ rest_of_scores) "f" winner_f

determine_winners_someone_example :
    (s : FinalParticipantScore) × (contains s.participant_id
        (determine_winners (first_score ∷ rest_of_scores))
      ≡ true)
determine_winners_someone_example = determine_winners_someone first_score rest_of_scores
