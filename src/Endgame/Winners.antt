-- ===== src/Endgame/Winners.antt =====
-- m2b-endgame.ts: the winners among the final scores, and the end of a turn.
pub mod Ranking
use malign_ai.Base.{ℕ, String, List, [], ◌∷◌, ◌==◌, filter, map, sort_by, if◌then◌else◌, ltb}
use malign_ai.Base.Int.{ℤ, int_eq, min_ℤ, max_ℤ}
use malign_ai.Base.Text.{string_leb}
use malign_ai.Effects.Types.{CountryId}

pub record FinalParticipantScore : Type 0 where
  pub participant_id : String
  pub country_id : CountryId
  pub base_vp : ℤ
  pub objective_vp : ℤ
  pub final_vp : ℤ
  pub own_country_malign : ℤ

-- `Math.max` and `Math.min` of numbers of which one is given.
pub max_of : ℤ → List ℤ → ℤ
max_of m [] = m
max_of m (x ∷ xs) = max_of (max_ℤ m x) xs

pub min_of : ℤ → List ℤ → ℤ
min_of m [] = m
min_of m (x ∷ xs) = min_of (min_ℤ m x) xs

-- The scores with the most points; of no scores, none.
pub leaders : List FinalParticipantScore → List FinalParticipantScore
unfolding max_of
leaders [] = []
leaders (s ∷ scores) =
    let max_vp = max_of s.final_vp (map (λ t. t.final_vp) scores) in
    filter (λ t. t.final_vp == max_vp) (s ∷ scores)

-- Those of them with the fewest malign cubes at home.
pub least_malign : List FinalParticipantScore → List FinalParticipantScore
unfolding min_of
least_malign [] = []
least_malign (s ∷ scores) =
    let least = min_of s.own_country_malign (map (λ t. t.own_country_malign) scores) in
    filter (λ t. t.own_country_malign == least) (s ∷ scores)

unfoldable pub determine_winners : List FinalParticipantScore → List String
unfolding leaders least_malign
determine_winners scores =
    sort_by string_leb (map (λ s. s.participant_id) (least_malign (leaders scores)))

pub data NextPhase : Type 0 where
  initiative_stage end_game_scoring : NextPhase

unfoldable end_turn : ℕ → ℕ → NextPhase
end_turn turn_number turn_limit =
    if ltb turn_number turn_limit then initiative_stage else end_game_scoring
