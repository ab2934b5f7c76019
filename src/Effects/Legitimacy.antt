-- ===== src/Effects/Legitimacy.antt =====
-- m2b.ts: `establishLegitimacy`.
pub mod Limit
use malign_ai.Base.{
  String, Bool, false, Option, none, some, ◌==◌, string_eq, nat_eq, if◌then◌else◌, leb, length,
}
use malign_ai.Base.Dict.{lookup}
use malign_ai.Effects.Types.{State}
use malign_ai.Effects.Regime.{owned_markers, set_marker}

abbrev pub owns : State → String → String → Bool
owns state participant_id pd_id = elim (lookup pd_id state.legitimacy_by_pd) [
  | none ↦ false
  | some owner ↦ elim owner [ none ↦ false | some p ↦ p == participant_id ]
]

-- The state that stays when the marker to replace is missing or another's: `none` for `false`.
unfoldable pub establish_legitimacy : State → String → String → Option String → Option State
establish_legitimacy state participant_id pd_id replace_pd_id =
    if leb 3 (length (owned_markers state participant_id))
    then elim replace_pd_id [
      | none ↦ none
      | some replaced ↦
          if owns state participant_id replaced
          then some (set_marker pd_id (some participant_id) (set_marker replaced none state))
          else none
    ]
    else some (set_marker pd_id (some participant_id) state)
