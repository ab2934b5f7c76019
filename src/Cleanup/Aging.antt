-- ===== src/Cleanup/Aging.antt =====
-- m2b-lifecycle.ts: campaigns age, and the flags of the turn are reset.
use malign_ai.Base.{
  String, Bool, true, false, Option, none, some, List, [], ◌∷◌, map, filter, sort_by, not,
}
use malign_ai.Base.Dict.{map_values, Dict, lookup, modify, values}
use malign_ai.Effects.Types.{
  State, Campaign, CampaignRow, row_i, row_ii, Participant, FlumaRegime, ResourceSpend, ready,
}
use malign_ai.Effects.Cards.{or_same, discard_campaign}

abbrev pub is_row_ii : CampaignRow → Bool
is_row_ii row_i = false
is_row_ii row_ii = true

pub record CleanupResult : Type 0 where
  pub state : State
  pub aged_campaign_ids : List String
  pub discarded_campaign_ids : List String

-- The ids of a row's campaigns in the order of `localeCompare`, which `id_leb` stands for.
abbrev pub ids_by : (String → String → Bool) → (Campaign → Bool) → Dict Campaign → List String
ids_by id_leb in_row campaigns =
    sort_by id_leb (map (λ (c : Campaign). c.id) (filter in_row (values campaigns)))

-- The first loop, over row II.
unfoldable pub discard_each : List String → State → State
discard_each [] state = state
discard_each (id ∷ ids) state = discard_each ids (or_same state (discard_campaign state id))

-- The second loop, over row I: `current.row = 'II'` for a campaign that is still there.
unfoldable pub age_each : List String → Dict Campaign → Dict Campaign
age_each [] campaigns = campaigns
age_each (id ∷ ids) campaigns =
    age_each ids (modify id (λ (c : Campaign). record c { row = row_ii }) campaigns)

abbrev pub id_list : Option Campaign → List String → List String
id_list none ids = ids
id_list (some c) ids = c.id ∷ ids

-- The ids that the second loop reports.
abbrev pub present_ids : Dict Campaign → List String → List String
present_ids campaigns [] = []
present_ids campaigns (id ∷ ids) = id_list (lookup id campaigns) (present_ids campaigns ids)

unfoldable pub cleanup_campaign_aging : (String → String → Bool) → State → CleanupResult
unfolding discard_each age_each
cleanup_campaign_aging id_leb input =
    let old = ids_by id_leb (λ c. is_row_ii c.row) input.campaigns in
    let young = ids_by id_leb (λ c. not (is_row_ii c.row)) input.campaigns in
    let kept = discard_each old input in
    record {
      state = record kept { campaigns = age_each young kept.campaigns };
      aged_campaign_ids = present_ids kept.campaigns young;
      discarded_campaign_ids = old;
    }

abbrev reset_fluma : Option FlumaRegime → Option FlumaRegime
reset_fluma none = none
reset_fluma (some f) = some (record { active = false; processed_spend_ids = [] })

abbrev reset_spends : Option (List ResourceSpend) → Option (List ResourceSpend)
reset_spends none = none
reset_spends (some spends) = some []

unfoldable pub reset_turn_flags : State → State
reset_turn_flags state = record state {
  campaigns =
      map_values (λ (c : Campaign). record c { activation_count_this_turn = 0 }) state.campaigns;
  participants =
      map_values
        (λ (p : Participant). record p { regime_ability_used = false; core_modifier_used = false })
        state.participants;
  fluma_regime = reset_fluma state.fluma_regime;
  resource_spends = reset_spends state.resource_spends;
  scheduler = record { participant_index = 0; slot_index = 0; status = ready };
}
