-- ===== src/Cleanup/Tests.antt =====
-- m2b-lifecycle.ts: the cleanup of a small map.
use malign_ai.Base.{
  ℕ, ◌+◌, ◌≤◌, String, false, none, some, List, [], ◌∷◌, ◌≡◌, refl, arith, All, contains, string_eq,
  err, ok, ◌==◌, nat_eq, if◌then◌else◌,
}
use malign_ai.Base.Int.{pos, ◌+ℤ◌}
use malign_ai.Base.Number.{nat}
use malign_ai.Base.Dict.{Dict, lookup}
use malign_ai.Base.Named.{test_at}
use malign_ai.Base.Text.{string_leb}
use malign_ai.Rules.Types.{malign}
use malign_ai.Effects.Types.{State, Campaign, row_i, row_ii, arden, ready, Participant}
use malign_ai.Cleanup.Aging.{cleanup_campaign_aging, is_row_ii}
use malign_ai.Cleanup.Viral.{
  total_of, ViralOrigin, baseline, snapshot_viral_origins, resolve_viral_origin,
  invalid_cleanup_step, stale_cleanup_continuation,
}
use malign_ai.Cleanup.Continuation.{
  CleanupContinuation, aging, complete, advance_cleanup_continuation, make_cleanup_continuation,
  steps_left,
}
use malign_ai.Cleanup.Completion.{advance_all, advance_all_completes}
use malign_ai.Cleanup.Spread.{Ends, resolve_viral_origin_ends}
use malign_ai.Cleanup.Origins.{IsOrigin, Ranked, snapshot_viral_origins-IsOrigin}
use malign_ai.Cleanup.Rows.{aged_at, cleanup_campaign_aging_rows}

abbrev campaign : String → Campaign
campaign id = record {
  id = id;
  owner_participant_id = "p";
  row = row_i;
  card_ids = [];
  activation_count_this_turn = 1;
  target_dt_id = none;
}

abbrev player : Participant
player = record {
  id = "p";
  country_id = arden;
  resources = pos 3;
  victory_points = pos 0;
  card_ids = [];
  regime_ability_used = false;
  core_modifier_used = false;
}

abbrev map_state : State
map_state = record {
  version = 1;
  registry_version = "1";
  participants = ("p", player) ∷ [];
  cards = [];
  campaigns = ("a", campaign "a") ∷ ("b", record (campaign "b") { row = row_ii }) ∷ [];
  influence =
      (record { pd_id = "x"; type = malign; attribution_country_id = arden; count = pos 9 }) ∷ [];
  legitimacy_by_pd = ("x", some "p") ∷ [];
  scheduler = record { participant_index = 0; slot_index = 0; status = ready };
  audit = [];
  resource_spends = none;
  fluma_regime = none;
}

abbrev traits : Dict (List String)
traits = ("x", "coast" ∷ []) ∷ ("y", "coast" ∷ []) ∷ []

abbrev origin : ViralOrigin
origin = record {
  pd_id = "x";
  owner_participant_id = "p";
  type = malign;
  valid_destination_pd_ids = "y" ∷ [];
}

one_origin : snapshot_viral_origins string_leb map_state ("p" ∷ []) traits baseline [] ≡ origin ∷ []
unfolding snapshot_viral_origins total_of ◌+ℤ◌
one_origin = refl

cleanup_campaign_aging_rows_example :
    (lookup "b" (cleanup_campaign_aging string_leb map_state).state.campaigns
      ≡ aged_at (lookup "b" map_state.campaigns))
    × (contains "b" (cleanup_campaign_aging string_leb map_state).discarded_campaign_ids
        ≡ test_at (λ c. is_row_ii c.row) (lookup "b" map_state.campaigns))
cleanup_campaign_aging_rows_example =
    cleanup_campaign_aging_rows string_leb map_state "b" (refl, (refl, tt)) (refl, (refl, tt))

snapshot_viral_origins-IsOrigin_example :
    All
      (IsOrigin traits baseline [] map_state)
      (snapshot_viral_origins string_leb map_state ("p" ∷ []) traits baseline [])
    × Ranked ("p" ∷ []) (snapshot_viral_origins string_leb map_state ("p" ∷ []) traits baseline [])
snapshot_viral_origins-IsOrigin_example =
    snapshot_viral_origins-IsOrigin string_leb map_state ("p" ∷ []) traits baseline [] (refl, tt)

resolve_viral_origin_ends_example :
    Ends map_state origin "y" baseline
      (resolve_viral_origin map_state origin "y" (nat 7 ∷ nat 4 ∷ []) baseline)
resolve_viral_origin_ends_example =
    resolve_viral_origin_ends map_state origin "y" (nat 7 ∷ nat 4 ∷ []) baseline (omega arith, tt)

abbrev started : CleanupContinuation
unfolding make_cleanup_continuation
started = make_cleanup_continuation "c" 4 aging (origin ∷ []) 0

advance_all_completes_example :
    (d : CleanupContinuation) × (advance_all (steps_left started.step) started ≡ ok d)
    × (d.step ≡ complete)
    × (steps_left started.step ≤ 5)
    × (d.expected_game_version ≡ started.expected_game_version + steps_left started.step)
    × (d.id ≡ started.id)
    × (d.viral_origins ≡ started.viral_origins)
    × ((version : ℕ)
        → advance_cleanup_continuation d version
          ≡ err (
              if d.expected_game_version == version
              then invalid_cleanup_step
              else stale_cleanup_continuation))
advance_all_completes_example = advance_all_completes started
