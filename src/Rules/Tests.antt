-- ===== src/Rules/Tests.antt =====
-- The rule kernel on a campaign of two cards, a few cubes and a few rolls.
use malign_ai.Base.{
  ℕ, ◌+◌, ◌*◌, ◌≤◌, ◌≡◌, refl, ◌↔◌, ◌⊎◌, suc, List, [], ◌∷◌, some, none, ok, arith,
}
use malign_ai.Base.Int.{ℤ, pos, negsuc, ◌≤ℤ◌}
use malign_ai.Base.Number.{Number, nat}
use malign_ai.Rules.Types.{
  AssignedCampaignComponent, SlotValues, intent, method, low, medium, high, malign, tier_index,
}
use malign_ai.Rules.CampaignValue.{CampaignValueResult, calculate_campaign_value}
use malign_ai.Rules.CampaignValue.Totals.{
  Values, Modifiers, totals, calculate_campaign_value-totals, calculate_campaign_value_bounds,
}
use malign_ai.Rules.Cubes.{TwoToOneResolution, resolve_two_to_one}
use malign_ai.Rules.Cubes.Cancellation.{cancel, resolve_two_to_one_cancels}
use malign_ai.Rules.Ert.Table.{effect_of, effect_of_mono}

abbrev values_3_5 : SlotValues
values_3_5 = record { at_intent = some (nat 3); at_method = some (nat 5); at_amplifier = none }

abbrev two_cards : List AssignedCampaignComponent
two_cards =
    record { slot = intent; influence_value_by_slot = values_3_5 }
    ∷ record { slot = method; influence_value_by_slot = values_3_5 }
    ∷ []

abbrev bonus : List Number
bonus = nat 2 ∷ nat 3 ∷ []

abbrev two_cards_result : CampaignValueResult
two_cards_result = record {
  base_cv = 8;
  raw_effective_cv = 13;
  base_tier = medium;
  resolution_tier = high;
  base_cost = 2;
}

two_cards_run : calculate_campaign_value two_cards bonus ≡ ok two_cards_result
unfolding calculate_campaign_value
two_cards_run = refl

calculate_campaign_value-totals_example :
    (calculate_campaign_value two_cards bonus ≡ ok two_cards_result) ↔ (
      (vs : List ℕ) × (ws : List ℕ) × Values two_cards vs
      × Modifiers bonus ws
      × (two_cards_result ≡ totals vs ws))
calculate_campaign_value-totals_example =
    calculate_campaign_value-totals two_cards bonus two_cards_result

calculate_campaign_value_bounds_example :
    (8 ≤ 13) × (tier_index medium ≤ tier_index high) × (2 ≡ suc (tier_index medium)) × (2 ≤ 3)
calculate_campaign_value_bounds_example =
    calculate_campaign_value_bounds two_cards bonus two_cards_result two_cards_run

resolve_two_to_one_cancels_example :
    (r : TwoToOneResolution) × (resolve_two_to_one (nat 7) (nat 2) ≡ ok r)
    × (cancel 7 2 ≡ (r.placed, r.opposite_remaining))
    × (r.placed + 2 * r.opposite_removed ≡ 7)
    × (r.opposite_removed + r.opposite_remaining ≡ 2)
    × ((r.placed ≤ 1) ⊎ (r.opposite_remaining ≡ 0))
resolve_two_to_one_cancels_example = resolve_two_to_one_cancels 7 2

effect_of_mono_example :
    (v : ℤ) × (w : ℤ) × (effect_of low malign (negsuc 3) ≡ ok v)
    × (effect_of high malign (pos 12) ≡ ok w)
    × (v ≤ℤ w)
    × (negsuc 1 ≤ℤ v)
    × (w ≤ℤ pos 4)
effect_of_mono_example =
    effect_of_mono low high malign (negsuc 3) (pos 12) (omega arith) (omega arith)
