-- ===== src/Rules/CampaignValue.antt =====
-- packages/rules/src/campaign-value.ts
pub mod Totals
use malign_ai.Base.{
  ℕ, ◌+◌, List, [], ◌∷◌, none, some, leb, if◌then◌else◌, Result, ok, err, ◌>>=◌, Exception,
  missing_value,
}
use malign_ai.Base.Number.{Number, require_count, nat}
use malign_ai.Rules.Types.{AssignedCampaignComponent, CampaignTier, low, medium, high, at_slot}

pub record CampaignValueResult : Type 0 where
  pub base_cv : ℕ
  pub raw_effective_cv : ℕ
  pub base_tier : CampaignTier
  pub resolution_tier : CampaignTier
  pub base_cost : ℕ

-- `requireInteger`
unfoldable pub require_integer : Number → Result Exception ℕ
require_integer value = require_count value

abbrev pub tier_of : ℕ → CampaignTier
tier_of cv = if leb cv 6 then low else if leb cv 11 then medium else high

unfoldable pub tier_for_campaign_value : Number → Result Exception CampaignTier
unfolding require_integer
tier_for_campaign_value campaign_value = do cv ← require_integer campaign_value; ok (tier_of cv)

abbrev pub cost_of : CampaignTier → ℕ
cost_of low = 1
cost_of medium = 2
cost_of high = 3

unfoldable pub cost_for_base_campaign_value : Number → Result Exception ℕ
unfolding tier_for_campaign_value
cost_for_base_campaign_value base_cv = do tier ← tier_for_campaign_value base_cv; ok (cost_of tier)

-- One round of the `reduce` over the components.
unfoldable pub add_component : ℕ → AssignedCampaignComponent → Result Exception ℕ
unfolding require_integer
add_component sum c = elim (at_slot c.influence_value_by_slot c.slot) [
  | none ↦ err missing_value
  | some value ↦ require_integer value >>= λ v. ok (sum + v)
]

pub add_components : ℕ → List AssignedCampaignComponent → Result Exception ℕ
add_components sum [] = ok sum
add_components sum (c ∷ cs) = add_component sum c >>= λ s. add_components s cs

unfoldable pub calculate_base_campaign_value : List AssignedCampaignComponent → Result Exception ℕ
unfolding add_components add_component
calculate_base_campaign_value components = add_components 0 components

pub add_modifiers : ℕ → List Number → Result Exception ℕ
unfolding require_integer
add_modifiers value [] = ok value
add_modifiers value (m ∷ ms) = require_integer m >>= λ v. add_modifiers (value + v) ms

unfoldable pub calculate_campaign_value :
    List AssignedCampaignComponent → List Number → Result Exception CampaignValueResult
unfolding add_modifiers calculate_base_campaign_value cost_for_base_campaign_value
calculate_campaign_value components modifiers = do
  base_cv ← calculate_base_campaign_value components
  raw_effective_cv ← add_modifiers base_cv modifiers
  base_tier ← tier_for_campaign_value (nat base_cv)
  resolution_tier ← tier_for_campaign_value (nat raw_effective_cv)
  base_cost ← cost_for_base_campaign_value (nat base_cv)
  ok (record {
    base_cv = base_cv;
    raw_effective_cv = raw_effective_cv;
    base_tier = base_tier;
    resolution_tier = resolution_tier;
    base_cost = base_cost;
  })
