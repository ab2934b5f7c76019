-- ===== src/Rules/CampaignValue/Totals.antt =====
-- What campaign-value.ts computes: sums, and the tiers and the cost that they fix.
use malign_ai.Base.{
  ◌∙◌, sym, >>=-eq-ok, Option, ℕ, suc, ◌+◌, ◌≤◌, ◌≡◌, refl, ap, ◌↔◌, List, [], ◌∷◌, some, none, ok,
  err, arith, Result-cases, inl, inr,
}
use native.Mathlib.Nat.{zero-add}
use malign_ai.Base.Int.{pos, negsuc}
use malign_ai.Base.Number.{Number, int, non_integer, nat, require_count}
use malign_ai.Rules.Types.{AssignedCampaignComponent, at_slot, tier_index}
use malign_ai.Rules.CampaignValue.{
  CampaignValueResult, tier_of, cost_of, require_integer, add_component, add_components,
  add_modifiers, calculate_campaign_value,
}

abbrev pub sum : List ℕ → ℕ
sum [] = 0
sum (v ∷ vs) = v + sum vs

-- The components carry these influence values in the slots that they occupy.
abbrev pub Values : List AssignedCampaignComponent → List ℕ → Type 0
Values [] [] = Unit
Values [] (v ∷ vs) = ⊥
Values (c ∷ cs) [] = ⊥
Values (c ∷ cs) (v ∷ vs) = (at_slot c.influence_value_by_slot c.slot ≡ some (nat v)) × Values cs vs

-- The modifiers are these counts.
abbrev pub Modifiers : List Number → List ℕ → Type 0
Modifiers [] [] = Unit
Modifiers [] (v ∷ vs) = ⊥
Modifiers (m ∷ ms) [] = ⊥
Modifiers (m ∷ ms) (v ∷ vs) = (m ≡ nat v) × Modifiers ms vs

-- The result for given influence values and modifiers.
abbrev pub totals : List ℕ → List ℕ → CampaignValueResult
totals vs ws = record {
  base_cv = sum vs;
  raw_effective_cv = sum vs + sum ws;
  base_tier = tier_of (sum vs);
  resolution_tier = tier_of (sum vs + sum ws);
  base_cost = cost_of (tier_of (sum vs));
}

add_components-Values :
    (s : ℕ) (cs : List AssignedCampaignComponent) (vs : List ℕ)
    → Values cs vs
    → add_components s cs ≡ ok (s + sum vs)
unfolding add_components add_component
add_components-Values s [] [] h = ap ok (omega arith)
add_components-Values s [] (v ∷ vs) h = absurd h
add_components-Values s (c ∷ cs) [] h = absurd h
add_components-Values s (c ∷ cs) (v ∷ vs) h =
    ground (arith, add_components-Values (s + v) cs vs h.1)

add_modifiers-Modifiers :
    (s : ℕ) (ms : List Number) (ws : List ℕ)
    → Modifiers ms ws
    → add_modifiers s ms ≡ ok (s + sum ws)
unfolding add_modifiers
add_modifiers-Modifiers s [] [] h = ap ok (omega arith)
add_modifiers-Modifiers s [] (v ∷ vs) h = absurd h
add_modifiers-Modifiers s (m ∷ ms) [] h = absurd h
add_modifiers-Modifiers s (m ∷ ms) (v ∷ vs) h =
    ground (arith, add_modifiers-Modifiers (s + v) ms vs h.1)

require_integer_inv : (m : Number) {v : ℕ} → require_integer m ≡ ok v → m ≡ nat v
unfolding require_integer
require_integer_inv m e = ground arith

abbrev count_or_zero : Option Number → ℕ
count_or_zero none = 0
count_or_zero (some m) = elim (require_count m) [ ok v ↦ v | err e ↦ 0 ]

add_component_inv :
    (s : ℕ) (c : AssignedCampaignComponent) {t : ℕ}
    → add_component s c ≡ ok t
    → (v : ℕ) × (at_slot c.influence_value_by_slot c.slot ≡ some (nat v)) × (t ≡ s + v)
unfolding add_component
add_component_inv s c e =
    (count_or_zero (at_slot c.influence_value_by_slot c.slot), ground arith, ground arith)

Values-add_components :
    (s : ℕ) (cs : List AssignedCampaignComponent) {t : ℕ}
    → add_components s cs ≡ ok t
    → (vs : List ℕ) × Values cs vs
unfolding add_components
Values-add_components s [] e = ([], tt)
Values-add_components s (c ∷ cs) {t} e = elim (Result-cases (add_component s c)) [
  | inl (u, f) ↦
      let (v, at, _) = add_component_inv s c f in
      let (vs, rest) = Values-add_components u cs {t = t} (ground arith) in (v ∷ vs, (at, rest))
  | inr (x, f) ↦ absurd (ground arith)
]

Modifiers-add_modifiers :
    (s : ℕ) (ms : List Number) {t : ℕ} → add_modifiers s ms ≡ ok t → (ws : List ℕ) × Modifiers ms ws
unfolding add_modifiers
Modifiers-add_modifiers s [] e = ([], tt)
Modifiers-add_modifiers s (int (pos v) ∷ ms) e =
    let (ws, rest) = Modifiers-add_modifiers (s + v) ms e in (v ∷ ws, (refl, rest))
Modifiers-add_modifiers s (int (negsuc v) ∷ ms) e = absurd (ground arith)
Modifiers-add_modifiers s (non_integer ∷ ms) e = absurd (ground arith)

calculate-Values :
    (cs : List AssignedCampaignComponent) (ms : List Number) (vs ws : List ℕ)
    → Values cs vs
    → Modifiers ms ws
    → calculate_campaign_value cs ms ≡ ok (totals vs ws)
unfolding calculate_campaign_value
calculate-Values cs ms vs ws h k =
    rw (add_components-Values 0 cs vs h, add_modifiers-Modifiers _ ms ws k, zero-add)

base_of :
    (cs : List AssignedCampaignComponent) (ms : List Number) (r : CampaignValueResult)
    → calculate_campaign_value cs ms ≡ ok r
    → (s : ℕ) × ((add_components 0 cs ≡ ok s) × (add_modifiers s ms ≡ ok r.raw_effective_cv))
unfolding calculate_campaign_value
base_of cs ms r e =
    let (s, f, g) = >>=-eq-ok (add_components 0 cs) _ e in
    let (t, h, k) = >>=-eq-ok (add_modifiers s ms) _ g in (s, (f, ground (arith, h, k)))

-- The calculation of a campaign's value returns a result exactly when every component has a
-- non-negative integer for the slot that it occupies and every modifier is one. The base value is
-- then the sum of the components' values, the effective value adds the modifiers, and the tiers
-- and the cost are those of these two sums.
pub calculate_campaign_value-totals :
    (cs : List AssignedCampaignComponent) (ms : List Number) (r : CampaignValueResult)
    → (calculate_campaign_value cs ms ≡ ok r)
      ↔ ((vs : List ℕ) × (ws : List ℕ) × Values cs vs × Modifiers ms ws × (r ≡ totals vs ws))
calculate_campaign_value-totals cs ms r = (forth, back)
  where
    back :
        (vs : List ℕ) × (ws : List ℕ) × Values cs vs × Modifiers ms ws × (r ≡ totals vs ws)
        → calculate_campaign_value cs ms ≡ ok r
    back (vs, ws, h, k, e) = calculate-Values cs ms vs ws h k ∙ ap ok (sym e)

    forth :
        calculate_campaign_value cs ms ≡ ok r
        → (vs : List ℕ) × (ws : List ℕ) × Values cs vs × Modifiers ms ws × (r ≡ totals vs ws)
    forth e =
        let (s, f) = base_of cs ms r e in
        let (vs, h) = Values-add_components 0 cs f.0 in
        let (ws, k) = Modifiers-add_modifiers s ms f.1 in
        (vs, ws, h, k, cc (calculate-Values cs ms vs ws h k))

totals_bounds :
    (b m : ℕ)
    → (b ≤ b + m)
      × (tier_index (tier_of b) ≤ tier_index (tier_of (b + m)))
      × (cost_of (tier_of b) ≡ suc (tier_index (tier_of b)))
      × (cost_of (tier_of b) ≤ 3)
totals_bounds b m = ground arith

-- Modifiers never lower a campaign's value nor its resolution tier, and the cost of an activation is
-- 1, 2 or 3 and goes by the base tier alone.
pub calculate_campaign_value_bounds :
    (cs : List AssignedCampaignComponent) (ms : List Number) (r : CampaignValueResult)
    → calculate_campaign_value cs ms ≡ ok r
    → (r.base_cv ≤ r.raw_effective_cv)
      × (tier_index r.base_tier ≤ tier_index r.resolution_tier)
      × (r.base_cost ≡ suc (tier_index r.base_tier))
      × (r.base_cost ≤ 3)
calculate_campaign_value_bounds cs ms r e =
    let (vs, ws, _, _, f) = (calculate_campaign_value-totals cs ms r).0 e in
    rw f (totals_bounds (sum vs) (sum ws))
