-- ===== src/Effects/Influence/Totals.antt =====
-- The cubes of each kind on each demographic, before and after an application of influence.
use malign_ai.Base.{
  ℕ, ◌+◌, ◌*◌, ◌≤◌, String, Bool, true, false, List, [], ◌∷◌, ◌==◌, ◌&&◌, string_eq, ◌≡◌, refl, ◌⊎◌,
  inl, inr, Bool-cases, if◌then◌else◌, arith, All, ok, ◌∙◌, eq_iff, ◌≢◌, sym,
}
use malign_ai.Base.Int.{ℤ, pos, pos_part, ◌+ℤ◌, ◌≤ℤ◌, int_laws}
use malign_ai.Rules.Types.{alignment_eq}
use malign_ai.Rules.Cubes.Cancellation.{resolve_two_to_one_cancels}
use malign_ai.Effects.Types.{State, InfluenceStack, InfluenceType, CountryId, country_eq}
use malign_ai.Effects.Influence.{
  IsCounted, Placement, opposite_of, remove_cubes, is_stack_of, add_cubes, apply_direct_influence,
}
use malign_ai.Effects.Influence.Removal.{
  is_at, cubes, held_total-cubes, cubes-remove_cubes, cubes-remove_cubes_other,
  remove_cubes-IsCounted,
}

is_at_of_hit :
    (pd_id pd : String) (type t : InfluenceType) (country : CountryId) (stack : InfluenceStack)
    → is_stack_of pd_id type country stack ≡ true
    → is_at pd t stack ≡ (pd_id == pd && type == t)
is_at_of_hit pd_id pd type t country stack h =
    ground (arith, eq_iff stack.pd_id pd_id, eq_iff stack.pd_id pd, eq_iff pd_id pd)

added :
    (b : Bool) (c : ℤ) (n k : ℕ)
    → pos 0 ≤ℤ c
    → (if b then pos_part (c +ℤ pos n) else 0) + k
      ≡ (if b then n else 0) + ((if b then pos_part c else 0) + k)
unfolding ◌+ℤ◌
added b c n k h = ground arith

cubes-add_cubes :
    (pd_id pd : String) (type t : InfluenceType) (country : CountryId) (n : ℕ)
    (stacks : List InfluenceStack)
    → All IsCounted stacks
    → cubes pd t (add_cubes pd_id type country (pos n) stacks)
      ≡ (if pd_id == pd && type == t then n else 0) + cubes pd t stacks
unfolding add_cubes
cubes-add_cubes pd_id pd type t country n [] h = ground arith
cubes-add_cubes pd_id pd type t country n (stack ∷ stacks) h =
    elim (Bool-cases (is_stack_of pd_id type country stack)) [
      | inl hit ↦
          rw (hit, is_at_of_hit pd_id pd type t country stack hit)
            (added (pd_id == pd && type == t) stack.count n (cubes pd t stacks) h.0)
      | inr miss ↦ rw miss (omega (arith, cubes-add_cubes pd_id pd type t country n stacks h.1))
    ]

pub add_cubes-IsCounted :
    (pd_id : String) (type : InfluenceType) (country : CountryId) (n : ℕ)
    (stacks : List InfluenceStack)
    → All IsCounted stacks
    → All IsCounted (add_cubes pd_id type country (pos n) stacks)
unfolding add_cubes
add_cubes-IsCounted pd_id type country n [] h = (omega arith, tt)
add_cubes-IsCounted pd_id type country n (stack ∷ stacks) h =
    elim (Bool-cases (is_stack_of pd_id type country stack)) [
      | inl hit ↦ rw hit (sum_counted stack.count n h.0, h.1)
      | inr miss ↦ rw miss (h.0, add_cubes-IsCounted pd_id type country n stacks h.1)
    ]
  where
    sum_counted : (c : ℤ) (n : ℕ) → pos 0 ≤ℤ c → pos 0 ≤ℤ c +ℤ pos n
    sum_counted c n h = grind int_laws

same_kind : (pd : String) (t : InfluenceType) → (pd == pd && t == t) ≡ true
same_kind pd t = ground (arith, eq_iff pd pd)

other_type : (pd : String) (t : InfluenceType) → (pd == pd && t == opposite_of t) ≡ false
other_type pd t = ground arith

other_pd : (pd pd' : String) (t u : InfluenceType) → pd ≢ pd' → (pd == pd' && t == u) ≡ false
other_pd pd pd' t u h = ground (arith, eq_iff pd pd')

-- Cubes placed after others are removed: of the kind placed, of the other, and elsewhere.
module _ (pd_id : String) (type : InfluenceType) (country : CountryId) (p r : ℕ)
    (xs : List InfluenceStack) (h : All IsCounted xs) where
  abbrev kept : List InfluenceStack
  kept = remove_cubes pd_id (opposite_of type) (pos r) xs

  abbrev placed : List InfluenceStack
  placed = add_cubes pd_id type country (pos p) kept

  kept-IsCounted : All IsCounted kept
  kept-IsCounted = remove_cubes-IsCounted pd_id (opposite_of type) r xs h

  placed_own : cubes pd_id type placed ≡ p + cubes pd_id type xs
  placed_own = rw (
    cubes-add_cubes pd_id pd_id type type country p kept kept-IsCounted,
    same_kind pd_id type,
    cubes-remove_cubes_other pd_id pd_id (opposite_of type) type r xs (other_type pd_id type),
  )

  placed_opposite : cubes pd_id (opposite_of type) placed ≡ cubes pd_id (opposite_of type) kept
  placed_opposite =
      rw
        (
          cubes-add_cubes pd_id pd_id type (opposite_of type) country p kept kept-IsCounted,
          other_type pd_id type,
        )
        (omega arith)

  placed_elsewhere :
      (pd : String) (t : InfluenceType) → pd ≢ pd_id → cubes pd t placed ≡ cubes pd t xs
  placed_elsewhere pd t ne =
      rw
        (
          cubes-add_cubes pd_id pd type t country p kept kept-IsCounted,
          other_pd pd_id pd type t (λ e. ne (sym e)),
          cubes-remove_cubes_other pd_id pd (opposite_of type) t r xs
              (other_pd pd pd_id t (opposite_of type) ne),
        )
        (omega arith)

none_left : {p k l : ℕ} → (p ≤ 1) ⊎ (l ≡ 0) → k ≡ l → (p ≤ 1) ⊎ (k ≡ 0)
none_left (inl few) e = inl few
none_left (inr gone) e = inr (e ∙ gone)

-- The whole of what an application does.
apply_direct_influence_parts :
    (state : State) (pd_id : String) (type : InfluenceType) (country : CountryId) (n : ℕ)
    → All IsCounted state.influence
    → (placement : Placement) × (after : State) × (apply_direct_influence state pd_id type country
          (pos n)
        ≡ ok (placement, after))
      × (placement.placed + 2 * placement.removed ≡ n)
      × ((placement.placed ≤ 1) ⊎ (cubes pd_id (opposite_of type) after.influence ≡ 0))
      × (cubes pd_id type after.influence ≡ placement.placed + cubes pd_id type state.influence)
      × (cubes pd_id (opposite_of type) after.influence + placement.removed
          ≡ cubes pd_id (opposite_of type) state.influence)
      × ((pd : String) (t : InfluenceType)
          → pd ≢ pd_id
          → cubes pd t after.influence ≡ cubes pd t state.influence)
      × All IsCounted after.influence
      × (after ≡ record state { influence = after.influence })
unfolding apply_direct_influence
apply_direct_influence_parts state pd_id type country n h =
    let o = opposite_of type in
    let xs = state.influence in
    let (r, e, _, sum, split, stop) = resolve_two_to_one_cancels n (cubes pd_id o xs) in
    let p = r.placed in
    let q = r.opposite_removed in
    let removed = cubes-remove_cubes pd_id o q xs (omega (arith, split)) in
    let opposite = placed_opposite pd_id type country p q xs h in
    (
      record { placed = r.placed; removed = r.opposite_removed },
      record state { influence = placed pd_id type country p q xs h },
      rw (held_total-cubes pd_id o xs, e),
      sum,
      none_left stop (omega (arith, opposite, removed, split)),
      placed_own pd_id type country p q xs h,
      rw opposite removed,
      placed_elsewhere pd_id type country p q xs h,
      add_cubes-IsCounted pd_id type country p _ (kept-IsCounted pd_id type country p q xs h),
      refl,
    )

-- On a map without negative stacks an application of cubes of one kind to a demographic succeeds.
-- It takes one cube of the opposite kind for every two that come, as long as there are such, and
-- places the rest: the cubes of that kind on that demographic grow by what is placed, those of the
-- opposite kind fall by what is removed, no stack gets below zero, and nothing but the map changes.
pub apply_direct_influence_totals :
    (state : State) (pd_id : String) (type : InfluenceType) (country : CountryId) (n : ℕ)
    → All IsCounted state.influence
    → (placement : Placement) × (after : State) × (apply_direct_influence state pd_id type country
          (pos n)
        ≡ ok (placement, after))
      × (placement.placed + 2 * placement.removed ≡ n)
      × ((placement.placed ≤ 1) ⊎ (cubes pd_id (opposite_of type) after.influence ≡ 0))
      × (cubes pd_id type after.influence ≡ placement.placed + cubes pd_id type state.influence)
      × (cubes pd_id (opposite_of type) after.influence + placement.removed
          ≡ cubes pd_id (opposite_of type) state.influence)
      × All IsCounted after.influence
      × (after ≡ record state { influence = after.influence })
apply_direct_influence_totals state pd_id type country n h =
    let (p, t, e, sum, stop, own, opposite, _, counted, same) =
      apply_direct_influence_parts state pd_id type country n h in
    (p, t, e, sum, stop, own, opposite, counted, same)

-- On a map without negative stacks an application of cubes to one demographic leaves the number of
-- cubes of either kind on any other demographic as it was.
pub apply_direct_influence_elsewhere :
    (state : State) (pd_id : String) (type : InfluenceType) (country : CountryId) (n : ℕ)
    (pd : String) (t : InfluenceType)
    → All IsCounted state.influence
    → pd ≢ pd_id
    → (placement : Placement) × (after : State) × (apply_direct_influence state pd_id type country
          (pos n)
        ≡ ok (placement, after))
      × (cubes pd t after.influence ≡ cubes pd t state.influence)
apply_direct_influence_elsewhere state pd_id type country n pd t h ne =
    let (p, after, e, _, _, _, _, elsewhere, _, _) =
      apply_direct_influence_parts state pd_id type country n h in
    (p, after, e, elsewhere pd t ne)
