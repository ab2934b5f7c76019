-- ===== src/Cleanup/Spread.antt =====
-- m2b-lifecycle.ts: what a resolution of an origin does to the map.
use malign_ai.Base.{
  nat_eq, string_eq, inl, inr, ◌==◌, ◌%◌, ◌==◌, ◌%◌, inl, ℕ, ◌+◌, ◌*◌, String, Bool, true, false,
  Option, none, some, List, All, ◌≡◌, refl, Result, ok, err, ◌>>=◌, contains, not, get_elem?, ltb,
  ◌⊎◌, fail_if, or_fail, ◌>>◌, if◌then◌else◌,
}
use malign_ai.Base.Int.{pos}
use malign_ai.Base.Number.{Number}
use malign_ai.Base.Dict.{lookup}
use malign_ai.Effects.Types.{State, CountryId}
use malign_ai.Effects.Influence.{IsCounted, opposite_of, apply_direct_influence}
use malign_ai.Effects.Influence.Removal.{cubes}
use malign_ai.Effects.Influence.Totals.{apply_direct_influence_totals}
use malign_ai.Cleanup.Viral.{
  invalid_viral_roll, invalid_target_pd, ViralOrigin, ViralResolution, Variant, baseline, short,
  LifecycleError, ViralFailure, refused, resolve_viral_origin, spread, passing, die_of, country_of,
  missed,
}

-- The ways in which a resolution ends.
pub data Ends (state : State) (origin : ViralOrigin) (pd_id : String) (variant : Variant)
    (r : Result ViralFailure (ViralResolution × State)) : Type 0 where
  refuses : (e : LifecycleError) → r ≡ err (refused e) → Ends state origin pd_id variant r
  misses : r ≡ ok (missed state) → Ends state origin pd_id variant r
  spreads :
      (res : ViralResolution) (after : State)
      → r ≡ ok (res, after)
      → res.success ≡ true
      → (res.generated ≡ 1) ⊎ ((res.generated ≡ 2) × (variant ≡ baseline))
      → res.placed + 2 * res.removed ≡ res.generated
      → cubes pd_id origin.type after.influence
        ≡ res.placed + cubes pd_id origin.type state.influence
      → cubes pd_id (opposite_of origin.type) after.influence + res.removed
        ≡ cubes pd_id (opposite_of origin.type) state.influence
      → All IsCounted after.influence
      → after ≡ record state { influence = after.influence }
      → Ends state origin pd_id variant r

-- The second half of a resolution, from the number of cubes that come up.
placed_Ends :
    (state : State) (origin : ViralOrigin) (pd_id : String) (variant : Variant) (n used : ℕ)
    (o : Option CountryId)
    → All IsCounted state.influence
    → (n ≡ 1) ⊎ ((n ≡ 2) × (variant ≡ baseline))
    → Ends state origin pd_id variant (do
      country ← or_fail o (refused invalid_target_pd)
      (placement, after) ← passing (apply_direct_influence state pd_id origin.type country (pos n))
      ok (
        record {
          attempted = true;
          success = true;
          generated = n;
          placed = placement.placed;
          removed = placement.removed;
          rolls_consumed = used;
        },
        after,
      ))
placed_Ends state origin pd_id variant n used none h g = refuses invalid_target_pd refl
placed_Ends state origin pd_id variant n used (some country) h g =
    let (p, t, e, sum, _, own, opposite, counted, same) =
      apply_direct_influence_totals state pd_id origin.type country n h in
    spreads
      (record {
        attempted = true;
        success = true;
        generated = n;
        placed = p.placed;
        removed = p.removed;
        rolls_consumed = used;
      })
      t (rw e) refl g sum own opposite counted same

one_or_two :
    (b : Bool)
    → (◌≡◌ {A = ℕ} (if b then 2 else 1) 1)
      ⊎ (◌≡◌ {A = ℕ} (if b then 2 else 1) 2 × (baseline ≡ baseline))
one_or_two true = inr (refl, refl)
one_or_two false = inl refl

spread_Ends :
    (state : State) (origin : ViralOrigin) (pd_id : String) (rolls : List Number)
    (variant : Variant)
    → All IsCounted state.influence
    → Ends state origin pd_id variant (spread state origin pd_id rolls variant)
spread_Ends state origin pd_id rolls short h =
    placed_Ends state origin pd_id short 1 1 _ h (inl refl)
spread_Ends state origin pd_id rolls baseline h = second (die_of (get_elem? rolls 1))
  where
    second :
        (o : Option ℕ)
        → Ends state origin pd_id baseline (do
          (n, used) ← (do
            d ← or_fail o (refused invalid_viral_roll)
            ok (if d % 2 == 0 then 2 else 1, 2))
          country ←
              or_fail
                (country_of (lookup origin.owner_participant_id state.participants))
                (refused invalid_target_pd)
          (placement, after) ←
              passing (apply_direct_influence state pd_id origin.type country (pos n))
          ok (
            record {
              attempted = true;
              success = true;
              generated = n;
              placed = placement.placed;
              removed = placement.removed;
              rolls_consumed = used;
            },
            after,
          ))
    second none = refuses invalid_viral_roll refl
    second (some d) =
        placed_Ends state origin pd_id baseline (if d % 2 == 0 then 2 else 1) 2 _ h
          (one_or_two (d % 2 == 0))

-- On a map without negative stacks a resolution never throws. It is refused, or the first roll misses
-- and nothing changes, or cubes come up, one of them, or two in the baseline variant: they
-- take one cube of the opposite kind for every two, the rest is placed on the destination, whose
-- totals change by just that, no stack gets below zero, and nothing but the map changes.
pub resolve_viral_origin_ends :
    (state : State) (origin : ViralOrigin) (pd_id : String) (rolls : List Number)
    (variant : Variant)
    → All IsCounted state.influence
    → Ends state origin pd_id variant (resolve_viral_origin state origin pd_id rolls variant)
unfolding resolve_viral_origin
resolve_viral_origin_ends state origin pd_id rolls variant h =
    checked (contains pd_id origin.valid_destination_pd_ids) (die_of (get_elem? rolls 0))
  where
    checked :
        (b : Bool) (o : Option ℕ)
        → Ends state origin pd_id variant (do
          fail_if (not b) (refused invalid_target_pd)
          first ← or_fail o (refused invalid_viral_roll)
          let further = spread state origin pd_id rolls variant
          if ltb first 6 then ok (missed state) else further)
    checked false o = refuses invalid_target_pd refl
    checked true none = refuses invalid_viral_roll refl
    checked true (some d) = hit (ltb d 6)
      where
        hit :
            (b : Bool)
            → Ends state origin pd_id variant
                (if b then ok (missed state) else spread state origin pd_id rolls variant)
        hit true = misses refl
        hit false = spread_Ends state origin pd_id rolls variant h
