-- ===== src/Rules/Invariants.antt =====
-- packages/rules/src/invariants.ts
use malign_ai.Base.{String, List, ◌&&◌, Bool, map, all, all_distinct, string_eq}
use malign_ai.Base.Int.{pos, leb_ℤ}
use malign_ai.Base.Number.{Number, int, non_integer, is_count}

pub record CardZoneAssignment : Type 0 where
  pub card_instance_id : String
  pub zone : String

pub record GlobalInvariantState : Type 0 where
  pub action_points : List Number
  pub resources : List Number
  pub victory_points : List Number
  pub cube_counts : List Number
  pub hand_sizes : List Number
  pub card_zone_assignments : List CardZoneAssignment

unfoldable pub all_non_negative_integers : List Number → Bool
all_non_negative_integers = all is_count

-- `size <= 10` on the sizes that are integers.
abbrev at_most_ten : Number → Bool
at_most_ten (int size) = leb_ℤ size (pos 10)
at_most_ten non_integer = Bool.false

unfoldable pub satisfies_global_numeric_invariants : GlobalInvariantState → Bool
unfolding all_non_negative_integers
satisfies_global_numeric_invariants state =
    all_non_negative_integers state.action_points
    && all_non_negative_integers state.resources
    && all_non_negative_integers state.victory_points
    && all_non_negative_integers state.cube_counts
    && all (λ size. is_count size && at_most_ten size) state.hand_sizes
    && all_distinct (map (λ a. a.card_instance_id) state.card_zone_assignments)
