-- ===== src/Effects/Influence.antt =====
-- m2b.ts: cubes that come onto a population demographic.
pub mod Removal
pub mod Totals
use malign_ai.Base.{
  ℕ, String, Bool, true, false, Option, none, some, List, [], ◌∷◌, ◌++◌, ◌==◌, ◌&&◌, string_eq,
  if◌then◌else◌, Result, ok, err, ◌>>=◌, Exception, find, is_some,
}
use malign_ai.Base.Int.{ℤ, pos, ◌≤ℤ◌, ◌+ℤ◌, ◌-ℤ◌, ltb_ℤ, min_ℤ, max_ℤ}
use malign_ai.Base.Number.{int}
use malign_ai.Base.Dict.{lookup, modify}
use malign_ai.Rules.Types.{malign, resiliency, alignment_eq}
use malign_ai.Rules.Cubes.{resolve_two_to_one}
use malign_ai.Effects.Types.{
  State, InfluenceStack, InfluenceType, CountryId, country_eq, Participant,
}

pub record Placement : Type 0 where
  pub placed : ℕ
  pub removed : ℕ

-- The stack holds no negative number of cubes.
abbrev pub IsCounted : InfluenceStack → Type 0
IsCounted stack = pos 0 ≤ℤ stack.count

abbrev pub opposite_of : InfluenceType → InfluenceType
opposite_of malign = resiliency
opposite_of resiliency = malign

-- The test of the filter over the stacks.
abbrev pub is_held : String → InfluenceType → InfluenceStack → Bool
is_held pd_id type stack = stack.pd_id == pd_id && stack.type == type && ltb_ℤ (pos 0) stack.count

-- The sum of the counts of the stacks that the filter keeps.
pub held_total : String → InfluenceType → List InfluenceStack → ℤ
held_total pd_id type [] = pos 0
held_total pd_id type (stack ∷ stacks) =
    if is_held pd_id type stack
    then stack.count +ℤ held_total pd_id type stacks
    else held_total pd_id type stacks

-- The loop over those stacks, which takes cubes off them in order until `remaining` are gone.
pub remove_cubes : String → InfluenceType → ℤ → List InfluenceStack → List InfluenceStack
remove_cubes pd_id type remaining [] = []
remove_cubes pd_id type remaining (stack ∷ stacks) =
    let taken = if is_held pd_id type stack then min_ℤ stack.count remaining else pos 0 in
    record stack { count = stack.count -ℤ taken }
    ∷ remove_cubes pd_id type (remaining -ℤ taken) stacks

abbrev pub is_stack_of : String → InfluenceType → CountryId → InfluenceStack → Bool
is_stack_of pd_id type country stack =
    stack.pd_id == pd_id && stack.type == type && stack.attribution_country_id == country

-- Cubes are added to the first stack of their kind, or make a stack of their own.
pub add_cubes : String → InfluenceType → CountryId → ℤ → List InfluenceStack → List InfluenceStack
add_cubes pd_id type country n [] =
    record { pd_id = pd_id; type = type; attribution_country_id = country; count = n } ∷ []
add_cubes pd_id type country n (stack ∷ stacks) =
    if is_stack_of pd_id type country stack
    then record stack { count = stack.count +ℤ n } ∷ stacks
    else stack ∷ add_cubes pd_id type country n stacks

unfoldable pub apply_direct_influence :
    State → String → InfluenceType → CountryId → ℤ → Result Exception (Placement × State)
unfolding held_total remove_cubes add_cubes
apply_direct_influence state pd_id type country count = do
  let opposite = opposite_of type
  resolution ← resolve_two_to_one (int count) (int (held_total pd_id opposite state.influence))
  let kept = remove_cubes pd_id opposite (pos resolution.opposite_removed) state.influence
  ok (
    record { placed = resolution.placed; removed = resolution.opposite_removed },
    record state { influence = add_cubes pd_id type country (pos resolution.placed) kept },
  )

-- `applyBacklash`; the `RangeError` of a negative amount passes through.
unfoldable pub apply_backlash : State → String → String → ℤ → Result Exception (ℕ × State)
apply_backlash state participant_id pd_id amount = elim (lookup participant_id state.participants) [
  | none ↦ ok (0, state)
  | some participant ↦ do
    (placement, after) ← apply_direct_influence state pd_id resiliency participant.country_id amount
    ok (
      placement.placed,
      record after {
        participants =
            modify participant_id
              (λ p. record p {
                victory_points = max_ℤ (pos 0) (p.victory_points -ℤ pos placement.placed);
              })
              after.participants;
      },
    )
]
