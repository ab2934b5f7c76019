-- ===== src/Cleanup/Viral.antt =====
-- m2b-lifecycle.ts: the spread of influence to places that share a trait.
use malign_ai.Base.{
  ℕ, ◌%◌, String, Bool, true, false, Option, none, some, List, [], ◌∷◌, ◌++◌, ◌==◌, ◌&&◌, ◌||◌, not,
  string_eq, nat_eq, if◌then◌else◌, ltb, leb, any, contains, filter, sort_by, index_of, get_elem?,
  Result, ok, err, ◌>>=◌, ◌>>◌, fail_if, or_fail, Exception,
}
use malign_ai.Base.Int.{ℤ, pos, negsuc, ◌+ℤ◌, ltb_ℤ, int_eq}
use malign_ai.Base.Number.{Number, int, non_integer}
use malign_ai.Base.Dict.{Dict, lookup, keys}
use malign_ai.Base.Text.{string_leb}
use malign_ai.Rules.Types.{malign, resiliency, alignment_eq}
use malign_ai.Effects.Types.{
  State, InfluenceStack, InfluenceType, CountryId, Participant, country_eq,
}
use malign_ai.Effects.Influence.{apply_direct_influence}

pub record ViralOrigin : Type 0 where
  pub pd_id : String
  pub owner_participant_id : String
  pub type : InfluenceType
  pub valid_destination_pd_ids : List String

pub record ViralResolution : Type 0 where
  pub attempted : Bool
  pub success : Bool
  pub generated : ℕ
  pub placed : ℕ
  pub removed : ℕ
  pub rolls_consumed : ℕ

pub data Variant : Type 0 where
  baseline short : Variant

pub data LifecycleError : Type 0 where
  invalid_target_pd invalid_viral_roll stale_cleanup_continuation : LifecycleError
  invalid_cleanup_step : LifecycleError

-- `totals`
unfoldable pub total_of : String → InfluenceType → List InfluenceStack → ℤ
total_of pd_id type [] = pos 0
total_of pd_id type (stack ∷ stacks) =
    if stack.pd_id == pd_id && stack.type == type
    then stack.count +ℤ total_of pd_id type stacks
    else total_of pd_id type stacks

abbrev pub shares_trait : List String → List String → Bool
shares_trait left right = any (λ t. contains t right) left

abbrev pub threshold_of : Variant → ℤ
threshold_of short = pos 6
threshold_of baseline = pos 8

abbrev pub or_empty : Option (List String) → List String
or_empty none = []
or_empty (some ts) = ts

-- The type that spreads from a place, by its totals and the choice that breaks a tie.
abbrev pub spreading : ℤ → ℤ → ℤ → Option InfluenceType → Option InfluenceType
spreading threshold m r choice =
    if ltb_ℤ threshold m || ltb_ℤ threshold r
    then (if m == r then choice else some (if ltb_ℤ r m then malign else resiliency))
    else none

abbrev pub country_of : Option Participant → Option CountryId
country_of none = none
country_of (some p) = some p.country_id

abbrev is_country : Option CountryId → CountryId → Bool
is_country none c = false
is_country (some d) c = c == d

-- The owner's country has a cube of the type in the place.
abbrev pub has_own_cube : State → String → String → InfluenceType → Bool
has_own_cube state pd_id owner type =
    any
      (λ (stack : InfluenceStack).
        stack.pd_id == pd_id
        && stack.type == type
        && is_country (country_of (lookup owner state.participants)) stack.attribution_country_id
        && ltb_ℤ (pos 0) stack.count)
      state.influence

abbrev pub destinations_of : Dict (List String) → String → List String
destinations_of pd_traits pd_id = sort_by string_leb (
    filter
      (λ c.
        not (c == pd_id)
        && shares_trait (or_empty (lookup pd_id pd_traits)) (or_empty (lookup c pd_traits)))
      (keys pd_traits))

module _ (pd_traits : Dict (List String)) (variant : Variant)
    (tie_choices : Dict InfluenceType) where
  abbrev pub from_destinations : String → String → InfluenceType → List String → List ViralOrigin
  from_destinations pd_id owner type [] = []
  from_destinations pd_id owner type (d ∷ ds) =
      (record {
        pd_id = pd_id;
        owner_participant_id = owner;
        type = type;
        valid_destination_pd_ids = d ∷ ds;
      })
      ∷ []

  abbrev pub from_type : State → String → String → Option InfluenceType → List ViralOrigin
  from_type state pd_id owner none = []
  from_type state pd_id owner (some type) =
      if has_own_cube state pd_id owner type
      then from_destinations pd_id owner type (destinations_of pd_traits pd_id)
      else []

  -- One round of the loop over the places with a legitimacy marker.
  abbrev pub origins_at : State → String → Option String → List ViralOrigin
  origins_at state pd_id none = []
  origins_at state pd_id (some owner) = from_type state pd_id owner (
      spreading (threshold_of variant) (total_of pd_id malign state.influence)
        (total_of pd_id resiliency state.influence) (lookup pd_id tie_choices))

  unfoldable pub all_origins : State → Dict (Option String) → List ViralOrigin
  all_origins state [] = []
  all_origins state ((pd_id, owner) ∷ rest) = origins_at state pd_id owner ++ all_origins state rest

-- `indexOf`, with 0 for -1 and every index one up.
abbrev pub rank_in : List String → String → ℕ
rank_in initiative id = elim (index_of id initiative) [ none ↦ 0 | some i ↦ ℕ.suc i ]

-- The comparison of `origins.sort`, at most 0.
abbrev pub origin_leb : (String → String → Bool) → List String → ViralOrigin → ViralOrigin → Bool
origin_leb id_leb initiative a b =
    let i = rank_in initiative a.owner_participant_id in
    let j = rank_in initiative b.owner_participant_id in
    ltb i j || (i == j && id_leb a.pd_id b.pd_id)

unfoldable pub snapshot_viral_origins :
    (String → String → Bool)
    → State
    → List String
    → Dict (List String)
    → Variant
    → Dict InfluenceType
    → List ViralOrigin
unfolding all_origins
snapshot_viral_origins id_leb state initiative pd_traits variant tie_choices =
    sort_by (origin_leb id_leb initiative)
      (all_origins pd_traits variant tie_choices state state.legitimacy_by_pd)

-- How a resolution fails: with an error or with an exception of the rules.
pub data ViralFailure : Type 0 where
  refused : LifecycleError → ViralFailure
  thrown : Exception → ViralFailure

-- `!Number.isInteger(roll) || roll < 1 || roll > 10` fails.
abbrev pub die_of : Option Number → Option ℕ
die_of none = none
die_of (some (int (pos n))) = if leb 1 n && leb n 10 then some n else none
die_of (some (int (negsuc n))) = none
die_of (some non_integer) = none

abbrev pub passing : {A : Type 0} → Result Exception A → Result ViralFailure A
passing (ok a) = ok a
passing (err e) = err (thrown e)

-- How many cubes come up, and how many rolls that takes.
abbrev pub generated_by : Variant → List Number → Result ViralFailure (ℕ × ℕ)
generated_by short rolls = ok (1, 1)
generated_by baseline rolls = do
  second ← or_fail (die_of (get_elem? rolls 1)) (refused invalid_viral_roll)
  ok (if second % 2 == 0 then 2 else 1, 2)

abbrev pub missed : State → ViralResolution × State
missed state = (
  record {
    attempted = true;
    success = false;
    generated = 0;
    placed = 0;
    removed = 0;
    rolls_consumed = 1;
  },
  state,
)

abbrev pub spread :
    State
    → ViralOrigin
    → String
    → List Number
    → Variant
    → Result ViralFailure (ViralResolution × State)
spread state origin destination_pd_id rolls variant = do
  (generated, consumed) ← generated_by variant rolls
  country ←
      or_fail (country_of (lookup origin.owner_participant_id state.participants))
        (refused invalid_target_pd)
  (placement, after) ←
      passing (apply_direct_influence state destination_pd_id origin.type country (pos generated))
  ok (
    record {
      attempted = true;
      success = true;
      generated = generated;
      placed = placement.placed;
      removed = placement.removed;
      rolls_consumed = consumed;
    },
    after,
  )

unfoldable pub resolve_viral_origin :
    State
    → ViralOrigin
    → String
    → List Number
    → Variant
    → Result ViralFailure (ViralResolution × State)
resolve_viral_origin state origin destination_pd_id rolls variant = do
  fail_if (not (contains destination_pd_id origin.valid_destination_pd_ids))
      (refused invalid_target_pd)
  first ← or_fail (die_of (get_elem? rolls 0)) (refused invalid_viral_roll)
  let further = spread state origin destination_pd_id rolls variant
  if ltb first 6 then ok (missed state) else further
