-- ===== src/Endgame/Objectives.antt =====
-- m2b-endgame.ts: the objectives of the countries.
use malign_ai.Base.{
  ℕ, ◌+◌, ◌-◌, ◌*◌, String, Bool, true, false, Option, none, some, List, [], ◌∷◌, map, filter, all,
  length, distinct, contains, ◌==◌, nat_eq, string_eq, ◌&&◌, ◌||◌, not, ltb, leb, if◌then◌else◌,
  Result, ok, ◌>>=◌, or_fail, Exception, missing_reference,
}
use malign_ai.Base.Dict.{Dict, lookup, values}
use malign_ai.Effects.Types.{
  CountryId, arden, fluma, ursaria, presque, dinesia, country_eq, country_text,
}

-- Cubes are counted by natural numbers.
pub record PdObjectiveMetrics : Type 0 where
  pub host_country_id : CountryId
  pub traits : List String
  pub total_malign : ℕ
  pub total_resiliency : ℕ
  pub attributed_malign : Dict ℕ
  pub attributed_resiliency : Dict ℕ
  pub narrative_tagged_countries : Option (List CountryId)

abbrev pub Metrics : Type 0
Metrics = Dict PdObjectiveMetrics

pub record ObjectiveEvaluation : Type 0 where
  pub country_id : CountryId
  pub hard_vp : ℕ
  pub medium_vp : ℕ
  pub easy_vp : ℕ
  pub total_vp : ℕ

-- `Math.max(0, positive - opposite)`, which `-` on the natural numbers is.
abbrev pub net : ℕ → ℕ → ℕ
net positive opposite = positive - opposite

abbrev pub is_host : CountryId → PdObjectiveMetrics → Bool
is_host country m = m.host_country_id == country

-- `entriesFor`, whose keys are not read.
abbrev pub entries_for : Metrics → CountryId → List PdObjectiveMetrics
entries_for metrics country = filter (is_host country) (values metrics)

abbrev or_zero : Option ℕ → ℕ
or_zero none = 0
or_zero (some n) = n

abbrev pub am : PdObjectiveMetrics → CountryId → ℕ
am m country = or_zero (lookup (country_text country) m.attributed_malign)

abbrev pub ar : PdObjectiveMetrics → CountryId → ℕ
ar m country = or_zero (lookup (country_text country) m.attributed_resiliency)

abbrev pub nam : PdObjectiveMetrics → CountryId → ℕ
nam m country = net (am m country) (ar m country)

abbrev pub nar : PdObjectiveMetrics → CountryId → ℕ
nar m country = net (ar m country) (am m country)

abbrev pub ntm : PdObjectiveMetrics → ℕ
ntm m = net m.total_malign m.total_resiliency

abbrev pub ntr : PdObjectiveMetrics → ℕ
ntr m = net m.total_resiliency m.total_malign

abbrev pub total_over : (PdObjectiveMetrics → ℕ) → List PdObjectiveMetrics → ℕ
total_over f [] = 0
total_over f (m ∷ ms) = f m + total_over f ms

-- `new Set(...).size` of the hosts.
abbrev pub hosts : List PdObjectiveMetrics → ℕ
hosts ms = length (distinct (map (λ (m : PdObjectiveMetrics). m.host_country_id) ms))

-- `metrics.X!`, whose fields are read: the access throws when it is missing.
abbrev pub require : Metrics → String → Result Exception PdObjectiveMetrics
require metrics pd = or_fail (lookup pd metrics) missing_reference

abbrev pub points : Bool → ℕ → ℕ
points reached n = if reached then n else 0

abbrev pub evaluation : CountryId → ℕ → ℕ → ℕ → ObjectiveEvaluation
evaluation country hard medium easy = record {
  country_id = country;
  hard_vp = hard;
  medium_vp = medium;
  easy_vp = easy;
  total_vp = hard + medium + easy;
}

unfoldable pub arden_objectives : Metrics → Result Exception ObjectiveEvaluation
arden_objectives metrics = do
  workers ← require metrics "FLUMA_PD_2"
  liberty ← require metrics "FLUMA_PD_1"
  ok (
      evaluation arden (points (ltb 5 (am workers arden)) 15) (points (ltb 3 (nar liberty arden)) 7)
        (length (filter (λ m. ltb 2 m.total_resiliency) (entries_for metrics arden)) * 5))

unfoldable pub ursaria_objectives : Metrics → ObjectiveEvaluation
ursaria_objectives metrics =
    evaluation ursaria
      (points (ltb 7 (total_over (λ m. am m ursaria) (entries_for metrics arden))) 20)
      (points
        (leb 2 (
          length (
            filter (λ m. contains "CHRISTIAN" m.traits && leb 2 (nam m ursaria))
              (entries_for metrics presque))))
        7)
      (hosts (filter (λ m. not (is_host ursaria m) && leb 2 (am m ursaria)) (values metrics)) * 5)

unfoldable pub presque_objectives : Metrics → ObjectiveEvaluation
presque_objectives metrics =
    let medium = length (filter (λ m. ltb 2 (nar m presque)) (entries_for metrics arden)) in
    let easy = length (filter (λ m. ltb 2 m.total_resiliency) (entries_for metrics presque)) in
    evaluation presque
      (points (leb 2 (length (filter (λ m. ltb 3 (am m presque)) (entries_for metrics dinesia))))
        15)
      (medium * 5 + points (medium == 3) 5) (easy * 3 + points (easy == 3) 5)

-- A test over the two places of Fluma, false when one of them is missing.
abbrev both :
    Option PdObjectiveMetrics
    → Option PdObjectiveMetrics
    → (PdObjectiveMetrics → PdObjectiveMetrics → Bool)
    → Bool
both none workers test = false
both (some liberty) none test = false
both (some liberty) (some workers) test = test liberty workers

abbrev is_tagged : PdObjectiveMetrics → Option (List CountryId) → Bool
is_tagged m none = false
is_tagged m (some countries) = contains m.host_country_id countries

abbrev pub fluma_tagged : Metrics → List PdObjectiveMetrics
fluma_tagged metrics =
    filter
      (λ m.
        not (is_host fluma m) && ltb 2 (nar m fluma) && is_tagged m m.narrative_tagged_countries)
      (values metrics)

-- `&&` reads the third place only if the second one passes.
abbrev fluma_hard : Metrics → Result Exception Bool
fluma_hard metrics = do
  second ← require metrics "ARDEN_PD_2"
  elim (ltb 3 (ntm second)) [
    | false ↦ ok false
    | true ↦ require metrics "ARDEN_PD_3" >>= λ third. ok (ltb 3 (ntm third))
  ]

unfoldable pub fluma_objectives : Metrics → Result Exception ObjectiveEvaluation
fluma_objectives metrics = do
  hard ← fluma_hard metrics
  let medium =
      both (lookup "FLUMA_PD_1" metrics) (lookup "FLUMA_PD_2" metrics)
        (λ liberty workers. leb 4 (ntr liberty) && ltb (ntr workers) (ntr liberty))
  let tagged = fluma_tagged metrics
  let classes = filter (λ m. contains "MIDDLE" m.traits || contains "LOWER" m.traits) tagged
  ok (
      evaluation fluma (points hard 20) (points medium 10)
        (length tagged * 3 + points (leb 3 (hosts classes)) 5))

unfoldable pub dinesia_objectives : Metrics → ObjectiveEvaluation
dinesia_objectives metrics =
    let homes = entries_for metrics presque in
    let medium = length (filter (λ m. ltb 1 (ntr m)) (entries_for metrics dinesia)) in
    evaluation dinesia (points (ltb 0 (length homes) && all (λ m. ltb 2 (ntm m)) homes) 20)
      (medium * 5 + points (medium == length (entries_for metrics dinesia) && ltb 0 medium) 5)
      (points
        (both (lookup "FLUMA_PD_1" metrics) (lookup "FLUMA_PD_2" metrics)
          (λ liberty workers. ltb 2 (nar liberty dinesia) || ltb 2 (nam workers dinesia)))
        5)

unfoldable pub evaluate_objectives : CountryId → Metrics → Result Exception ObjectiveEvaluation
unfolding arden_objectives ursaria_objectives presque_objectives fluma_objectives dinesia_objectives
evaluate_objectives arden metrics = arden_objectives metrics
evaluate_objectives ursaria metrics = ok (ursaria_objectives metrics)
evaluate_objectives presque metrics = ok (presque_objectives metrics)
evaluate_objectives fluma metrics = fluma_objectives metrics
evaluate_objectives dinesia metrics = ok (dinesia_objectives metrics)
