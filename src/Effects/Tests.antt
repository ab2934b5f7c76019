-- ===== src/Effects/Tests.antt =====
-- Card and regime effects in a game of two participants.
use malign_ai.Base.{
  ℕ, ◌+◌, ◌*◌, ◌≤◌, String, Bool, true, false, some, none, List, [], ◌∷◌, ◌≡◌, ◌≢◌, ◌⊎◌, refl, ok,
  arith, eq_iff, All,
}
use malign_ai.Base.Int.{ℤ, pos}
use malign_ai.Base.Number.{int}
use malign_ai.Base.Dict.{Dict, HasUniqueKeys, AllValues}
use malign_ai.Rules.Types.{malign, resiliency}
use malign_ai.Effects.Types.{
  State, Participant, InfluenceStack, ready, EffectContext, EffectError, Value, num, str,
  AuditRecord, number, flag, arden, ursaria, CountryId,
}
use malign_ai.Effects.Influence.{IsCounted, Placement, apply_direct_influence}
use malign_ai.Effects.Influence.Removal.{cubes}
use malign_ai.Effects.Influence.Totals.{
  apply_direct_influence_totals, apply_direct_influence_elsewhere,
}
use malign_ai.Effects.Names.{HasOwnNames}
use malign_ai.Effects.Wealth.{IsSolvent}
use malign_ai.Effects.Moves.{is_used}
use malign_ai.Effects.Parameters.{integer_parameter, truthy_parameter}
use malign_ai.Effects.Resources.{audit}
use malign_ai.Effects.Regime.{regime_die_remove}
use malign_ai.Base.{◌==◌, ◌++◌, string_eq, if◌then◌else◌}
use malign_ai.Effects.Scheduler.{SlotResult, resolved, suspended, SchedulerRun, run_m2b_scheduler}
use malign_ai.Effects.Scheduler.Order.{
  from_index, after_slots, run_m2b_scheduler_executes, run_m2b_scheduler_resumes,
}
use malign_ai.Base.{Option, length}
use malign_ai.Effects.Regime.{owned_markers}
use malign_ai.Effects.Legitimacy.{establish_legitimacy}
use malign_ai.Effects.Legitimacy.Limit.{establish_legitimacy_limit}
use malign_ai.Effects.Dispatch.{
  handle, done, failed, dispatch, definitions, m2_4, in_arden, in_ursaria,
}
use malign_ai.Effects.Dispatch.Safety.{
  Outcome, handler_of, state_after, dispatch-Outcome, dispatch-IsSolvent, dispatch-IsCounted,
  dispatch_keeps_used,
}
use malign_ai.Effects.Dispatch.Once.{OnceOutcome, dispatch_once, dispatch_twice}

abbrev participant : String → CountryId → ℤ → Bool → Participant
participant id country resources used = record {
  id = id;
  country_id = country;
  resources = resources;
  victory_points = pos 3;
  card_ids = [];
  regime_ability_used = used;
  core_modifier_used = false;
}

abbrev stack : CountryId → ℕ → InfluenceStack
stack country n = record {
  pd_id = "ARDEN_PD_1";
  type = malign;
  attribution_country_id = country;
  count = pos n;
}

abbrev two_stacks : List InfluenceStack
two_stacks = stack ursaria 3 ∷ stack arden 1 ∷ []

abbrev game : Bool → State
game used = record {
  version = 4;
  registry_version = "0.1";
  participants =
      ("a", participant "a" arden (pos 5) used) ∷ ("u", participant "u" ursaria (pos 2) false) ∷ [];
  cards = [];
  campaigns = [];
  influence = two_stacks;
  legitimacy_by_pd = ("ARDEN_PD_1", none) ∷ [];
  scheduler = record { participant_index = 0; slot_index = 0; status = ready };
  audit = [];
  resource_spends = none;
  fluma_regime = none;
}

abbrev call : String → Dict Value → EffectContext
call effect_id parameters = record {
  actor_participant_id = "a";
  effect_id = effect_id;
  effect_version = "0.1";
  parameters = parameters;
}

abbrev roll_records : List AuditRecord
roll_records =
    record {
      type = "DIE_ROLLED";
      actor_participant_id = "a";
      payload = ("rawValue", number (pos 7)) ∷ ("manual", flag false) ∷ [];
    }
    ∷ []

-- Five cubes of resiliency for three resources.
abbrev bought_cubes : EffectContext
bought_cubes = call "CARD_EFFECT_BASE_2025_E015" (
    ("cost", num (int (pos 3)))
    ∷ ("pdId", str "ARDEN_PD_1")
    ∷ ("type", str "RESILIENCY")
    ∷ ("amount", num (int (pos 5)))
    ∷ [])

-- Arden's ability with a roll that removes nothing.
abbrev arden_roll : EffectContext
arden_roll = call "REGIME_EFFECT_ARDEN" (("roll", num (int (pos 7))) ∷ [])

two_entries : (used : Bool) → HasUniqueKeys (game used).participants
two_entries used = (refl, (refl, tt))

two_stacks-IsCounted : All IsCounted two_stacks
two_stacks-IsCounted = (omega arith, (omega arith, tt))

both-IsSolvent : AllValues IsSolvent (game false).participants
both-IsSolvent = (
  record { resources_nonneg = omega arith; points_nonneg = omega arith },
  (record { resources_nonneg = omega arith; points_nonneg = omega arith }, tt),
)

arden_handler : handler_of arden_roll ≡ some in_arden
unfolding definitions
arden_handler = refl

bought_handler : handler_of bought_cubes ≢ some in_ursaria
unfolding definitions
bought_handler e = cc

own_names : HasOwnNames (game false) bought_cubes
own_names = record { actor = refl; parameters = refl; cards = refl; owners = refl; spent = refl }

dispatch-Outcome_example :
    Outcome
      (handler_of bought_cubes)
      (game false)
      bought_cubes
      (dispatch m2_4 (game false) bought_cubes)
dispatch-Outcome_example =
    dispatch-Outcome m2_4 (game false) bought_cubes (two_entries false) own_names

dispatch-IsSolvent_example :
    AllValues IsSolvent
      (state_after (game false) (dispatch m2_4 (game false) bought_cubes)).participants
dispatch-IsSolvent_example =
    dispatch-IsSolvent m2_4 (game false) bought_cubes (two_entries false) both-IsSolvent

dispatch-IsCounted_example :
    All IsCounted (state_after (game false) (dispatch m2_4 (game false) bought_cubes)).influence
dispatch-IsCounted_example =
    dispatch-IsCounted m2_4 (game false) bought_cubes (two_entries false) bought_handler
      two_stacks-IsCounted

dispatch_keeps_used_example :
    is_used "a" (state_after (game true) (dispatch m2_4 (game true) bought_cubes)) ≡ true
dispatch_keeps_used_example =
    dispatch_keeps_used m2_4 (game true) bought_cubes "a" (two_entries true) refl

dispatch_once_example : OnceOutcome (game false) arden_roll (dispatch m2_4 (game false) arden_roll)
dispatch_once_example = dispatch_once m2_4 (game false) arden_roll in_arden arden_handler refl

-- Arden's state and records after the roll.
abbrev rolled : State
rolled = record (game false) {
  version = 5;
  participants =
      ("a", participant "a" arden (pos 5) true) ∷ ("u", participant "u" ursaria (pos 2) false) ∷ [];
  audit = roll_records;
}

rolled_run : dispatch m2_4 (game false) arden_roll ≡ done rolled roll_records
unfolding dispatch definitions handle regime_die_remove integer_parameter audit truthy_parameter
rolled_run = refl

dispatch_twice_example : (x : EffectError) × (dispatch m2_4 rolled arden_roll ≡ failed rolled x)
dispatch_twice_example =
    dispatch_twice m2_4 m2_4 (game false) rolled arden_roll arden_roll in_arden in_arden
      roll_records arden_handler refl arden_handler refl refl rolled_run

apply_direct_influence_totals_example :
    (placement : Placement) × (after : State) × (apply_direct_influence
        (game false)
        "ARDEN_PD_1"
        resiliency
        arden
        (pos 5)
      ≡ ok (placement, after))
    × (placement.placed + 2 * placement.removed ≡ 5)
    × ((placement.placed ≤ 1) ⊎ (cubes "ARDEN_PD_1" malign after.influence ≡ 0))
    × (cubes "ARDEN_PD_1" resiliency after.influence
        ≡ placement.placed + cubes "ARDEN_PD_1" resiliency two_stacks)
    × (cubes "ARDEN_PD_1" malign after.influence + placement.removed
        ≡ cubes "ARDEN_PD_1" malign two_stacks)
    × All IsCounted after.influence
    × (after ≡ record (game false) { influence = after.influence })
apply_direct_influence_totals_example =
    apply_direct_influence_totals (game false) "ARDEN_PD_1" resiliency arden 5 two_stacks-IsCounted

apply_direct_influence_elsewhere_example :
    (placement : Placement) × (after : State) × (apply_direct_influence
        (game false)
        "FLUMA_PD_1"
        resiliency
        arden
        (pos 5)
      ≡ ok (placement, after))
    × (cubes "ARDEN_PD_1" malign after.influence ≡ cubes "ARDEN_PD_1" malign two_stacks)
apply_direct_influence_elsewhere_example =
    apply_direct_influence_elsewhere (game false) "FLUMA_PD_1" resiliency arden 5 "ARDEN_PD_1"
      malign two_stacks-IsCounted other_pd
  where
    true_ne_false : ◌≢◌ {A = Bool} false true
    true_ne_false e = cc

    other_pd : ◌≢◌ {A = String} "ARDEN_PD_1" "FLUMA_PD_1"
    other_pd e = true_ne_false ((eq_iff "ARDEN_PD_1" "FLUMA_PD_1").1 e)

-- Three slots, of which the second suspends; the caller counts the executions.
abbrev step : ℕ → String → ℕ → SlotResult × ℕ
step n slot index = (if slot == "wait" then suspended else resolved, n + 1)

abbrev slots : List String
slots = "first" ∷ "wait" ∷ "last" ∷ []

abbrev first_run : SchedulerRun
first_run = record { next_index = 2; is_complete = false; execution_order = 0 ∷ 1 ∷ [] }

first_run_lem : run_m2b_scheduler slots step 0 0 ≡ (first_run, 2)
unfolding run_m2b_scheduler
first_run_lem = refl

run_m2b_scheduler_executes_example :
    (n : ℕ) × (r : SchedulerRun) × (t : ℕ) × (run_m2b_scheduler slots step 0 0 ≡ (r, t))
    × (r.execution_order ≡ from_index 0 n)
    × (r.next_index ≡ 0 + n)
    × (t ≡ after_slots step 0 n slots 0)
    × (((r.is_complete ≡ true) × (r.next_index ≡ 3))
        ⊎ ((r.is_complete ≡ false) × (1 ≤ n) × (r.next_index ≤ 3)))
run_m2b_scheduler_executes_example = run_m2b_scheduler_executes step slots 0 0 (omega arith)

run_m2b_scheduler_resumes_example :
    (n : ℕ) × (q : SchedulerRun) × (u : ℕ) × (run_m2b_scheduler slots step 2 2 ≡ (q, u))
    × ((0 ∷ 1 ∷ []) ++ q.execution_order ≡ from_index 0 n)
    × (q.next_index ≡ 0 + n)
    × (q.next_index ≤ 3)
run_m2b_scheduler_resumes_example =
    run_m2b_scheduler_resumes step slots 0 0 2 first_run (omega arith) first_run_lem

abbrev zip_keys : List String → List (Option String) → Dict (Option String)
zip_keys (k ∷ ks) (o ∷ os) = (k, o) ∷ zip_keys ks os
zip_keys _ _ = []

-- A participant with three markers gives one up for a fourth.
abbrev markers : List (Option String) → State
markers owners = record (game false) {
  legitimacy_by_pd = zip_keys ("p" ∷ "q" ∷ "r" ∷ "s" ∷ []) owners;
}

replaced_run :
    establish_legitimacy (markers (some "a" ∷ some "a" ∷ some "a" ∷ none ∷ [])) "a" "s" (some "q")
    ≡ some (markers (some "a" ∷ none ∷ some "a" ∷ some "a" ∷ []))
unfolding establish_legitimacy
replaced_run = refl

establish_legitimacy_limit_example :
    length (owned_markers (markers (some "a" ∷ none ∷ some "a" ∷ some "a" ∷ [])) "a") ≤ 3
establish_legitimacy_limit_example =
    establish_legitimacy_limit (markers (some "a" ∷ some "a" ∷ some "a" ∷ none ∷ []))
      (markers (some "a" ∷ none ∷ some "a" ∷ some "a" ∷ [])) "a" "s" (some "q") (omega arith)
      replaced_run
