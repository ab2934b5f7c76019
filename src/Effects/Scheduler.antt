-- ===== src/Effects/Scheduler.antt =====
-- m2b.ts: `runM2BScheduler`, over slots that the caller executes, and `playStarter`.
pub mod Order
use malign_ai.Base.{
  ℕ, zero, suc, ◌+◌, String, Bool, true, false, List, [], ◌∷◌, ◌++◌, ◌==◌, ◌||◌, not, string_eq,
  if◌then◌else◌, Option, none, some, length, get_elem?, drop, Result, ok, ◌>>=◌, ◌>>◌, or_fail,
  fail_if,
}
use malign_ai.Base.Int.{pos}
use malign_ai.Base.Dict.{lookup, modify}
use malign_ai.Effects.Types.{
  State, EffectContext, EffectError, card_not_eligible, hand, removed_from_game, zone_eq,
  is_starter, number,
}
use malign_ai.Effects.Resources.{audit, add_resources}

pub data SlotResult : Type 0 where
  resolved suspended : SlotResult

pub record SchedulerRun : Type 0 where
  pub next_index : ℕ
  pub is_complete : Bool
  pub execution_order : List ℕ

-- A round that has pushed its index on the order of the rounds after it.
abbrev pub pushed : ℕ → SchedulerRun → SchedulerRun
pushed index run = record run { execution_order = index ∷ run.execution_order }

-- What a round's result makes of the rounds after it.
abbrev pub after_slot : {S : Type 0} → ℕ → SlotResult × S → SchedulerRun × S → SchedulerRun × S
after_slot index (suspended, s) later =
    (record { next_index = suc index; is_complete = false; execution_order = index ∷ [] }, s)
after_slot index (resolved, s) (rest, t) = (pushed index rest, t)

-- The loop over the slots that are left, with a caller whose own state is `S`.
module _ {S T : Type 0} where
  pub run_slots : (S → T → ℕ → SlotResult × S) → ℕ → List T → S → SchedulerRun × S
  run_slots execute index [] s =
      (record { next_index = index; is_complete = true; execution_order = [] }, s)
  run_slots execute index (slot ∷ slots) s =
      let result = execute s slot index in
      after_slot index result (run_slots execute (suc index) slots (result.1))

  -- From an index that is not beyond the slots.
  unfoldable pub run_m2b_scheduler :
      List T → (S → T → ℕ → SlotResult × S) → ℕ → S → SchedulerRun × S
  unfolding run_slots
  run_m2b_scheduler slots execute start s = run_slots execute start (drop start slots) s

-- `playStarter`; the starter with the registered effect also brings four resources.
unfoldable pub play_starter : State → String → String → Result EffectError State
play_starter state card_id participant_id = do
  card ← or_fail (lookup card_id state.cards) card_not_eligible
  _ ← or_fail (lookup participant_id state.participants) card_not_eligible
  fail_if (not (is_starter card.card_class) || not (card.zone == hand)) card_not_eligible
  let gained =
      audit
        (record state {
          participants = modify participant_id (add_resources (pos 4)) state.participants;
        })
        (record {
          actor_participant_id = participant_id;
          effect_id = "CARD_EFFECT_BASE_2025_E042";
          effect_version = "0.1";
          parameters = [];
        })
        "RESOURCE_GAINED" (("amount", number (pos 4)) ∷ [])
  let after =
      if card.definition_id == "BASE_CARD_075" || card.definition_id == "CARD_DEF_BASE_2025_D075"
      then gained
      else state
  ok (record after {
    cards = modify card_id (λ c. record c { zone = removed_from_game }) after.cards;
  })
