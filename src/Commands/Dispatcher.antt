-- ===== src/Commands/Dispatcher.antt =====
-- packages/game-engine/src/dispatcher.ts: `CommandDispatcher`, over the store of one game.
pub mod Tests
pub mod Placed
pub mod Activation
pub mod Construction
pub mod Modification
pub mod Rows
pub mod Store
pub mod Once
pub mod Safety
pub mod Ensures
pub mod Sound
use malign_ai.Base.{
  ◌≡◌, ℕ, String, Bool, true, false, Option, none, some, List, [], ◌==◌, string_eq, nat_eq,
  if◌then◌else◌, not, ◌||◌, Result, ok, err, ◌>>=◌, ◌>>◌, fail_if, or_fail, Exception,
  missing_reference, map,
}
use malign_ai.Base.Number.{nat}
use malign_ai.Base.Dict.{lookup, has_key}
use malign_ai.Commands.Contract.{CommandEnvelope, CommandResult, ErrorCode, is_player}
use malign_ai.Commands.Model.{
  GameState, GamePhase, initiative_stage, action_stage_plan, resolution_stage, GameCommandType,
  GameCommandPayload, set_action_plan, lock_action_plan, construct, modify, activate,
  end_game_scoring, ParticipantState, is_paused,
}
use malign_ai.Commands.Plan.{
  Failure, refusal, thrown, Reduced, ReplyPayload, set_plan_from, lock_plan, is_nat,
}
use malign_ai.Commands.Payload.{slots_in, as_construct, as_activate, has_slots, names_own}
use malign_ai.Commands.Campaigns.{construct_campaign, modify_from, activate_campaign}
use malign_ai.Commands.Atomic.{
  Versioned, DispatchOptions, DispatchOutcome, PreparedResolution, prepared, unprepared,
  dispatch_atomic_command,
}
use malign_ai.Commands.Atomic.Memory.{MemoryStore, memory_store}

abbrev pub Envelope : Type 0
Envelope = CommandEnvelope GameCommandType GameCommandPayload

abbrev pub game_version : Versioned GameState
game_version = record {
  version_of = λ s. s.version;
  with_version = λ n s. record s { version = n };
}

abbrev is_resolution : GamePhase → Bool
is_resolution initiative_stage = false
is_resolution action_stage_plan = false
is_resolution resolution_stage = true

abbrev is_planning : GamePhase → Bool
is_planning initiative_stage = false
is_planning action_stage_plan = true
is_planning resolution_stage = false

-- The phase that the command's type asks for.
abbrev pub is_in_phase : GameCommandType → GamePhase → Bool
is_in_phase activate phase = is_resolution phase
is_in_phase set_action_plan phase = is_planning phase
is_in_phase lock_action_plan phase = is_planning phase
is_in_phase construct phase = is_planning phase
is_in_phase modify phase = is_planning phase
is_in_phase end_game_scoring phase = is_planning phase

-- `#actorParticipant`, with the key that it is found under.
abbrev pub actor_participant : GameState → Option String → Option ParticipantState
actor_participant state none = none
actor_participant state (some key) = lookup key state.participants

abbrev pub is_scoring : GameCommandType → Bool
is_scoring end_game_scoring = true
is_scoring set_action_plan = false
is_scoring lock_action_plan = false
is_scoring construct = false
is_scoring modify = false
is_scoring activate = false

abbrev pub is_known : GameState → Option String → Bool
is_known state none = false
is_known state (some key) = has_key key state.participants

-- A plan comes with slots, and no id that the command names is one that every record inherits.
pub record IsReadable (envelope : Envelope) : Type 0 where
  pub slots : has_slots envelope.command_type envelope.payload ≡ true
  pub names : names_own (envelope.actor_context).participant_id envelope.payload ≡ true

-- The guards of `prepare`, in the order of the source.
abbrev pub guards : GameState → Envelope → Result Failure (Unit {0})
guards state envelope = do
  fail_if (not (envelope.game_id == state.id)) (refusal "GAME_ID_MISMATCH")
  fail_if
      (not (is_player (envelope.actor_context).actor_type)
        || not (is_known state (envelope.actor_context).participant_id))
      (refusal "INVALID_ACTOR_CONTEXT")
  fail_if (not (is_nat envelope.expected_game_version state.version))
      (refusal "STALE_STATE_VERSION")
  fail_if (is_paused state.overlay) (refusal "GAME_PAUSED")

abbrev pub resolution_of :
    ℕ → Result Failure Reduced → Result Exception (PreparedResolution GameState ReplyPayload)
resolution_of version (err (thrown e)) = err e
resolution_of version (err (refusal code)) = ok (unprepared code version)
resolution_of version (ok r) = ok (
    prepared (record {
      next_state = r.state;
      status = none;
      result_code = r.code;
      result_payload = r.payload;
      emitted_event_refs = map (λ e. e.id) r.events;
      adjudication_trace_refs = none;
    }))

module _ (fraction_exceeds : ℕ → Bool) where
  abbrev pub run_command :
      GameState
      → String
      → ParticipantState
      → String
      → GameCommandType
      → GameCommandPayload
      → Result Failure Reduced
  run_command state key participant command_id set_action_plan payload =
      set_plan_from state key participant (slots_in payload)
  run_command state key participant command_id lock_action_plan payload =
      lock_plan fraction_exceeds state key participant command_id
  run_command state key participant command_id construct payload =
      construct_campaign state participant.id command_id (as_construct payload)
  run_command state key participant command_id modify payload =
      modify_from state participant.id command_id payload
  run_command state key participant command_id activate payload =
      activate_campaign state participant.id command_id (as_activate payload)
  run_command state key participant command_id end_game_scoring payload =
      err (refusal "ILLEGAL_STATE_TRANSITION")

  unfoldable pub reduce : GameState → Envelope → Result Failure Reduced
  reduce state envelope = do
    fail_if (is_scoring envelope.command_type) (refusal "ILLEGAL_STATE_TRANSITION")
    fail_if (not (is_in_phase envelope.command_type state.phase)) (refusal "WRONG_PHASE")
    key ← or_fail (envelope.actor_context).participant_id (refusal "NOT_AUTHORIZED")
    participant ← or_fail (lookup key state.participants) (refusal "NOT_AUTHORIZED")
    run_command state key participant envelope.command_id envelope.command_type envelope.payload

  -- `snapshot` throws for a store without its game.
  unfoldable pub prepare :
      Option GameState → Envelope → Result Exception (PreparedResolution GameState ReplyPayload)
  unfolding reduce
  prepare none envelope = err missing_reference
  prepare (some before) envelope =
      resolution_of before.version (guards before envelope >> reduce before envelope)

  module _ (now : String) (fingerprint : Envelope → String) where
    abbrev pub game_options :
        DispatchOptions GameState GameCommandType GameCommandPayload ReplyPayload
    unfolding prepare
    game_options = record {
      now = now;
      validate_payload = λ _. none;
      prepare = prepare;
      fingerprint = fingerprint;
      defers_notification = false;
    }

    -- `InMemoryGameStore` loads its one game whatever id is asked for.
    unfoldable pub dispatch :
        String
        → Envelope
        → MemoryStore GameState ReplyPayload
        → DispatchOutcome (MemoryStore GameState ReplyPayload) GameState ReplyPayload
    unfolding prepare dispatch_atomic_command
    dispatch stored_id envelope store =
        dispatch_atomic_command game_version (memory_store game_version (λ _. stored_id))
          game_options envelope store
