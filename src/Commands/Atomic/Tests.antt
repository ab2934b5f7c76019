-- ===== src/Commands/Atomic/Tests.antt =====
-- atomic-dispatch.ts: two commands under one key against a store in memory.
use malign_ai.Base.{
  ℕ, ◌+◌, String, false, Option, none, some, [], ◌∷◌, ◌≡◌, refl, ◌==◌, string_eq, Result, ok,
  Exception, if◌then◌else◌, nat_eq,
}
use malign_ai.Base.Number.{nat}
use malign_ai.Commands.Contract.{CommandEnvelope, CommandResult, command_resolved, player}
use malign_ai.Commands.Atomic.{
  Versioned, DispatchOptions, prepared, unprepared, PreparedResolution, dispatch_atomic_command,
  version_or, rejected_result, AtomicCommandStore,
}
use malign_ai.Commands.Atomic.Laws.{StoreLaws}
use malign_ai.Commands.Atomic.Memory.{
  MemoryStore, memory_store, memory_commit, memory_store-StoreLaws,
}
use malign_ai.Commands.Atomic.Refinement.{
  SameLedger, LedgerStep, ledger_of, dispatch_atomic_command-LedgerStep,
}
use malign_ai.Commands.Atomic.Replay.{Call, dispatch_call, run_calls, dispatch_atomic_command_once}

-- A state that counts, by a version.
record Counter : Type 0 where
  version : ℕ
  total : ℕ

abbrev counter_version : Versioned Counter
counter_version = record {
  version_of = λ c. c.version;
  with_version = λ n c. record c { version = n };
}

abbrev counter_total : Option Counter → ℕ
counter_total none = 0
counter_total (some c) = c.total

-- Adds the payload; zero is refused.
abbrev add_payload :
    Option Counter → CommandEnvelope String ℕ → Result Exception (PreparedResolution Counter ℕ)
add_payload before envelope =
    if envelope.payload == 0
    then ok (unprepared "EFFECT_NOT_EXECUTABLE" (version_or counter_version 0 before))
    else ok (
        prepared (record {
          next_state = record { version = 0; total = counter_total before + envelope.payload };
          status = none;
          result_code = "ADDED";
          result_payload = some (counter_total before + envelope.payload);
          emitted_event_refs = [];
          adjudication_trace_refs = none;
        }))

abbrev options : DispatchOptions Counter String ℕ ℕ
options = record {
  now = "2026-01-01T00:00:00.000Z";
  validate_payload = λ envelope. none;
  prepare = add_payload;
  fingerprint = λ envelope. if envelope.payload == 0 then "zero" else "not zero";
  defers_notification = false;
}

abbrev add_call : ℕ → Call Counter String ℕ ℕ
add_call n = record {
  options = options;
  envelope = record {
    engine_contract_version = "1";
    command_id = "c";
    idempotency_key = "k";
    game_id = "g";
    actor_context = record {
      actor_id = "a";
      actor_type = player;
      participant_id = none;
      player_seat_id = none;
      country_id = none;
      authenticated_session_id = "s";
      permissions = [];
    };
    expected_game_version = nat 0;
    command_type = "ADD";
    payload_schema_version = "1";
    payload = n;
  };
}

abbrev counters : AtomicCommandStore (MemoryStore Counter ℕ) Counter ℕ
counters = memory_store counter_version (λ g. g)

abbrev no_counters : MemoryStore Counter ℕ
no_counters = record { states = []; idempotency = []; told = [] }

abbrev counter_laws : StoreLaws counter_version counters
counter_laws = memory_store-StoreLaws counter_version (λ n s. refl)

memory_store-StoreLaws_example :
    StoreLaws counter_version (memory_store {R = ℕ} counter_version (λ g. g))
memory_store-StoreLaws_example = memory_store-StoreLaws {R = ℕ} counter_version (λ n s. refl)

dispatch_atomic_command-LedgerStep_example :
    LedgerStep counter_version options
      (add_call 3).envelope
      (ledger_of counters no_counters)
      (ledger_of counters
        (dispatch_atomic_command counter_version counters options
          (add_call 3).envelope
          no_counters).store)
      (dispatch_atomic_command counter_version counters options
        (add_call 3).envelope
        no_counters).result
dispatch_atomic_command-LedgerStep_example =
    dispatch_atomic_command-LedgerStep counter_version counters options counter_laws
      (add_call 3).envelope no_counters

abbrev reached : MemoryStore Counter ℕ
reached =
    run_calls counter_version counters (add_call 5 ∷ [])
      (dispatch_call counter_version counters (add_call 3) no_counters).store

abbrev first_answer : CommandResult ℕ
first_answer = record {
  command_id = "c";
  game_id = "g";
  status = command_resolved;
  game_version_before = 0;
  game_version_after = 1;
  result_code = "ADDED";
  result_payload = some 3;
  emitted_event_refs = [];
  adjudication_trace_refs = [];
  error = none;
  resolved_at = "2026-01-01T00:00:00.000Z";
}

accepted :
    (dispatch_call counter_version counters (add_call 3) no_counters).result ≡ ok first_answer
unfolding dispatch_atomic_command memory_commit
accepted = refl

dispatch_atomic_command_once_example :
    ((dispatch_call counter_version counters (add_call 0) reached).result
      ≡ ok (
          if (add_call 3).options.fingerprint (add_call 3).envelope
            == (add_call 0).options.fingerprint (add_call 0).envelope
          then first_answer
          else rejected_result
              (add_call 0).envelope
              (version_or counter_version 0 (counters.load reached "g"))
              "IDEMPOTENCY_KEY_REUSED"
              options.now))
    × SameLedger
        (ledger_of counters reached)
        (ledger_of counters (dispatch_call counter_version counters (add_call 0) reached).store)
dispatch_atomic_command_once_example =
    dispatch_atomic_command_once counter_version counters counter_laws (add_call 3)
      (add_call 5 ∷ []) (add_call 0) no_counters first_answer accepted refl refl refl
