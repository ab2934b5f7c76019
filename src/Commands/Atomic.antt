-- ===== src/Commands/Atomic.antt =====
-- packages/game-engine/src/atomic-dispatch.ts: one command against a store of versioned states.
pub mod Memory
pub mod Laws
pub mod Refinement
pub mod Replay
pub mod Tests
use malign_ai.Base.{
  ℕ, ◌+◌, String, Bool, true, false, Option, none, some, List, [], ◌≡◌, ◌==◌, string_eq,
  if◌then◌else◌, Result, ok, err, Exception,
}
use malign_ai.Base.Text.{◌<>◌}
use malign_ai.Commands.Contract.{
  CommandEnvelope, CommandResult, CommandStatus, command_resolved, command_rejected, ErrorCode,
  engine_error_for,
}

-- `AtomicVersionedState`: what the dispatch reads and writes of a state.
pub record Versioned (S : Type 0) : Type 0 where
  pub version_of : S → ℕ
  pub with_version : ℕ → S → S

pub record StoredResult (R : Type 0) : Type 0 where
  pub fingerprint : String
  pub result : CommandResult R

-- `AtomicCommandStore`, whose methods change a store of type `St`. `notify_committed` stands for the
-- optional method; a store without it leaves itself as it is.
pub record AtomicCommandStore (St S R : Type 0) : Type 0 where
  pub load : St → String → Option S
  pub commit_state : St → String → ℕ → S → Option St
  pub notify_committed : St → Option S → S → St
  pub idempotency_get : St → String → Option (StoredResult R)
  pub idempotency_set : St → String → StoredResult R → St

pub record AtomicResolution (S R : Type 0) : Type 0 where
  pub next_state : S
  pub status : Option CommandStatus
  pub result_code : String
  pub result_payload : Option R
  pub emitted_event_refs : List String
  pub adjudication_trace_refs : Option (List String)

pub data PreparedResolution (S R : Type 0) : Type 0 where
  prepared : AtomicResolution S R → PreparedResolution S R
  unprepared : ErrorCode → ℕ → PreparedResolution S R

abbrev pub rejected_result :
    {T P R : Type 0} → CommandEnvelope T P → ℕ → ErrorCode → String → CommandResult R
rejected_result envelope version code now = record {
  command_id = envelope.command_id;
  game_id = envelope.game_id;
  status = command_rejected;
  game_version_before = version;
  game_version_after = version;
  result_code = code;
  result_payload = none;
  emitted_event_refs = [];
  adjudication_trace_refs = [];
  error = some (engine_error_for code);
  resolved_at = now;
}

-- The key under which a command's result is kept.
abbrev pub identity_of : {T P : Type 0} → CommandEnvelope T P → String
identity_of envelope =
    envelope.game_id <> ":" <> (envelope.actor_context).actor_id <> ":" <> envelope.idempotency_key

-- `?.version ?? beforeVersion`
abbrev pub version_or : {S : Type 0} → Versioned S → ℕ → Option S → ℕ
version_or versioned before none = before
version_or versioned before (some s) = versioned.version_of s

abbrev pub or_else : {A : Type 0} → A → Option A → A
or_else a none = a
or_else _ (some a) = a

-- The options of the call. `fingerprint` is the text of the command's type, schema version and
-- payload; `now` is the time that the clock gives.
pub record DispatchOptions (S T P R : Type 0) : Type 0 where
  pub now : String
  pub validate_payload : CommandEnvelope T P → Option ErrorCode
  pub prepare : Option S → CommandEnvelope T P → Result Exception (PreparedResolution S R)
  pub fingerprint : CommandEnvelope T P → String
  pub defers_notification : Bool

-- What the caller gets, or the exception that `prepare` threw, the store that is left, and the notification that is handed over to
-- `deferStableNotification`.
pub record DispatchOutcome (St S R : Type 0) : Type 0 where
  pub result : Result Exception (CommandResult R)
  pub store : St
  pub deferred : Option (Option S × S)

abbrev pub accepted_result :
    {S T P R : Type 0}
    → Versioned S
    → DispatchOptions S T P R
    → CommandEnvelope T P
    → ℕ
    → AtomicResolution S R
    → CommandResult R
accepted_result versioned options envelope before r = record {
  command_id = envelope.command_id;
  game_id = envelope.game_id;
  status = or_else command_resolved r.status;
  game_version_before = before;
  game_version_after = versioned.version_of (versioned.with_version (before + 1) r.next_state);
  result_code = r.result_code;
  result_payload = r.result_payload;
  emitted_event_refs = r.emitted_event_refs;
  adjudication_trace_refs = or_else [] r.adjudication_trace_refs;
  error = none;
  resolved_at = options.now;
}

module _ {St S T P R : Type 0} (versioned : Versioned S) (api : AtomicCommandStore St S R)
    (options : DispatchOptions S T P R) where
  abbrev pub refuse : CommandEnvelope T P → St → ℕ → ErrorCode → DispatchOutcome St S R
  refuse envelope store version code = record {
    result = ok (rejected_result envelope version code options.now);
    store = store;
    deferred = none;
  }

  -- After the commit: the result is kept, and the observers are notified or the call handed over.
  abbrev pub conclude :
      CommandEnvelope T P → Option S → AtomicResolution S R → St → DispatchOutcome St S R
  conclude envelope before r committed =
      let next = versioned.with_version (version_or versioned 0 before + 1) r.next_state in
      let result = accepted_result versioned options envelope (version_or versioned 0 before) r in
      let kept =
        api.idempotency_set committed (identity_of envelope)
          (record { fingerprint = options.fingerprint envelope; result = result }) in
      record {
        result = ok result;
        store = if options.defers_notification then kept else api.notify_committed kept before next;
        deferred = if options.defers_notification then some (before, next) else none;
      }

  abbrev pub try_commit :
      CommandEnvelope T P
      → St
      → Option S
      → AtomicResolution S R
      → Option St
      → DispatchOutcome St S R
  try_commit envelope store before r none =
      refuse envelope store
        (version_or versioned (version_or versioned 0 before) (api.load store envelope.game_id))
        "STALE_STATE_VERSION"
  try_commit envelope store before r (some committed) = conclude envelope before r committed

  abbrev pub run_prepared :
      CommandEnvelope T P
      → St
      → Option S
      → Result Exception (PreparedResolution S R)
      → DispatchOutcome St S R
  run_prepared envelope store before (err e) = record {
    result = err e;
    store = store;
    deferred = none;
  }
  run_prepared envelope store before (ok (unprepared code version)) =
      refuse envelope store version code
  run_prepared envelope store before (ok (prepared r)) = try_commit envelope store before r (
      api.commit_state store envelope.game_id (version_or versioned 0 before)
        (versioned.with_version (version_or versioned 0 before + 1) r.next_state))

  -- A key that was used answers for the same command, and for no other.
  abbrev pub run_new :
      CommandEnvelope T P → St → Option S → Option (StoredResult R) → DispatchOutcome St S R
  run_new envelope store before none =
      run_prepared envelope store before (options.prepare before envelope)
  run_new envelope store before (some previous) =
      if previous.fingerprint == options.fingerprint envelope
      then record { result = ok previous.result; store = store; deferred = none }
      else refuse envelope store (version_or versioned 0 before) "IDEMPOTENCY_KEY_REUSED"

  abbrev pub run_valid :
      CommandEnvelope T P → St → Option S → Option ErrorCode → DispatchOutcome St S R
  run_valid envelope store before (some code) =
      refuse envelope store (version_or versioned 0 before) code
  run_valid envelope store before none =
      run_new envelope store before (api.idempotency_get store (identity_of envelope))

  unfoldable pub dispatch_atomic_command : CommandEnvelope T P → St → DispatchOutcome St S R
  dispatch_atomic_command envelope store =
      run_valid envelope store (api.load store envelope.game_id) (options.validate_payload envelope)
