-- ===== src/Commands/Dispatcher/Store.antt =====
-- dispatcher.ts: `CommandDispatcher` over the store of its game keeps the game sound.
use malign_ai.Base.{
  ℕ, String, Bool, true, false, Option, none, some, ◌≡◌, refl, sym, ap, ◌∙◌, Result, ok, subst, not,
  ◌||◌, ◌==◌, string_eq, nat_eq, if◌then◌else◌, arith, eq_iff, ◌>>◌, Exception, fail_if, map, ◌+◌,
}
use malign_ai.Base.Dict.{lookup, insert, lookup-insert}
use malign_ai.Commands.Contract.{CommandResult, ErrorCode, is_player}
use malign_ai.Commands.Model.{GameState, is_paused}
use malign_ai.Commands.Plan.{Failure, Reduced, ReplyPayload, refusal, is_nat}
use malign_ai.Commands.Atomic.{
  refuse, AtomicResolution, PreparedResolution, prepared, unprepared, StoredResult, DispatchOutcome,
  run_new, run_prepared, try_commit, identity_of,
}
use malign_ai.Commands.Atomic.Memory.{MemoryStore, memory_store, memory_commit}
use malign_ai.Commands.Dispatcher.{
  Envelope, IsReadable, reduce, prepare, guards, is_known, resolution_of, game_version,
  game_options, dispatch,
}
use malign_ai.Commands.Dispatcher.Ensures.{
  Ensures, returns, refuses, after_fail_if, after_refusals, Ensures-map, Ensures-both,
}
use malign_ai.Commands.Dispatcher.Sound.{IsSound}
use malign_ai.Commands.Dispatcher.Safety.{reduce-IsSound}
use malign_ai.Commands.Dispatcher.Rows.{OneRow, reduce-OneRow}

-- The store holds its game, sound and with one campaign in row I for each owner at most.
pub record IsStored (stored_id : String) (store : MemoryStore GameState ReplyPayload) : Type 0 where
  pub state : GameState
  pub at : lookup stored_id store.states ≡ some state
  pub is_named : state.id ≡ stored_id
  pub sound : IsSound state
  pub rows : OneRow state.campaigns

module _ (fraction_exceeds : ℕ → Bool) where
  -- What a prepared command leaves.
  abbrev Next : GameState → Envelope → Reduced → Type 0
  Next s envelope r =
      IsSound r.state × OneRow r.state.campaigns × (r.state.id ≡ s.id) × (envelope.game_id ≡ s.id)

  guards_lem :
      (s : GameState) (envelope : Envelope)
      → Ensures (λ _. envelope.game_id ≡ s.id) (guards s envelope)
  guards_lem s envelope =
      after_fail_if (not (envelope.game_id == s.id)) "GAME_ID_MISMATCH" _ λ same.
        after_fail_if
          (not (is_player (envelope.actor_context).actor_type)
            || not (is_known s (envelope.actor_context).participant_id))
          "INVALID_ACTOR_CONTEXT" _
          λ _.
            after_fail_if (not (is_nat envelope.expected_game_version s.version))
              "STALE_STATE_VERSION" _
              λ _. last (is_paused s.overlay) (ground (arith, eq_iff envelope.game_id s.id))
    where
      last :
          (b : Bool)
          → envelope.game_id ≡ s.id
          → Ensures (λ _. envelope.game_id ≡ s.id) (fail_if b (refusal "GAME_PAUSED"))
      last true e = refuses "GAME_PAUSED" refl
      last false e = returns tt refl e

  guarded :
      (s : GameState) (envelope : Envelope)
      → IsSound s
      → OneRow s.campaigns
      → IsReadable envelope
      → Ensures (Next s envelope) (guards s envelope >> reduce fraction_exceeds s envelope)
  guarded s envelope h o readable =
      after_refusals (guards s envelope) _ (guards_lem s envelope) λ _ _ same.
        Ensures-map (λ r all. (all.0, all.1.0, all.1.1, same))
          (Ensures-both (reduce-IsSound fraction_exceeds s envelope h readable)
            (reduce-OneRow fraction_exceeds s envelope h o readable))

  -- What `prepare` gives for a sound game.
  pub data Ready (s : GameState) (envelope : Envelope)
      (p : Result Exception (PreparedResolution GameState ReplyPayload)) : Type 0 where
    not_ready :
        (code : ErrorCode) (version : ℕ) → p ≡ ok (unprepared code version) → Ready s envelope p
    ready :
        (r : AtomicResolution GameState ReplyPayload)
        → p ≡ ok (prepared r)
        → IsSound r.next_state
        → OneRow r.next_state.campaigns
        → r.next_state.id ≡ s.id
        → envelope.game_id ≡ s.id
        → Ready s envelope p

  resolution_of-Ready :
      (s : GameState) (envelope : Envelope) (r : Result Failure Reduced)
      → Ensures (Next s envelope) r
      → Ready s envelope (resolution_of s.version r)
  resolution_of-Ready s envelope r (returns a e (h, o, i, g)) =
      ready
        (record {
          next_state = a.state;
          status = none;
          result_code = a.code;
          result_payload = a.payload;
          emitted_event_refs = map (λ x. x.id) a.events;
          adjudication_trace_refs = none;
        })
        (ap (resolution_of s.version) e) h o i g
  resolution_of-Ready s envelope r (refuses code e) =
      not_ready code s.version (ap (resolution_of s.version) e)

  module _ (now : String) (fingerprint : Envelope → String) (stored_id : String) where
    abbrev Kept :
        DispatchOutcome (MemoryStore GameState ReplyPayload) GameState ReplyPayload → Type 0
    Kept o = ((x : CommandResult ReplyPayload) × (o.result ≡ ok x)) × IsStored stored_id o.store

    IsSound-at_version : (n : ℕ) (s : GameState) → IsSound s → IsSound (record s { version = n })
    IsSound-at_version n s h = record { named = h.named; counts = h.counts; placed = h.placed }

    abbrev written : GameState → AtomicResolution GameState ReplyPayload → GameState
    written s r = record (r.next_state) { version = s.version + 1 }

    -- A commit that follows a load goes through.
    commit_current :
        (envelope : Envelope) (store : MemoryStore GameState ReplyPayload)
        (g : IsStored stored_id store) (next : GameState)
        → envelope.game_id ≡ g.state.id
        → memory_commit game_version store envelope.game_id g.state.version next
          ≡ some (record store { states = insert envelope.game_id next store.states })
    unfolding memory_commit
    commit_current envelope store g next e =
        let found : lookup envelope.game_id store.states ≡ some g.state =
          ap (λ (k : String). lookup k store.states) (e ∙ g.is_named) ∙ g.at in
        rw found (ground arith)

    committed :
        (envelope : Envelope) (store : MemoryStore GameState ReplyPayload)
        (g : IsStored stored_id store) (r : AtomicResolution GameState ReplyPayload)
        → IsSound r.next_state
        → OneRow r.next_state.campaigns
        → r.next_state.id ≡ g.state.id
        → envelope.game_id ≡ g.state.id
        → Kept (
            try_commit game_version
              (memory_store game_version (λ _. stored_id))
              (game_options fraction_exceeds now fingerprint)
              envelope
              store
              (some g.state)
              r
              (memory_commit game_version store envelope.game_id g.state.version
                (written g.state r)))
    committed envelope store g r h o i e =
        subst
          (λ (c : Option (MemoryStore GameState ReplyPayload)). Kept (
            try_commit game_version (memory_store game_version (λ _. stored_id))
              (game_options fraction_exceeds now fingerprint) envelope store (some g.state) r c))
          (sym (commit_current envelope store g (written g.state r) e))
          (
            (_, refl),
            record {
              state = written g.state r;
              at = ground (
                arith,
                lookup-insert envelope.game_id stored_id (written g.state r) store.states,
                e,
                g.is_named,
                eq_iff envelope.game_id stored_id,
              );
              is_named = i ∙ g.is_named;
              sound = IsSound-at_version (g.state.version + 1) r.next_state h;
              rows = o;
            },
          )

    prepared_kept :
        (envelope : Envelope) (store : MemoryStore GameState ReplyPayload)
        (g : IsStored stored_id store)
        (p : Result Exception (PreparedResolution GameState ReplyPayload))
        → Ready g.state envelope p
        → Kept (
            run_prepared game_version
              (memory_store game_version (λ _. stored_id))
              (game_options fraction_exceeds now fingerprint)
              envelope
              store
              (some g.state)
              p)
    prepared_kept envelope store g p (not_ready code version e) = rw e ((_, refl), g)
    prepared_kept envelope store g p (ready r e h o i q) =
        rw e (committed envelope store g r h o i q)

    run_kept :
        (envelope : Envelope) (store : MemoryStore GameState ReplyPayload)
        (g : IsStored stored_id store) (o : Option (StoredResult ReplyPayload))
        → IsReadable envelope
        → Kept (
            run_new game_version
              (memory_store game_version (λ _. stored_id))
              (game_options fraction_exceeds now fingerprint)
              envelope
              store
              (some g.state)
              o)
    unfolding prepare
    run_kept envelope store g none readable =
        prepared_kept envelope store g _ (
          resolution_of-Ready g.state envelope _ (guarded g.state envelope g.sound g.rows readable))
    run_kept envelope store g (some previous) readable =
        replayed (previous.fingerprint == fingerprint envelope)
      where
        replayed :
            (b : Bool)
            → Kept (
                if b
                then record { result = ok previous.result; store = store; deferred = none }
                else refuse game_version
                    (memory_store game_version (λ _. stored_id))
                    (game_options fraction_exceeds now fingerprint)
                    envelope
                    store
                    g.state.version
                    "IDEMPOTENCY_KEY_REUSED")
        replayed true = ((_, refl), g)
        replayed false = ((_, refl), g)

    -- A store that holds a sound game, with one campaign in row I for each owner at most, answers
    -- every readable command, one that has slots if it sets a plan and names no id that every record
    -- inherits: the dispatcher throws nothing, and the store it leaves holds such a game again.
    pub dispatch-IsStored :
        (envelope : Envelope) (store : MemoryStore GameState ReplyPayload)
        → IsStored stored_id store
        → IsReadable envelope
        → ((answer : CommandResult ReplyPayload) × ((dispatch fraction_exceeds now fingerprint
                stored_id envelope store).result
              ≡ ok answer))
          × IsStored stored_id
              (dispatch fraction_exceeds now fingerprint stored_id envelope store).store
    unfolding dispatch
    dispatch-IsStored envelope store g readable =
        rw g.at
          (run_kept envelope store g (lookup (identity_of envelope) store.idempotency) readable)
