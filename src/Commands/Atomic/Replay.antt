-- ===== src/Commands/Atomic/Replay.antt =====
-- atomic-dispatch.ts: a key answers for one command for good.
use malign_ai.Base.{
  String, none, some, List, [], ◌∷◌, ◌≡◌, ◌==◌, string_eq, eq_iff, Result, ok, Exception, subst,
  if◌then◌else◌, arith, ◌∙◌,
}
use malign_ai.Commands.Contract.{CommandEnvelope, CommandResult}
use malign_ai.Commands.Atomic.{
  Versioned, StoredResult, AtomicCommandStore, DispatchOptions, DispatchOutcome, rejected_result,
  identity_of, version_or, dispatch_atomic_command,
}
use malign_ai.Commands.Atomic.Laws.{StoreLaws}
use malign_ai.Commands.Atomic.Refinement.{
  Ledger, SameLedger, LedgerStep, replied, refused, threw, executed, invalid_payload, reused_key,
  not_prepared, not_committed, ledger_of, dispatch_atomic_command-LedgerStep,
}

-- One call of `dispatchAtomicCommand`.
pub record Call (S T P R : Type 0) : Type 0 where
  pub options : DispatchOptions S T P R
  pub envelope : CommandEnvelope T P

module _ {S T P R : Type 0} (versioned : Versioned S) (options : DispatchOptions S T P R)
    (envelope : CommandEnvelope T P) (before : Ledger S R) where
  pub step-keeps :
      {after : Ledger S R} {result : Result Exception (CommandResult R)} (k : String)
      (v : StoredResult R)
      → LedgerStep versioned options envelope before after result
      → before.kept_at k ≡ some v
      → after.kept_at k ≡ some v
  step-keeps k v (replied _ _ _ _ _ same) e = same.1 k ∙ e
  step-keeps k v (refused _ _ _ _ same) e = same.1 k ∙ e
  step-keeps k v (threw _ _ _ _ _ same) e = same.1 k ∙ e
  step-keeps k v (executed r _ fresh _ _ _ kept) e =
      ground (arith, eq_iff (identity_of envelope) k, kept k)

  -- A command that is not refused has its result under its key.
  pub step-stores :
      {after : Ledger S R} (result : CommandResult R)
      → LedgerStep versioned options envelope before after (ok result)
      → result.error ≡ none
      → after.kept_at (identity_of envelope)
        ≡ some (record { fingerprint = options.fingerprint envelope; result = result })
  step-stores result (replied stored _ e f q same) _ = same.1 _ ∙ e ∙ ground arith
  step-stores result (refused _ _ _ q _) h = absurd (cc)
  step-stores result (threw _ _ _ _ q _) _ = absurd (cc)
  step-stores result (executed r _ fresh _ q _ kept) _ =
      kept _ ∙ ground (arith, eq_iff (identity_of envelope) (identity_of envelope))

  -- The answer to a key that is in use.
  pub step-answers :
      {after : Ledger S R} {result : Result Exception (CommandResult R)} (v : StoredResult R)
      → LedgerStep versioned options envelope before after result
      → options.validate_payload envelope ≡ none
      → before.kept_at (identity_of envelope) ≡ some v
      → result
        ≡ ok (
            if v.fingerprint == options.fingerprint envelope
            then v.result
            else rejected_result envelope
                (version_or versioned 0 (before.state_of envelope.game_id))
                "IDEMPOTENCY_KEY_REUSED"
                options.now)
  step-answers v (replied stored _ k f q _) valid e =
      ground (arith, eq_iff v.fingerprint (options.fingerprint envelope))
  step-answers v (refused _ _ (invalid_payload h _) q _) valid e = cc
  step-answers v (refused _ _ (reused_key stored _ k ne w c) q _) valid e =
      ground (arith, eq_iff v.fingerprint (options.fingerprint envelope))
  step-answers v (refused _ _ (not_prepared _ h _) q _) valid e = cc
  step-answers v (refused _ _ (not_committed _ _ h _ _ _) q _) valid e = cc
  step-answers v (threw _ _ h _ _ _) valid e = cc
  step-answers v (executed _ _ fresh _ _ _ _) valid e = cc

  -- A key that is in use, and a refusal, change no state and no kept result.
  pub step-leaves :
      {after : Ledger S R} {result : Result Exception (CommandResult R)} (v : StoredResult R)
      → LedgerStep versioned options envelope before after result
      → before.kept_at (identity_of envelope) ≡ some v
      → SameLedger before after
  step-leaves v (replied _ _ _ _ _ same) e = same
  step-leaves v (refused _ _ _ _ same) e = same
  step-leaves v (threw _ _ _ _ _ same) e = same
  step-leaves v (executed _ _ fresh _ _ _ _) e = absurd (cc)

module _ {St S T P R : Type 0} (versioned : Versioned S) (api : AtomicCommandStore St S R) where
  abbrev pub dispatch_call : Call S T P R → St → DispatchOutcome St S R
  dispatch_call c store = dispatch_atomic_command versioned api c.options c.envelope store

  -- The store after a list of calls.
  unfoldable pub run_calls : List (Call S T P R) → St → St
  run_calls [] store = store
  run_calls (c ∷ cs) store = run_calls cs (dispatch_call c store).store

  module _ (laws : StoreLaws versioned api) where
    abbrev step_of :
        (c : Call S T P R) (store : St)
        → LedgerStep versioned c.options c.envelope
            (ledger_of api store)
            (ledger_of api (dispatch_call c store).store)
            (dispatch_call c store).result
    step_of c store =
        dispatch_atomic_command-LedgerStep versioned api c.options laws c.envelope store

    run_calls-keeps :
        (cs : List (Call S T P R)) (store : St) (k : String) (v : StoredResult R)
        → api.idempotency_get store k ≡ some v
        → api.idempotency_get (run_calls cs store) k ≡ some v
    unfolding run_calls
    run_calls-keeps [] store k v e = e
    run_calls-keeps (c ∷ cs) store k v e =
        run_calls-keeps cs _ k v
          (step-keeps versioned c.options c.envelope _ k v (step_of c store) e)

    -- Exactly once. Let a call be answered, without an error and without an exception. After any list of further calls, of
    -- whatever games and keys, a second call with the first one's game, actor and key and a valid
    -- payload gets the first one's result when the fingerprints agree, and is refused with
    -- `IDEMPOTENCY_KEY_REUSED` at the game's present version when they differ; it changes neither
    -- the state of any game nor any kept result.
    pub dispatch_atomic_command_once :
        (first : Call S T P R) (later : List (Call S T P R)) (second : Call S T P R) (store : St)
        (answer : CommandResult R)
        → (dispatch_call first store).result ≡ ok answer
        → answer.error ≡ none
        → identity_of second.envelope ≡ identity_of first.envelope
        → second.options.validate_payload second.envelope ≡ none
        → let reached = run_calls later (dispatch_call first store).store in
          ((dispatch_call second reached).result
            ≡ ok (
                if first.options.fingerprint first.envelope
                  == second.options.fingerprint second.envelope
                then answer
                else rejected_result second.envelope
                    (version_or versioned 0 (api.load reached second.envelope.game_id))
                    "IDEMPOTENCY_KEY_REUSED"
                    second.options.now))
          × SameLedger (ledger_of api reached) (ledger_of api (dispatch_call second reached).store)
    dispatch_atomic_command_once first later second store answer answered fine same valid =
        let reached : St = run_calls later (dispatch_call first store).store in
        let stored : StoredResult R = record {
          fingerprint = first.options.fingerprint first.envelope;
          result = answer;
        } in
        let kept : api.idempotency_get reached (identity_of second.envelope) ≡ some stored =
          rw same (
            run_calls-keeps later _ (identity_of first.envelope) stored (
              step-stores versioned first.options first.envelope _ answer
                (subst
                  (λ r.
                    LedgerStep versioned first.options first.envelope (ledger_of api store)
                      (ledger_of api (dispatch_call first store).store) r)
                  answered (step_of first store))
                fine)) in
        (
          step-answers versioned second.options second.envelope _ stored (step_of second reached)
              valid kept,
          step-leaves versioned second.options second.envelope _ stored (step_of second reached)
              kept,
        )
