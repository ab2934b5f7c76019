-- ===== src/Commands/Atomic/Refinement.antt =====
-- atomic-dispatch.ts: a dispatch as one step of a ledger of states and kept results.
use malign_ai.Base.{
  ℕ, ◌+◌, String, Bool, true, false, Option, none, some, ◌≡◌, refl, ap, eq_iff, Result, ok, err,
  Exception, ◌==◌, string_eq, if◌then◌else◌, ◌∙◌, ◌≢◌,
}
use malign_ai.Commands.Contract.{CommandEnvelope, CommandResult, ErrorCode}
use malign_ai.Commands.Atomic.{
  Versioned, StoredResult, AtomicCommandStore, AtomicResolution, PreparedResolution, prepared,
  unprepared, DispatchOptions, DispatchOutcome, rejected_result, identity_of, version_or, refuse,
  accepted_result, conclude, try_commit, run_prepared, run_new, run_valid, dispatch_atomic_command,
}
use malign_ai.Commands.Atomic.Laws.{StoreLaws}

-- The ledger that a store keeps: the state of each game, and the result under each key.
pub record Ledger (S R : Type 0) : Type 0 where
  pub state_of : String → Option S
  pub kept_at : String → Option (StoredResult R)

abbrev pub SameLedger : {S R : Type 0} → Ledger S R → Ledger S R → Type 0
SameLedger a b =
    ((g : String) → b.state_of g ≡ a.state_of g) × ((k : String) → b.kept_at k ≡ a.kept_at k)

abbrev pub ledger_of : {St S R : Type 0} → AtomicCommandStore St S R → St → Ledger S R
ledger_of api store = record { state_of = api.load store; kept_at = api.idempotency_get store }

module _ {S T P R : Type 0} (versioned : Versioned S) (options : DispatchOptions S T P R)
    (envelope : CommandEnvelope T P) (before : Ledger S R) where
  abbrev found : Option S
  found = before.state_of envelope.game_id

  abbrev kept : Option (StoredResult R)
  kept = before.kept_at (identity_of envelope)

  -- Why a command is refused, with the version and the code that the result carries.
  pub data Refusal : ℕ → ErrorCode → Type 0 where
    invalid_payload :
        {version : ℕ} {code : ErrorCode}
        → options.validate_payload envelope ≡ some code
        → version ≡ version_or versioned 0 found
        → Refusal version code
    reused_key :
        {version : ℕ} {code : ErrorCode} (stored : StoredResult R)
        → options.validate_payload envelope ≡ none
        → kept ≡ some stored
        → stored.fingerprint ≢ options.fingerprint envelope
        → version ≡ version_or versioned 0 found
        → ◌≡◌ {A = String} code "IDEMPOTENCY_KEY_REUSED"
        → Refusal version code
    not_prepared :
        {version : ℕ} {code : ErrorCode}
        → options.validate_payload envelope ≡ none
        → kept ≡ none
        → options.prepare found envelope ≡ ok (unprepared code version)
        → Refusal version code
    not_committed :
        {version : ℕ} {code : ErrorCode} (r : AtomicResolution S R)
        → options.validate_payload envelope ≡ none
        → kept ≡ none
        → options.prepare found envelope ≡ ok (prepared r)
        → version ≡ version_or versioned 0 found
        → ◌≡◌ {A = String} code "STALE_STATE_VERSION"
        → Refusal version code

  -- One command against the ledger.
  pub data LedgerStep : Ledger S R → Result Exception (CommandResult R) → Type 0 where
    -- The key answers for the same command again, and nothing changes.
    replied :
        {after : Ledger S R} {result : Result Exception (CommandResult R)} (stored : StoredResult R)
        → options.validate_payload envelope ≡ none
        → kept ≡ some stored
        → stored.fingerprint ≡ options.fingerprint envelope
        → result ≡ ok stored.result
        → SameLedger before after
        → LedgerStep after result
    -- A refusal changes nothing.
    refused :
        {after : Ledger S R} {result : Result Exception (CommandResult R)} (version : ℕ)
        (code : ErrorCode)
        → Refusal version code
        → result ≡ ok (rejected_result envelope version code options.now)
        → SameLedger before after
        → LedgerStep after result
    -- An exception reaches the caller, and nothing changes.
    threw :
        {after : Ledger S R} {result : Result Exception (CommandResult R)} (e : Exception)
        → options.validate_payload envelope ≡ none
        → kept ≡ none
        → options.prepare found envelope ≡ err e
        → result ≡ err e
        → SameLedger before after
        → LedgerStep after result
    -- A new command is carried out from the game's state, which goes up by one version, and its
    -- result is kept under its key; every other game and key stays.
    executed :
        {after : Ledger S R} {result : Result Exception (CommandResult R)}
        (r : AtomicResolution S R)
        → options.validate_payload envelope ≡ none
        → kept ≡ none
        → options.prepare found envelope ≡ ok (prepared r)
        → result ≡ ok (accepted_result versioned options envelope (version_or versioned 0 found) r)
        → ((g : String)
            → after.state_of g ≡ (
                if envelope.game_id == g
                then some (versioned.with_version (version_or versioned 0 found + 1) r.next_state)
                else before.state_of g))
        → ((k : String)
            → after.kept_at k ≡ (
                if identity_of envelope == k
                then some (record {
                  fingerprint = options.fingerprint envelope;
                  result =
                      accepted_result versioned options envelope (version_or versioned 0 found) r;
                })
                else before.kept_at k))
        → LedgerStep after result

module _ {St S T P R : Type 0} (versioned : Versioned S) (api : AtomicCommandStore St S R)
    (options : DispatchOptions S T P R) (laws : StoreLaws versioned api)
    (envelope : CommandEnvelope T P) (store : St) where
  abbrev Steps : DispatchOutcome St S R → Type 0
  Steps o =
      LedgerStep versioned options envelope (ledger_of api store) (ledger_of api o.store) o.result

  same : SameLedger (ledger_of api store) (ledger_of api store)
  same = (λ g. refl, λ k. refl)

  load_told :
      (b : Bool) (st : St) (before : Option S) (after : S) (g : String)
      → api.load (if b then st else api.notify_committed st before after) g ≡ api.load st g
  load_told true st before after g = refl
  load_told false st before after g = laws.load-notify st before after g

  get_told :
      (b : Bool) (st : St) (before : Option S) (after : S) (k : String)
      → api.idempotency_get (if b then st else api.notify_committed st before after) k
        ≡ api.idempotency_get st k
  get_told true st before after k = refl
  get_told false st before after k = laws.get-notify st before after k

  version_or_again :
      (o : Option S) → version_or versioned (version_or versioned 0 o) o ≡ version_or versioned 0 o
  version_or_again none = refl
  version_or_again (some s) = refl

  abbrev found_state : Option S
  found_state = api.load store envelope.game_id

  abbrev kept_result : Option (StoredResult R)
  kept_result = api.idempotency_get store (identity_of envelope)

  module _ (valid : options.validate_payload envelope ≡ none) where
    module _ (fresh : kept_result ≡ none) where
      abbrev kept_for : AtomicResolution S R → StoredResult R
      kept_for r = record {
        fingerprint = options.fingerprint envelope;
        result = accepted_result versioned options envelope (version_or versioned 0 found_state) r;
      }

      abbrev next_of : AtomicResolution S R → S
      next_of r = versioned.with_version (version_or versioned 0 found_state + 1) r.next_state

      conclude_step :
          (r : AtomicResolution S R) (committed : St)
          → options.prepare found_state envelope ≡ ok (prepared r)
          → api.commit_state store envelope.game_id (version_or versioned 0 found_state) (next_of r)
            ≡ some committed
          → Steps (conclude versioned api options envelope found_state r committed)
      conclude_step r committed p c =
          executed r valid fresh p refl
            (λ g.
              load_told options.defers_notification _ found_state (next_of r) g
              ∙ laws.load-set committed _ g _
              ∙ laws.load-commit store committed _ _ (next_of r) g c)
            (λ k.
              get_told options.defers_notification _ found_state (next_of r) k
              ∙ laws.get-set committed _ k _
              ∙ ap
                  (λ (o : Option (StoredResult R)).
                    if identity_of envelope == k then some (kept_for r) else o)
                  (laws.get-commit store committed _ _ (next_of r) k c))

      commit_step :
          (r : AtomicResolution S R) (o : Option St)
          → options.prepare found_state envelope ≡ ok (prepared r)
          → api.commit_state store envelope.game_id (version_or versioned 0 found_state) (next_of r)
            ≡ o
          → Steps (try_commit versioned api options envelope store found_state r o)
      commit_step r none p c =
          refused (version_or versioned (version_or versioned 0 found_state) found_state) _
            (not_committed r valid fresh p (version_or_again found_state) refl) refl same
      commit_step r (some committed) p c = conclude_step r committed p c

      prepare_step :
          (p : Result Exception (PreparedResolution S R))
          → options.prepare found_state envelope ≡ p
          → Steps (run_prepared versioned api options envelope store found_state p)
      prepare_step (err x) e = threw x valid fresh e refl same
      prepare_step (ok (prepared r)) e = commit_step r _ e refl
      prepare_step (ok (unprepared code version)) e =
          refused version code (not_prepared valid fresh e) refl same

    stored_step :
        (stored : StoredResult R)
        → kept_result ≡ some stored
        → (b : Bool) → (stored.fingerprint == options.fingerprint envelope) ≡ b
        → Steps (
            if b
            then record { result = ok stored.result; store = store; deferred = none }
            else refuse versioned api options envelope store
                (version_or versioned 0 found_state)
                "IDEMPOTENCY_KEY_REUSED")
    stored_step stored e true t = replied stored valid e ((eq_iff _ _).0 t) refl same
    stored_step stored e false t =
        refused _ _
          (reused_key stored valid e
            (λ q. absurd (cc ((eq_iff (stored.fingerprint) (options.fingerprint envelope)).1 q)))
            refl refl)
          refl same

    kept_step :
        (o : Option (StoredResult R))
        → kept_result ≡ o
        → Steps (run_new versioned api options envelope store found_state o)
    kept_step none e = prepare_step e _ refl
    kept_step (some stored) e = stored_step stored e _ refl

  valid_step :
      (o : Option ErrorCode)
      → options.validate_payload envelope ≡ o
      → Steps (run_valid versioned api options envelope store found_state o)
  valid_step (some code) e =
      refused (version_or versioned 0 found_state) code (invalid_payload e refl) refl same
  valid_step none e = kept_step e _ refl

  -- Refinement. For every store that keeps the laws, dispatching a command is one step of the
  -- ledger of states and kept results. Either the key was used for the same command, which gets the
  -- kept result again, or the command is refused with a reason, and in both cases no state and no
  -- kept result changes, nor when preparing the command throws; or it is carried out from its game's state, its game alone goes up to the
  -- resolved state by exactly one version, and its result alone is added under its key.
  pub dispatch_atomic_command-LedgerStep :
      LedgerStep versioned options envelope
        (ledger_of api store)
        (ledger_of api (dispatch_atomic_command versioned api options envelope store).store)
        (dispatch_atomic_command versioned api options envelope store).result
  unfolding dispatch_atomic_command
  dispatch_atomic_command-LedgerStep = valid_step _ refl
