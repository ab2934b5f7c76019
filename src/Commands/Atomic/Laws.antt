-- ===== src/Commands/Atomic/Laws.antt =====
-- What the dispatch of atomic-dispatch.ts relies on in a store and in a state's version.
use malign_ai.Base.{ℕ, String, Option, some, ◌≡◌, ◌==◌, string_eq, if◌then◌else◌}
use malign_ai.Commands.Atomic.{Versioned, StoredResult, AtomicCommandStore, version_or}

-- A kept result stays until its key is written, and a state until a commit of its game; a commit
-- goes through only from the version that is expected.
pub record StoreLaws {St S R : Type 0} (versioned : Versioned S) (api : AtomicCommandStore St S R)
    : Type 0 where
  pub version-with_version : (n : ℕ) (s : S) → versioned.version_of (versioned.with_version n s) ≡ n
  pub get-set :
      (st : St) (k j : String) (v : StoredResult R)
      → api.idempotency_get (api.idempotency_set st k v) j
        ≡ (if k == j then some v else api.idempotency_get st j)
  pub load-set :
      (st : St) (k g : String) (v : StoredResult R)
      → api.load (api.idempotency_set st k v) g ≡ api.load st g
  pub get-notify :
      (st : St) (before : Option S) (after : S) (k : String)
      → api.idempotency_get (api.notify_committed st before after) k ≡ api.idempotency_get st k
  pub load-notify :
      (st : St) (before : Option S) (after : S) (g : String)
      → api.load (api.notify_committed st before after) g ≡ api.load st g
  pub get-commit :
      (st st' : St) (g : String) (n : ℕ) (s : S) (k : String)
      → api.commit_state st g n s ≡ some st'
      → api.idempotency_get st' k ≡ api.idempotency_get st k
  pub load-commit :
      (st st' : St) (g : String) (n : ℕ) (s : S) (h : String)
      → api.commit_state st g n s ≡ some st'
      → api.load st' h ≡ (if g == h then some s else api.load st h)
  pub version-commit :
      (st st' : St) (g : String) (n : ℕ) (s : S)
      → api.commit_state st g n s ≡ some st'
      → version_or versioned 0 (api.load st g) ≡ n
