-- ===== src/Commands/Atomic/Memory.antt =====
-- atomic-dispatch.ts, `InMemoryAtomicStateStore`.
use malign_ai.Base.{
  ℕ, String, Bool, ◌≡◌, refl, arith, ◌∙◌, ap, Option, none, some, List, [], ◌∷◌, ◌++◌, ◌==◌, nat_eq,
  string_eq, if◌then◌else◌,
}
use malign_ai.Base.Dict.{Dict, lookup, insert, lookup-insert}
use malign_ai.Commands.Atomic.{Versioned, StoredResult, AtomicCommandStore, version_or}
use malign_ai.Commands.Atomic.Laws.{StoreLaws}

-- The states, the results that are kept, and what the listeners have been told, the latest last:
-- a listener's own exception is caught, so it cannot be told from one that returns.
pub record MemoryStore (S R : Type 0) : Type 0 where
  pub states : Dict S
  pub idempotency : Dict (StoredResult R)
  pub told : List (Option S × S)

abbrev pub is_current : {S : Type 0} → Versioned S → Option S → ℕ → Bool
is_current versioned none expected = expected == 0
is_current versioned (some s) expected = versioned.version_of s == expected

module _ {S R : Type 0} (versioned : Versioned S) where
  unfoldable pub memory_commit : MemoryStore S R → String → ℕ → S → Option (MemoryStore S R)
  memory_commit store game_id expected next =
      if is_current versioned (lookup game_id store.states) expected
      then some (record store { states = insert game_id next store.states })
      else none

  -- `load` is overridden by a store of a single game, which `load_id` stands for.
  abbrev pub memory_store : (String → String) → AtomicCommandStore (MemoryStore S R) S R
  memory_store load_id = record {
    load = λ store game_id. lookup (load_id game_id) store.states;
    commit_state = memory_commit;
    notify_committed =
        λ store before after. record store { told = store.told ++ (before, after) ∷ [] };
    idempotency_get = λ store identity. lookup identity store.idempotency;
    idempotency_set = λ store identity value. record store {
      idempotency = insert identity value store.idempotency;
    };
  }

module _ {S R : Type 0} (versioned : Versioned S) where
  commit-states :
      (st st' : MemoryStore S R) (g : String) (n : ℕ) (s : S)
      → memory_commit versioned st g n s ≡ some st'
      → (st' ≡ record st { states = insert g s st.states })
        × (version_or versioned 0 (lookup g st.states) ≡ n)
  unfolding memory_commit
  commit-states st st' g n s e = committed (lookup g st.states) e
    where
      committed :
          (o : Option S)
          → (if is_current versioned o n
              then some (record st { states = insert g s st.states })
              else none)
            ≡ some st'
          → (st' ≡ record st { states = insert g s st.states }) × (version_or versioned 0 o ≡ n)
      committed none h = ground arith
      committed (some t) h = ground arith

  -- For a store of many games, and states whose version is what was written last, the store in
  -- memory keeps every law that a dispatch relies on: a commit goes through only from the expected
  -- version, replaces that game's state alone and keeps the kept results; keeping a result and
  -- notifying the listeners leave the states.
  pub memory_store-StoreLaws :
      ((n : ℕ) (s : S) → versioned.version_of (versioned.with_version n s) ≡ n)
      → StoreLaws versioned (memory_store {R = R} versioned (λ g. g))
  memory_store-StoreLaws written = record {
    version-with_version = written;
    get-set = λ st k j v. lookup-insert k j v st.idempotency;
    load-set = λ st k g v. refl;
    get-notify = λ st before after k. refl;
    load-notify = λ st before after g. refl;
    get-commit = λ st st' g n s k e.
        ap (λ (t : MemoryStore S R). lookup k t.idempotency) (commit-states st st' g n s e).0;
    load-commit = λ st st' g n s h e.
        ap (λ (t : MemoryStore S R). lookup h t.states) (commit-states st st' g n s e).0
        ∙ lookup-insert g h s st.states;
    version-commit = λ st st' g n s e. (commit-states st st' g n s e).1;
  }
