-- ===== src/Base/Named.antt =====
-- Dictionaries whose values carry their own keys.
use mathlib.Core.Path.{◌≡◌, refl}
use mathlib.Core.Bool.{Bool, false, ◌||◌}
use mathlib.Core.Option.{Option, none, some}
use mathlib.Core.List.{List, [], ◌∷◌, map}
use native.Mathlib.Omega.{arith}
use Prim.Native.String.{String}
use text.Mathlib.TextEquality.{eq_iff}
use malign_ai.Base.Tests.{◌==◌, string_eq}
use malign_ai.Base.Lists.{contains, filter, insert_by, sort_by}
use malign_ai.Base.Dict.{Dict, lookup, insert, erase, values, HasUniqueKeys}
use mathlib.Core.Path.{ap, ◌∙◌}

module _ {ℓ} {V : Type ℓ} (id_of : V → String) where
  -- Every value stands under its own id.
  abbrev pub IsNamed : Dict V → Type 0
  IsNamed [] = Unit
  IsNamed ((k, v) ∷ d) = (id_of v ≡ k) × IsNamed d

  pub insert-IsNamed : (v : V) (d : Dict V) → IsNamed d → IsNamed (insert (id_of v) v d)
  insert-IsNamed v [] n = (refl, tt)
  insert-IsNamed v ((j, w) ∷ d) n = ground (arith, eq_iff j (id_of v), insert-IsNamed v d n.1)

  pub erase-IsNamed : (k : String) (d : Dict V) → IsNamed d → IsNamed (erase k d)
  erase-IsNamed k [] n = tt
  erase-IsNamed k ((j, w) ∷ d) n = ground (arith, erase-IsNamed k d n.1)

abbrev pub test_at {ℓ} : {V : Type ℓ} → (V → Bool) → Option V → Bool
test_at p none = false
test_at p (some v) = p v

-- The ids of the values that a test keeps are the keys at which it holds.
pub contains-ids {ℓ} :
    {V : Type ℓ} (id_of : V → String) (p : V → Bool) (k : String) (d : Dict V)
    → HasUniqueKeys d
    → IsNamed id_of d
    → contains k (map id_of (filter p (values d))) ≡ test_at p (lookup k d)
contains-ids id_of p k [] u n = refl
contains-ids id_of p k ((j, v) ∷ d) u n =
    ground (arith, eq_iff (id_of v) k, eq_iff j k, contains-ids id_of p k d u.1 n.1)

pub contains-insert_by :
    (le : String → String → Bool) (k x : String) (xs : List String)
    → contains k (insert_by le x xs) ≡ (x == k || contains k xs)
contains-insert_by le k x [] = ground arith
contains-insert_by le k x (y ∷ ys) = ground (arith, contains-insert_by le k x ys)

pub contains-sort_by :
    (le : String → String → Bool) (k : String) (xs : List String)
    → contains k (sort_by le xs) ≡ contains k xs
contains-sort_by le k [] = refl
contains-sort_by le k (x ∷ xs) =
    contains-insert_by le k x (sort_by le xs) ∙ ap (λ b. x == k || b) (contains-sort_by le k xs)
