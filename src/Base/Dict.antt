-- ===== src/Base/Dict.antt =====
-- A JavaScript object or `Map` used as a dictionary: its entries in the order of insertion.
use Prim.Native.String.{String}
use text.Mathlib.TextEquality.{eq_iff}
use mathlib.Core.Path.{◌≡◌, refl, subst}
use mathlib.Core.Bool.{Bool}
use mathlib.Core.Option.{Option, none, some}
use mathlib.Core.List.{List, [], ◌∷◌, map}
use native.Mathlib.Omega.{arith}
use mathlib.Core.Logic.{inl, inr}
use malign_ai.Base.Lists.{contains}
use malign_ai.Base.Tests.{Bool-cases, some_inj, ◌==◌, if◌then◌else◌, string_eq, is_some}

-- A `Record<string, V>`, by its own keys. Every object also inherits the members of `Object.prototype`,
-- which a lookup by their names finds though no record holds them; such names are outside of the model.
abbrev pub Dict {ℓ} : Type ℓ → Type ℓ
Dict V = List (String × V)

module _ {ℓ} {V : Type ℓ} where
  -- `d[k]`, `undefined` for a key that is absent.
  abbrev pub lookup : String → Dict V → Option V
  lookup k [] = none
  lookup k ((j, v) ∷ d) = if j == k then some v else lookup k d

  -- `d[k] = v`
  abbrev pub insert : String → V → Dict V → Dict V
  insert k v [] = (k, v) ∷ []
  insert k v ((j, w) ∷ d) = if j == k then (j, v) ∷ d else (j, w) ∷ insert k v d

  -- `delete d[k]`
  abbrev pub erase : String → Dict V → Dict V
  erase k [] = []
  erase k ((j, w) ∷ d) = if j == k then erase k d else (j, w) ∷ erase k d

  -- A write through the reference `d[k]`.
  abbrev pub modify : String → (V → V) → Dict V → Dict V
  modify k f [] = []
  modify k f ((j, w) ∷ d) = if j == k then (j, f w) ∷ d else (j, w) ∷ modify k f d

  abbrev pub values : Dict V → List V
  values = map (λ e. e.1)

  abbrev pub keys : Dict V → List String
  keys = map (λ e. e.0)

  abbrev pub has_key : String → Dict V → Bool
  has_key k d = is_some (lookup k d)

  -- No key is listed twice, which holds of every object.
  abbrev pub HasUniqueKeys : Dict V → Type ℓ
  HasUniqueKeys [] = Unit
  HasUniqueKeys ((k, v) ∷ d) = (lookup k d ≡ none) × HasUniqueKeys d

  pub lookup-insert :
      (k j : String) (v : V) (d : Dict V)
      → lookup j (insert k v d) ≡ (if k == j then some v else lookup j d)
  lookup-insert k j v [] = refl
  lookup-insert k j v ((i, w) ∷ d) =
      ground (arith, eq_iff k j, eq_iff i k, eq_iff i j, lookup-insert k j v d)

  pub lookup-erase :
      (k j : String) (d : Dict V) → lookup j (erase k d) ≡ (if k == j then none else lookup j d)
  lookup-erase k j [] = ground arith
  lookup-erase k j ((i, w) ∷ d) =
      ground (arith, eq_iff k j, eq_iff i k, eq_iff i j, lookup-erase k j d)

  abbrev pub apply? : (V → V) → Option V → Option V
  apply? f none = none
  apply? f (some v) = some (f v)

  pub lookup-modify :
      (k j : String) (f : V → V) (d : Dict V)
      → lookup j (modify k f d) ≡ (if k == j then apply? f (lookup j d) else lookup j d)
  lookup-modify k j f [] = ground arith
  lookup-modify k j f ((i, w) ∷ d) =
      ground (arith, eq_iff k j, eq_iff i k, eq_iff i j, lookup-modify k j f d)

  pub insert-HasUniqueKeys :
      (k : String) (v : V) (d : Dict V) → HasUniqueKeys d → HasUniqueKeys (insert k v d)
  insert-HasUniqueKeys k v [] u = (refl, tt)
  insert-HasUniqueKeys k v ((i, w) ∷ d) u =
      ground (arith, eq_iff i k, eq_iff k i, insert-HasUniqueKeys k v d u.1, lookup-insert k i v d)

  pub erase-HasUniqueKeys : (k : String) (d : Dict V) → HasUniqueKeys d → HasUniqueKeys (erase k d)
  erase-HasUniqueKeys k [] u = tt
  erase-HasUniqueKeys k ((i, w) ∷ d) u =
      ground (arith, eq_iff k i, erase-HasUniqueKeys k d u.1, lookup-erase k i d)

  pub modify-HasUniqueKeys :
      (k : String) (f : V → V) (d : Dict V) → HasUniqueKeys d → HasUniqueKeys (modify k f d)
  modify-HasUniqueKeys k f [] u = tt
  modify-HasUniqueKeys k f ((i, w) ∷ d) u =
      ground (arith, eq_iff k i, modify-HasUniqueKeys k f d u.1, lookup-modify k i f d)

-- A change of every value.
abbrev pub map_values {ℓ κ} : {V : Type ℓ} {W : Type κ} → (V → W) → Dict V → Dict W
map_values f [] = []
map_values f ((k, v) ∷ d) = (k, f v) ∷ map_values f d

pub lookup-map_values {ℓ} :
    {V : Type ℓ} (f : V → V) (k : String) (d : Dict V)
    → lookup k (map_values f d) ≡ apply? f (lookup k d)
lookup-map_values f k [] = refl
lookup-map_values f k ((j, v) ∷ d) = ground (arith, lookup-map_values f k d)

module _ {ℓ} {V : Type ℓ} where
  -- Every value has the property.
  abbrev pub AllValues {κ} : (V → Type κ) → Dict V → Type κ
  AllValues P [] = Unit
  AllValues P ((k, v) ∷ d) = P v × AllValues P d

  pub AllValues-lookup {κ} :
      (P : V → Type κ) (k : String) (d : Dict V) {v : V} → AllValues P d → lookup k d ≡ some v → P v
  AllValues-lookup P k [] h e = cc
  AllValues-lookup P k ((j, w) ∷ d) h e = elim (Bool-cases (j == k)) [
    | inl hit ↦ subst P (some_inj (rw hit at e)) h.0
    | inr miss ↦ AllValues-lookup P k d h.1 (rw miss at e)
  ]

  pub AllValues-modify {κ} :
      (P : V → Type κ) (k : String) (f : V → V) (d : Dict V)
      → ((v : V) → lookup k d ≡ some v → P v → P (f v))
      → AllValues P d
      → AllValues P (modify k f d)
  AllValues-modify P k f [] h a = tt
  AllValues-modify P k f ((j, w) ∷ d) h a = elim (Bool-cases (j == k)) [
    | inl e ↦ rw e (h w (rw e) a.0, a.1)
    | inr e ↦ rw e (a.0, AllValues-modify P k f d (λ v q. h v (rw e q)) a.1)
  ]

-- The names of the members of `Object.prototype`.
abbrev pub is_inherited : String → Bool
is_inherited name = contains name (
    "constructor" ∷ "hasOwnProperty" ∷ "isPrototypeOf" ∷ "propertyIsEnumerable" ∷ "toLocaleString"
    ∷ "toString" ∷ "valueOf" ∷ "__proto__" ∷ "__defineGetter__" ∷ "__defineSetter__"
    ∷ "__lookupGetter__" ∷ "__lookupSetter__" ∷ [])
