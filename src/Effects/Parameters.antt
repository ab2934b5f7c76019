-- ===== src/Effects/Parameters.antt =====
-- m2b.ts: reading an effect's parameters.
use malign_ai.Base.{
  String, Bool, true, false, Option, none, some, List, [], ◌∷◌, ◌==◌, string_eq, if◌then◌else◌,
}
use malign_ai.Base.Int.{ℤ, int_eq}
use malign_ai.Base.Number.{int, non_integer}
use malign_ai.Base.Dict.{lookup}
use malign_ai.Effects.Types.{
  EffectContext, Value, null, bool, num, str, array, object, Items, no_items, cons,
}

-- A string that is not empty.
abbrev non_empty_text : Value → Option String
non_empty_text (str t) = if t == "" then none else some t
non_empty_text _ = none

unfoldable pub string_parameter : EffectContext → String → Option String
string_parameter context key = elim (lookup key context.parameters) [
  | none ↦ none
  | some v ↦ non_empty_text v
]

abbrev integer_value : Value → Option ℤ
integer_value (num (int n)) = some n
integer_value (num non_integer) = none
integer_value _ = none

unfoldable pub integer_parameter : EffectContext → String → Option ℤ
integer_parameter context key = elim (lookup key context.parameters) [
  | none ↦ none
  | some v ↦ integer_value v
]

abbrev texts : Items → Option (List String)
texts no_items = some []
texts (cons (str t) rest) = elim (texts rest) [ none ↦ none | some ts ↦ some (t ∷ ts) ]
texts (cons _ rest) = none

abbrev text_array : Value → Option (List String)
text_array (array items) = texts items
text_array _ = none

unfoldable pub string_array_parameter : EffectContext → String → Option (List String)
string_array_parameter context key = elim (lookup key context.parameters) [
  | none ↦ none
  | some v ↦ text_array v
]

-- `Boolean(value)`; parameters come from JSON, which has no NaN.
abbrev is_truthy : Value → Bool
is_truthy null = false
is_truthy (bool b) = b
is_truthy (num (int n)) = if n == ℤ.pos 0 then false else true
is_truthy (num non_integer) = true
is_truthy (str t) = if t == "" then false else true
is_truthy (array _) = true
is_truthy (object _) = true

unfoldable pub truthy_parameter : EffectContext → String → Bool
truthy_parameter context key = elim (lookup key context.parameters) [
  | none ↦ false
  | some v ↦ is_truthy v
]
