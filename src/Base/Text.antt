-- ===== src/Base/Text.antt =====
-- Strings: concatenation, decimal numbers, joining and the order that `sort` uses.
use Prim.Native.Nat.{ℕ, zero, suc, ◌/◌, ◌%◌}
use Prim.Native.String.{String, ◌++◌, compare}
use text.Mathlib.Text.{is_le, starts_with as prefix_of}
use mathlib.Core.Bool.{Bool}
use mathlib.Core.Option.{none, some}
use mathlib.Core.List.{List, [], ◌∷◌}
use malign_ai.Base.Tests.{if◌then◌else◌, ltb}
use malign_ai.Base.Lists.{get_elem?}

infixr 65 ◌<>◌
-- A template string's pieces, one after the other.
abbrev pub ◌<>◌ : String → String → String
s <> t = s ++ t

-- `s.startsWith(t)`
abbrev pub starts_with : String → String → Bool
starts_with s t = prefix_of s t

-- `s <= t` for strings of ASCII characters.
abbrev pub string_leb : String → String → Bool
string_leb s t = is_le (compare s t)

abbrev digit_texts : List String
digit_texts = "0" ∷ "1" ∷ "2" ∷ "3" ∷ "4" ∷ "5" ∷ "6" ∷ "7" ∷ "8" ∷ "9" ∷ []

digit : ℕ → String
digit n = elim (get_elem? digit_texts n) [ none ↦ "" | some t ↦ t ]

-- The decimal digits of a number, the lowest last, before a text; `n + 1` rounds are enough.
decimal_from : ℕ → ℕ → String → String
unfolding digit
decimal_from zero n rest = rest
decimal_from (suc fuel) n rest =
    let more = decimal_from fuel (n / 10) (digit (n % 10) <> rest) in
    if ltb n 10 then digit n <> rest else more

-- A number in a template string.
unfoldable pub decimal : ℕ → String
unfolding decimal_from
decimal n = decimal_from (suc n) n ""

-- `texts.join(separator)`
abbrev pub join : String → List String → String
join separator [] = ""
join separator (t ∷ []) = t
join separator (t ∷ u ∷ ts) = t <> separator <> join separator (u ∷ ts)
