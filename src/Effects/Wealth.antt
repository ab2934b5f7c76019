-- ===== src/Effects/Wealth.antt =====
-- What the participants own together, and whether anyone owes.
use malign_ai.Base.{some_inj, String, some, [], ◌∷◌, ◌==◌, string_eq, ◌≡◌, ap, inl, inr, Bool-cases}
use malign_ai.Base.Int.{ℤ, pos, ◌+ℤ◌, ◌≤ℤ◌, int_laws}
use malign_ai.Base.Dict.{Dict, lookup, modify}
use malign_ai.Effects.Types.{Participant}

-- The resources of all participants.
abbrev pub wealth : Dict Participant → ℤ
wealth [] = pos 0
wealth ((k, p) ∷ d) = p.resources +ℤ wealth d

-- Neither resources nor victory points are below zero.
pub record IsSolvent (p : Participant) : Type 0 where
  pub resources_nonneg : pos 0 ≤ℤ p.resources
  pub points_nonneg : pos 0 ≤ℤ p.victory_points

-- A write to one participant changes the sum by what it changes of theirs.
pub wealth-modify :
    (k : String) (f : Participant → Participant) (d : Dict Participant) (p : Participant) (n : ℤ)
    → lookup k d ≡ some p
    → (f p).resources ≡ p.resources +ℤ n
    → wealth (modify k f d) ≡ wealth d +ℤ n
wealth-modify k f [] p n e h = cc
wealth-modify k f ((j, q) ∷ d) p n e h = elim (Bool-cases (j == k)) [
  | inl hit ↦
      let same : q ≡ p = some_inj (rw hit at e) in
      rw hit (
        grind
          (int_laws, ap (λ r. (f r).resources) same, ap (λ (r : Participant). r.resources) same))
  | inr miss ↦ rw miss (grind (int_laws, wealth-modify k f d p n (rw miss at e) h))
]
