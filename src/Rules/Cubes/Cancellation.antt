-- ===== src/Rules/Cubes/Cancellation.antt =====
-- The closed form of cubes.ts against the cancellation that it stands for, pair by pair.
use malign_ai.Base.{
  ℕ, zero, suc, ◌+◌, ◌*◌, ◌⊎◌, refl, ◌-◌, ◌≤◌, ◌≡◌, leb, if◌then◌else◌, arith, ok, err, range_error,
  false, ◌&&◌,
}
use malign_ai.Base.Number.{Number, nat, is_count}
use malign_ai.Rules.Cubes.{TwoToOneResolution, resolve_two_to_one, two_to_one}

-- Two incoming cubes and one opposite cube leave together, as long as there are such: what is left
-- of the incoming and of the opposite cubes.
abbrev pub cancel : ℕ → ℕ → ℕ × ℕ
cancel incoming zero = (incoming, 0)
cancel incoming (suc opposite) =
    let rest = cancel (incoming - 2) opposite in
    if leb 2 incoming then rest else (incoming, suc opposite)

two_to_one_step :
    (g o : ℕ)
    → 2 ≤ g
    → ((two_to_one g (suc o)).placed ≡ (two_to_one (g - 2) o).placed)
      × ((two_to_one g (suc o)).opposite_remaining ≡ (two_to_one (g - 2) o).opposite_remaining)
unfolding two_to_one
two_to_one_step g o h = ground arith

cancel_parts :
    (g o : ℕ)
    → ((cancel g o).0 ≡ (two_to_one g o).placed)
      × ((cancel g o).1 ≡ (two_to_one g o).opposite_remaining)
unfolding two_to_one
cancel_parts g zero = ground arith
cancel_parts g (suc o) = ground (arith, cancel_parts (g - 2) o)

-- On counts the resolution succeeds. What it places and what it leaves of the opposite cubes is what
-- removing one opposite cube for every two incoming ones, as long as possible, leaves; every
-- incoming cube is placed or consumed, two for each opposite cube removed; every opposite cube is
-- removed or remains; and it stops only when one incoming cube is left at most, or no opposite one.
pub resolve_two_to_one_cancels :
    (incoming opposite : ℕ)
    → (r : TwoToOneResolution) × (resolve_two_to_one (nat incoming) (nat opposite) ≡ ok r)
      × (cancel incoming opposite ≡ (r.placed, r.opposite_remaining))
      × (r.placed + 2 * r.opposite_removed ≡ incoming)
      × (r.opposite_removed + r.opposite_remaining ≡ opposite)
      × ((r.placed ≤ 1) ⊎ (r.opposite_remaining ≡ 0))
unfolding resolve_two_to_one two_to_one
resolve_two_to_one_cancels incoming opposite = (
  two_to_one incoming opposite,
  refl,
  ground (arith, cancel_parts incoming opposite),
  ground arith,
  ground arith,
  ground arith,
)

-- A negative or fractional count is refused on either side.
pub resolve_two_to_one_refuses :
    (incoming opposite : Number)
    → (is_count incoming && is_count opposite) ≡ false
    → resolve_two_to_one incoming opposite ≡ err range_error
unfolding resolve_two_to_one
resolve_two_to_one_refuses incoming opposite h = ground arith
