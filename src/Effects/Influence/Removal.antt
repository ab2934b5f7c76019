-- ===== src/Effects/Influence/Removal.antt =====
-- m2b.ts, the loop that takes cubes off the stacks of a kind: what is left of each kind.
use malign_ai.Base.{
  ℕ, min, ◌+◌, ◌-◌, ◌≤◌, String, Bool, true, false, List, [], ◌∷◌, ◌==◌, ◌&&◌, string_eq, ◌≡◌, refl,
  inl, inr, Bool-cases, if◌then◌else◌, arith, All, ap, eq_iff,
}
use malign_ai.Base.Int.{ℤ, pos, negsuc, pos_part, ◌+ℤ◌, ◌-ℤ◌, ◌≤ℤ◌, int_laws, min_ℤ, ltb_ℤ}
use malign_ai.Rules.Types.{alignment_eq}
use malign_ai.Effects.Types.{InfluenceStack, InfluenceType, country_eq}
use malign_ai.Effects.Influence.{IsCounted, held_total, remove_cubes}

-- The stack is of this kind and stands on this demographic.
abbrev pub is_at : String → InfluenceType → InfluenceStack → Bool
is_at pd_id type stack = stack.pd_id == pd_id && stack.type == type

-- The cubes of a kind on a demographic.
abbrev pub cubes : String → InfluenceType → List InfluenceStack → ℕ
cubes pd_id type [] = 0
cubes pd_id type (stack ∷ stacks) =
    (if is_at pd_id type stack then pos_part stack.count else 0) + cubes pd_id type stacks

pub held_total-cubes :
    (pd_id : String) (type : InfluenceType) (stacks : List InfluenceStack)
    → held_total pd_id type stacks ≡ pos (cubes pd_id type stacks)
unfolding held_total ◌+ℤ◌
held_total-cubes pd_id type [] = refl
held_total-cubes pd_id type (stack ∷ stacks) = ground (arith, held_total-cubes pd_id type stacks)

-- How many cubes the loop takes off a stack of `c` cubes that it holds, or passes over.
abbrev taken : Bool → ℤ → ℕ → ℕ
taken at c n = if at then min (pos_part c) n else 0

min_zero_left : (n : ℕ) → min 0 n ≡ 0
min_zero_left n = omega arith

taken_lem :
    (at : Bool) (c : ℤ) (n : ℕ)
    → (if at && ltb_ℤ (pos 0) c then min_ℤ c (pos n) else pos 0) ≡ pos (taken at c n)
taken_lem false c n = refl
taken_lem true (pos c) n = ground arith
taken_lem true (negsuc c) n = ground (arith, min_zero_left n)

sub_pos : (n m : ℕ) → m ≤ n → pos n -ℤ pos m ≡ pos (n - m)
unfolding ◌-ℤ◌
sub_pos n m h = ground arith

taken_le : (at : Bool) (c : ℤ) (n : ℕ) → taken at c n ≤ n
taken_le at c n = ground arith

-- One round of the loop.
remove_cubes_step :
    (pd_id : String) (type : InfluenceType) (n : ℕ) (stack : InfluenceStack)
    (stacks : List InfluenceStack)
    → let m = taken (is_at pd_id type stack) stack.count n in
      remove_cubes pd_id type (pos n) (stack ∷ stacks)
      ≡ record stack { count = stack.count -ℤ pos m } ∷ remove_cubes pd_id type (pos (n - m)) stacks
unfolding remove_cubes
remove_cubes_step pd_id type n stack stacks = rw (
  taken_lem (is_at pd_id type stack) stack.count n,
  sub_pos n (taken (is_at pd_id type stack) stack.count n)
      (taken_le (is_at pd_id type stack) stack.count n),
)

cubes_left :
    (at : Bool) (c : ℤ) (n : ℕ)
    → (if at then pos_part (c -ℤ pos (taken at c n)) else 0) + taken at c n
      ≡ (if at then pos_part c else 0)
unfolding ◌-ℤ◌
cubes_left false c n = omega arith
cubes_left true (pos c) n = ground arith
cubes_left true (negsuc c) n = ground arith

rest_le :
    (at : Bool) (c : ℤ) (n k : ℕ) → n ≤ (if at then pos_part c else 0) + k → n - taken at c n ≤ k
rest_le at c n k h = ground arith

remove_cubes_nil :
    (pd_id : String) (type : InfluenceType) (n : ℤ) → remove_cubes pd_id type n [] ≡ []
unfolding remove_cubes
remove_cubes_nil pd_id type n = refl

pub cubes-remove_cubes :
    (pd_id : String) (type : InfluenceType) (n : ℕ) (stacks : List InfluenceStack)
    → n ≤ cubes pd_id type stacks
    → cubes pd_id type (remove_cubes pd_id type (pos n) stacks) + n ≡ cubes pd_id type stacks
cubes-remove_cubes pd_id type n [] h = rw (remove_cubes_nil pd_id type (pos n)) (omega arith)
cubes-remove_cubes pd_id type n (stack ∷ stacks) h =
    rw (remove_cubes_step pd_id type n stack stacks) (
      sum (
        cubes-remove_cubes pd_id type (n - taken (is_at pd_id type stack) stack.count n) stacks
          (rest_le (is_at pd_id type stack) stack.count n (cubes pd_id type stacks) h)))
  where
    at : Bool
    at = is_at pd_id type stack

    m : ℕ
    m = taken at stack.count n

    rest : List InfluenceStack
    rest = remove_cubes pd_id type (pos (n - m)) stacks

    sum :
        cubes pd_id type rest + (n - m) ≡ cubes pd_id type stacks
        → (if at then pos_part (stack.count -ℤ pos m) else 0) + cubes pd_id type rest + n
          ≡ (if at then pos_part stack.count else 0) + cubes pd_id type stacks
    sum ih = omega (arith, ih, taken_le at stack.count n, cubes_left at stack.count n)

pub minus_zero : (c : ℤ) → c -ℤ pos 0 ≡ c
minus_zero c = grind int_laws

not_both :
    (pd_id pd : String) (type t : InfluenceType) (stack : InfluenceStack)
    → (pd == pd_id && t == type) ≡ false
    → is_at pd t stack ≡ true
    → is_at pd_id type stack ≡ true
    → ⊥
not_both pd_id pd type t stack h k l =
    ground (arith, eq_iff pd pd_id, eq_iff stack.pd_id pd, eq_iff stack.pd_id pd_id)

counted_left : (at : Bool) (c : ℤ) (n : ℕ) → pos 0 ≤ℤ c → pos 0 ≤ℤ c -ℤ pos (taken at c n)
unfolding ◌-ℤ◌
counted_left at c n h = ground arith

other_head :
    (pd_id pd : String) (type t : InfluenceType) (n : ℕ) (stack : InfluenceStack)
    → (pd == pd_id && t == type) ≡ false
    → (if is_at pd t stack
        then pos_part (stack.count -ℤ pos (taken (is_at pd_id type stack) stack.count n))
        else 0)
      ≡ (if is_at pd t stack then pos_part stack.count else 0)
other_head pd_id pd type t n stack h = elim (Bool-cases (is_at pd t stack)) [
  | inr miss ↦ rw miss
  | inl hit ↦ elim (Bool-cases (is_at pd_id type stack)) [
    | inr miss ↦ rw (miss, hit) (ap pos_part (minus_zero stack.count))
    | inl both ↦ absurd (not_both pd_id pd type t stack h hit both)
  ]
]

-- The other kinds are passed over.
pub cubes-remove_cubes_other :
    (pd_id pd : String) (type t : InfluenceType) (n : ℕ) (stacks : List InfluenceStack)
    → (pd == pd_id && t == type) ≡ false
    → cubes pd t (remove_cubes pd_id type (pos n) stacks) ≡ cubes pd t stacks
cubes-remove_cubes_other pd_id pd type t n [] h = rw (remove_cubes_nil pd_id type (pos n))
cubes-remove_cubes_other pd_id pd type t n (stack ∷ stacks) h = rw (
  remove_cubes_step pd_id type n stack stacks,
  other_head pd_id pd type t n stack h,
  cubes-remove_cubes_other pd_id pd type t (n - taken (is_at pd_id type stack) stack.count n) stacks
      h,
)

pub remove_cubes-IsCounted :
    (pd_id : String) (type : InfluenceType) (n : ℕ) (stacks : List InfluenceStack)
    → All IsCounted stacks
    → All IsCounted (remove_cubes pd_id type (pos n) stacks)
remove_cubes-IsCounted pd_id type n [] h = rw (remove_cubes_nil pd_id type (pos n)) tt
remove_cubes-IsCounted pd_id type n (stack ∷ stacks) h =
    let at = is_at pd_id type stack in
    rw (remove_cubes_step pd_id type n stack stacks) (
      counted_left at stack.count n h.0,
      remove_cubes-IsCounted pd_id type (n - taken at stack.count n) stacks h.1,
    )
