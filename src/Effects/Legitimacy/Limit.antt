-- ===== src/Effects/Legitimacy/Limit.antt =====
-- m2b.ts, `establishLegitimacy`: nobody gets a fourth marker.
use malign_ai.Base.{
  ℕ, suc, ◌+◌, ◌≤◌, ◌≡◌, refl, ◌∙◌, ap, subst, String, Bool, true, false, Option, none, some, [],
  ◌∷◌, ◌==◌, string_eq, nat_eq, if◌then◌else◌, leb, length, length-map, filter, Bool-cases, inl,
  inr, arith, some_inj, eq_iff,
}
use malign_ai.Base.Dict.{Dict, lookup, insert}
use malign_ai.Effects.Types.{State}
use malign_ai.Effects.Regime.{owned_markers, set_marker}
use malign_ai.Effects.Legitimacy.{owns, establish_legitimacy}

abbrev is_own : String → Option String → Bool
is_own p none = false
is_own p (some owner) = owner == p

-- How many markers are a participant's.
abbrev own_count : String → Dict (Option String) → ℕ
own_count p [] = 0
own_count p ((k, o) ∷ d) = (if is_own p o then 1 else 0) + own_count p d

insert-more :
    (p k : String) (o : Option String) (d : Dict (Option String))
    → own_count p (insert k o d) ≤ (if is_own p o then 1 else 0) + own_count p d
insert-more p k o [] = omega arith
insert-more p k o ((j, q) ∷ d) = ground (arith, insert-more p k o d)

insert-less :
    (p k : String) (d : Dict (Option String))
    → lookup k d ≡ some (some p)
    → suc (own_count p (insert k none d)) ≡ own_count p d
insert-less p k [] h = cc
insert-less p k ((j, q) ∷ d) h = elim (Bool-cases (j == k)) [
  | inl hit ↦ rw hit (own q (some_inj (rw hit at h)))
  | inr miss ↦ rw miss (omega (arith, insert-less p k d (rw miss at h)))
]
  where
    same : (a : String) → (a == a) ≡ true
    same a = ground (arith, eq_iff a a)

    own :
        (o : Option String)
        → o ≡ some p
        → suc (0 + own_count p d) ≡ (if is_own p o then 1 else 0) + own_count p d
    own o e = rw (e, same p) (omega arith)

owned-count : (s : State) (p : String) → length (owned_markers s p) ≡ own_count p s.legitimacy_by_pd
owned-count s p = length-map _ _ ∙ go s.legitimacy_by_pd
  where
    head :
        (o : Option String) (d xs : Dict (Option String)) (k : String)
        → length xs ≡ own_count p d
        → length (if elim o [ none ↦ false | some owner ↦ owner == p ] then (k, o) ∷ xs else xs)
          ≡ (if is_own p o then 1 else 0) + own_count p d
    head none d xs k e = omega (arith, e)
    head (some q) d xs k e = ground (arith, e)

    go :
        (d : Dict (Option String))
        → length (filter (λ e. elim (e.1) [ none ↦ false | some owner ↦ owner == p ]) d)
          ≡ own_count p d
    go [] = refl
    go ((k, o) ∷ d) = head o d _ k (go d)

owner_lem :
    (p : String) (o : Option (Option String))
    → elim o [ none ↦ false | some owner ↦ elim owner [ none ↦ false | some q ↦ q == p ] ] ≡ true
    → o ≡ some (some p)
owner_lem p none h = cc
owner_lem p (some none) h = cc
owner_lem p (some (some q)) h = ap (λ x. some (some x)) ((eq_iff q p).0 h)

own_le_one : (p : String) (o : Option String) → (if is_own p o then 1 else 0) ≤ 1
own_le_one p o = ground arith

-- One marker more at most.
set_marker_le :
    (s : State) (p k : String) (o : Option String)
    → length (owned_markers (set_marker k o s) p) ≤ 1 + length (owned_markers s p)
set_marker_le s p k o = omega (
  arith,
  owned-count s p,
  owned-count (set_marker k o s) p,
  insert-more p k o s.legitimacy_by_pd,
  own_le_one p o,
)

-- A marker that is given up is one less.
give_up_lem :
    (s : State) (p k : String)
    → owns s p k ≡ true
    → 1 + length (owned_markers (set_marker k none s) p) ≡ length (owned_markers s p)
give_up_lem s p k h = omega (
  arith,
  owned-count s p,
  owned-count (set_marker k none s) p,
  insert-less p k s.legitimacy_by_pd (owner_lem p (lookup k s.legitimacy_by_pd) h),
)

-- What the function gives when the limit is reached.
replaced :
    (s t : State) (p pd_id : String) (r : Option String)
    → length (owned_markers s p) ≤ 3
    → elim r [
      | none ↦ none
      | some k ↦ if owns s p k then some (set_marker pd_id (some p) (set_marker k none s)) else none
    ]
      ≡ some t
    → length (owned_markers t p) ≤ 3
replaced s t p pd_id none h e = cc
replaced s t p pd_id (some k) h e = elim (Bool-cases (owns s p k)) [
  | inr miss ↦ absurd (none_ne_some (rw miss at e))
  | inl own ↦
      subst (λ x. length (owned_markers x p) ≤ 3) (some_inj (rw own at e))
        (omega
          (arith, h, give_up_lem s p k own, set_marker_le (set_marker k none s) p pd_id (some p)))
]
  where
    none_ne_some : none ≡ some t → ⊥
    none_ne_some e = cc

-- A participant with three legitimacy markers or fewer has three or fewer after a call of
-- `establishLegitimacy` that goes through.
pub establish_legitimacy_limit :
    (s t : State) (p pd_id : String) (r : Option String)
    → length (owned_markers s p) ≤ 3
    → establish_legitimacy s p pd_id r ≡ some t
    → length (owned_markers t p) ≤ 3
unfolding establish_legitimacy
establish_legitimacy_limit s t p pd_id r h e =
    elim (Bool-cases (leb 3 (length (owned_markers s p)))) [
      | inl full ↦ replaced s t p pd_id r h (rw full at e)
      | inr room ↦
          subst (λ x. length (owned_markers x p) ≤ 3) (some_inj (rw room at e))
            (room_left (length (owned_markers s p)) _ room (set_marker_le s p pd_id (some p)))
    ]
  where
    room_left : (n m : ℕ) → leb 3 n ≡ false → m ≤ 1 + n → m ≤ 3
    room_left n m a b = ground arith
