-- ===== src/Endgame/Winners/Ranking.antt =====
-- m2b-endgame.ts, `determineWinners`: who wins, by points and then by malign cubes at home.
use malign_ai.Base.{
  ◌≡◌, refl, ◌∙◌, sym, ap, String, Bool, true, false, List, [], ◌∷◌, ◌==◌, string_eq, filter, map,
  contains, All, subst, ◌⊎◌, inl, inr, Bool-cases, eq_iff, arith,
}
use malign_ai.Base.Int.{ℤ, pos, ◌≤ℤ◌, ◌+ℤ◌, leb_ℤ, int_eq, min_ℤ, max_ℤ}
use malign_ai.Effects.Handlers.Collection.{contains-sort_by}
use malign_ai.Endgame.Winners.{
  FinalParticipantScore, max_of, min_of, leaders, least_malign, determine_winners,
}

abbrev Score : Type 0
Score = FinalParticipantScore

-- A score of the list.
abbrev pub In : Score → List Score → Type 0
In s [] = ⊥
In s (t ∷ ts) = (s ≡ t) ⊎ In s ts

max_step : (m x : ℤ) → (m ≤ℤ max_ℤ m x) × (x ≤ℤ max_ℤ m x)
max_step m x = ground arith

min_step : (m x : ℤ) → (min_ℤ m x ≤ℤ m) × (min_ℤ m x ≤ℤ x)
min_step m x = ground arith

le_trans : (a b c : ℤ) → a ≤ℤ b → b ≤ℤ c → a ≤ℤ c
le_trans a b c p q = omega arith

max_of-bound : (m : ℤ) (xs : List ℤ) → (m ≤ℤ max_of m xs) × All (λ x. x ≤ℤ max_of m xs) xs
unfolding max_of
max_of-bound m [] = (omega arith, tt)
max_of-bound m (x ∷ xs) =
    let (lo, rest) = max_of-bound (max_ℤ m x) xs in
    (
      le_trans m (max_ℤ m x) (max_of (max_ℤ m x) xs) (max_step m x).0 lo,
      (le_trans x (max_ℤ m x) (max_of (max_ℤ m x) xs) (max_step m x).1 lo, rest),
    )

min_of-bound : (m : ℤ) (xs : List ℤ) → (min_of m xs ≤ℤ m) × All (λ x. min_of m xs ≤ℤ x) xs
unfolding min_of
min_of-bound m [] = (omega arith, tt)
min_of-bound m (x ∷ xs) =
    let (lo, rest) = min_of-bound (min_ℤ m x) xs in
    (
      le_trans (min_of (min_ℤ m x) xs) (min_ℤ m x) m lo (min_step m x).0,
      (le_trans (min_of (min_ℤ m x) xs) (min_ℤ m x) x lo (min_step m x).1, rest),
    )

In-filter :
    (p : Score → Bool) (s : Score) (ts : List Score) → In s (filter p ts) → (p s ≡ true) × In s ts
In-filter p s [] h = absurd h
In-filter p s (t ∷ ts) h = elim (Bool-cases (p t)) [
  | inl hit ↦ kept hit (λ i. In-filter p s ts i) (rw hit at h)
  | inr miss ↦ let (q, i) = In-filter p s ts (rw miss at h) in (q, inr i)
]
  where
    kept :
        p t ≡ true
        → (In s (filter p ts) → (p s ≡ true) × In s ts)
        → In s (t ∷ filter p ts)
        → (p s ≡ true) × In s (t ∷ ts)
    kept hit rest (inl e) = (ap p e ∙ hit, inl e)
    kept hit rest (inr i) = let (q, j) = rest i in (q, inr j)

contains-ids :
    (id : String) (ts : List Score)
    → contains id (map (λ s. s.participant_id) ts) ≡ true
    → (s : Score) × In s ts × (s.participant_id ≡ id)
contains-ids id [] h = cc
contains-ids id (t ∷ ts) h = elim (Bool-cases (t.participant_id == id)) [
  | inl hit ↦ (t, inl refl, (eq_iff t.participant_id id).0 hit)
  | inr miss ↦ let (s, i, e) = contains-ids id ts (rw miss at h) in (s, inr i, e)
]

All-In : (P : Score → Type 0) (s : Score) (ts : List Score) → All P ts → In s ts → P s
All-In P s [] a i = absurd i
All-In P s (t ∷ ts) a (inl e) = subst P (sym e) a.0
All-In P s (t ∷ ts) a (inr i) = All-In P s ts a.1 i

All-map :
    (f : Score → ℤ) (P : ℤ → Type 0) (ts : List Score) → All P (map f ts) → All (λ t. P (f t)) ts
All-map f P [] a = tt
All-map f P (t ∷ ts) a = (a.0, All-map f P ts a.1)

-- A leader is on the list, and nobody has more points.
leaders_lem :
    (s : Score) (ts : List Score)
    → In s (leaders ts)
    → In s ts × All (λ t. t.final_vp ≤ℤ s.final_vp) ts
unfolding leaders
leaders_lem s [] i = absurd i
leaders_lem s (t ∷ ts) i =
    let m = max_of t.final_vp (map (λ u. u.final_vp) ts) in
    let (top, j) = In-filter (λ u. u.final_vp == m) s (t ∷ ts) i in
    let (first, rest) = max_of-bound t.final_vp (map (λ u. u.final_vp) ts) in
    let same : s.final_vp ≡ m = (int_eq.are_same_iff s.final_vp m).0 top in
    (
      j,
      subst (λ x. All (λ u. u.final_vp ≤ℤ x) (t ∷ ts)) (sym same)
          (first, All-map (λ u. u.final_vp) (λ x. x ≤ℤ m) ts rest),
    )

least_malign_lem :
    (s : Score) (ts : List Score)
    → In s (least_malign ts)
    → In s ts × All (λ t. s.own_country_malign ≤ℤ t.own_country_malign) ts
unfolding least_malign
least_malign_lem s [] i = absurd i
least_malign_lem s (t ∷ ts) i =
    let m = min_of t.own_country_malign (map (λ u. u.own_country_malign) ts) in
    let (low, j) = In-filter (λ u. u.own_country_malign == m) s (t ∷ ts) i in
    let (first, rest) = min_of-bound t.own_country_malign (map (λ u. u.own_country_malign) ts) in
    let same : s.own_country_malign ≡ m = (int_eq.are_same_iff s.own_country_malign m).0 low in
    (
      j,
      subst (λ x. All (λ u. x ≤ℤ u.own_country_malign) (t ∷ ts)) (sym same)
          (first, All-map (λ u. u.own_country_malign) (λ x. m ≤ℤ x) ts rest),
    )

filter-In :
    (p : Score → Bool) (s : Score) (ts : List Score) → p s ≡ true → In s ts → In s (filter p ts)
filter-In p s [] h i = absurd i
filter-In p s (t ∷ ts) h (inl e) = rw (ap p (sym e) ∙ h) (inl e)
filter-In p s (t ∷ ts) h (inr i) = elim (Bool-cases (p t)) [
  | inl hit ↦ rw hit (inr (filter-In p s ts h i))
  | inr miss ↦ rw miss (filter-In p s ts h i)
]

In-All : {P : Score → Type 0} (ts : List Score) → ((s : Score) → In s ts → P s) → All P ts
In-All [] f = tt
In-All (t ∷ ts) f = (f t (inl refl), In-All ts (λ s i. f s (inr i)))

-- Fewer points, or no fewer malign cubes at home.
abbrev pub NotAhead : Score → Score → Type 0
NotAhead s t = (t.final_vp +ℤ pos 1 ≤ℤ s.final_vp) ⊎ (s.own_country_malign ≤ℤ t.own_country_malign)

fewer : (a b : ℤ) → a ≤ℤ b → (a == b) ≡ false → a +ℤ pos 1 ≤ℤ b
unfolding ◌+ℤ◌
fewer a b h ne = ground arith

all_leaders :
    (t : Score) (ts : List Score) (s : Score)
    → In t ts
    → In s (leaders ts)
    → t.final_vp ≡ s.final_vp
    → In t (leaders ts)
unfolding leaders
all_leaders t [] s i j e = absurd i
all_leaders t (u ∷ ts) s i j e =
    let m = max_of u.final_vp (map (λ v. v.final_vp) ts) in
    let (top, _) = In-filter (λ v. v.final_vp == m) s (u ∷ ts) j in
    filter-In (λ v. v.final_vp == m) t (u ∷ ts) (ap (λ x. x == m) e ∙ top) i

not_ahead :
    (s t : Score) (ts : List Score) → In s (least_malign (leaders ts)) → In t ts → NotAhead s t
not_ahead s t ts i j =
    let (k, low) = least_malign_lem s (leaders ts) i in
    let (_, top) = leaders_lem s ts k in
    elim (Bool-cases (t.final_vp == s.final_vp)) [
      | inl tie ↦ inr (
          All-In (λ u. s.own_country_malign ≤ℤ u.own_country_malign) t (leaders ts) low
            (all_leaders t ts s j k ((int_eq.are_same_iff t.final_vp s.final_vp).0 tie)))
      | inr less ↦
          inl (fewer t.final_vp s.final_vp (All-In (λ u. u.final_vp ≤ℤ s.final_vp) t ts top j) less)
    ]

-- Whoever is named a winner has a score on the list such that nobody has more points, and everyone
-- else has fewer points or no fewer malign cubes at home.
pub determine_winners_best :
    (scores : List Score) (id : String)
    → contains id (determine_winners scores) ≡ true
    → (s : Score) × In s scores
      × (s.participant_id ≡ id)
      × All (λ t. t.final_vp ≤ℤ s.final_vp) scores
      × All (NotAhead s) scores
unfolding determine_winners
determine_winners_best scores id h =
    let (s, i, e) =
      contains-ids id (least_malign (leaders scores)) (sym (contains-sort_by id _) ∙ h) in
    let (k, _) = least_malign_lem s (leaders scores) i in
    let (j, top) = leaders_lem s scores k in
    (s, j, e, top, In-All scores (λ t q. not_ahead s t scores i q))

max_either : (a b : ℤ) → (max_ℤ a b ≡ a) ⊎ (max_ℤ a b ≡ b)
max_either a b = elim (Bool-cases (leb_ℤ a b)) [
  | inl le ↦ inr (ground arith)
  | inr gt ↦ inl (ground arith)
]

min_either : (a b : ℤ) → (min_ℤ a b ≡ a) ⊎ (min_ℤ a b ≡ b)
min_either a b = elim (Bool-cases (leb_ℤ a b)) [
  | inl le ↦ inl (ground arith)
  | inr gt ↦ inr (ground arith)
]

-- Some score has the best value.
Attains : (Score → ℤ) → Score → List Score → ℤ → Type 0
Attains f t ts m = (s : Score) × In s (t ∷ ts) × (f s ≡ m)

wider :
    (f : Score → ℤ) (t u : Score) (ts : List Score) (m : ℤ)
    → Attains f t ts m
    → Attains f t (u ∷ ts) m
unfolding Attains
wider f t u ts m (s, inl e, q) = (s, inl e, q)
wider f t u ts m (s, inr i, q) = (s, inr (inr i), q)

later :
    (f : Score → ℤ) (t u : Score) (ts : List Score) (m : ℤ)
    → Attains f u ts m
    → Attains f t (u ∷ ts) m
unfolding Attains
later f t u ts m (s, i, q) = (s, inr i, q)

max_of-Attains :
    (f : Score → ℤ) (t : Score) (ts : List Score) → Attains f t ts (max_of (f t) (map f ts))
unfolding max_of Attains
max_of-Attains f t [] = (t, inl refl, refl)
max_of-Attains f t (u ∷ ts) = elim (max_either (f t) (f u)) [
  | inl e ↦
      subst (λ x. Attains f t (u ∷ ts) (max_of x (map f ts))) (sym e)
        (wider f t u ts _ (max_of-Attains f t ts))
  | inr e ↦
      subst (λ x. Attains f t (u ∷ ts) (max_of x (map f ts))) (sym e)
        (later f t u ts _ (max_of-Attains f u ts))
]

min_of-Attains :
    (f : Score → ℤ) (t : Score) (ts : List Score) → Attains f t ts (min_of (f t) (map f ts))
unfolding min_of Attains
min_of-Attains f t [] = (t, inl refl, refl)
min_of-Attains f t (u ∷ ts) = elim (min_either (f t) (f u)) [
  | inl e ↦
      subst (λ x. Attains f t (u ∷ ts) (min_of x (map f ts))) (sym e)
        (wider f t u ts _ (min_of-Attains f t ts))
  | inr e ↦
      subst (λ x. Attains f t (u ∷ ts) (min_of x (map f ts))) (sym e)
        (later f t u ts _ (min_of-Attains f u ts))
]

some_leader : (t : Score) (ts : List Score) → (s : Score) × In s (leaders (t ∷ ts))
unfolding leaders Attains
some_leader t ts =
    let (s, i, e) = max_of-Attains (λ u. u.final_vp) t ts in
    let m = max_of t.final_vp (map (λ u. u.final_vp) ts) in
    (s, filter-In (λ u. u.final_vp == m) s (t ∷ ts) ((int_eq.are_same_iff s.final_vp m).1 e) i)

some_least : (s : Score) (ts : List Score) → In s ts → (u : Score) × In u (least_malign ts)
unfolding least_malign Attains
some_least s [] i = absurd i
some_least s (t ∷ ts) i =
    let (u, j, e) = min_of-Attains (λ v. v.own_country_malign) t ts in
    let m = min_of t.own_country_malign (map (λ v. v.own_country_malign) ts) in
    (
      u,
      filter-In (λ v. v.own_country_malign == m) u (t ∷ ts)
          ((int_eq.are_same_iff u.own_country_malign m).1 e) j,
    )

ids-contains :
    (s : Score) (ts : List Score)
    → In s ts
    → contains s.participant_id (map (λ u. u.participant_id) ts) ≡ true
ids-contains s [] i = absurd i
ids-contains s (t ∷ ts) (inl e) =
    rw ((eq_iff t.participant_id s.participant_id).1 (ap (λ (u : Score). u.participant_id) (sym e)))
      refl
ids-contains s (t ∷ ts) (inr i) = ground (arith, ids-contains s ts i)

-- Of one score or more somebody wins.
pub determine_winners_someone :
    (t : Score) (ts : List Score)
    → (s : Score) × (contains s.participant_id (determine_winners (t ∷ ts)) ≡ true)
unfolding determine_winners
determine_winners_someone t ts =
    let (l, i) = some_leader t ts in
    let (s, j) = some_least l (leaders (t ∷ ts)) i in
    (s, contains-sort_by s.participant_id _ ∙ ids-contains s (least_malign (leaders (t ∷ ts))) j)
