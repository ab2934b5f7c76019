-- ===== src/Cleanup/Origins.antt =====
-- m2b-lifecycle.ts: which places spread influence, in which order.
use malign_ai.Base.{
  ℕ, ◌≤◌, String, Bool, true, false, Option, none, some, List, [], ◌∷◌, ◌++◌, All, ◌≡◌, refl, arith,
  not, ◌==◌, nat_eq, string_eq, insert_by, sort_by, filter, ◌&&◌, Bool-cases, inl, inr, eq_iff, ◌≢◌,
}
use malign_ai.Base.Int.{ℤ, ltb_ℤ, ◌≤ℤ◌, int_beq_iff}
use malign_ai.Base.Dict.{Dict, lookup, HasUniqueKeys, keys}
use malign_ai.Base.Text.{string_leb}
use malign_ai.Effects.Types.{State, InfluenceType}
use malign_ai.Effects.Influence.{opposite_of}
use malign_ai.Rules.Types.{malign, resiliency}
use malign_ai.Cleanup.Viral.{
  ViralOrigin, Variant, total_of, threshold_of, has_own_cube, shares_trait, or_empty,
  destinations_of, spreading, from_type, from_destinations, origins_at, all_origins, rank_in,
  origin_leb, snapshot_viral_origins,
}

module _ {ℓ κ} {A : Type ℓ} (P : A → Type κ) where
  All-insert_by :
      (le : A → A → Bool) (x : A) (xs : List A) → P x → All P xs → All P (insert_by le x xs)
  All-insert_by le x [] p h = (p, tt)
  All-insert_by le x (y ∷ ys) p h = elim (Bool-cases (le x y)) [
    | inl e ↦ rw e (p, h)
    | inr e ↦ rw e (h.0, All-insert_by le x ys p h.1)
  ]

  All-sort_by : (le : A → A → Bool) (xs : List A) → All P xs → All P (sort_by le xs)
  All-sort_by le [] h = tt
  All-sort_by le (x ∷ xs) h = All-insert_by le x (sort_by le xs) h.0 (All-sort_by le xs h.1)

  All-append : (xs ys : List A) → All P xs → All P ys → All P (xs ++ ys)
  All-append [] ys h k = k
  All-append (x ∷ xs) ys h k = (h.0, All-append xs ys h.1 k)

-- Every element that the test keeps.
All-filter {ℓ} : {A : Type ℓ} (p : A → Bool) (xs : List A) → All (λ x. p x ≡ true) (filter p xs)
All-filter p [] = tt
All-filter p (x ∷ xs) = elim (Bool-cases (p x)) [
  | inl e ↦ rw e (e, All-filter p xs)
  | inr e ↦ rw e (All-filter p xs)
]

module _ (pd_traits : Dict (List String)) (variant : Variant) (tie_choices : Dict InfluenceType)
    (state : State) where
  -- Another place that shares a trait.
  abbrev pub Reached : String → String → Type 0
  Reached pd_id d =
      (not (d == pd_id)
        && shares_trait (or_empty (lookup pd_id pd_traits)) (or_empty (lookup d pd_traits)))
      ≡ true

  -- What makes a place an origin.
  pub record IsOrigin (o : ViralOrigin) : Type 0 where
    pub owned : lookup o.pd_id state.legitimacy_by_pd ≡ some (some o.owner_participant_id)
    pub over : ltb_ℤ (threshold_of variant) (total_of o.pd_id o.type state.influence) ≡ true
    pub leading :
        total_of o.pd_id (opposite_of o.type) state.influence
        ≤ℤ total_of o.pd_id o.type state.influence
    pub own_cube : has_own_cube state o.pd_id o.owner_participant_id o.type ≡ true
    pub somewhere : o.valid_destination_pd_ids ≢ []
    pub reached : All (Reached o.pd_id) o.valid_destination_pd_ids

  abbrev total : String → InfluenceType → ℤ
  total pd_id type = total_of pd_id type state.influence

  abbrev spreads_at : String → Option InfluenceType → Option InfluenceType
  spreads_at pd_id choice =
      spreading (threshold_of variant) (total pd_id malign) (total pd_id resiliency) choice

  spreading-over :
      (pd_id : String) (choice : Option InfluenceType) (type : InfluenceType)
      → spreads_at pd_id choice ≡ some type
      → (ltb_ℤ (threshold_of variant) (total pd_id type) ≡ true)
        × (total pd_id (opposite_of type) ≤ℤ total pd_id type)
  spreading-over pd_id choice malign e =
      ground (arith, int_beq_iff (total pd_id malign) (total pd_id resiliency))
  spreading-over pd_id choice resiliency e =
      ground (arith, int_beq_iff (total pd_id malign) (total pd_id resiliency))

  module _ (pd_id owner : String)
      (owned : lookup pd_id state.legitimacy_by_pd ≡ some (some owner)) where
    destinations-IsOrigin :
        (type : InfluenceType)
        → (ltb_ℤ (threshold_of variant) (total pd_id type) ≡ true)
          × (total pd_id (opposite_of type) ≤ℤ total pd_id type)
        → has_own_cube state pd_id owner type ≡ true
        → (ds : List String) → All (Reached pd_id) ds
        → All IsOrigin (from_destinations pd_traits variant tie_choices pd_id owner type ds)
    destinations-IsOrigin type over own [] r = tt
    destinations-IsOrigin type over own (d ∷ ds) r = (
      record {
        owned = owned;
        over = over.0;
        leading = over.1;
        own_cube = own;
        somewhere = λ e. absurd (cc);
        reached = r;
      },
      tt,
    )

    type-IsOrigin :
        (choice : Option InfluenceType) (o : Option InfluenceType)
        → spreads_at pd_id choice ≡ o
        → All IsOrigin (from_type pd_traits variant tie_choices state pd_id owner o)
    type-IsOrigin choice none e = tt
    type-IsOrigin choice (some type) e = elim (Bool-cases (has_own_cube state pd_id owner type)) [
      | inl own ↦ rw own (
          destinations-IsOrigin type (spreading-over pd_id choice type e) own
            (destinations_of pd_traits pd_id)
            (All-sort_by (Reached pd_id) string_leb _ (All-filter _ (keys pd_traits))))
      | inr none_own ↦ rw none_own tt
    ]

  origins_at-IsOrigin :
      (pd_id : String) (owner : Option String)
      → lookup pd_id state.legitimacy_by_pd ≡ some owner
      → All IsOrigin (origins_at pd_traits variant tie_choices state pd_id owner)
  origins_at-IsOrigin pd_id none e = tt
  origins_at-IsOrigin pd_id (some owner) e =
      type-IsOrigin pd_id owner e (lookup pd_id tie_choices) _ refl

  all_origins-IsOrigin :
      (entries : Dict (Option String))
      → All (λ e. lookup e.0 state.legitimacy_by_pd ≡ some e.1) entries
      → All IsOrigin (all_origins pd_traits variant tie_choices state entries)
  unfolding all_origins
  all_origins-IsOrigin [] h = tt
  all_origins-IsOrigin ((pd_id, owner) ∷ rest) h =
      All-append IsOrigin _ _ (origins_at-IsOrigin pd_id owner h.0) (all_origins-IsOrigin rest h.1)

-- What an object holds under its own keys.
found-entries :
    (d entries : Dict (Option String)) (k : String) (v : Option String)
    → lookup k d ≡ none
    → All (λ e. lookup e.0 d ≡ some e.1) entries
    → All (λ e. lookup e.0 ((k, v) ∷ d) ≡ some e.1) entries
found-entries d [] k v new h = tt
found-entries d ((j, w) ∷ rest) k v new h =
    (ground (arith, eq_iff k j, h.0), found-entries d rest k v new h.1)

entries-lookup : (d : Dict (Option String)) → HasUniqueKeys d → All (λ e. lookup e.0 d ≡ some e.1) d
entries-lookup [] u = tt
entries-lookup ((k, v) ∷ d) u =
    (ground (arith, eq_iff k k), found-entries d d k v u.0 (entries-lookup d u.1))

abbrev pub Ranked : List String → List ViralOrigin → Type 0
Ranked initiative [] = Unit
Ranked initiative (x ∷ xs) =
    All
      (λ (y : ViralOrigin).
        rank_in initiative x.owner_participant_id ≤ rank_in initiative y.owner_participant_id)
      xs
    × Ranked initiative xs

origin_leb-le :
    (id_leb : String → String → Bool) (initiative : List String) (x y : ViralOrigin)
    → origin_leb id_leb initiative x y ≡ true
    → rank_in initiative x.owner_participant_id ≤ rank_in initiative y.owner_participant_id
origin_leb-le id_leb initiative x y e = ground arith

le-origin_leb :
    (id_leb : String → String → Bool) (initiative : List String) (x y : ViralOrigin)
    → origin_leb id_leb initiative x y ≡ false
    → rank_in initiative y.owner_participant_id ≤ rank_in initiative x.owner_participant_id
le-origin_leb id_leb initiative x y e = ground arith

All-le :
    (initiative : List String) (a b : ℕ) (ys : List ViralOrigin)
    → a ≤ b
    → All (λ (y : ViralOrigin). b ≤ rank_in initiative y.owner_participant_id) ys
    → All (λ (y : ViralOrigin). a ≤ rank_in initiative y.owner_participant_id) ys
All-le initiative a b [] h k = tt
All-le initiative a b (y ∷ ys) h k = (omega (arith, k.0), All-le initiative a b ys h k.1)

insert-Ranked :
    (id_leb : String → String → Bool) (initiative : List String) (x : ViralOrigin)
    (xs : List ViralOrigin)
    → Ranked initiative xs
    → Ranked initiative (insert_by (origin_leb id_leb initiative) x xs)
insert-Ranked id_leb initiative x [] h = (tt, tt)
insert-Ranked id_leb initiative x (y ∷ ys) h =
    elim (Bool-cases (origin_leb id_leb initiative x y)) [
      | inl e ↦ rw e (
        (
          origin_leb-le id_leb initiative x y e,
          All-le initiative _ _ ys (origin_leb-le id_leb initiative x y e) h.0,
        ),
        h,
      )
      | inr e ↦ rw e (
        All-insert_by _ (origin_leb id_leb initiative) x ys (le-origin_leb id_leb initiative x y e)
            h.0,
        insert-Ranked id_leb initiative x ys h.1,
      )
    ]

sort-Ranked :
    (id_leb : String → String → Bool) (initiative : List String) (xs : List ViralOrigin)
    → Ranked initiative (sort_by (origin_leb id_leb initiative) xs)
sort-Ranked id_leb initiative [] = tt
sort-Ranked id_leb initiative (x ∷ xs) =
    insert-Ranked id_leb initiative x _ (sort-Ranked id_leb initiative xs)

-- Every origin of a snapshot is a place whose owner holds its legitimacy marker and has a cube of
-- the type there, where the total of the type is over the threshold of the variant and the
-- opposite total no higher; it has a destination, and its destinations are other places that share a
-- trait with it. The origins stand in the order of their owners in the initiative, whoever is
-- missing there first.
pub snapshot_viral_origins-IsOrigin :
    (id_leb : String → String → Bool) (state : State) (initiative : List String)
    (pd_traits : Dict (List String)) (variant : Variant) (tie_choices : Dict InfluenceType)
    → HasUniqueKeys state.legitimacy_by_pd
    → All
        (IsOrigin pd_traits variant tie_choices state)
        (snapshot_viral_origins id_leb state initiative pd_traits variant tie_choices)
      × Ranked initiative
          (snapshot_viral_origins id_leb state initiative pd_traits variant tie_choices)
unfolding snapshot_viral_origins
snapshot_viral_origins-IsOrigin id_leb state initiative pd_traits variant tie_choices u = (
  All-sort_by _ _ _ (
      all_origins-IsOrigin pd_traits variant tie_choices state state.legitimacy_by_pd
        (entries-lookup state.legitimacy_by_pd u)),
  sort-Ranked id_leb initiative
      (all_origins pd_traits variant tie_choices state state.legitimacy_by_pd),
)
