-- ===== src/Commands/Dispatcher/Sound.antt =====
-- dispatcher.ts: the states in which an activation finds what it reads.
use malign_ai.Base.{
  ℕ, String, Bool, true, false, Option, none, some, List, [], ◌∷◌, ◌≡◌, refl, All, ok, arith, ◌==◌,
  string_eq, if◌then◌else◌, ap, ◌∙◌, Option-cases, inl, inr, subst, sym, Bool-cases, ◌⊎◌, some_inj,
  is_some,
}
use malign_ai.Base.Int.{pos, negsuc}
use malign_ai.Base.Number.{Number, int, non_integer, nat}
use malign_ai.Base.Dict.{Dict, lookup, lookup-modify, insert, lookup-insert}
use malign_ai.Rules.Types.{CampaignSlot, AssignedCampaignComponent, at_slot}
use malign_ai.Rules.CampaignValue.Totals.{Values}
use malign_ai.Commands.Model.{
  GameState, CardDefinition, CardInstance, CardZone, CampaignState, CampaignAssignment,
}
use malign_ai.Commands.Campaigns.{
  definition_in, component_from, components_of, move_card, move_cards,
}

abbrev pub is_counted : Option Number → Bool
is_counted none = false
is_counted (some (int (pos n))) = true
is_counted (some (int (negsuc n))) = false
is_counted (some non_integer) = false

abbrev pub value_at : CampaignSlot → Option CardDefinition → Option Number
value_at slot none = none
value_at slot (some d) = at_slot d.influence_value_by_slot slot

-- The card of an assignment is there, and so is its definition, with a count for the slot.
abbrev pub IsPlaced : Dict CardInstance → Dict CardDefinition → CampaignAssignment → Type 0
IsPlaced cards definitions a =
    is_counted (value_at a.slot (definition_in definitions (lookup a.card_instance_id cards)))
    ≡ true

-- Every card stands under its own id, and its definition is there.
abbrev pub IsNamed : Dict CardDefinition → Dict CardInstance → Type 0
IsNamed definitions cards =
    (k : String) (c : CardInstance)
    → lookup k cards ≡ some c
    → (c.id ≡ k) × (is_some (lookup c.definition_id definitions) ≡ true)

-- Cards stand under their own ids and have definitions, the influence values of the definitions are counts, and every
-- assignment of a campaign is placed.
pub record IsSound (s : GameState) : Type 0 where
  pub named : IsNamed s.card_definitions s.cards
  pub counts :
      (k : String) (d : CardDefinition) (slot : CampaignSlot) (v : Number)
      → lookup k s.card_definitions ≡ some d
      → at_slot d.influence_value_by_slot slot ≡ some v
      → is_counted (some v) ≡ true
  pub placed :
      (k : String) (c : CampaignState)
      → lookup k s.campaigns ≡ some c
      → All (IsPlaced s.cards s.card_definitions) c.assignments

abbrev number_of : Option Number → ℕ
number_of none = 0
number_of (some (int (pos n))) = n
number_of (some (int (negsuc n))) = 0
number_of (some non_integer) = 0

number_of_counted : (o : Option Number) → is_counted o ≡ true → o ≡ some (nat (number_of o))
number_of_counted none e = cc
number_of_counted (some (int (pos n))) e = refl
number_of_counted (some (int (negsuc n))) e = cc
number_of_counted (some non_integer) e = cc

component_from-Values :
    (slot : CampaignSlot) (o : Option CardDefinition)
    → is_counted (value_at slot o) ≡ true
    → (c : AssignedCampaignComponent) × (v : ℕ) × (component_from slot o ≡ ok c)
      × (at_slot c.influence_value_by_slot c.slot ≡ some (nat v))
component_from-Values slot none e = absurd (cc)
component_from-Values slot (some d) e = (
  record { slot = slot; influence_value_by_slot = d.influence_value_by_slot },
  number_of (at_slot d.influence_value_by_slot slot),
  refl,
  number_of_counted _ e,
)

-- The components of placed assignments are found, each with its value.
pub components_of-Values :
    (s : GameState) (assignments : List CampaignAssignment)
    → All (IsPlaced s.cards s.card_definitions) assignments
    → (cs : List AssignedCampaignComponent) × (vs : List ℕ) × (components_of s assignments ≡ ok cs)
      × Values cs vs
components_of-Values s [] h = ([], [], refl, tt)
components_of-Values s (a ∷ rest) h =
    let (c, v, found, at) =
      component_from-Values a.slot
        (definition_in s.card_definitions (lookup a.card_instance_id s.cards)) h.0 in
    let (cs, vs, all_found, values) = components_of-Values s rest h.1 in
    (c ∷ cs, v ∷ vs, rw (found, all_found), (at, values))

-- A card keeps its id and its definition wherever it is moved.
pub definition_in-move_card :
    (zone : CardZone) (k j : String) (cards : Dict CardInstance) (definitions : Dict CardDefinition)
    → definition_in definitions (lookup j (move_card zone k cards))
      ≡ definition_in definitions (lookup j cards)
definition_in-move_card zone k j cards definitions =
    ground (arith, lookup-modify k j (λ (card : CardInstance). record card { zone = zone }) cards)

pub definition_in-move_cards :
    (zone : CardZone) (ks : List String) (j : String) (cards : Dict CardInstance)
    (definitions : Dict CardDefinition)
    → definition_in definitions (lookup j (move_cards zone ks cards))
      ≡ definition_in definitions (lookup j cards)
definition_in-move_cards zone [] j cards definitions = refl
definition_in-move_cards zone (k ∷ ks) j cards definitions =
    definition_in-move_cards zone ks j (move_card zone k cards) definitions
    ∙ definition_in-move_card zone k j cards definitions

pub move_card-IsNamed :
    (definitions : Dict CardDefinition) (zone : CardZone) (k : String) (cards : Dict CardInstance)
    → IsNamed definitions cards
    → IsNamed definitions (move_card zone k cards)
move_card-IsNamed definitions zone k cards h j c e = elim (Option-cases (lookup j cards)) [
  | inl q ↦ absurd (
      ground
        (arith, lookup-modify k j (λ (card : CardInstance). record card { zone = zone }) cards))
  | inr (d, q) ↦ ground (
    arith,
    h j d q,
    lookup-modify k j (λ (card : CardInstance). record card { zone = zone }) cards,
  )
]

pub move_cards-IsNamed :
    (definitions : Dict CardDefinition) (zone : CardZone) (ks : List String)
    (cards : Dict CardInstance)
    → IsNamed definitions cards
    → IsNamed definitions (move_cards zone ks cards)
move_cards-IsNamed definitions zone [] cards h = h
move_cards-IsNamed definitions zone (k ∷ ks) cards h =
    move_cards-IsNamed definitions zone ks (move_card zone k cards)
      (move_card-IsNamed definitions zone k cards h)

pub IsPlaced-same :
    (cards cards' : Dict CardInstance) (definitions : Dict CardDefinition)
    (assignments : List CampaignAssignment)
    → ((j : String)
        → definition_in definitions (lookup j cards') ≡ definition_in definitions (lookup j cards))
    → All (IsPlaced cards definitions) assignments
    → All (IsPlaced cards' definitions) assignments
IsPlaced-same cards cards' definitions [] same h = tt
IsPlaced-same cards cards' definitions (a ∷ rest) same h =
    (rw (same a.card_instance_id) h.0, IsPlaced-same cards cards' definitions rest same h.1)

-- A campaign is written and cards are moved.
pub write-IsSound :
    (s : GameState) (t : GameState) (key : String) (c : CampaignState)
    → IsSound s
    → IsNamed s.card_definitions t.cards
    → t.card_definitions ≡ s.card_definitions
    → t.campaigns ≡ insert key c s.campaigns
    → ((j : String)
        → definition_in s.card_definitions (lookup j t.cards)
          ≡ definition_in s.card_definitions (lookup j s.cards))
    → All (IsPlaced s.cards s.card_definitions) c.assignments
    → IsSound t
write-IsSound s t key c h n d e same placed = record {
  named = subst (λ (defs : Dict CardDefinition). IsNamed defs t.cards) (sym d) n;
  counts = λ k w slot v f g. h.counts k w slot v (ap (lookup k) (sym d) ∙ f) g;
  placed = λ k w f.
      subst (λ (defs : Dict CardDefinition). All (IsPlaced t.cards defs) w.assignments) (sym d)
        (IsPlaced-same s.cards t.cards s.card_definitions w.assignments same (
          old_or_new k w (Bool-cases (key == k))
            (sym (lookup-insert key k c s.campaigns) ∙ ap (lookup k) (sym e) ∙ f)));
}
  where
    old_or_new :
        (k : String) (w : CampaignState)
        → ((key == k) ≡ true) ⊎ ((key == k) ≡ false)
        → (if key == k then some c else lookup k s.campaigns) ≡ some w
        → All (IsPlaced s.cards s.card_definitions) w.assignments
    old_or_new k w (inl hit) q =
        subst (λ (x : CampaignState). All (IsPlaced s.cards s.card_definitions) x.assignments)
          (some_inj (rw hit at q)) placed
    old_or_new k w (inr miss) q = h.placed k w (rw miss at q)
