-- ===== src/Commands/Dispatcher/Placed.antt =====
-- dispatcher.ts: the cards that a command assigns are placed.
use malign_ai.Base.{
  String, Bool, true, false, Option, none, some, List, [], ◌∷◌, ◌++◌, ◌≡◌, refl, All, ok, not,
  ◌>>=◌, arith, string_eq, ◌&&◌, is_some, Bool-cases, Option-cases, inl, inr, or_fail,
}
use malign_ai.Base.Dict.{Dict, lookup}
use malign_ai.Base.Number.{Number}
use malign_ai.Rules.Types.{CampaignSlot, intent, method, amplifier, at_slot}
use malign_ai.Commands.Model.{GameState, CardInstance, CampaignAssignment, CardDefinition, discard}
use malign_ai.Commands.Plan.{refusal}
use malign_ai.Commands.Campaigns.{
  controlled_card, definition_in, controlled_if_given, has_value_if_defined, assign_if_given,
  without_first, has_slot, discard_replaced, has_value,
}
use malign_ai.Commands.Dispatcher.Ensures.{Ensures, returns, after_or_fail}
use malign_ai.Commands.Dispatcher.Sound.{
  IsSound, IsPlaced, IsNamed, is_counted, definition_in-move_card, move_card-IsNamed,
}

pub not-false : (b : Bool) → not b ≡ false → b ≡ true
not-false b e = ground arith

pub all_three : (a b c : Bool) → not (a && b && c) ≡ false → (a ≡ true) × (b ≡ true) × (c ≡ true)
all_three a b c e = ground arith

pub counted_value :
    (o : Option Number)
    → is_some o ≡ true
    → ((v : Number) → o ≡ some v → is_counted (some v) ≡ true)
    → is_counted o ≡ true
counted_value none e h = cc
counted_value (some v) e h = h v refl

-- A controlled card stands under its key, and its definition's value serves a slot.
pub controlled-IsPlaced :
    (s : GameState) (participant_id key : String) (slot : CampaignSlot) (card : CardInstance)
    (d : CardDefinition)
    → IsSound s
    → controlled_card s participant_id key ≡ some card
    → lookup card.definition_id s.card_definitions ≡ some d
    → has_value slot d ≡ true
    → IsPlaced s.cards s.card_definitions (record { slot = slot; card_instance_id = card.id })
unfolding controlled_card
controlled-IsPlaced s participant_id key slot card d h c e v =
    let at : lookup key s.cards ≡ some card = ground arith in
    let defined : definition_in s.card_definitions (lookup card.id s.cards) ≡ some d =
      rw ((h.named key card at).0, at) e in
    rw defined (
      counted_value (at_slot d.influence_value_by_slot slot) v
        (λ w. h.counts card.definition_id d slot w e))

-- The assignments that a modification leaves.
pub All-replaced :
    (P : CampaignAssignment → Type 0) (slot : CampaignSlot) (assignments : List CampaignAssignment)
    (added : CampaignAssignment)
    → All P assignments
    → P added
    → All P (without_first slot assignments ++ added ∷ [])
All-replaced P slot [] added h p = (p, tt)
All-replaced P slot (a ∷ rest) added h p = elim (Bool-cases (has_slot slot a)) [
  | inl hit ↦ rw hit (All-added rest added h.1 p)
  | inr miss ↦ rw miss (h.0, All-replaced P slot rest added h.1 p)
]
  where
    All-added :
        (others : List CampaignAssignment) (added : CampaignAssignment)
        → All P others
        → P added
        → All P (others ++ added ∷ [])
    All-added [] added h p = (p, tt)
    All-added (a ∷ rest) added h p = (h.0, All-added rest added h.1 p)

-- Discarding the card that is replaced.
pub discard_replaced-IsNamed :
    (definitions : Dict CardDefinition) (replaced : Option CampaignAssignment)
    (cards : Dict CardInstance)
    → IsNamed definitions cards
    → IsNamed definitions (discard_replaced replaced cards)
discard_replaced-IsNamed definitions none cards h = h
discard_replaced-IsNamed definitions (some a) cards h =
    move_card-IsNamed definitions discard a.card_instance_id cards h

pub definition_in-discard_replaced :
    (replaced : Option CampaignAssignment) (j : String) (cards : Dict CardInstance)
    (definitions : Dict CardDefinition)
    → definition_in definitions (lookup j (discard_replaced replaced cards))
      ≡ definition_in definitions (lookup j cards)
definition_in-discard_replaced none j cards definitions = refl
definition_in-discard_replaced (some a) j cards definitions =
    definition_in-move_card discard a.card_instance_id j cards definitions

pub amplifier-IsPlaced :
    (s : GameState) (participant_id key : String) (card : CardInstance)
    → IsSound s
    → controlled_card s participant_id key ≡ some card
    → has_value_if_defined amplifier (lookup card.definition_id s.card_definitions) ≡ true
    → IsPlaced s.cards s.card_definitions (record { slot = amplifier; card_instance_id = card.id })
unfolding controlled_card
amplifier-IsPlaced s participant_id key card h c e =
    let at : lookup key s.cards ≡ some card = ground arith in
    elim (Option-cases (lookup card.definition_id s.card_definitions)) [
      | inl q ↦ absurd (cc (rw q at ((h.named key card at).1)))
      | inr (d, q) ↦ controlled-IsPlaced s participant_id key amplifier card d h c q (rw q at e)
    ]

pub given_some :
    (o : Option CardInstance) (card : CardInstance)
    → (or_fail o (refusal "CARD_NOT_CONTROLLED") >>= λ c. ok (some c)) ≡ ok (some card)
    → o ≡ some card
given_some none card e = cc
given_some (some c) card e = ground arith

pub All-optional :
    (s : GameState) (participant_id : String) (given : Option String) (o : Option CardInstance)
    → IsSound s
    → controlled_if_given s participant_id given ≡ ok o
    → has_value_if_defined amplifier (definition_in s.card_definitions o) ≡ true
    → All (IsPlaced s.cards s.card_definitions) (assign_if_given o)
All-optional s participant_id given none h c e = tt
All-optional s participant_id none (some card) h c e = absurd (cc)
All-optional s participant_id (some key) (some card) h c e =
    (amplifier-IsPlaced s participant_id key card h (given_some _ card c) e, tt)

pub given_Ensures :
    (s : GameState) (participant_id : String) (given : Option String)
    → Ensures (λ (_ : Option CardInstance). Unit {0}) (controlled_if_given s participant_id given)
given_Ensures s participant_id none = returns none refl tt
given_Ensures s participant_id (some key) =
    after_or_fail (controlled_card s participant_id key) "CARD_NOT_CONTROLLED" _
      λ card _. returns (some card) refl tt

pub All-constructed :
    (s : GameState) (participant_id intent_key method_key : String) (given : Option String)
    (intent_card method_card : CardInstance) (amplifier_card : Option CardInstance)
    (intent_definition method_definition : CardDefinition)
    → IsSound s
    → controlled_card s participant_id intent_key ≡ some intent_card
    → controlled_card s participant_id method_key ≡ some method_card
    → controlled_if_given s participant_id given ≡ ok amplifier_card
    → lookup intent_card.definition_id s.card_definitions ≡ some intent_definition
    → lookup method_card.definition_id s.card_definitions ≡ some method_definition
    → not (
        has_value intent intent_definition
        && has_value method method_definition
        && has_value_if_defined amplifier (definition_in s.card_definitions amplifier_card))
      ≡ false
    → All (IsPlaced s.cards s.card_definitions) (
        (record { slot = intent; card_instance_id = intent_card.id })
        ∷ (record { slot = method; card_instance_id = method_card.id })
        ∷ assign_if_given amplifier_card)
All-constructed s participant_id intent_key method_key given intent_card method_card amplifier_card
      intent_definition method_definition h i m a p q e =
    let (x, y, z) =
      all_three (has_value intent intent_definition) (has_value method method_definition)
        (has_value_if_defined amplifier (definition_in s.card_definitions amplifier_card)) e in
    (
      controlled-IsPlaced s participant_id intent_key intent intent_card intent_definition h i p x,
      (
        controlled-IsPlaced s participant_id method_key method method_card method_definition h m q
            y,
        All-optional s participant_id given amplifier_card h a z,
      ),
    )
