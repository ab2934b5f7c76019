-- ===== src/Effects/Cards.antt =====
-- m2b.ts: cards that leave the hand or a campaign.
use malign_ai.Base.{
  ℕ, String, Bool, true, false, Option, none, some, List, [], ◌∷◌, ◌==◌, ◌&&◌, ◌||◌, not, string_eq,
  if◌then◌else◌, Result, ok, err, ◌>>=◌, ◌>>◌, or_fail, fail_if, index_of, get_elem?, filter,
  sort_by,
}
use malign_ai.Base.Dict.{lookup, modify, erase}
use malign_ai.Effects.Types.{
  State, Card, CardZone, hand, discard, removed_from_game, zone_eq, is_starter, EffectError,
  card_not_eligible, card_wrong_zone,
}

-- Where `discardWithLifecycle` puts a card.
unfoldable pub discarded : Card → Card
discarded card =
    let registered_campaign_return =
      card.definition_id == "BASE_CARD_061" && card.zone == CardZone.campaign in
    if registered_campaign_return
      || (card.return_to_owner_on_discard
          && not (card.controller_participant_id == card.owner_participant_id))
    then record card {
      controller_participant_id = card.owner_participant_id;
      zone = hand;
      return_to_owner_on_discard = false;
    }
    else record card { zone = if is_starter card.card_class then removed_from_game else discard }

unfoldable pub discard_with_lifecycle : State → String → Result EffectError State
unfolding discarded
discard_with_lifecycle state card_id = do
  _ ← or_fail (lookup card_id state.cards) card_not_eligible
  ok (record state { cards = modify card_id discarded state.cards })

-- A call whose error is ignored.
abbrev pub or_same : State → Result EffectError State → State
or_same state (ok after) = after
or_same state (err e) = state

unfoldable pub discard_all : List String → State → State
discard_all [] state = state
discard_all (card_id ∷ rest) state =
    discard_all rest (or_same state (discard_with_lifecycle state card_id))

-- For a `campaign_id` that is no inherited name, see `Dict`: the source throws for the others, where it
-- finds a member of `Object.prototype` without `cardIds`.
unfoldable pub discard_campaign : State → String → Result EffectError State
unfolding discard_all
discard_campaign state campaign_id = do
  campaign ← or_fail (lookup campaign_id state.campaigns) card_not_eligible
  let after = discard_all campaign.card_ids state
  ok (record after { campaigns = erase campaign_id after.campaigns })

abbrev replace_at : ℕ → String → List String → List String
replace_at i x [] = []
replace_at ℕ.zero x (y ∷ ys) = x ∷ ys
replace_at (ℕ.suc i) x (y ∷ ys) = y ∷ replace_at i x ys

unfoldable pub modify_campaign_card :
    State → String → String → Option String → Result EffectError State
unfolding discard_with_lifecycle
modify_campaign_card state campaign_id old_card_id replacement_card_id = do
  campaign ← or_fail (lookup campaign_id state.campaigns) card_not_eligible
  replacement_id ← or_fail replacement_card_id card_not_eligible
  index ← or_fail (index_of old_card_id campaign.card_ids) card_wrong_zone
  replacement ← or_fail (lookup replacement_id state.cards) card_wrong_zone
  fail_if (not (replacement.zone == hand)) card_wrong_zone
  let after = or_same state (discard_with_lifecycle state old_card_id)
  ok (record after {
    cards = modify replacement_id (λ c. record c { zone = CardZone.campaign }) after.cards;
    campaigns =
        modify campaign_id (λ c. record c { card_ids = replace_at index replacement_id c.card_ids })
          after.campaigns;
  })

-- The cards in a participant's hand with their keys, by a comparison of their ids.
abbrev pub hand_of : (String → String → Bool) → State → String → List (String × Card)
hand_of id_leb state participant_id =
    sort_by (λ a b. id_leb (a.1).id (b.1).id)
      (filter (λ e. (e.1).controller_participant_id == participant_id && (e.1).zone == hand)
        state.cards)

abbrev stolen_by : String → Card → Card
stolen_by actor_id c = record c {
  controller_participant_id = actor_id;
  return_to_owner_on_discard = true;
}

-- `localeCompare` is the host's: `id_leb a b` stands for `a.localeCompare(b) <= 0`.
unfoldable pub steal_blind_card :
    (String → String → Bool) → State → String → String → ℕ → Option (String × State)
steal_blind_card id_leb state actor_id target_id position =
    elim (get_elem? (hand_of id_leb state target_id) position) [
      | none ↦ none
      | some (key, card) ↦
          some (card.id, record state { cards = modify key (stolen_by actor_id) state.cards })
    ]
