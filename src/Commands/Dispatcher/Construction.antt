-- ===== src/Commands/Dispatcher/Construction.antt =====
-- dispatcher.ts: what constructing a campaign changes.
use malign_ai.Base.{false, String, some, ◌∷◌, ◌≡◌, refl, not, string_eq, ◌&&◌, any, all_distinct}
use malign_ai.Base.Dict.{lookup, has_key, values, insert}
use malign_ai.Rules.Types.{intent, method, amplifier}
use malign_ai.Commands.Model.{GameState, ConstructCampaignPayload, campaign, row_one, CampaignState}
use malign_ai.Commands.Plan.{Reduced, created}
use malign_ai.Commands.Campaigns.{
  assign_if_given, construct_campaign, controlled_card, optional, owns_row_one, definition_in,
  controlled_if_given, has_value_if_defined, single_alignment, is_text, is_compatible, has_value,
  move_cards,
}
use malign_ai.Commands.Dispatcher.Ensures.{
  Ensures, returns, after_fail_if, after_or_fail, after_refusals,
}
use malign_ai.Commands.Dispatcher.Sound.{
  IsSound, definition_in-move_cards, move_cards-IsNamed, write-IsSound,
}
use malign_ai.Commands.Dispatcher.Placed.{given_Ensures, All-constructed}

-- A campaign that is constructed: a first one in row I, from cards that leave the hand.
pub record Constructed (s : GameState) (participant_id : String)
    (payload : ConstructCampaignPayload) (r : Reduced) : Type 0 where
  pub added : CampaignState
  pub method_id : String
  pub is_new : has_key payload.campaign_id s.campaigns ≡ false
  pub row_free : any (owns_row_one participant_id) (values s.campaigns) ≡ false
  pub owner : added.owner_participant_id ≡ participant_id
  pub reply : r.payload ≡ some (created added)
  pub inserted : r.state.campaigns ≡ insert payload.campaign_id added s.campaigns
  pub same_game : r.state.id ≡ s.id
  pub cards_moved :
      r.state.cards
      ≡ move_cards campaign
          (payload.intent_card_instance_id
            ∷ method_id
            ∷ optional payload.amplifier_card_instance_id)
          s.cards

pub construct_campaign-Constructed :
    (s : GameState) (participant_id command_id : String) (payload : ConstructCampaignPayload)
    → IsSound s
    → Ensures
        (λ r. IsSound r.state × Constructed s participant_id payload r)
        (construct_campaign s participant_id command_id payload)
unfolding construct_campaign
construct_campaign-Constructed s participant_id command_id payload h =
    after_fail_if (has_key payload.campaign_id s.campaigns) "CAMPAIGN_ID_CONFLICT" _ λ unused.
      after_fail_if (any (owns_row_one participant_id) (values s.campaigns)) "CAMPAIGN_ROW_OCCUPIED"
        _
        λ free.
          after_or_fail payload.method_card_instance_id "CAMPAIGN_INVALID_STRUCTURE" _
            λ method_id _.
              after_fail_if
                (not (
                  all_distinct (
                    payload.intent_card_instance_id
                    ∷ method_id
                    ∷ optional payload.amplifier_card_instance_id)))
                "DUPLICATE_CARD_INSTANCE" _
                λ _.
                  after_or_fail (controlled_card s participant_id payload.intent_card_instance_id)
                    "CARD_NOT_CONTROLLED" _
                    λ intent_card intent_held.
                      after_or_fail (controlled_card s participant_id method_id)
                        "CARD_NOT_CONTROLLED" _
                        λ method_card method_held.
                          after_refusals
                            (controlled_if_given s participant_id
                              payload.amplifier_card_instance_id)
                            _ (given_Ensures s participant_id payload.amplifier_card_instance_id)
                            λ amplifier_card given _.
                              after_or_fail (lookup intent_card.definition_id s.card_definitions)
                                "INVALID_DT" _
                                λ intent_definition intent_defined.
                                  after_or_fail
                                    (lookup method_card.definition_id s.card_definitions)
                                    "INVALID_DT" _
                                    λ method_definition method_defined.
                                      after_fail_if
                                        (not (
                                          is_text intent_definition.target_dt_id
                                            payload.target_dt_id))
                                        "INVALID_DT" _
                                        λ _.
                                          after_fail_if
                                            (not (
                                              has_value intent intent_definition
                                              && has_value method method_definition
                                              && has_value_if_defined amplifier (
                                                  definition_in s.card_definitions amplifier_card)))
                                            "CARD_NOT_ELIGIBLE" _
                                            λ eligible.
                                              after_or_fail
                                                (single_alignment intent_definition.alignment)
                                                "CAMPAIGN_ALIGNMENT_MISMATCH" _
                                                λ alignment _.
                                                  after_fail_if
                                                    (not (
                                                      is_compatible alignment
                                                        (some method_definition)
                                                      && is_compatible alignment (
                                                          definition_in s.card_definitions
                                                            amplifier_card)))
                                                    "CAMPAIGN_ALIGNMENT_MISMATCH" _
                                                    λ _. returns _ refl (
                                                      write-IsSound s _ payload.campaign_id _ h
                                                          (move_cards-IsNamed s.card_definitions
                                                            campaign
                                                            (payload.intent_card_instance_id
                                                            ∷ method_id
                                                            ∷ optional
                                                            payload.amplifier_card_instance_id)
                                                            s.cards h.named)
                                                          refl refl
                                                          (λ j.
                                                            definition_in-move_cards campaign
                                                            (payload.intent_card_instance_id
                                                            ∷ method_id
                                                            ∷ optional
                                                            payload.amplifier_card_instance_id)
                                                            j s.cards s.card_definitions)
                                                          (All-constructed s participant_id _ _ _
                                                            intent_card method_card amplifier_card
                                                            intent_definition method_definition h
                                                            intent_held method_held given
                                                            intent_defined method_defined eligible),
                                                      record {
                                                        added = record {
                                                          id = payload.campaign_id;
                                                          owner_participant_id = participant_id;
                                                          row = row_one;
                                                          alignment = alignment;
                                                          target_dt_id = payload.target_dt_id;
                                                          assignments =
                                                            (record {
                                                            slot = intent;
                                                            card_instance_id = intent_card.id;
                                                            })
                                                            ∷ (record {
                                                            slot = method;
                                                            card_instance_id = method_card.id;
                                                            })
                                                            ∷ assign_if_given amplifier_card;
                                                          activated_count_this_turn = 0;
                                                        };
                                                        method_id = method_id;
                                                        is_new = unused;
                                                        row_free = free;
                                                        owner = refl;
                                                        reply = refl;
                                                        inserted = refl;
                                                        cards_moved = refl;
                                                        same_game = refl;
                                                      },
                                                    )
