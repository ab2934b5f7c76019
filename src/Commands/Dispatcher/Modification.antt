-- ===== src/Commands/Dispatcher/Modification.antt =====
-- dispatcher.ts: what modifying a campaign changes.
use malign_ai.Base.{false}
use malign_ai.Base.{
  String, some, [], ◌∷◌, ◌++◌, ◌≡◌, refl, not, ◌==◌, string_eq, ◌∙◌, find, arith, eq_iff,
}
use malign_ai.Base.Dict.{lookup, insert}
use malign_ai.Commands.Model.{
  CardInstance, GameState, ModifyCampaignPayload, GameCommandPayload, plan_payload, empty_payload,
  construct_payload, modify_payload, activate_payload, campaign, CampaignState,
}
use malign_ai.Commands.Plan.{Reduced}
use malign_ai.Commands.Campaigns.{
  controlled_card, without_first, has_slot, discard_replaced, modify_campaign, modify_from,
  modify_without_slot, is_intent, is_dual_or, has_value, move_card,
}
use malign_ai.Commands.Dispatcher.Ensures.{
  Ensures, Ensures-map, refuses, returns, after_fail_if, after_or_fail,
}
use malign_ai.Commands.Dispatcher.Sound.{
  IsSound, IsPlaced, definition_in-move_card, move_card-IsNamed, write-IsSound,
}
use malign_ai.Commands.Dispatcher.Placed.{
  not-false, controlled-IsPlaced, All-replaced, discard_replaced-IsNamed,
  definition_in-discard_replaced,
}

-- A card that replaces another in a campaign: where both are afterwards.
pub record Modified (s : GameState) (participant_id : String) (payload : ModifyCampaignPayload)
    (r : Reduced) : Type 0 where
  pub found : CampaignState
  pub card : CardInstance
  pub at : lookup payload.campaign_id s.campaigns ≡ some found
  pub is_owner : found.owner_participant_id ≡ participant_id
  pub not_intent : is_intent payload.slot ≡ false
  pub held : controlled_card s participant_id payload.replacement_card_instance_id ≡ some card
  pub same_game : r.state.id ≡ s.id
  pub cards_moved :
      r.state.cards
      ≡ move_card campaign payload.replacement_card_instance_id
          (discard_replaced (find (has_slot payload.slot) found.assignments) s.cards)
  pub reassigned :
      r.state.campaigns
      ≡ insert payload.campaign_id
          (record found {
            assignments =
                without_first payload.slot found.assignments
                ++ (record { slot = payload.slot; card_instance_id = card.id }) ∷ [];
          })
          s.campaigns

modify_campaign-Modified :
    (s : GameState) (participant_id command_id : String) (payload : ModifyCampaignPayload)
    → IsSound s
    → Ensures
        (λ r. IsSound r.state × Modified s participant_id payload r)
        (modify_campaign s participant_id command_id payload)
unfolding modify_campaign
modify_campaign-Modified s participant_id command_id payload h =
    after_or_fail (lookup payload.campaign_id s.campaigns) "CAMPAIGN_NOT_FOUND" _ λ found at.
      after_fail_if (not (found.owner_participant_id == participant_id)) "CAMPAIGN_NOT_OWNED" _
        λ own. after_fail_if (is_intent payload.slot) "INVALID_SLOT" _ λ slot_ok.
          after_or_fail (controlled_card s participant_id payload.replacement_card_instance_id)
            "CARD_NOT_CONTROLLED" _
            λ card held.
              after_or_fail (lookup card.definition_id s.card_definitions)
                "CAMPAIGN_ALIGNMENT_MISMATCH" _
                λ d defined.
                  after_fail_if (not (is_dual_or found.alignment d.alignment))
                    "CAMPAIGN_ALIGNMENT_MISMATCH" _
                    λ _.
                      after_fail_if (not (has_value payload.slot d)) "CARD_NOT_ELIGIBLE" _
                        λ eligible. returns _ refl (
                          write-IsSound s _ payload.campaign_id
                              (record found {
                                assignments =
                                    without_first payload.slot found.assignments
                                    ++ (record { slot = payload.slot; card_instance_id = card.id })
                                      ∷ [];
                              })
                              h
                              (move_card-IsNamed s.card_definitions campaign _ _ (
                                discard_replaced-IsNamed s.card_definitions
                                  (find (has_slot payload.slot) found.assignments) s.cards h.named))
                              refl refl
                              (λ j.
                                definition_in-move_card campaign _ j
                                  (discard_replaced (find (has_slot payload.slot) found.assignments)
                                    s.cards)
                                  s.card_definitions
                                ∙ definition_in-discard_replaced
                                    (find (has_slot payload.slot) found.assignments) j s.cards
                                    s.card_definitions)
                              (All-replaced (IsPlaced s.cards s.card_definitions) payload.slot
                                found.assignments _ (h.placed _ found at)
                                (controlled-IsPlaced s participant_id _ payload.slot card d h held
                                  defined (not-false _ eligible))),
                          record {
                            found = found;
                            card = card;
                            at = at;
                            is_owner =
                                ground (arith, eq_iff found.owner_participant_id participant_id);
                            not_intent = slot_ok;
                            held = held;
                            cards_moved = refl;
                            same_game = refl;
                            reassigned = refl;
                          },
                        )

no_slot-refuses :
    {P : Reduced → Type 0} (s : GameState) (participant_id campaign_id : String)
    → Ensures P (modify_without_slot s participant_id campaign_id)
unfolding modify_without_slot
no_slot-refuses s participant_id campaign_id =
    after_or_fail (lookup campaign_id s.campaigns) "CAMPAIGN_NOT_FOUND" _ λ found _.
      after_fail_if (not (found.owner_participant_id == participant_id)) "CAMPAIGN_NOT_OWNED" _ λ _.
        after_or_fail (controlled_card s participant_id "undefined") "CARD_NOT_CONTROLLED" _
          λ card _.
            after_or_fail (lookup card.definition_id s.card_definitions)
              "CAMPAIGN_ALIGNMENT_MISMATCH" _
              λ d _.
                after_fail_if (not (is_dual_or found.alignment d.alignment))
                  "CAMPAIGN_ALIGNMENT_MISMATCH" _ λ _. refuses "CARD_NOT_ELIGIBLE" refl

pub modify_from-Modified :
    (s : GameState) (participant_id command_id : String) (payload : GameCommandPayload)
    → IsSound s
    → Ensures
        (λ r. IsSound r.state × ((p : ModifyCampaignPayload) × Modified s participant_id p r))
        (modify_from s participant_id command_id payload)
modify_from-Modified s participant_id command_id (modify_payload p) h =
    Ensures-map (λ _ both. (both.0, (p, both.1)))
      (modify_campaign-Modified s participant_id command_id p h)
modify_from-Modified s participant_id command_id (plan_payload _) h =
    no_slot-refuses s participant_id _
modify_from-Modified s participant_id command_id empty_payload h =
    no_slot-refuses s participant_id _
modify_from-Modified s participant_id command_id (construct_payload _) h =
    no_slot-refuses s participant_id _
modify_from-Modified s participant_id command_id (activate_payload _) h =
    no_slot-refuses s participant_id _
