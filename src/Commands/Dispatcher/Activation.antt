-- ===== src/Commands/Dispatcher/Activation.antt =====
-- dispatcher.ts: what an activation charges and counts.
use malign_ai.Base.{
  arith, eq_iff, ◌-◌, ◌≤◌, ℕ, ◌+◌, Exception, String, Bool, true, false, some, List, [], ◌∷◌, ◌≡◌,
  refl, Result, ok, err, not, ◌==◌, string_eq, if◌then◌else◌, contains, ltb,
}
use malign_ai.Base.Dict.{insert, lookup, values}
use malign_ai.Base.Number.{nat}
use malign_ai.Rules.Types.{AssignedCampaignComponent}
use malign_ai.Rules.CampaignValue.{calculate_campaign_value, CampaignValueResult}
use malign_ai.Rules.CampaignValue.Totals.{totals, Modifiers, calculate_campaign_value-totals}
use malign_ai.Commands.Model.{
  GameState, CampaignState, PopulationDemographicState, ActivateCampaignPayload, ParticipantState,
}
use malign_ai.Commands.Plan.{value, Reduced}
use malign_ai.Commands.Campaigns.{
  activate_campaign, components_of, throwing, bonus_of, has_pair, definition_ids_of,
}
use malign_ai.Commands.Dispatcher.Ensures.{Ensures, returns, after_fail_if, after_or_fail, after_ok}
use malign_ai.Commands.Dispatcher.Sound.{IsSound, components_of-Values, write-IsSound}

bonus_count : Bool → List ℕ
bonus_count b = if b then 2 ∷ [] else []

bonus-Modifiers : (b : Bool) → Modifiers (if b then nat 2 ∷ [] else []) (bonus_count b)
unfolding bonus_count
bonus-Modifiers true = (refl, tt)
bonus-Modifiers false = tt

throwing_ok : {A : Type 0} (r : Result Exception A) (a : A) → r ≡ ok a → throwing r ≡ ok a
throwing_ok (ok b) a e = cc
throwing_ok (err x) a e = absurd (cc)

-- A paid activation of a campaign: whose it is, what its value and its cost are, and what it
-- changes.
pub record Activated (s : GameState) (participant_id : String) (payload : ActivateCampaignPayload)
    (r : Reduced) : Type 0 where
  pub found : CampaignState
  pub participant : ParticipantState
  pub components : List AssignedCampaignComponent
  pub cv : CampaignValueResult
  pub at : lookup payload.campaign_id s.campaigns ≡ some found
  pub is_owner : found.owner_participant_id ≡ participant_id
  pub is_first : found.activated_count_this_turn ≡ 0
  pub target : PopulationDemographicState
  pub targeted : lookup payload.requested_target_pd_id s.population_demographics ≡ some target
  pub carries : contains found.target_dt_id target.demographic_token_ids ≡ true
  pub known : lookup participant_id s.participants ≡ some participant
  pub assigned : components_of s found.assignments ≡ ok components
  pub valued : calculate_campaign_value components (bonus_of s found.assignments) ≡ ok cv
  pub affordable : cv.base_cost ≤ participant.resources
  pub reply : r.payload ≡ some (value cv)
  pub charged :
      r.state.participants
      ≡ insert participant_id
          (record participant { resources = participant.resources - cv.base_cost })
          s.participants
  pub counted :
      r.state.campaigns
      ≡ insert payload.campaign_id
          (record found { activated_count_this_turn = found.activated_count_this_turn + 1 })
          s.campaigns
  pub cards_stay : r.state.cards ≡ s.cards
  pub same_game : r.state.id ≡ s.id

pub activate_campaign-Activated :
    (s : GameState) (participant_id command_id : String) (payload : ActivateCampaignPayload)
    → IsSound s
    → Ensures
        (λ r. IsSound r.state × Activated s participant_id payload r)
        (activate_campaign s participant_id command_id payload)
unfolding activate_campaign
activate_campaign-Activated s participant_id command_id payload h =
    after_fail_if payload.names_extra_activation "EXTRA_ACTIVATION_NOT_AUTHORIZED" _ λ _.
      after_or_fail (lookup payload.campaign_id s.campaigns) "CAMPAIGN_NOT_FOUND" _ λ found at.
        after_fail_if (not (found.owner_participant_id == participant_id)) "CAMPAIGN_NOT_OWNED" _
          λ own.
            after_fail_if (ltb 0 found.activated_count_this_turn) "CAMPAIGN_ALREADY_ACTIVATED" _
              λ fresh.
                after_or_fail (lookup payload.requested_target_pd_id s.population_demographics)
                  "INVALID_TARGET_PD" _
                  λ pd pd_at.
                    after_fail_if (not (contains found.target_dt_id pd.demographic_token_ids))
                      "INVALID_DT" _
                      λ carried.
                        let (cs, vs, components, values) =
                          components_of-Values s found.assignments (h.placed _ found at) in
                        let b : Bool = has_pair s (definition_ids_of s found.assignments) in
                        let cv : CampaignValueResult = totals vs (bonus_count b) in
                        let valued : calculate_campaign_value cs (bonus_of s found.assignments)
                            ≡ ok cv =
                          (calculate_campaign_value-totals cs _ cv).1
                            (vs, bonus_count b, values, bonus-Modifiers b, refl) in
                        after_ok (components_of s found.assignments) cs _ components (
                          after_ok
                            (throwing (calculate_campaign_value cs (bonus_of s found.assignments)))
                            cv _ (throwing_ok _ cv valued)
                            (after_or_fail (lookup participant_id s.participants) "NOT_AUTHORIZED" _
                              λ p known.
                                after_fail_if (ltb p.resources cv.base_cost)
                                  "INSUFFICIENT_RESOURCES" _
                                  λ enough. returns _ refl (
                                    write-IsSound s _ payload.campaign_id
                                        (record found {
                                          activated_count_this_turn =
                                              found.activated_count_this_turn + 1;
                                        })
                                        h h.named refl refl (λ j. refl) (h.placed _ found at),
                                    record {
                                      found = found;
                                      participant = p;
                                      components = cs;
                                      cv = cv;
                                      target = pd;
                                      targeted = pd_at;
                                      carries = ground arith;
                                      at = at;
                                      is_owner =
                                          ground (
                                            arith,
                                            eq_iff found.owner_participant_id participant_id,
                                          );
                                      is_first = ground arith;
                                      known = known;
                                      assigned = components;
                                      valued = valued;
                                      affordable = ground arith;
                                      reply = refl;
                                      charged = refl;
                                      counted = refl;
                                      cards_stay = refl;
                                      same_game = refl;
                                    },
                                  )))
