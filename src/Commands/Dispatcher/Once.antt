-- ===== src/Commands/Dispatcher/Once.antt =====
-- dispatcher.ts: what a player commits once: a locked plan, an activation, a campaign in row I.
use malign_ai.Base.{
  ℕ, ◌+◌, ◌-◌, ◌≤◌, ◌<◌, String, Bool, true, false, some, List, [], ◌∷◌, ◌≡◌, refl, ok, err, arith,
  string_eq, nat_eq, length, eq_iff,
}
use malign_ai.Base.Int.{pos, ◌+ℤ◌}
use malign_ai.Base.Number.{int}
use malign_ai.Base.Dict.{lookup, insert, lookup-insert}
use malign_ai.Commands.Model.{
  GameState, CampaignState, ParticipantState, PlanSlot, ActivateCampaignPayload, locked,
}
use malign_ai.Commands.Plan.{
  value, refusal, Reduced, set_plan, lock_plan, valid_action_plan, slots_in_order, total_cost,
}
use malign_ai.Rules.CampaignValue.{CampaignValueResult}
use malign_ai.Rules.CampaignValue.Totals.{calculate_campaign_value_bounds}
use malign_ai.Commands.Dispatcher.Sound.{IsSound}
use malign_ai.Commands.Dispatcher.Ensures.{ensured}
use malign_ai.Commands.Dispatcher.Activation.{Activated, activate_campaign-Activated}
use malign_ai.Commands.Campaigns.{activate_campaign}

total_cost-slots :
    (n i : ℕ) (slots : List PlanSlot)
    → slots_in_order i slots ≡ true
    → total_cost (int (pos n)) slots ≡ int (pos (n + length slots))
unfolding ◌+ℤ◌
total_cost-slots n i [] h = ground arith
total_cost-slots n i (s ∷ ss) h = ground (arith, total_cost-slots (n + 1) (i + 1) ss)

valid_action_plan_lem :
    (slots : List PlanSlot)
    → valid_action_plan slots ≡ true
    → (length slots ≤ 3) × (total_cost (int (pos 0)) slots ≡ int (pos (length slots)))
unfolding valid_action_plan
valid_action_plan_lem slots h = ground (arith, total_cost-slots 0 0 slots)

-- A plan is locked at the price of one action point for each of its slots, three at the most; it
-- stays as it is, no other participant changes, and afterwards the participant can neither set nor
-- lock a plan.
pub lock_plan_charges :
    (fraction_exceeds : ℕ → Bool) (s : GameState) (key : String) (p : ParticipantState)
    (command_id other_id : String) (slots : List PlanSlot) (r : Reduced)
    → lock_plan fraction_exceeds s key p command_id ≡ ok r
    → (held : ParticipantState) × (r.state.participants ≡ insert key held s.participants)
      × (held.action_points_available + length p.plan ≡ p.action_points_available)
      × (length p.plan ≤ 3)
      × (held.plan ≡ p.plan)
      × (held.resources ≡ p.resources)
      × (set_plan r.state key held slots ≡ err (refusal "ACTION_PLAN_LOCKED"))
      × (lock_plan fraction_exceeds r.state key held other_id ≡ err (refusal "ACTION_PLAN_LOCKED"))
unfolding lock_plan set_plan
lock_plan_charges f s key p command_id other_id slots r e = (
  record p {
    action_points_available = p.action_points_available - length p.plan;
    plan_status = locked;
  },
  ground (arith, valid_action_plan_lem p.plan),
  ground (arith, valid_action_plan_lem p.plan),
  ground (arith, valid_action_plan_lem p.plan),
  refl,
  refl,
  refl,
  refl,
)

second_refused :
    (t : GameState) (participant_id command_id : String) (again : ActivateCampaignPayload)
    (found : CampaignState)
    → lookup again.campaign_id t.campaigns ≡ some found
    → found.owner_participant_id ≡ participant_id
    → 0 < found.activated_count_this_turn
    → again.names_extra_activation ≡ false
    → activate_campaign t participant_id command_id again
      ≡ err (refusal "CAMPAIGN_ALREADY_ACTIVATED")
unfolding activate_campaign
second_refused t participant_id command_id again found at own used extra =
    rw (extra, at) (ground (arith, eq_iff found.owner_participant_id participant_id))

-- In a sound game an activation succeeds at most once. It asks for a campaign of the participant that
-- was not activated, and for a population demographic that carries the campaign's token; the
-- participant pays the cost that goes with the campaign's base value, which is from 1 to 3 and not
-- above what there was, nothing else of the participants changes, the campaign counts the
-- activation, and a second activation of it is refused with `CAMPAIGN_ALREADY_ACTIVATED`.
pub activate_campaign_once :
    (s : GameState) (participant_id command_id other_id : String)
    (payload again : ActivateCampaignPayload) (r : Reduced)
    → IsSound s
    → activate_campaign s participant_id command_id payload ≡ ok r
    → again.campaign_id ≡ payload.campaign_id
    → again.names_extra_activation ≡ false
    → Activated s participant_id payload r
      × ((cv : CampaignValueResult) × (r.payload ≡ some (value cv))
          × (1 ≤ cv.base_cost)
          × (cv.base_cost ≤ 3))
      × (activate_campaign r.state participant_id other_id again
          ≡ err (refusal "CAMPAIGN_ALREADY_ACTIVATED"))
activate_campaign_once s participant_id command_id other_id payload again r h e same extra =
    let done : Activated s participant_id payload r =
      (ensured (activate_campaign-Activated s participant_id command_id payload h) e).1 in
    (
      done,
      (
        done.cv,
        done.reply,
        omega (arith, (calculate_campaign_value_bounds _ _ done.cv done.valued).2),
        (calculate_campaign_value_bounds _ _ done.cv done.valued).3,
      ),
      second_refused r.state participant_id other_id again
          (record (done.found) {
            activated_count_this_turn = done.found.activated_count_this_turn + 1;
          })
          (ground (
            arith,
            done.counted,
            lookup-insert payload.campaign_id payload.campaign_id
                (record (done.found) {
                  activated_count_this_turn = done.found.activated_count_this_turn + 1;
                })
                s.campaigns,
            eq_iff payload.campaign_id payload.campaign_id,
          ))
          done.is_owner (omega arith) extra,
    )
