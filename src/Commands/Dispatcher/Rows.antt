-- ===== src/Commands/Dispatcher/Rows.antt =====
-- dispatcher.ts: at most one campaign in row I for each owner.
use malign_ai.Base.{
  ℕ, String, Bool, true, false, some, [], ◌∷◌, ◌≡◌, refl, sym, ◌∙◌, arith, ◌==◌, string_eq, nat_eq,
  any, eq_iff, ◌⊎◌, subst, not, ltb, length, Bool-cases, inl, inr,
}
use malign_ai.Base.Dict.{Dict, lookup, insert, values, lookup-insert}
use malign_ai.Base.Int.{pos}
use malign_ai.Base.Number.{int}
use malign_ai.Commands.Model.{
  GameState, CampaignState, ConstructCampaignPayload, is_row_one, ParticipantState, GameCommandType,
  GameCommandPayload, plan_payload, empty_payload, construct_payload, modify_payload,
  activate_payload, set_action_plan, lock_action_plan, construct, modify, activate,
  end_game_scoring, is_locked,
}
use malign_ai.Commands.Payload.{slots_in, as_construct, as_activate, has_slots}
use malign_ai.Commands.Plan.{
  set_plan_from, Reduced, set_plan, lock_plan, valid_action_plan, exceeds, total_cost,
}
use malign_ai.Commands.Campaigns.{owns_row_one}
use malign_ai.Commands.Dispatcher.{
  Envelope, IsReadable, reduce, run_command, is_scoring, is_in_phase,
}
use malign_ai.Commands.Dispatcher.Ensures.{
  Ensures, returns, refuses, after_fail_if, after_or_fail, Ensures-map,
}
use malign_ai.Commands.Dispatcher.Sound.{IsSound}
use malign_ai.Commands.Dispatcher.Construction.{Constructed, construct_campaign-Constructed}
use malign_ai.Commands.Dispatcher.Modification.{modify_from-Modified}
use malign_ai.Commands.Dispatcher.Activation.{activate_campaign-Activated}

-- Two campaigns in row I with one owner are one campaign.
pub data OneRow (campaigns : Dict CampaignState) : Type 0 where
  one_row :
      ((k j : String) (c d : CampaignState)
        → lookup k campaigns ≡ some c
        → lookup j campaigns ≡ some d
        → c.owner_participant_id ≡ d.owner_participant_id
        → is_row_one c.row ≡ true
        → is_row_one d.row ≡ true
        → k ≡ j)
      → OneRow campaigns

-- A campaign is written under a key that alone its owner may have in row I.
OneRow-insert :
    (key : String) (w : CampaignState) (campaigns : Dict CampaignState)
    → ((j : String) (d : CampaignState)
        → lookup j campaigns ≡ some d
        → d.owner_participant_id ≡ w.owner_participant_id
        → is_row_one d.row ≡ true
        → is_row_one w.row ≡ true
        → j ≡ key)
    → OneRow campaigns
    → OneRow (insert key w campaigns)
OneRow-insert key w campaigns alone (one_row h) =
    one_row
      (λ k j c d p q o u v. go k j c d p q o u v (Bool-cases (key == k)) (Bool-cases (key == j)))
  where
    go :
        (k j : String) (c d : CampaignState)
        → lookup k (insert key w campaigns) ≡ some c
        → lookup j (insert key w campaigns) ≡ some d
        → c.owner_participant_id ≡ d.owner_participant_id
        → is_row_one c.row ≡ true
        → is_row_one d.row ≡ true
        → ((key == k) ≡ true) ⊎ ((key == k) ≡ false)
        → ((key == j) ≡ true) ⊎ ((key == j) ≡ false)
        → k ≡ j
    go k j c d p q o u v (inl x) (inl y) = sym ((eq_iff key k).0 x) ∙ (eq_iff key j).0 y
    go k j c d p q o u v (inl x) (inr y) = ground (
      arith,
      lookup-insert key k w campaigns,
      lookup-insert key j w campaigns,
      eq_iff key k,
      alone j d,
    )
    go k j c d p q o u v (inr x) (inl y) = ground (
      arith,
      lookup-insert key k w campaigns,
      lookup-insert key j w campaigns,
      eq_iff key j,
      alone k c,
    )
    go k j c d p q o u v (inr x) (inr y) =
        ground (arith, lookup-insert key k w campaigns, lookup-insert key j w campaigns, h k j c d)

any-lookup :
    (p : CampaignState → Bool) (campaigns : Dict CampaignState) (j : String) (d : CampaignState)
    → any p (values campaigns) ≡ false
    → lookup j campaigns ≡ some d
    → p d ≡ false
any-lookup p [] j d a e = cc
any-lookup p ((k, w) ∷ rest) j d a e = ground (arith, any-lookup p rest j d)

Constructed-OneRow :
    (s : GameState) (participant_id : String) (payload : ConstructCampaignPayload) (r : Reduced)
    → OneRow s.campaigns
    → Constructed s participant_id payload r
    → OneRow r.state.campaigns
Constructed-OneRow s participant_id payload r h c = subst OneRow (sym c.inserted) (
    OneRow-insert payload.campaign_id c.added s.campaigns
      (λ j d at own row _. absurd (
        ground (
          arith,
          any-lookup (owns_row_one participant_id) s.campaigns j d c.row_free at,
          c.owner,
          eq_iff d.owner_participant_id participant_id,
        )))
      h)

rewritten-OneRow :
    (key : String) (w found : CampaignState) (campaigns : Dict CampaignState)
    → OneRow campaigns
    → lookup key campaigns ≡ some found
    → w.owner_participant_id ≡ found.owner_participant_id
    → w.row ≡ found.row
    → OneRow (insert key w campaigns)
rewritten-OneRow key w found campaigns (one_row h) at owner row =
    OneRow-insert key w campaigns (λ j d e own u v. h j key d found e at (cc) u (cc)) (one_row h)

abbrev Leaves : GameState → Reduced → Type 0
Leaves s r = OneRow r.state.campaigns × (r.state.id ≡ s.id)

set_plan_from-OneRow :
    (s : GameState) (key : String) (p : ParticipantState) (payload : GameCommandPayload)
    → has_slots set_action_plan payload ≡ true
    → OneRow s.campaigns
    → Ensures (Leaves s) (set_plan_from s key p (slots_in payload))
unfolding set_plan
set_plan_from-OneRow s key p (plan_payload slots) e o =
    after_fail_if (is_locked p.plan_status) "ACTION_PLAN_LOCKED" _ λ _.
      after_fail_if (not (valid_action_plan slots)) "INVALID_ACTION_PLAN" _
        λ _. returns _ refl (o, refl)
set_plan_from-OneRow s key p empty_payload e o = absurd (cc)
set_plan_from-OneRow s key p (construct_payload _) e o = absurd (cc)
set_plan_from-OneRow s key p (modify_payload _) e o = absurd (cc)
set_plan_from-OneRow s key p (activate_payload _) e o = absurd (cc)

run_command-OneRow :
    (f : ℕ → Bool) (s : GameState) (key : String) (p : ParticipantState) (command_id : String)
    (command : GameCommandType) (payload : GameCommandPayload)
    → has_slots command payload ≡ true
    → IsSound s
    → OneRow s.campaigns
    → Ensures (Leaves s) (run_command f s key p command_id command payload)
unfolding lock_plan
run_command-OneRow f s key p command_id set_action_plan payload e h o =
    set_plan_from-OneRow s key p payload e o
run_command-OneRow f s key p command_id lock_action_plan payload e h o =
    after_fail_if (is_locked p.plan_status) "ACTION_PLAN_LOCKED" _ λ _.
      after_fail_if (ltb 3 (length p.plan)) "INSUFFICIENT_AP" _ λ _.
        after_fail_if (exceeds f (total_cost (int (pos 0)) p.plan) p.action_points_available)
          "INSUFFICIENT_AP" _
          λ _.
            after_fail_if (not (valid_action_plan p.plan)) "INVALID_ACTION_PLAN" _
              λ _. returns _ refl (o, refl)
run_command-OneRow f s key p command_id construct payload e h o =
    Ensures-map
      (λ r both. (Constructed-OneRow s p.id (as_construct payload) r o both.1, (both.1).same_game))
      (construct_campaign-Constructed s p.id command_id (as_construct payload) h)
run_command-OneRow f s key p command_id modify payload e h o =
    Ensures-map
      (λ r both. (
        subst OneRow (sym both.1.1.reassigned) (
            rewritten-OneRow (both.1.0).campaign_id _ (both.1.1).found s.campaigns o (both.1.1).at
              refl refl),
        (both.1.1).same_game,
      ))
      (modify_from-Modified s p.id command_id payload h)
run_command-OneRow f s key p command_id activate payload e h o =
    Ensures-map
      (λ r both. (
        subst OneRow (sym both.1.counted) (
            rewritten-OneRow (as_activate payload).campaign_id _ (both.1).found s.campaigns o
              (both.1).at refl refl),
        (both.1).same_game,
      ))
      (activate_campaign-Activated s p.id command_id (as_activate payload) h)
run_command-OneRow f s key p command_id end_game_scoring payload e h o =
    refuses "ILLEGAL_STATE_TRANSITION" refl

-- In a sound game where no owner has two campaigns in row I, a readable command does not throw, and
-- leaves neither a game in which an owner has two, nor the state of another game.
pub reduce-OneRow :
    (fraction_exceeds : ℕ → Bool) (s : GameState) (envelope : Envelope)
    → IsSound s
    → OneRow s.campaigns
    → IsReadable envelope
    → Ensures
        (λ r. OneRow r.state.campaigns × (r.state.id ≡ s.id))
        (reduce fraction_exceeds s envelope)
unfolding reduce
reduce-OneRow f s envelope h o readable =
    after_fail_if (is_scoring envelope.command_type) "ILLEGAL_STATE_TRANSITION" _ λ _.
      after_fail_if (not (is_in_phase envelope.command_type s.phase)) "WRONG_PHASE" _ λ _.
        after_or_fail (envelope.actor_context).participant_id "NOT_AUTHORIZED" _ λ key _.
          after_or_fail (lookup key s.participants) "NOT_AUTHORIZED" _ λ participant _.
            run_command-OneRow f s key participant envelope.command_id envelope.command_type
              envelope.payload readable.slots h o
