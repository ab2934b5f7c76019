-- ===== src/Reactions/Atomicity.antt =====
-- m2b-reaction.ts, `playReaction`: a reaction is refused as a whole or played as a whole.
use malign_ai.Base.{
  ◌≡◌, refl, ◌∙◌, ap, String, Bool, true, false, Option, none, some, ◌&&◌, not, string_eq,
  if◌then◌else◌, is_some, arith, ok, or_fail, ◌>>=◌, ◌⊎◌, inl, inr, Option-cases, Bool-cases, List,
  [], ◌∷◌, All,
}
use malign_ai.Base.Dict.{lookup}
use malign_ai.Effects.Types.{State, EffectError}
use malign_ai.Effects.Cards.{discard_with_lifecycle, discard_campaign, or_same}
use malign_ai.Reactions.Window.{ReactionWindow, ReactionError}
use malign_ai.Reactions.Play.{
  PlayReactionInput, refused, played, play_reaction, first_error, play_checks, play_error,
  play_checked, conclude, after_card, without_campaign, is_successful, child_of, played_in,
  is_effect, is_gone, campaign_is_gone,
}

-- Without an error every check has gone through.
checks_pass :
    (checks : List (Bool × ReactionError))
    → first_error checks ≡ none
    → All (λ c. c.0 ≡ false) checks
checks_pass [] h = tt
checks_pass ((true, e) ∷ checks) h = cc
checks_pass ((false, e) ∷ checks) h = (refl, checks_pass checks h)

campaign_stays :
    (state : State) (window : ReactionWindow) (input : PlayReactionInput)
    → play_error state window input ≡ none
    → (is_effect input "040" && campaign_is_gone state window) ≡ false
unfolding play_checks
campaign_stays state window input h =
    let (_, (_, (_, (_, (_, (campaign, _)))))) = checks_pass (play_checks state window input) h in
    campaign

pub one_discard_campaigns :
    (s : State) (id : String) → (or_same s (discard_with_lifecycle s id)).campaigns ≡ s.campaigns
unfolding discard_with_lifecycle
one_discard_campaigns s id = elim (Option-cases (lookup id s.cards)) [
  | inl missing ↦ rw missing refl
  | inr (card, e) ↦ rw e refl
]

after_card-campaigns :
    (state : State) (input : PlayReactionInput)
    → (after_card state input).campaigns ≡ state.campaigns
after_card-campaigns state input = pick (is_effect input "048")
  where
    pick :
        (b : Bool)
        → (if b
            then state
            else or_same state (discard_with_lifecycle state input.card_id)).campaigns
          ≡ state.campaigns
    pick true = refl
    pick false = one_discard_campaigns state input.card_id

goes_on :
    {A : Type 0} (o : Option A) (e : EffectError) (f : A → State)
    → not (is_some o) ≡ false
    → (t : State) × ((or_fail o e >>= λ a. ok (f a)) ≡ ok t)
goes_on none e f h = cc
goes_on (some a) e f h = (f a, refl)

campaign_goes :
    (s : State) (id : Option String)
    → is_gone s id ≡ false
    → (t : State) × (without_campaign s id ≡ ok t)
unfolding discard_campaign
campaign_goes s none h = (s, refl)
campaign_goes s (some id) h = goes_on (lookup id s.campaigns) _ _ h

both_true : (a b c : Bool) → (a && b) ≡ true → (a && c) ≡ false → c ≡ false
both_true a b c h k = ground arith

-- After the checks the discard of the campaign goes through.
discard_goes :
    (state : State) (window : ReactionWindow) (input : PlayReactionInput)
    → play_error state window input ≡ none
    → (t : State) × ((if is_effect input "040" && is_successful input
          then without_campaign (after_card state input) window.triggering_campaign_id
          else ok (after_card state input))
        ≡ ok t)
discard_goes state window input h =
    elim (Bool-cases (is_effect input "040" && is_successful input)) [
      | inr off ↦ (after_card state input, rw off refl)
      | inl on ↦
          let stays =
            both_true (is_effect input "040") (is_successful input) _ on
              (campaign_stays state window input h) in
          let (t, e) =
            campaign_goes (after_card state input) window.triggering_campaign_id
              (same_gone window.triggering_campaign_id ∙ stays) in
          (t, rw on e)
    ]
  where
    same_gone : (id : Option String) → is_gone (after_card state input) id ≡ is_gone state id
    same_gone none = refl
    same_gone (some id) = ap (λ d. not (is_some (lookup id d))) (after_card-campaigns state input)

-- A reaction that fails one of the checks is refused with that check's error, and neither the state
-- nor the window changes. Every other reaction is played: it adds its record to the window, which
-- is closed, or waits for a child window when the reaction opens one, and it reports success by its
-- roll where it needs one.
pub play_reaction_decides :
    (state : State) (window : ReactionWindow) (input : PlayReactionInput)
    → ((e : ReactionError) × (play_error state window input ≡ some e)
        × (play_reaction state window input ≡ refused e state window))
      ⊎ ((after : State) × (play_error state window input ≡ none)
          × (play_reaction state window input
              ≡ played
                  (is_successful input)
                  (child_of window input)
                  after
                  (played_in window input)))
unfolding play_reaction
play_reaction_decides state window input = elim (Option-cases (play_error state window input)) [
  | inr (e, h) ↦ inl (e, h, ap (λ o. play_checked o state window input) h)
  | inl h ↦
      let (t, e) = discard_goes state window input h in
      inr (
        _,
        h,
        ap (λ o. play_checked o state window input) h
            ∙ ap (conclude window input (after_card state input)) e,
      )
]
