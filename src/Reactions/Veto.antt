-- ===== src/Reactions/Veto.antt =====
-- m2b-reaction.ts: the vote on a campaign, and the veto that carries it out.
use malign_ai.Base.{
  eq_iff, ◌≡◌, refl, ℕ, ◌+◌, ◌*◌, String, Bool, true, false, none, some, List, [], ◌∷◌, ◌==◌, ◌&&◌,
  ltb, string_eq, if◌then◌else◌, length, Result, ok, err, Option-cases, Bool-cases, ◌⊎◌, inl, inr,
  arith,
}
use malign_ai.Base.Dict.{Dict, lookup, modify, values, lookup-erase}
use malign_ai.Effects.Types.{State, hand, removed_from_game, zone_eq}
use malign_ai.Effects.Cards.{discard_with_lifecycle, discard_campaign, discard_all, or_same}
use malign_ai.Reactions.Window.{ReactionError, reaction_not_eligible}
use malign_ai.Reactions.Atomicity.{one_discard_campaigns}

pub data Vote : Type 0 where
  acceptable unacceptable : Vote

pub record VetoResolution : Type 0 where
  pub rejected_campaign : Bool
  pub unacceptable_votes : ℕ
  pub active_players : ℕ

abbrev pub count_unacceptable : List Vote → ℕ
count_unacceptable [] = 0
count_unacceptable (acceptable ∷ votes) = count_unacceptable votes
count_unacceptable (unacceptable ∷ votes) = 1 + count_unacceptable votes

-- `unacceptable > values.length / 2`, without the fraction.
unfoldable pub resolve_veto : Dict Vote → VetoResolution
resolve_veto votes =
    let against = count_unacceptable (values votes) in
    record {
      rejected_campaign = ltb (length (values votes)) (2 * against);
      unacceptable_votes = against;
      active_players = length (values votes);
    }

abbrev pub is_in_hand : State → String → Bool
is_in_hand state card_id = elim (lookup card_id state.cards) [
  | none ↦ false
  | some card ↦ card.zone == hand
]

abbrev removed : State → String → State
removed state card_id = record state {
  cards = modify card_id (λ c. record c { zone = removed_from_game }) state.cards;
}

-- The error of `discardCampaign` is ignored.
abbrev vetoed : Bool → State → String → String → State
vetoed rejected state campaign_id veto_card_id =
    let after = removed state veto_card_id in
    if rejected then or_same after (discard_campaign after campaign_id) else after

unfoldable pub apply_veto : State → String → String → VetoResolution → Result ReactionError State
apply_veto state campaign_id veto_card_id result =
    if is_in_hand state veto_card_id
    then ok (vetoed result.rejected_campaign state campaign_id veto_card_id)
    else err reaction_not_eligible

discard_all-campaigns :
    (ids : List String) (s : State) → (discard_all ids s).campaigns ≡ s.campaigns
unfolding discard_all
discard_all-campaigns [] s = refl
discard_all-campaigns (id ∷ ids) s =
    rw
      (
        discard_all-campaigns ids (or_same s (discard_with_lifecycle s id)),
        one_discard_campaigns s id,
      )
      refl

missing-lookup :
    {V : Type 0} (id j : String) (d : Dict V)
    → lookup id d ≡ none
    → lookup j d ≡ (if id == j then none else lookup j d)
missing-lookup id j d missing = ground (arith, eq_iff id j)

discard_campaign-lookup :
    (s : State) (id j : String)
    → lookup j (or_same s (discard_campaign s id)).campaigns
      ≡ (if id == j then none else lookup j s.campaigns)
unfolding discard_campaign
discard_campaign-lookup s id j = elim (Option-cases (lookup id s.campaigns)) [
  | inl missing ↦ rw missing (missing-lookup id j s.campaigns missing)
  | inr (campaign, e) ↦
      rw (e, discard_all-campaigns campaign.card_ids s, lookup-erase id j s.campaigns) refl
]

vetoed-lookup :
    (rejected : Bool) (s : State) (campaign_id veto_card_id id : String)
    → lookup id (vetoed rejected s campaign_id veto_card_id).campaigns
      ≡ (if rejected && campaign_id == id then none else lookup id s.campaigns)
vetoed-lookup true s c v id = discard_campaign-lookup (removed s v) c id
vetoed-lookup false s c v id = refl

-- The number of those who accept the campaign.
abbrev pub count_acceptable : List Vote → ℕ
count_acceptable [] = 0
count_acceptable (acceptable ∷ votes) = 1 + count_acceptable votes
count_acceptable (unacceptable ∷ votes) = count_acceptable votes

everyone_votes :
    (votes : List Vote) → length votes ≡ count_acceptable votes + count_unacceptable votes
everyone_votes [] = refl
everyone_votes (acceptable ∷ votes) = let ih = everyone_votes votes in omega arith
everyone_votes (unacceptable ∷ votes) = let ih = everyone_votes votes in omega arith

majority :
    (votes : List Vote)
    → ltb (length votes) (2 * count_unacceptable votes)
      ≡ ltb (count_acceptable votes) (count_unacceptable votes)
majority votes = let everyone = everyone_votes votes in ground arith

-- A veto whose card is not in a hand is refused. Else just the campaign is gone, and only if more of
-- the voters find it unacceptable than find it acceptable.
pub apply_veto_by_majority :
    (state : State) (votes : Dict Vote) (campaign_id veto_card_id : String)
    → ((apply_veto state campaign_id veto_card_id (resolve_veto votes) ≡ err reaction_not_eligible)
        × (is_in_hand state veto_card_id ≡ false))
      ⊎ ((after : State) × (apply_veto state campaign_id veto_card_id (resolve_veto votes)
            ≡ ok after)
          × (is_in_hand state veto_card_id ≡ true)
          × ((id : String)
              → lookup id after.campaigns ≡ (
                  if ltb (count_acceptable (values votes)) (count_unacceptable (values votes))
                    && campaign_id == id
                  then none
                  else lookup id state.campaigns)))
unfolding apply_veto resolve_veto
apply_veto_by_majority state votes c v =
    let rejects = (resolve_veto votes).rejected_campaign in
    elim (Bool-cases (is_in_hand state v)) [
      | inl e ↦ inr (
        vetoed rejects state c v,
        rw e refl,
        e,
        λ id. rw (vetoed-lookup rejects state c v id, majority (values votes)) refl,
      )
      | inr e ↦ inl (rw e refl, e)
    ]
