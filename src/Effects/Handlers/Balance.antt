-- ===== src/Effects/Handlers/Balance.antt =====
-- What each card effect does to the participants' resources and to the map.
use malign_ai.Base.{
  String, false, none, some, List, [], ◌∷◌, ◌==◌, string_eq, ◌≡◌, refl, sym, ap, arith, ◌||◌, not,
  contains, Option-cases, inl, inr, get_elem?, index_of, all_distinct,
}
use malign_ai.Base.Int.{ℤ, pos, ◌+ℤ◌, ◌-ℤ◌, ◌≤ℤ◌, ltb_ℤ, min_ℤ, max_ℤ, pos_part}
use malign_ai.Base.Dict.{lookup}
use malign_ai.Effects.Resources.{actor, pay, add_resources, take_resources, or_throw}
use malign_ai.Effects.Influence.{apply_direct_influence}
use malign_ai.Effects.Registry.{pair_bonus_effect_ids, base_2025_pair_bonuses}
use malign_ai.Effects.Cards.{discard_campaign}
use malign_ai.Effects.Parameters.{string_parameter, integer_parameter, string_array_parameter}
use malign_ai.Effects.Types.{
  State, EffectContext, invalid_effect_input, effect_unknown, InfluenceType, CountryId,
}
use malign_ai.Effects.Ends.{Ends, gives, refuses, need, unless, next}
use malign_ai.Effects.Moves.{Keeps}
use malign_ai.Effects.Steps.{
  Keeps-trans, Keeps-delta, Keeps-audit, Keeps-audited, Keeps-same, Keeps-modify, Keeps-add, minus,
  influence-Keeps, pay-Keeps, add_zero, then-Keeps, still_there, handover-Keeps, both_steps,
  discard_all-Keeps,
}
use malign_ai.Effects.Handlers.{
  trade_agreements, fixed_gain_4, target_dt_set, sanctions, direct_influence, vp_penalty,
  corruption, pay_and_direct_influence, pay_and_discard_campaign, double_action, random_hand_review,
  registered_pair_bonus, lose_points, type_parameter, or_error, audit_reveals,
}

pub fixed_gain_4-Keeps : (s : State) (c : EffectContext) → Ends (Keeps s (pos 4)) (fixed_gain_4 s c)
unfolding fixed_gain_4
fixed_gain_4-Keeps s c = need (actor s c) invalid_effect_input _ λ p e.
    gives (Keeps-audited c _ _ (Keeps-add s c.actor_participant_id p (pos 4) e (λ v. omega arith)))

pub trade_agreements-Keeps :
    (s : State) (c : EffectContext) → Ends (Keeps s (pos 4)) (trade_agreements s c)
unfolding trade_agreements
trade_agreements-Keeps s c = need (actor s c) invalid_effect_input _ λ p e.
    need (string_parameter c "targetParticipantId") invalid_effect_input _ λ target_id _.
      need (lookup target_id s.participants) invalid_effect_input _ λ q f.
        unless (q.id == p.id) invalid_effect_input _ λ _.
          let k = c.actor_participant_id in
          let (r, g) = still_there k target_id (add_resources (pos 2)) s.participants q f in
          gives (
            Keeps-audited c _ _ (
              Keeps-delta two_and_two (
                Keeps-trans (Keeps-add s k p (pos 2) e (λ v. omega arith))
                  (Keeps-add _ target_id r (pos 2) g (λ v. omega arith)))))
  where
    two_and_two : pos 2 +ℤ pos 2 ≡ pos 4
    two_and_two = unfold ◌+ℤ◌ in refl

pub target_dt_set-Keeps :
    (s : State) (c : EffectContext) → Ends (Keeps s (pos 0)) (target_dt_set s c)
unfolding target_dt_set
target_dt_set-Keeps s c = need (string_parameter c "campaignId") invalid_effect_input _ λ id _.
    need (lookup id s.campaigns) invalid_effect_input _ λ campaign _.
      need (string_parameter c "targetDtId") invalid_effect_input _ λ dt _.
        need (string_parameter c "sourceCardInstanceId") invalid_effect_input _ λ source _.
          unless
            (not (campaign.owner_participant_id == c.actor_participant_id)
              || not (contains source campaign.card_ids))
            invalid_effect_input _ λ _. gives (Keeps-audited c _ _ (Keeps-same refl refl refl refl))

-- An integer that is not below zero.
not_negative : (n : ℤ) → ltb_ℤ n (pos 0) ≡ false → n ≡ pos (pos_part n)
not_negative n h = ground arith

pub any_influence-Keeps :
    (s : State) (pd_id : String) (type : InfluenceType) (country : CountryId) (n : ℤ)
    → ltb_ℤ n (pos 0) ≡ false
    → Ends (λ r. Keeps s (pos 0) r.1) (or_throw (apply_direct_influence s pd_id type country n))
any_influence-Keeps s pd_id type country n h =
    rw (not_negative n h) (influence-Keeps s pd_id type country (pos_part n))

pub direct_influence-Keeps :
    (s : State) (c : EffectContext) → Ends (Keeps s (pos 0)) (direct_influence s c)
unfolding direct_influence
direct_influence-Keeps s c = need (string_parameter c "pdId") invalid_effect_input _ λ pd_id _.
    need (type_parameter c) invalid_effect_input _ λ type _.
      need (integer_parameter c "amount") invalid_effect_input _ λ n _.
        unless (ltb_ℤ n (pos 0)) invalid_effect_input _ λ lo.
          need (actor s c) invalid_effect_input _ λ p _.
            next (or_throw (apply_direct_influence s pd_id type p.country_id n)) _
              (any_influence-Keeps s pd_id type p.country_id n lo)
              λ r k. gives (Keeps-audited c _ _ k)

points_left : (n v : ℤ) → pos 0 ≤ℤ max_ℤ (pos 0) (v -ℤ n)
points_left n v = ground arith

pub vp_penalty-Keeps : (s : State) (c : EffectContext) → Ends (Keeps s (pos 0)) (vp_penalty s c)
unfolding vp_penalty
vp_penalty-Keeps s c =
    need (string_parameter c "targetParticipantId") invalid_effect_input _ λ id _.
      need (lookup id s.participants) invalid_effect_input _ λ q e.
        need (integer_parameter c "amount") invalid_effect_input _ λ n _.
          unless (ltb_ℤ n (pos 0)) invalid_effect_input _ λ _. gives (
            Keeps-audited c _ _ (
              Keeps-modify s id (lose_points n) q (pos 0) e (add_zero q.resources)
                (λ v. record {
                  resources_nonneg = v.resources_nonneg;
                  points_nonneg = points_left n q.victory_points;
                })
                (λ r u. u)))

pub corruption-Keeps :
    (s : State) (c : EffectContext) → Ends (Keeps s (minus (pos 1))) (corruption s c)
unfolding corruption
corruption-Keeps s c =
    next (pay s c (pos 1)) _ (pay-Keeps s c (pos 1)) λ t k. then-Keeps k (vp_penalty-Keeps t _)

-- The cost that a context names.
abbrev pub cost_of_effect : EffectContext → ℤ
cost_of_effect c = elim (integer_parameter c "cost") [ none ↦ pos 0 | some n ↦ n ]

cost_lem : (c : EffectContext) (n : ℤ) → integer_parameter c "cost" ≡ some n → cost_of_effect c ≡ n
cost_lem c n e = rw (e, cost_of_effect)

min_le : (a : ℤ) → min_ℤ (pos 2) a ≤ℤ a
min_le a = ground arith

min_nonneg : (a : ℤ) → pos 0 ≤ℤ a → pos 0 ≤ℤ min_ℤ (pos 2) a
min_nonneg a h = ground arith

pub pay_and_direct_influence-Keeps :
    (s : State) (c : EffectContext)
    → Ends (Keeps s (minus (cost_of_effect c))) (pay_and_direct_influence s c)
unfolding pay_and_direct_influence
pay_and_direct_influence-Keeps s c = need (integer_parameter c "cost") invalid_effect_input _ λ n e.
    next (pay s c n) _ (pay-Keeps s c n) λ t k.
      then-Keeps (Keeps-delta (ap minus (sym (cost_lem c n e))) k) (direct_influence-Keeps t c)

discard_campaign-Keeps :
    (s : State) (id : String) → Ends (Keeps s (pos 0)) (or_error (discard_campaign s id))
unfolding discard_campaign
discard_campaign-Keeps s id = elim (Option-cases (lookup id s.campaigns)) [
  | inl missing ↦ rw missing refuses
  | inr (campaign, e) ↦
      rw e (
        gives (both_steps (discard_all-Keeps campaign.card_ids s) (Keeps-same refl refl refl refl)))
]

pub pay_and_discard_campaign-Keeps :
    (s : State) (c : EffectContext) → Ends (Keeps s (minus (pos 1))) (pay_and_discard_campaign s c)
unfolding pay_and_discard_campaign
pay_and_discard_campaign-Keeps s c =
    need (string_parameter c "campaignId") invalid_effect_input _ λ id _.
      need (lookup id s.campaigns) invalid_effect_input _ λ campaign _.
        next (pay s c (pos 1)) _ (pay-Keeps s c (pos 1)) λ t k.
          next (or_error (discard_campaign t id)) _ (discard_campaign-Keeps t id)
            λ u l. gives (Keeps-audited c _ _ (Keeps-delta (sym (add_zero _)) (Keeps-trans k l)))

pub double_action-Keeps :
    (s : State) (c : EffectContext) → Ends (Keeps s (minus (pos 1))) (double_action s c)
unfolding double_action
double_action-Keeps s c = need (string_parameter c "campaignId") invalid_effect_input _ λ id _.
    need (lookup id s.campaigns) invalid_effect_input _ λ campaign _.
      unless (not (campaign.owner_participant_id == c.actor_participant_id)) invalid_effect_input _
        λ _. next (pay s c (pos 1)) _ (pay-Keeps s c (pos 1)) λ t k. gives (
          Keeps-audited c _ _
            (Keeps-delta (sym (add_zero _)) (Keeps-trans k (Keeps-same refl refl refl refl))))

pub sanctions-Keeps : (s : State) (c : EffectContext) → Ends (Keeps s (pos 0)) (sanctions s c)
unfolding sanctions
sanctions-Keeps s c = need (string_parameter c "targetParticipantId") invalid_effect_input _ λ id _.
    need (actor s c) invalid_effect_input _ λ p e.
      need (lookup id s.participants) invalid_effect_input _ λ q f.
        unless (p.id == q.id) invalid_effect_input _ λ _.
          let n = min_ℤ (pos 2) q.resources in
          let k = c.actor_participant_id in
          let (r, g) = still_there id k (take_resources n) s.participants p e in
          gives (
            Keeps-audited c _ _ (
              handover-Keeps s id k q r n f g (min_le q.resources)
                (λ v. min_nonneg q.resources v.resources_nonneg)))

pub registered_pair_bonus-Keeps :
    (s : State) (c : EffectContext) → Ends (Keeps s (pos 0)) (registered_pair_bonus s c)
unfolding registered_pair_bonus
registered_pair_bonus-Keeps s c =
    need (string_array_parameter c "definitionIds") invalid_effect_input _ λ ids _.
      need (index_of c.effect_id pair_bonus_effect_ids) effect_unknown _ λ index _.
        need (get_elem? base_2025_pair_bonuses index) effect_unknown _
          λ pair _. gives (Keeps-audit s c _ _)

audit_reveals-Keeps :
    (ids : List String) (target : String) (c : EffectContext) (s : State)
    → Keeps s (pos 0) (audit_reveals ids target c s)
unfolding audit_reveals
audit_reveals-Keeps [] target c s = Keeps-same refl refl refl refl
audit_reveals-Keeps (id ∷ ids) target c s =
    Keeps-delta (sym (add_zero _))
      (Keeps-trans (Keeps-audit s c _ _) (audit_reveals-Keeps ids target c _))

pub random_hand_review-Keeps :
    (s : State) (c : EffectContext) → Ends (Keeps s (pos 0)) (random_hand_review s c)
unfolding random_hand_review
random_hand_review-Keeps s c =
    need (string_parameter c "targetParticipantId") invalid_effect_input _ λ id _.
      need (lookup id s.participants) invalid_effect_input _ λ p _.
        need (string_array_parameter c "selectedCardIds") invalid_effect_input _ λ selected _.
          unless (not (all_distinct selected)) invalid_effect_input _
            λ _. unless _ invalid_effect_input _ λ _. gives (audit_reveals-Keeps selected id c s)
