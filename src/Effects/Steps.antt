-- ===== src/Effects/Steps.antt =====
-- The steps that handlers share, and what each does to the participants, the map and the trail.
use mathlib.Core.List.{append-nil}
use malign_ai.Base.{
  ℕ, String, Bool, true, false, Option, none, some, List, [], ◌∷◌, ◌++◌, ◌==◌, string_eq, ◌≡◌, refl,
  sym, ap, subst, inl, inr, Bool-cases, Option-cases, if◌then◌else◌, arith, All, Result,
}
use malign_ai.Base.Int.{ℤ, pos, ◌+ℤ◌, ◌-ℤ◌, ◌≤ℤ◌, int_laws, ltb_ℤ}
use malign_ai.Base.Dict.{Dict, lookup, modify, lookup-modify, AllValues-lookup, AllValues-modify}
use malign_ai.Rules.Cubes.Cancellation.{resolve_two_to_one_cancels}
use malign_ai.Effects.Types.{
  State, Participant, InfluenceType, CountryId, AuditRecord, EffectContext, Scalar, EffectError,
  Failure, ResourceSpend, insufficient_resources, invalid_effect_input,
}
use malign_ai.Effects.Resources.{
  audit, actor, pay, take_resources, add_resources, or_throw, record_qualifying_resource_spend,
}
use malign_ai.Effects.Cards.{discard_all, discard_with_lifecycle, or_same}
use malign_ai.Effects.Influence.{IsCounted, apply_direct_influence, opposite_of}
use malign_ai.Effects.Influence.Removal.{cubes, held_total-cubes, remove_cubes-IsCounted}
use malign_ai.Effects.Influence.Totals.{add_cubes-IsCounted}
use malign_ai.Effects.Wealth.{wealth, IsSolvent, wealth-modify}
use malign_ai.Effects.Moves.{Keeps, Moves-trans, Moves-same, Moves-audit, Moves-modify, used-modify}
use malign_ai.Effects.Regime.{use_ability}
use malign_ai.Effects.Ends.{Ends, gives, refuses, need, unless}

pub Keeps-trans : {s t u : State} {d e : ℤ} → Keeps s d t → Keeps t e u → Keeps s (d +ℤ e) u
Keeps-trans k l = record {
  moves = Moves-trans k.moves l.moves;
  counted = λ h. l.counted (k.counted h);
}

-- The same change under another name.
pub Keeps-delta : {s t : State} {d e : ℤ} → d ≡ e → Keeps s d t → Keeps s e t
Keeps-delta {s} {t} p k = subst (λ x. Keeps s x t) p k

pub Keeps-audit :
    (s : State) (c : EffectContext) (type : String) (payload : Dict Scalar)
    → Keeps s (pos 0) (audit s c type payload)
unfolding audit
Keeps-audit s c type payload = record {
  moves = unfold audit in Moves-audit s c type payload;
  counted = λ h. h;
}

right_zero : (a : ℤ) → a +ℤ pos 0 ≡ a
right_zero a = grind int_laws

-- A state that an audit record completes.
pub Keeps-audited :
    {s t : State} {d : ℤ} (c : EffectContext) (type : String) (payload : Dict Scalar)
    → Keeps s d t
    → Keeps s d (audit t c type payload)
Keeps-audited {s} {t} {d} c type payload k =
    Keeps-delta (right_zero d) (Keeps-trans k (Keeps-audit t c type payload))

pub Keeps-same :
    {s t : State}
    → t.participants ≡ s.participants
    → t.audit ≡ s.audit
    → t.version ≡ s.version
    → t.influence ≡ s.influence
    → Keeps s (pos 0) t
Keeps-same p a v i = record {
  moves = Moves-same p a v;
  counted = λ h. subst (All IsCounted) (sym i) h;
}

pub Keeps-modify :
    (s : State) (k : String) (f : Participant → Participant) (p : Participant) (n : ℤ)
    → lookup k s.participants ≡ some p
    → (f p).resources ≡ p.resources +ℤ n
    → (IsSolvent p → IsSolvent (f p))
    → ((q : Participant) → q.regime_ability_used ≡ true → (f q).regime_ability_used ≡ true)
    → Keeps s n (record s { participants = modify k f s.participants })
Keeps-modify s k f p n e r v u = record { moves = Moves-modify s k f p n e r v u; counted = λ h. h }

-- `0 - n`
abbrev pub minus : ℤ → ℤ
minus n = pos 0 -ℤ n

pub Keeps-take :
    (s : State) (k : String) (p : Participant) (n : ℤ)
    → lookup k s.participants ≡ some p
    → n ≤ℤ p.resources
    → Keeps s (minus n) (record s { participants = modify k (take_resources n) s.participants })
Keeps-take s k p n e le =
    Keeps-modify s k (take_resources n) p (minus n) e (grind int_laws)
      (λ v. record {
        resources_nonneg = grind (int_laws, v.resources_nonneg);
        points_nonneg = v.points_nonneg;
      })
      (λ q u. u)

pub Keeps-add :
    (s : State) (k : String) (p : Participant) (n : ℤ)
    → lookup k s.participants ≡ some p
    → (IsSolvent p → pos 0 ≤ℤ n)
    → Keeps s n (record s { participants = modify k (add_resources n) s.participants })
Keeps-add s k p n e le =
    Keeps-modify s k (add_resources n) p n e refl
      (λ v. record {
        resources_nonneg = grind (int_laws, v.resources_nonneg, le v);
        points_nonneg = v.points_nonneg;
      })
      (λ q u. u)

-- An application of a number of cubes that is not negative goes through.
pub influence-Keeps :
    (s : State) (pd_id : String) (type : InfluenceType) (country : CountryId) (n : ℕ)
    → Ends
        (λ r. Keeps s (pos 0) r.1)
        (or_throw (apply_direct_influence s pd_id type country (pos n)))
unfolding apply_direct_influence
influence-Keeps s pd_id type country n =
    let o = opposite_of type in
    let (r, e, _, _, _, _) = resolve_two_to_one_cancels n (cubes pd_id o s.influence) in
    rw (held_total-cubes pd_id o s.influence, e)
      (gives (record {
        moves = Moves-same refl refl refl;
        counted = λ h.
            add_cubes-IsCounted pd_id type country r.placed _
              (remove_cubes-IsCounted pd_id o r.opposite_removed s.influence h);
      }))

either-Keeps :
    (s : State) (b : Bool) (x y : Option EffectError × State)
    → Keeps s (pos 0) x.1
    → Keeps s (pos 0) y.1
    → Keeps s (pos 0) (if b then x else y).1
either-Keeps s true x y h k = h
either-Keeps s false x y h k = k

spend-Keeps :
    (s : State) (spend : ResourceSpend)
    → Keeps s (pos 0) (record_qualifying_resource_spend s spend).1
unfolding record_qualifying_resource_spend
spend-Keeps s spend =
    either-Keeps s _ _ _ (Keeps-same refl refl refl refl) (Keeps-same refl refl refl refl)

enough : (a b : ℤ) → ltb_ℤ a b ≡ false → b ≤ℤ a
enough a b h = ground arith

-- A payment that goes through takes its amount from the sum of the resources.
pub pay-Keeps : (s : State) (c : EffectContext) (n : ℤ) → Ends (Keeps s (minus n)) (pay s c n)
unfolding pay
pay-Keeps s c n = need (actor s c) invalid_effect_input _ λ p e.
    unless (ltb_ℤ p.resources n) insufficient_resources _ λ rich. gives (
      Keeps-delta (right_zero (minus n)) (
        Keeps-trans
          (Keeps-audited c _ _
            (Keeps-take s c.actor_participant_id p n e (enough p.resources n rich)))
          (spend-Keeps _ _)))

pub add_zero : (n : ℤ) → n ≡ n +ℤ pos 0
add_zero n = grind int_laws

back_and_forth : (a b c n : ℤ) → b ≡ a +ℤ minus n → c ≡ b +ℤ n → c ≡ a +ℤ pos 0
back_and_forth a b c n p q = grind int_laws

-- Resources that go from one participant to another, who may be the same.
pub handover-Keeps :
    (s : State) (from to : String) (p q : Participant) (n : ℤ)
    → lookup from s.participants ≡ some p
    → lookup to (modify from (take_resources n) s.participants) ≡ some q
    → n ≤ℤ p.resources
    → (IsSolvent p → pos 0 ≤ℤ n)
    → Keeps s (pos 0) (record s {
      participants = modify to (add_resources n) (modify from (take_resources n) s.participants);
    })
handover-Keeps s from to p q n e f le nonneg = record {
  moves = record {
    balance =
        back_and_forth (wealth s.participants) _ _ n
          (wealth-modify from (take_resources n) s.participants p (minus n) e (grind int_laws))
          (wealth-modify to (add_resources n) _ q n f refl);
    solvent = λ h.
        let lo = nonneg (AllValues-lookup IsSolvent from s.participants h e) in
        AllValues-modify IsSolvent to (add_resources n) _
          (λ r _ v. record {
            resources_nonneg = grind (int_laws, v.resources_nonneg, lo);
            points_nonneg = v.points_nonneg;
          })
          ((Keeps-take s from p n e le).moves.solvent h);
    used = λ k h.
        used-modify _ to (add_resources n) (λ r u. u) k
          (used-modify s.participants from (take_resources n) (λ r u. u) k h);
    same_version = refl;
    history = ([], sym (append-nil s.audit));
  };
  counted = λ h. h;
}

modify-missing :
    (k : String) (f : Participant → Participant) (d : Dict Participant)
    → lookup k d ≡ none
    → modify k f d ≡ d
modify-missing k f [] e = refl
modify-missing k f ((j, q) ∷ d) e = elim (Bool-cases (j == k)) [
  | inl hit ↦ absurd (some_ne_none (rw hit at e))
  | inr miss ↦ rw miss (ap (λ x. (j, q) ∷ x) (modify-missing k f d (rw miss at e)))
]
  where
    some_ne_none : some q ≡ none → ⊥
    some_ne_none e = cc

-- The ability of a participant is used up.
pub Keeps-use : (s : State) (k : String) → Keeps s (pos 0) (use_ability s k)
Keeps-use s k = elim (Option-cases (lookup k s.participants)) [
  | inl missing ↦ Keeps-same (modify-missing k _ s.participants missing) refl refl refl
  | inr (p, e) ↦
      Keeps-modify s k (λ r. record r { regime_ability_used = true }) p (pos 0) e
        (add_zero p.resources)
        (λ v. record { resources_nonneg = v.resources_nonneg; points_nonneg = v.points_nonneg })
        (λ r u. refl)
]

-- A step without a cost, after one that may have had one.
pub then-Keeps :
    {s t : State} {d : ℤ} {r : Result Failure State}
    → Keeps s d t
    → Ends (Keeps t (pos 0)) r
    → Ends (Keeps s d) r
then-Keeps k (gives l) = gives (Keeps-delta (right_zero _) (Keeps-trans k l))
then-Keeps k refuses = refuses

-- More of the audit trail.
pub Keeps-log :
    (s : State) (es : List AuditRecord) → Keeps s (pos 0) (record s { audit = s.audit ++ es })
Keeps-log s es = record {
  moves = record {
    balance = add_zero (wealth s.participants);
    solvent = λ h. h;
    used = λ k h. h;
    same_version = refl;
    history = (es, refl);
  };
  counted = λ h. h;
}

zero_left : (n : ℤ) → pos 0 +ℤ n ≡ n
zero_left n = grind int_laws

pub both_steps : {s t u : State} {d : ℤ} → Keeps s d t → Keeps t (pos 0) u → Keeps s d u
both_steps k l = Keeps-delta (right_zero _) (Keeps-trans k l)

pub free_first : {s t u : State} {d : ℤ} → Keeps s (pos 0) t → Keeps t d u → Keeps s d u
free_first k l = Keeps-delta (zero_left _) (Keeps-trans k l)

one_discard : (s : State) (id : String) → Keeps s (pos 0) (or_same s (discard_with_lifecycle s id))
unfolding discard_with_lifecycle
one_discard s id = elim (Option-cases (lookup id s.cards)) [
  | inl missing ↦ rw missing (Keeps-same refl refl refl refl)
  | inr (card, e) ↦ rw e (Keeps-same refl refl refl refl)
]

-- Discarding cards touches neither the participants nor the map.
pub discard_all-Keeps : (ids : List String) (s : State) → Keeps s (pos 0) (discard_all ids s)
unfolding discard_all
discard_all-Keeps [] s = Keeps-same refl refl refl refl
discard_all-Keeps (id ∷ ids) s =
    both_steps (one_discard s id) (discard_all-Keeps ids (or_same s (discard_with_lifecycle s id)))

-- A participant is still there after a write to one.
pub still_there :
    (k j : String) (f : Participant → Participant) (d : Dict Participant) (q : Participant)
    → lookup j d ≡ some q
    → (r : Participant) × (lookup j (modify k f d) ≡ some r)
still_there k j f d q e = elim (Bool-cases (k == j)) [
  | inl hit ↦ (f q, rw (lookup-modify k j f d, hit, e))
  | inr miss ↦ (q, rw (lookup-modify k j f d, miss, e))
]
