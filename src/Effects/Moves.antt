-- ===== src/Effects/Moves.antt =====
-- What a handler may do to the state, step by step.
use mathlib.Core.List.{append-nil, append_assoc}
use malign_ai.Base.{
  String, Bool, true, false, none, some, List, [], ◌∷◌, ◌++◌, string_eq, ◌≡◌, refl, ◌∙◌, sym, ap,
  subst, arith, All, eq_iff, some_inj,
}
use malign_ai.Base.Int.{ℤ, pos, ◌+ℤ◌, int_laws}
use malign_ai.Base.Dict.{Dict, lookup, modify, AllValues, AllValues-modify}
use malign_ai.Effects.Types.{State, Participant, AuditRecord, EffectContext, Scalar}
use malign_ai.Effects.Resources.{audit}
use malign_ai.Effects.Influence.{IsCounted}
use malign_ai.Effects.Wealth.{wealth, wealth-modify, IsSolvent}

-- The participant's regime ability is used up.
abbrev pub used_in : Dict Participant → String → Bool
used_in d k = elim (lookup k d) [ none ↦ false | some p ↦ p.regime_ability_used ]

abbrev pub is_used : String → State → Bool
is_used k s = used_in s.participants k

-- From `s` to `t` the participants' resources change by `delta` in all, nobody gets into debt who
-- was not, no ability comes back, the version stays and the audit trail only grows.
pub record Moves (s : State) (delta : ℤ) (t : State) : Type 0 where
  pub balance : wealth t.participants ≡ wealth s.participants +ℤ delta
  pub solvent : AllValues IsSolvent s.participants → AllValues IsSolvent t.participants
  pub used : (k : String) → is_used k s ≡ true → is_used k t ≡ true
  pub same_version : t.version ≡ s.version
  pub history : (es : List AuditRecord) × (t.audit ≡ s.audit ++ es)

-- Beside that no stack of cubes gets below zero.
pub record Keeps (s : State) (delta : ℤ) (t : State) : Type 0 where
  pub moves : Moves s delta t
  pub counted : All IsCounted s.influence → All IsCounted t.influence

zero_sum : (a : ℤ) → a ≡ a +ℤ pos 0
zero_sum a = omega int_laws

pub add_sums : (a b c d e : ℤ) → b ≡ a +ℤ d → c ≡ b +ℤ e → c ≡ a +ℤ (d +ℤ e)
add_sums a b c d e p q = grind int_laws

pub Moves-trans : {s t u : State} {d e : ℤ} → Moves s d t → Moves t e u → Moves s (d +ℤ e) u
Moves-trans {s} {t} {u} {d} {e} m n = record {
  balance = add_sums (wealth s.participants) (wealth t.participants) _ d e m.balance n.balance;
  solvent = λ h. n.solvent (m.solvent h);
  used = λ k h. n.used k (m.used k h);
  same_version = n.same_version ∙ m.same_version;
  history =
      let (es, p) = m.history in
      let (fs, q) = n.history in (es ++ fs, q ∙ ap (λ x. x ++ fs) p ∙ append_assoc s.audit es fs);
}

-- A step that leaves participants, audit trail and version alone.
pub Moves-same :
    {s t : State}
    → t.participants ≡ s.participants
    → t.audit ≡ s.audit
    → t.version ≡ s.version
    → Moves s (pos 0) t
Moves-same {s} {t} p a v = record {
  balance = rw p (zero_sum (wealth s.participants));
  solvent = λ h. subst (AllValues IsSolvent) (sym p) h;
  used = λ k h. ap (λ d. used_in d k) p ∙ h;
  same_version = v;
  history = ([], a ∙ sym (append-nil s.audit));
}

pub Moves-audit :
    (s : State) (c : EffectContext) (type : String) (payload : Dict Scalar)
    → Moves s (pos 0) (audit s c type payload)
unfolding audit
Moves-audit s c type payload = record {
  balance = zero_sum (wealth s.participants);
  solvent = λ h. h;
  used = λ k h. h;
  same_version = refl;
  history = (_, refl);
}

pub used-modify :
    (d : Dict Participant) (k : String) (f : Participant → Participant)
    → ((q : Participant) → q.regime_ability_used ≡ true → (f q).regime_ability_used ≡ true)
    → (j : String) → used_in d j ≡ true
    → used_in (modify k f d) j ≡ true
used-modify [] k f u j h = h
used-modify ((i, q) ∷ d) k f u j h =
    ground (arith, eq_iff i k, eq_iff i j, eq_iff k j, u q, used-modify d k f u j)

-- A write to one participant.
pub Moves-modify :
    (s : State) (k : String) (f : Participant → Participant) (p : Participant) (n : ℤ)
    → lookup k s.participants ≡ some p
    → (f p).resources ≡ p.resources +ℤ n
    → (IsSolvent p → IsSolvent (f p))
    → ((q : Participant) → q.regime_ability_used ≡ true → (f q).regime_ability_used ≡ true)
    → Moves s n (record s { participants = modify k f s.participants })
Moves-modify s k f p n e r v u = record {
  balance = wealth-modify k f s.participants p n e r;
  solvent =
      AllValues-modify IsSolvent k f s.participants
        (λ q h. subst (λ x. IsSolvent x → IsSolvent (f x)) (some_inj (sym e ∙ h)) v);
  used = used-modify s.participants k f u;
  same_version = refl;
  history = ([], sym (append-nil s.audit));
}
