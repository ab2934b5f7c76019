-- ===== src/Effects/Ends.antt =====
-- How a handler ends, and one rule for each step of its body.
use malign_ai.Base.{
  Bool, true, false, Option, none, some, ◌≡◌, refl, subst, Result, ok, err, ◌>>=◌, ◌>>◌,
  if◌then◌else◌,
}
use malign_ai.Effects.Types.{EffectError, Failure, rejected}
use malign_ai.Effects.Resources.{or_reject, reject_if}

-- A result with the property, or an error code; no exception.
pub data Ends {A : Type 0} (P : A → Type 0) : Result Failure A → Type 0 where
  gives : {a : A} → P a → Ends P (ok a)
  refuses : {e : EffectError} → Ends P (err (rejected e))

module _ {A B : Type 0} {P : B → Type 0} where
  pub need :
      (o : Option A) (e : EffectError) (f : A → Result Failure B)
      → ((a : A) → o ≡ some a → Ends P (f a))
      → Ends P (or_reject o e >>= f)
  need none e f h = refuses
  need (some a) e f h = h a refl

  pub next :
      {Q : A → Type 0} (m : Result Failure A) (f : A → Result Failure B)
      → Ends Q m
      → ((a : A) → Q a → Ends P (f a))
      → Ends P (m >>= f)
  next _ f (gives q) h = h _ q
  next _ f refuses h = refuses

ok_inj : {A : Type 0} {a b : A} → ◌≡◌ {A = Result Failure A} (ok a) (ok b) → a ≡ b
ok_inj e = cc

err_ne_ok : {A : Type 0} {b : A} {x : Failure} → ◌≡◌ {A = Result Failure A} (err x) (ok b) → ⊥
err_ne_ok e = cc

module _ {B : Type 0} {P : B → Type 0} where
  pub unless :
      (b : Bool) (e : EffectError) (k : Result Failure B)
      → (b ≡ false → Ends P k)
      → Ends P (reject_if b e >> k)
  unless true e k h = refuses
  unless false e k h = h refl

  pub pick :
      (b : Bool) {x y : Result Failure B}
      → (b ≡ true → Ends P x)
      → (b ≡ false → Ends P y)
      → Ends P (if b then x else y)
  pick true h k = h refl
  pick false h k = k refl

  pub Ends-ok : {r : Result Failure B} {b : B} → Ends P r → r ≡ ok b → P b
  Ends-ok (gives p) e = subst P (ok_inj e) p
  Ends-ok refuses e = absurd (err_ne_ok e)
