-- ===== src/Commands/Dispatcher/Ensures.antt =====
-- dispatcher.ts: a handler that throws nothing, and what its success ensures.
use malign_ai.Base.{
  Bool, true, false, Option, none, some, ◌≡◌, refl, Result, ok, err, ◌>>=◌, ◌>>◌, fail_if, or_fail,
  subst, sym, ◌∙◌,
}
use malign_ai.Commands.Contract.{ErrorCode}
use malign_ai.Commands.Plan.{Failure, refusal}

-- The call returns a value with the property, or refuses with a code; it does not throw.
pub data Ensures {A : Type 0} (P : A → Type 0) (r : Result Failure A) : Type 0 where
  returns : (a : A) → r ≡ ok a → P a → Ensures P r
  refuses : (code : ErrorCode) → r ≡ err (refusal code) → Ensures P r

ok_inj : {A : Type 0} {a b : A} → ◌≡◌ {A = Result Failure A} (ok a) (ok b) → a ≡ b
ok_inj e = cc

module _ {B : Type 0} {P : B → Type 0} where
  pub after_fail_if :
      (b : Bool) (code : ErrorCode) (next : Result Failure B)
      → (b ≡ false → Ensures P next)
      → Ensures P (fail_if b (refusal code) >> next)
  after_fail_if true code next h = refuses code refl
  after_fail_if false code next h = h refl

  pub after_or_fail :
      {A : Type 0} (o : Option A) (code : ErrorCode) (next : A → Result Failure B)
      → ((a : A) → o ≡ some a → Ensures P (next a))
      → Ensures P (or_fail o (refusal code) >>= next)
  after_or_fail none code next h = refuses code refl
  after_or_fail (some a) code next h = h a refl

  pub after_ok :
      {A : Type 0} (r : Result Failure A) (a : A) (next : A → Result Failure B)
      → r ≡ ok a
      → Ensures P (next a)
      → Ensures P (r >>= next)
  after_ok (ok b) a next e h = subst (λ c. Ensures P (next c)) (sym (ok_inj e)) h
  after_ok (err f) a next e h = absurd (cc)

  pub after_refusals :
      {A : Type 0} {Q : A → Type 0} (r : Result Failure A) (next : A → Result Failure B)
      → Ensures Q r
      → ((a : A) → r ≡ ok a → Q a → Ensures P (next a))
      → Ensures P (r >>= next)
  after_refusals {Q = Q} (ok b) next (returns a e q) h = h b refl (subst Q (ok_inj (sym e)) q)
  after_refusals (ok b) next (refuses c e) h = absurd (cc)
  after_refusals (err f) next (returns a e q) h = absurd (cc)
  after_refusals (err f) next (refuses c e) h = refuses c (cc)

pub Ensures-map :
    {A : Type 0} {P Q : A → Type 0} {r : Result Failure A}
    → ((a : A) → P a → Q a)
    → Ensures P r
    → Ensures Q r
Ensures-map f (returns a e p) = returns a e (f a p)
Ensures-map f (refuses code e) = refuses code e

pub ensured :
    {A : Type 0} {P : A → Type 0} {r : Result Failure A} {a : A} → Ensures P r → r ≡ ok a → P a
ensured {P = P} (returns b e p) q = subst P (ok_inj (sym e ∙ q)) p
ensured (refuses c e) q = absurd (cc)

pub Ensures-both :
    {A : Type 0} {P Q : A → Type 0} {r : Result Failure A}
    → Ensures P r
    → Ensures Q r
    → Ensures (λ a. P a × Q a) r
Ensures-both {P = P} {Q = Q} p (returns a e q) = returns a e (ensured p e, q)
Ensures-both p (refuses c e) = refuses c e
