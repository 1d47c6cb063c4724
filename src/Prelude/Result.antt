-- ===== src/Prelude/Result.antt =====
-- Code that may raise: a value, or the exception's description.
use mathlib.Core.Path.{◌≡◌, refl}
use mathlib.Core.Bool.{Bool, true, false}

pub data Result {ℓ} (E A : Type ℓ) : Type ℓ where
  ok : A → Result E A
  err : E → Result E A

-- `if b: raise e`
abbrev pub reject {ℓ} : {E : Type ℓ} → Bool → E → Result E Unit
reject false e = ok tt
reject true e = err e

infixl 5 ◌>>=◌
-- The rest of a function body runs only if nothing was raised.
abbrev pub ◌>>=◌ {ℓ} : {E A B : Type ℓ} → Result E A → (A → Result E B) → Result E B
err raised >>= rest = err raised
ok value >>= rest = rest value

infixl 5 ◌>>◌
abbrev pub ◌>>◌ {ℓ} : {E B : Type ℓ} → Result E Unit → Result E B → Result E B
first >> rest = first >>= λ done. rest

-- A chain that succeeds passed its first test.
pub reject-eq-ok {ℓ} :
    {E B : Type ℓ} (b : Bool) (e : E) (k : Result E B) {v : B}
    → (reject b e >> k) ≡ ok v
    → (b ≡ false) × (k ≡ ok v)
reject-eq-ok true e k h = cc
reject-eq-ok false e k h = (refl, h)

pub reject-eq-ok_last {ℓ} :
    {E : Type ℓ} (b : Bool) (e : E) {v : Unit} → reject b e ≡ ok v → b ≡ false
reject-eq-ok_last true e h = cc
reject-eq-ok_last false e h = refl

-- A chain that succeeds has a first step that succeeded.
module _ {E A B : Type 0} where
  pub >>=-eq-ok :
      (first : Result E A) (rest : A → Result E B) {out : B}
      → (first >>= rest) ≡ ok out
      → (value : A) × (first ≡ ok value) × (rest value ≡ ok out)
  >>=-eq-ok (err raised) rest returned = cc
  >>=-eq-ok (ok value) rest returned = (value, refl, returned)
