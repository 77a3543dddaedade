-- ===== src/Base/Result.antt =====
-- A C function that returns a result code and fills its output only on success: the output, or the
-- code of the failure.
use mathlib.Core.Bool.{Bool, true, false}
use mathlib.Core.Option.{Option, none, some}
use mathlib.Core.Path.{◌≡◌, refl}

pub data Result {ε α} (E : Type ε) (A : Type α) : Type (ε ⊔ α) where
  err : E → Result E A
  ok : A → Result E A

module _ {ε} {E : Type ε} where
  -- `if (!f(..., &a)) return e;`
  abbrev pub required {α} : {A : Type α} → E → Option A → Result E A
  required code (some value) = ok value
  required code none = err code

  pub required-eq-ok {α} :
      {A : Type α} (code : E) (found : Option A) {value : A}
      → required code found ≡ ok value
      → found ≡ some value
  required-eq-ok code (some value) h = cc
  required-eq-ok code none h = cc

  -- `if (test) return e;`
  abbrev pub refuse_if : Bool → E → Result E (Unit {0})
  refuse_if false code = ok tt
  refuse_if true code = err code

  pub refuse_if-eq-ok :
      (test : Bool) (code : E) {u : Unit {0}} → refuse_if test code ≡ ok u → test ≡ false
  refuse_if-eq-ok false code h = refl
  refuse_if-eq-ok true code h = cc

module _ {ε α β} {E : Type ε} {A : Type α} {B : Type β} where
  -- `result = f(..., &a); if (result != OK) return result;`
  infixl 5 ◌>>=◌
  abbrev pub ◌>>=◌ : Result E A → (A → Result E B) → Result E B
  err code >>= rest = err code
  ok value >>= rest = rest value

  pub >>=-eq-ok :
      (first : Result E A) (rest : A → Result E B) {last : B}
      → (first >>= rest) ≡ ok last
      → (value : A) × (first ≡ ok value) × (rest value ≡ ok last)
  >>=-eq-ok (err code) rest h = cc
  >>=-eq-ok (ok value) rest h = (value, refl, h)

module _ {ε β} {E : Type ε} {B : Type β} where
  infixl 5 ◌>>◌
  abbrev pub ◌>>◌ : Result E (Unit {0}) → Result E B → Result E B
  check >> rest = check >>= λ _. rest
