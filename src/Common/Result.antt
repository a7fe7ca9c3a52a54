-- ===== src/Common/Result.antt =====
-- Fallible code: a Python exception, failed assertion or `exit(1)` is an `err`.
use mathlib.Core.Path.{◌≡◌, refl, subst}
use mathlib.Core.Bool.{Bool, true, false}
use mathlib.Core.Option.{Option, none, some}
use hor_net_nsdi.Common.Tests.{if◌then◌else◌}

pub data Result {ℓ κ} (E : Type κ) (A : Type ℓ) : Type (ℓ ⊔ κ) where
  ok : A → Result E A
  err : E → Result E A

module _ {ε} {E : Type ε} where
  infixl 5 ◌>>=◌
  unfoldable pub ◌>>=◌ {ℓ κ} :
      {A : Type ℓ} {B : Type κ} → Result E A → (A → Result E B) → Result E B
  ok a >>= f = f a
  err e >>= f = err e

  -- A lookup that raises `e` where nothing is found.
  unfoldable pub or_err {ℓ} : {A : Type ℓ} → Option A → E → Result E A
  or_err (some a) e = ok a
  or_err none e = err e

  pub >>=-eq-ok {ℓ κ} :
      {A : Type ℓ} {B : Type κ} (m : Result E A) (f : A → Result E B) {b : B}
      → (m >>= f) ≡ ok b
      → (a : A) × (m ≡ ok a) × (f a ≡ ok b)
  unfolding ◌>>=◌
  >>=-eq-ok (ok a) f h = (a, refl, h)
  >>=-eq-ok (err e) f h = cc

-- What holds of the result, if there is one.
pub data Ensures {ℓ κ μ} {E : Type κ} {A : Type ℓ} (P : A → Type μ)
    : Result E A → Type (ℓ ⊔ κ ⊔ μ) where
  done : {a : A} → P a → Ensures P (ok a)
  failed : {e : E} → Ensures P (err e)

module _ {ℓ κ ε μ} {E : Type ε} {A : Type ℓ} {B : Type κ} (P : B → Type μ) where
  pub Ensures-bind {ν} :
      (Q : A → Type ν) (m : Result E A) (f : A → Result E B)
      → Ensures Q m
      → ((a : A) → Q a → Ensures P (f a))
      → Ensures P (m >>= f)
  unfolding ◌>>=◌
  Ensures-bind Q (ok a) f (done q) h = h a q
  Ensures-bind Q (err e) f q h = failed

  pub Ensures-or_err :
      (o : Option A) (e : E) (f : A → Result E B)
      → ((a : A) → o ≡ some a → Ensures P (f a))
      → Ensures P (or_err o e >>= f)
  unfolding ◌>>=◌ or_err
  Ensures-or_err (some a) e f h = h a refl
  Ensures-or_err none e f h = failed

module _ {κ ε μ} {E : Type ε} {B : Type κ} (P : B → Type μ) where
  pub Ensures-if :
      (t : Bool) (x y : Result E B)
      → (t ≡ true → Ensures P x)
      → (t ≡ false → Ensures P y)
      → Ensures P (if t then x else y)
  Ensures-if true x y hx hy = hx refl
  Ensures-if false x y hx hy = hy refl

  Ensures-ok : (b : B) → Ensures {E = E} P (ok b) → P b
  Ensures-ok b (done p) = p

  pub Ensures-elim : (r : Result E B) (b : B) → Ensures P r → r ≡ ok b → P b
  Ensures-elim r b p e = Ensures-ok b (subst (Ensures P) e p)

pub Ensures-any {ℓ κ} : {E : Type κ} {A : Type ℓ} (r : Result E A) → Ensures (λ _. Unit {0}) r
Ensures-any (ok a) = done tt
Ensures-any (err e) = failed

pub Ensures-weaken {ℓ κ μ ν} :
    {E : Type κ} {A : Type ℓ} (Q : A → Type μ) (P : A → Type ν) (r : Result E A)
    → ((a : A) → Q a → P a)
    → Ensures Q r
    → Ensures P r
Ensures-weaken Q P (ok a) h (done q) = done (h a q)
Ensures-weaken Q P (err e) h q = failed

pub Ensures-self {ℓ κ} : {E : Type κ} {A : Type ℓ} (r : Result E A) → Ensures (λ a. r ≡ ok a) r
Ensures-self (ok a) = done refl
Ensures-self (err e) = failed
