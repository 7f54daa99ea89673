-- ===== src/Common/Results.antt =====
-- Go's (value, error) pairs: a value or an error.
use mathlib.Core.Bool.{Bool, true, false}
use mathlib.Core.Path.{◌≡◌, refl}
use mathlib.Core.Logic.{◌⊎◌, inl, inr}
use mathlib.Core.Option.{Option, none, some}

pub data Result {ℓ} (E : Type ℓ) (A : Type ℓ) : Type ℓ where
  ok : A → Result E A
  err : E → Result E A

infixl 5 ◌>>=◌ ◌>>◌
abbrev pub ◌>>=◌ {ℓ} : {E A B : Type ℓ} → Result E A → (A → Result E B) → Result E B
ok a >>= f = f a
err e >>= f = err e

abbrev pub ◌>>◌ : {E B : Type 0} → Result E Unit → Result E B → Result E B
m >> k = m >>= λ _. k

-- if refused { return e }
abbrev pub reject : {E : Type 0} → Bool → E → Result E Unit
reject true e = err e
reject false e = ok tt

abbrev pub or_fail {ℓ} : {E A : Type ℓ} → Option A → E → Result E A
or_fail none e = err e
or_fail (some a) e = ok a

-- A chain gives a value when its first call does and the rest does on that value.
pub bind_ok {ℓ} :
    {E A B : Type ℓ} (m : Result E A) (f : A → Result E B) (b : B)
    → (m >>= f) ≡ ok b
    → (a : A) × (m ≡ ok a) × (f a ≡ ok b)
bind_ok (ok a) f b h = (a, refl, h)
bind_ok (err e) f b h = cc

pub reject_ok : {E : Type 0} (b : Bool) (e : E) (u : Unit) → reject b e ≡ ok u → b ≡ false
reject_ok true e u h = cc
reject_ok false e u h = refl

pub or_fail_ok {ℓ} : {E A : Type ℓ} (o : Option A) (e : E) (a : A) → or_fail o e ≡ ok a → o ≡ some a
or_fail_ok none e a h = cc
or_fail_ok (some b) e a h = cc

pub reject_bind_ok :
    {E B : Type 0} (b : Bool) (e : E) (k : Result E B) (v : B)
    → (reject b e >> k) ≡ ok v
    → (b ≡ false) × (k ≡ ok v)
reject_bind_ok true e k v h = cc
reject_bind_ok false e k v h = (refl, h)

pub Result-cases {ℓ} :
    {E A : Type ℓ} (r : Result E A) → ((a : A) × (r ≡ ok a)) ⊎ ((e : E) × (r ≡ err e))
Result-cases (ok a) = inl (a, refl)
Result-cases (err e) = inr (e, refl)

pub ok_injective {ℓ} : {E A : Type ℓ} (a b : A) → (let r : Result E A = ok a in r) ≡ ok b → a ≡ b
ok_injective a b h = cc
