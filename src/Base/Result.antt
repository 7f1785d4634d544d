-- ===== src/Base/Result.antt =====
-- A call that returns a value or raises. What a raising call wrote is the caller's to keep or to
-- roll back, so where it matters the state stands beside the result.
use mathlib.Core.Path.{◌≡◌, refl}
use mathlib.Core.Logic.{◌⊎◌, inl, inr}
use native.Mathlib.Omega.{arith}

pub data Result {ℓ} (E A : Type ℓ) : Type ℓ where
  ok : A → Result E A
  err : E → Result E A

infixl 5 ◌>>=◌ ◌>>◌
abbrev pub ◌>>=◌ {ℓ} : {E A B : Type ℓ} → Result E A → (A → Result E B) → Result E B
ok a >>= f = f a
err e >>= f = err e

abbrev pub ◌>>◌ {ℓ} : {E A B : Type ℓ} → Result E A → Result E B → Result E B
m >> k = m >>= λ _. k

-- What a chain that answers has passed through.
pub after_ok {ℓ} :
    {E A B : Type ℓ} (x : Result E A) (k : A → Result E B) (b : B) (C : Type ℓ)
    → ((a : A) → x ≡ ok a → k a ≡ ok b → C)
    → (x >>= k) ≡ ok b
    → C
after_ok (ok a) k b C use_it e = use_it a refl e
after_ok (err f) k b C use_it e = absurd (ground arith)

-- the value of a call that has returned
abbrev pub ok_or {ℓ} : {E A : Type ℓ} → Result E A → A → A
ok_or (ok a) b = a
ok_or (err e) b = b

pub result-cases {ℓ} :
    {E A : Type ℓ} (x : Result E A) → ((a : A) × (x ≡ ok a)) ⊎ ((e : E) × (x ≡ err e))
result-cases (ok a) = inl (a, refl)
result-cases (err e) = inr (e, refl)
