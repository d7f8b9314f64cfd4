-- ===== src/Prelude/Results.antt =====
-- Rust's `Result<A, E>`, with `?` as a bind.
use mathlib.Core.Option.{Option, none, some}
use mathlib.Core.Path.{◌≡◌, refl}

pub data Result {ℓ κ} (E : Type κ) (A : Type ℓ) : Type (ℓ ⊔ κ) where
  ok : A → Result E A
  err : E → Result E A

infixl 5 ◌>>=◌ ◌>>◌
abbrev pub ◌>>=◌ {ℓ κ μ} :
    {E : Type μ} {A : Type ℓ} {B : Type κ} → Result E A → (A → Result E B) → Result E B
ok a >>= f = f a
err e >>= f = err e

abbrev pub ◌>>◌ {ℓ μ} : {E : Type μ} {B : Type ℓ} → Result E (Unit {0}) → Result E B → Result E B
m >> k = m >>= λ _. k

-- `o.ok_or_else(|| e)`
abbrev pub ok_or {ℓ μ} : {E : Type μ} {A : Type ℓ} → Option A → E → Result E A
ok_or none e = err e
ok_or (some a) e = ok a

-- `r.map_err(f)`
abbrev pub map_err {ℓ μ ν} :
    {E : Type μ} {F : Type ν} {A : Type ℓ} → (E → F) → Result E A → Result F A
map_err f (ok a) = ok a
map_err f (err e) = err (f e)

-- What holds of both cases of a result, each under its equation.
pub result_rule {ℓ κ μ ν} :
    {E : Type ν} {A : Type ℓ} {B : Type κ} (P : B → Type μ) (r : Result E A) (f : E → B) (g : A → B)
    → ((e : E) → r ≡ err e → P (f e))
    → ((a : A) → r ≡ ok a → P (g a))
    → P (elim r [ err e ↦ f e | ok a ↦ g a ])
result_rule P (ok a) f g hf hg = hg a refl
result_rule P (err e) f g hf hg = hf e refl
