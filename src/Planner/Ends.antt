-- ===== src/Planner/Ends.antt =====
-- What holds of a call's result where it returns one; a panic has none, and fuel never runs out.
use lspctl.Prelude.{◌≡◌, refl, Option, none, some}
use lspctl.Planner.Run.{Run, done, panicked, out_of_fuel, ◌>>=◌, unwrap}

abbrev pub Ends {ℓ} : {A : Type ℓ} → (A → Type 0) → Run A → Type 0
Ends P (done a) = P a
Ends P panicked = Unit
Ends P out_of_fuel = ⊥

pub bind-Ends {ℓ κ} :
    {A : Type ℓ} {B : Type κ} (P : A → Type 0) (Q : B → Type 0) (m : Run A) (f : A → Run B)
    → Ends P m
    → ((a : A) → P a → Ends Q (f a))
    → Ends Q (m >>= f)
bind-Ends P Q (done a) f h g = g a h
bind-Ends P Q panicked f h g = tt
bind-Ends P Q out_of_fuel f h g = elim h [ ]

pub unwrap-Ends {ℓ} :
    {A : Type ℓ} (P : A → Type 0) (o : Option A) → ((a : A) → o ≡ some a → P a) → Ends P (unwrap o)
unwrap-Ends P none h = tt
unwrap-Ends P (some a) h = h a refl

pub Ends-weaken {ℓ} :
    {A : Type ℓ} (P Q : A → Type 0) (m : Run A) → Ends P m → ((a : A) → P a → Q a) → Ends Q m
Ends-weaken P Q (done a) h g = g a h
Ends-weaken P Q panicked h g = tt
Ends-weaken P Q out_of_fuel h g = elim h [ ]
