-- ===== src/Planner/Run.antt =====
-- How a call ends that may panic, or run out of the fuel that a loop was given.
use lspctl.Prelude.{Option, none, some}

pub data Run {ℓ} (A : Type ℓ) : Type ℓ where
  done : A → Run A
  panicked : Run A
  out_of_fuel : Run A

infixl 5 ◌>>=◌
abbrev pub ◌>>=◌ {ℓ κ} : {A : Type ℓ} {B : Type κ} → Run A → (A → Run B) → Run B
done a >>= f = f a
panicked >>= f = panicked
out_of_fuel >>= f = out_of_fuel

-- `o.unwrap()`
abbrev pub unwrap {ℓ} : {A : Type ℓ} → Option A → Run A
unwrap none = panicked
unwrap (some a) = done a
