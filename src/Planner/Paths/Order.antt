-- ===== src/Planner/Paths/Order.antt =====
-- Paths beneath a path stand together in the order of paths, the path itself first.
use lspctl.Prelude.{String, ◌≡◌, refl, true, false, arith}
use lspctl.Map.{before}
use lspctl.Map.Order.{before-cons, before-nil, nil-before}
use lspctl.Planner.Paths.{path_starts_with}

pub starts_with-before : (k p : String) → path_starts_with k p ≡ true → before k p ≡ false
unfolding path_starts_with
starts_with-before String.[] String.[] h = refl
starts_with-before String.[] (String.◌∷◌ d t) h = ground arith
starts_with-before (String.◌∷◌ c s) String.[] h = before-nil (String.◌∷◌ c s)
starts_with-before (String.◌∷◌ c s) (String.◌∷◌ d t) h =
    ground (arith, before-cons c d s t, starts_with-before s t)

pub starts_with-between :
    (k j p : String)
    → path_starts_with k p ≡ true
    → before j k ≡ true
    → before j p ≡ false
    → path_starts_with j p ≡ true
unfolding path_starts_with
starts_with-between k String.[] String.[] h b n = refl
starts_with-between k String.[] (String.◌∷◌ d t) h b n = ground (arith, nil-before d t)
starts_with-between String.[] (String.◌∷◌ c s) p h b n = ground (arith, before-nil (String.◌∷◌ c s))
starts_with-between (String.◌∷◌ e u) (String.◌∷◌ c s) String.[] h b n =
    ground (arith, before-cons c e s u)
starts_with-between (String.◌∷◌ e u) (String.◌∷◌ c s) (String.◌∷◌ d t) h b n =
    ground (arith, before-cons c e s u, before-cons c d s t, starts_with-between u s t)

pub starts_with_self : (p : String) → path_starts_with p p ≡ true
unfolding path_starts_with
starts_with_self String.[] = refl
starts_with_self (String.◌∷◌ c s) = ground (arith, starts_with_self s)
