-- ===== src/Receipts/Freedom.antt =====
-- Chains of Receipts that are not protected, and what a list of identifiers holds, for
-- src/mutation/state.rs.
use lspctl.Prelude.{
  ℕ, ◌≤◌, String, ◌≡◌, ◌⊎◌, inl, inr, refl, true, false, ◌||◌, List, [], ◌∷◌, ◌++◌, arith, All,
  Bool-cases,
}
use lspctl.Edits.{contains}
use lspctl.Map.{contains_key, insert}
use lspctl.Receipts.{
  StoredReceipt, Identifiers, any_terminal, any_pending, receipt_chain_protected, all_expired,
  identifiers_of, visit,
}
use lspctl.Receipts.Chain.Growth.{contains-insert}

-- A chain that holds a recovery which has ended, or in which no cleanup is pending.
abbrev pub IsFree : List StoredReceipt → Type 0
IsFree chain = (any_terminal chain ≡ true) ⊎ All (λ r. r.cleanup_pending ≡ false) chain

any_pending-All :
    (chain : List StoredReceipt)
    → any_pending chain ≡ false
    → All (λ r. r.cleanup_pending ≡ false) chain
unfolding any_pending
any_pending-All [] h = tt
any_pending-All (r ∷ rest) h = (ground arith, any_pending-All rest (ground arith))

All-any_pending :
    (chain : List StoredReceipt)
    → All (λ r. r.cleanup_pending ≡ false) chain
    → any_pending chain ≡ false
unfolding any_pending
All-any_pending [] h = refl
All-any_pending (r ∷ rest) (h, hs) = ground (arith, All-any_pending rest hs)

pub unprotected-IsFree :
    (chain : List StoredReceipt) → receipt_chain_protected chain ≡ false → IsFree chain
unfolding receipt_chain_protected
unprotected-IsFree chain h = elim (Bool-cases (any_terminal chain)) [
  | inl ended ↦ inl ended
  | inr going ↦ inr (any_pending-All chain (ground arith))
]

pub protected_not-IsFree :
    (chain : List StoredReceipt) → receipt_chain_protected chain ≡ true → ¬ IsFree chain
unfolding receipt_chain_protected
protected_not-IsFree chain h (inl ended) = ground arith
protected_not-IsFree chain h (inr idle) = ground (arith, All-any_pending chain idle)

pub all_expired-All :
    (now : ℕ) (chain : List StoredReceipt)
    → all_expired now chain ≡ true
    → All (λ r. r.expires_unix_seconds ≤ now) chain
unfolding all_expired
all_expired-All now [] h = tt
all_expired-All now (r ∷ rest) h = (ground arith, all_expired-All now rest (ground arith))

pub All-all_expired :
    (now : ℕ) (chain : List StoredReceipt)
    → All (λ r. r.expires_unix_seconds ≤ now) chain
    → all_expired now chain ≡ true
unfolding all_expired
All-all_expired now [] h = refl
All-all_expired now (r ∷ rest) (h, hs) = ground (arith, All-all_expired now rest hs)

pub contains-visit :
    (chain : List StoredReceipt) (visited : Identifiers) (k : String)
    → contains_key k (visit chain visited)
      ≡ (contains (identifiers_of chain) k || contains_key k visited)
unfolding visit
contains-visit [] visited k = refl
contains-visit (r ∷ rest) visited k = ground (
  arith,
  contains-visit rest (insert r.receipt_id tt visited) k,
  contains-insert r.receipt_id k visited,
)

pub contains-append :
    (xs ys : List String) (k : String) → contains (xs ++ ys) k ≡ (contains xs k || contains ys k)
contains-append [] ys k = refl
contains-append (x ∷ xs) ys k = ground (arith, contains-append xs ys k)
