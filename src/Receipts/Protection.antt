-- ===== src/Receipts/Protection.antt =====
-- What `prune_state` of src/mutation/state.rs removes on request, and when it removes nothing.
pub mod Choice
use mathlib.Core.Path.{subst}
use text.Mathlib.Text.{starts_with}
use lspctl.Prelude.{
  String, ◌≡◌, ◌⊎◌, inl, inr, refl, sym, ap, true, false, not, ◌&&◌, ◌||◌, Option, none, some, List,
  [], ◌∷◌, ◌∙◌, All, Result, ok, err, arith, str_eq, eq_iff, if_rule, Bool-cases, if◌then◌else◌,
}
use lspctl.Json.{Json}
use lspctl.Map.{Map, lookup, insert, contains_key}
use lspctl.Map.Laws.{lookup-insert, contains_iff_lookup}
use lspctl.Edits.{contains}
use lspctl.Receipts.{StoredReceipt, select, identifiers_of, receipt_chain, receipt_chain_protected}
use lspctl.Receipts.Chain.{receipt_chain-IsClosed}
use lspctl.Receipts.Freedom.{IsFree, unprotected-IsFree, protected_not-IsFree}
use lspctl.Receipts.Prune.{
  PreviewFile, absent, refused, stored, Store, Target, preview_path, receipt_path, insert_chain,
  has_receipt, choose_chain, choose_preview, choose_receipt, choose, choose_all, prune_requested,
  exists_file,
}
use lspctl.Receipts.Protection.Choice.{Prunable, AllMayPrune, Keeps, choose-Decided}

module _ (store : Store) (ids : List String) where
  -- Every identifier may be pruned and its file is among the paths; or there are problems, and one
  -- that may not be pruned.
  Judged : List String → Map Target → List Json → Type 0
  Judged rest paths faults =
      (faults ≡ []) × All (λ id. Prunable store id × (contains_key id paths ≡ true)) rest
      ⊎ ((fault : Json) × (others : List Json) × (faults ≡ fault ∷ others)
          × ((id : String) × (contains rest id ≡ true) × ¬ Prunable store id))

  Chosen : List String → Map Target → Option (Map Target × List Json) → Type 0
  Chosen rest paths o =
      (more : Map Target) × (faults : List Json) × (o ≡ some (more, faults))
      × AllMayPrune store ids more
      × Keeps paths more
      × Judged rest more faults

  choose_all-Chosen :
      (rest : List String) (paths : Map Target)
      → ((k : String) → contains rest k ≡ true → contains ids k ≡ true)
      → AllMayPrune store ids paths
      → Chosen rest paths (choose_all store rest paths)
  unfolding choose_all Chosen Judged
  choose_all-Chosen [] paths asked all = (paths, [], refl, all, (λ k c. c), inl (refl, tt))
  choose_all-Chosen (id ∷ rest) paths asked all =
      let behind : ((k : String) → contains rest k ≡ true → contains ids k ≡ true) =
        λ k c. asked k (ground arith) in
      elim (choose-Decided store ids id paths (asked id (ground (arith, eq_iff id id))) all) [
        | inl (fault, e, bad) ↦
            let (more, faults, f, may, keeps, _) = choose_all-Chosen rest paths behind all in
            (
              more,
              fault ∷ faults,
              ground (arith, e, f),
              may,
              keeps,
              inr (fault, faults, refl, (id, ground (arith, eq_iff id id), bad)),
            )
        | inr (next, e, good, may, keeps, there) ↦
            let (more, faults, f, may', keeps', judged) = choose_all-Chosen rest next behind may in
            (
              more,
              faults,
              ground (arith, e, f),
              may',
              λ k c. keeps' k (keeps k c),
              elim judged [
                | inl (none_bad, rest_good) ↦ inl (none_bad, ((good, keeps' id there), rest_good))
                | inr (fault, others, g, (other, c, bad)) ↦
                    inr (fault, others, g, (other, ground arith, bad))
              ],
            )
      ]

  -- Deciding what may be pruned always ends. If each identifier asked for is that of a Preview which
  -- can be read and is not reserved, or of a Receipt whose chain is free (it holds a recovery that has
  -- ended, or no cleanup that is pending), then all of them are removed, and beside them only the
  -- chains of such Receipts, each as a whole. If one is not, there are problems, and nothing is removed.
  pub prune_requested-AllMayPrune :
      ((paths : Map Target) × (prune_requested store ids ≡ some (ok paths))
        × AllMayPrune store ids paths
        × All (λ id. Prunable store id × (contains_key id paths ≡ true)) ids)
      ⊎ ((fault : Json) × (faults : List Json) × (prune_requested store ids
            ≡ some (err (fault ∷ faults)))
          × ((id : String) × (contains ids id ≡ true) × ¬ Prunable store id))
  unfolding prune_requested Chosen Judged lookup
  prune_requested-AllMayPrune =
      let (paths, faults, e, may, keeps, judged) =
        choose_all-Chosen ids [] (λ k c. c) (λ id target found. ground arith) in
      elim judged [
        | inl (none_bad, good) ↦ inl (paths, ground (arith, e, none_bad), may, good)
        | inr (fault, others, g, bad) ↦ inr (fault, others, ground (arith, e, g), bad)
      ]
