-- ===== src/Receipts/Prune.antt =====
-- The part of `prune_state` (src/mutation/state.rs) that decides which files may be removed for the
-- identifiers that were requested. What the store's files say is an argument.
use text.Mathlib.Text.{starts_with}
use lspctl.Prelude.{
  String, Bool, true, false, not, ◌&&◌, ◌||◌, Option, none, some, List, [], ◌∷◌, Result, ok, err,
  str_eq, if◌then◌else◌,
}
use lspctl.Json.{Json, json, string}
use lspctl.Map.{Map, insert}
use lspctl.Receipts.{StoredReceipt, receipt_chain, receipt_chain_protected}

-- a Preview's file: none, one that `read_preview` refuses, or a record that is reserved or not
pub data PreviewFile : Type 0 where
  absent refused : PreviewFile
  stored : Bool → PreviewFile

pub record Store : Type 0 where
  pub preview_file : String → PreviewFile
  pub receipts : List StoredReceipt
  pub transaction_exists : String → Bool

pub data Target : Type 0 where
  preview_path receipt_path : Target

abbrev pub exists_file : PreviewFile → Bool
exists_file absent = false
exists_file _ = true

unfoldable pub has_receipt : String → List StoredReceipt → Bool
has_receipt id [] = false
has_receipt id (r ∷ rest) = str_eq r.receipt_id id || has_receipt id rest

abbrev rejected : String → String → String → Json
rejected id code message =
    json (("id", string id) ∷ ("code", string code) ∷ ("message", string message) ∷ [])

abbrev unknown : String → Json
unknown id = rejected id "unknown" "The state identifier is unknown."

unfoldable pub insert_chain : List StoredReceipt → Map Target → Map Target
unfolding insert
insert_chain [] paths = paths
insert_chain (r ∷ rest) paths = insert_chain rest (insert r.receipt_id receipt_path paths)

-- a Receipt's chain, whole or not at all
unfoldable pub choose_chain :
    String → Map Target → Option (List StoredReceipt) → Option (Result Json (Map Target))
unfolding receipt_chain_protected insert_chain
choose_chain id paths none = none
choose_chain id paths (some chain) =
    if receipt_chain_protected chain
    then some (
        err
          (rejected id "protected" "A nonterminal or cleanup-pending Receipt chain is protected."))
    else some (ok (insert_chain chain paths))

-- a Preview that has a file
unfoldable pub choose_preview :
    String → Map Target → PreviewFile → Option (Result Json (Map Target))
unfolding insert
choose_preview id paths (stored true) =
    some (err (rejected id "protected" "A reserved Preview is protected."))
choose_preview id paths (stored false) = some (ok (insert id preview_path paths))
choose_preview id paths absent = some (err (unknown id))
choose_preview id paths refused = some (err (unknown id))

module _ (store : Store) where
  unfoldable pub choose_receipt : String → Map Target → Option (Result Json (Map Target))
  unfolding has_receipt receipt_chain choose_chain
  choose_receipt id paths =
      if not (has_receipt id store.receipts)
      then some (err (unknown id))
      else choose_chain id paths (receipt_chain store.receipts id)

  -- one requested identifier
  unfoldable pub choose : String → Map Target → Option (Result Json (Map Target))
  unfolding choose_receipt choose_preview
  choose id paths =
      if starts_with id "prv_" && exists_file (store.preview_file id)
      then choose_preview id paths (store.preview_file id)
      else if starts_with id "prv_" || starts_with id "rcp_"
      then choose_receipt id paths
      else if starts_with id "txn_" && store.transaction_exists id
      then some (err (rejected id "protected" "Recovery transaction evidence is protected."))
      else some (err (unknown id))

  -- the loop over the requested identifiers; `none` where following a chain runs out of fuel
  unfoldable pub choose_all : List String → Map Target → Option (Map Target × List Json)
  unfolding choose
  choose_all [] paths = some (paths, [])
  choose_all (id ∷ ids) paths = elim (choose id paths) [
    | none ↦ none
    | some (ok more) ↦ choose_all ids more
    | some (err fault) ↦ elim (choose_all ids paths) [
      | none ↦ none
      | some (all, faults) ↦ some (all, fault ∷ faults)
    ]
  ]

  -- the files that are removed, or the problems that forbid to remove any
  unfoldable pub prune_requested : List String → Option (Result (List Json) (Map Target))
  unfolding choose_all
  prune_requested ids = elim (choose_all ids []) [
    | none ↦ none
    | some (paths, []) ↦ some (ok paths)
    | some (paths, fault ∷ faults) ↦ some (err (fault ∷ faults))
  ]
