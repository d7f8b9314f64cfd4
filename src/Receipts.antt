-- ===== src/Receipts.antt =====
-- Chains of linked Receipts, and which of them expire together, of src/mutation/state.rs.
pub mod Chain
pub mod Expiry
pub mod Prune
pub mod Freedom
pub mod Protection
use lspctl.Prelude.{
  ℕ, zero, suc, ◌+◌, ◌*◌, String, Bool, true, false, not, ◌&&◌, ◌||◌, Option, none, some, List, [],
  ◌∷◌, ◌++◌, str_eq, length, ◌==◌, leb, if◌then◌else◌,
}
use lspctl.Map.{Map, contains_key, insert}

-- what of a stored Receipt decides about its chain; the time is in seconds since the year 1970
pub record StoredReceipt : Type 0 where
  pub receipt_id : String
  pub kind : String
  pub outcome : String
  pub linked_receipt_id : Option String
  pub cleanup_pending : Bool
  pub expires_unix_seconds : ℕ

-- `BTreeSet<String>`
abbrev pub Identifiers : Type 0
Identifiers = Map (Unit {0})

-- `linked.is_some_and(|linked| identifiers.contains(linked))`
unfoldable pub links_into : Option String → Identifiers → Bool
unfolding contains_key
links_into none identifiers = false
links_into (some linked) identifiers = contains_key linked identifiers

unfoldable pub insert_linked : Option String → Identifiers → Identifiers
unfolding insert
insert_linked none identifiers = identifiers
insert_linked (some linked) identifiers = insert linked tt identifiers

-- the body of the loop over the records
unfoldable pub follow : StoredReceipt → Identifiers → Identifiers
unfolding contains_key links_into insert_linked insert
follow r identifiers =
    if contains_key r.receipt_id identifiers || links_into r.linked_receipt_id identifiers
    then insert_linked r.linked_receipt_id (insert r.receipt_id tt identifiers)
    else identifiers

unfoldable pub follow_all : List StoredReceipt → Identifiers → Identifiers
unfolding follow
follow_all [] identifiers = identifiers
follow_all (r ∷ rest) identifiers = follow_all rest (follow r identifiers)

-- the outer loop; `none` where the fuel runs out
unfoldable pub saturate : ℕ → List StoredReceipt → Identifiers → Option Identifiers
unfolding follow_all
saturate zero receipts identifiers = none
saturate (suc fuel) receipts identifiers =
    let after = follow_all receipts identifiers in
    let rest = saturate fuel receipts after in
    if length after == length identifiers then some after else rest

unfoldable pub select : List StoredReceipt → Identifiers → List StoredReceipt
unfolding contains_key
select [] identifiers = []
select (r ∷ rest) identifiers =
    if contains_key r.receipt_id identifiers
    then r ∷ select rest identifiers
    else select rest identifiers

-- each round but the last finds an identifier of a record, or one that it links to
unfoldable pub receipt_chain : List StoredReceipt → String → Option (List StoredReceipt)
unfolding saturate select
receipt_chain receipts start =
    elim (saturate (length receipts + length receipts + 2) receipts ((start, tt) ∷ [])) [
      | none ↦ none
      | some identifiers ↦ some (select receipts identifiers)
    ]

abbrev terminal_recovery : StoredReceipt → Bool
terminal_recovery r =
    str_eq r.kind "recovery_receipt"
    && (str_eq r.outcome "restored" || str_eq r.outcome "accepted_current")
    && not r.cleanup_pending

unfoldable pub any_terminal : List StoredReceipt → Bool
any_terminal [] = false
any_terminal (r ∷ rest) = terminal_recovery r || any_terminal rest

unfoldable pub any_pending : List StoredReceipt → Bool
any_pending [] = false
any_pending (r ∷ rest) = r.cleanup_pending || any_pending rest

unfoldable pub receipt_chain_protected : List StoredReceipt → Bool
unfolding any_terminal any_pending
receipt_chain_protected chain = not (any_terminal chain) && any_pending chain

unfoldable pub all_expired : ℕ → List StoredReceipt → Bool
all_expired now [] = true
all_expired now (r ∷ rest) = leb r.expires_unix_seconds now && all_expired now rest

abbrev pub identifiers_of : List StoredReceipt → List String
identifiers_of [] = []
identifiers_of (r ∷ rest) = r.receipt_id ∷ identifiers_of rest

unfoldable pub visit : List StoredReceipt → Identifiers → Identifiers
unfolding insert
visit [] visited = visited
visit (r ∷ rest) visited = visit rest (insert r.receipt_id tt visited)

-- the loop of `expired_receipt_ids`, over the receipts that are still to be visited
unfoldable pub expire_each :
    ℕ → List StoredReceipt → List StoredReceipt → Identifiers → Option (List String)
unfolding contains_key receipt_chain all_expired receipt_chain_protected visit
expire_each now receipts [] visited = some []
expire_each now receipts (r ∷ rest) visited =
    let skipped = expire_each now receipts rest visited in
    if contains_key r.receipt_id visited
    then skipped
    else elim (receipt_chain receipts r.receipt_id) [
      | none ↦ none
      | some chain ↦ elim (expire_each now receipts rest (visit chain visited)) [
        | none ↦ none
        | some later ↦
            if all_expired now chain && not (receipt_chain_protected chain)
            then some (identifiers_of chain ++ later)
            else some later
      ]
    ]

unfoldable pub expired_receipt_ids : ℕ → List StoredReceipt → Option (List String)
unfolding expire_each
expired_receipt_ids now receipts = expire_each now receipts receipts []
