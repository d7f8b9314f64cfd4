-- ===== src/Examples/ReceiptRuns.antt =====
-- Two linked Receipts, of which the first waits for its cleanup, and one that stands alone.
use lspctl.Prelude.{
  String, ◌≡◌, ◌⊎◌, ok, err, str_eq, if◌then◌else◌, Bool, true, false, Option, none, some, List, [],
  ◌∷◌, All, ◌&&◌,
}
use lspctl.Edits.{contains}
use lspctl.Json.{Json}
use lspctl.Map.{Map, contains_key}
use lspctl.Receipts.{
  StoredReceipt, Identifiers, identifiers_of, receipt_chain, select, expired_receipt_ids,
}
use lspctl.Receipts.Chain.{IsClosedAt, receipt_chain-IsClosed}
use lspctl.Receipts.Prune.{Store, Target, absent, stored, has_receipt, prune_requested}
use lspctl.Receipts.Protection.Choice.{AllMayPrune, Prunable}
use lspctl.Receipts.Protection.{prune_requested-AllMayPrune}
use lspctl.Receipts.Expiry.{MayExpire, MustStay, expired_receipt_ids-MayExpire}

abbrev receipt : String → Option String → Bool → StoredReceipt
receipt id linked pending = record {
  receipt_id = id;
  kind = "application_receipt";
  outcome = "applied";
  linked_receipt_id = linked;
  cleanup_pending = pending;
  expires_unix_seconds = 100;
}

abbrev receipts : List StoredReceipt
receipts =
    receipt "rcp_a" none true
    ∷ receipt "rcp_b" (some "rcp_a") false
    ∷ receipt "rcp_c" none false
    ∷ []

receipt_chain-IsClosed_example :
    (identifiers : Identifiers) × (receipt_chain receipts "rcp_b"
      ≡ some (select receipts identifiers))
    × (contains_key "rcp_b" identifiers ≡ true)
    × All (IsClosedAt identifiers) receipts
    × ((id : String)
        → contains (identifiers_of (select receipts identifiers)) id
          ≡ (has_receipt id receipts && contains_key id identifiers))
receipt_chain-IsClosed_example = receipt_chain-IsClosed receipts "rcp_b"

expired_receipt_ids-MayExpire_example :
    (ids : List String) × (expired_receipt_ids 200 receipts ≡ some ids)
    × ((id : String) → contains ids id ≡ true → MayExpire 200 receipts ids id)
    × ((id : String)
        → has_receipt id receipts ≡ true
        → (contains ids id ≡ true) ⊎ MustStay 200 receipts id)
expired_receipt_ids-MayExpire_example = expired_receipt_ids-MayExpire 200 receipts

abbrev kept_store : Store
kept_store = record {
  preview_file = λ id. if str_eq id "prv_a" then stored false else absent;
  receipts = receipts;
  transaction_exists = λ id. false;
}

abbrev requested : List String
requested = "prv_a" ∷ "rcp_c" ∷ []

prune_requested-AllMayPrune_example :
    ((paths : Map Target) × (prune_requested kept_store requested ≡ some (ok paths))
      × AllMayPrune kept_store requested paths
      × All (λ id. Prunable kept_store id × (contains_key id paths ≡ true)) requested)
    ⊎ ((fault : Json) × (faults : List Json) × (prune_requested kept_store requested
          ≡ some (err (fault ∷ faults)))
        × ((id : String) × (contains requested id ≡ true) × ¬ Prunable kept_store id))
prune_requested-AllMayPrune_example = prune_requested-AllMayPrune kept_store requested
