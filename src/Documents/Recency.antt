-- ===== src/Documents/Recency.antt =====
-- Which documents `evict_to_limits` drops: the least recently used, and never the active one.
use lspctl.Prelude.{
  ℕ, ◌≤◌, String, ◌≡◌, ◌≢◌, refl, false, none, some, List, [], ◌∷◌, arith, str_eq, eq_iff, length,
  Result, ok, inl, inr, Bool-cases, Option-cases,
}
use mathlib.Core.Path.{subst}
use lspctl.Failure.{ContractFailure}
use lspctl.Map.{Map, lookup}
use lspctl.Map.Laws.{IsDistinct, lookup-remove, lookup-insert}
use lspctl.Documents.{OpenDocument, DocumentStore, RefreshOutcome, TextSynchronization}
use lspctl.Documents.Reading.{Host, ReadDocument}
use lspctl.Documents.Store.{
  least_used, replace_document, entered_document, get, Run, done, panicked, out_of_fuel,
}
use lspctl.Documents.Consistency.{IsConsistent, remove_document-IsConsistent}
use lspctl.Documents.Eviction.{Evicts, within, drop_one, Evictable, Evicts-Evictable, candidate}
use lspctl.Documents.Refresh.{
  IsValid, versioned, snapshot_read, ready, replace_document-Evicts, enter-Evictable,
}
use lspctl.Documents.Total.{Returns}

-- Where there is no candidate, every document is the active one.
no_older :
    (active : String) (m : Map OpenDocument) (k : String) (doc : OpenDocument)
    → least_used active m ≡ none
    → lookup k m ≡ some doc
    → str_eq k active ≡ false
    → ⊥
unfolding least_used lookup
no_older active [] k doc h e n = cc
no_older active ((j, other) ∷ m) k doc h e n = ground (arith, eq_iff j k, no_older active m k doc)

-- The candidate is in the map at its own time of use, and no other document is older.
least_used-min :
    (active uri : String) (used : ℕ) (m : Map OpenDocument) (k : String) (doc : OpenDocument)
    → least_used active m ≡ some (uri, used)
    → lookup k m ≡ some doc
    → str_eq k active ≡ false
    → used ≤ doc.last_used
unfolding least_used lookup
least_used-min active uri used [] k doc h e n = cc
least_used-min active uri used ((j, other) ∷ m) k doc h e n =
    elim (Option-cases (least_used active m)) [
      | inl nobody ↦ ground (arith, nobody, eq_iff j k, no_older active m k doc nobody)
      | inr ((u, t), found) ↦ ground (
        arith,
        found,
        eq_iff j k,
        eq_iff j active,
        eq_iff k active,
        least_used-min active u t m k doc found,
      )
    ]

least_used-there :
    (active uri : String) (used : ℕ) (m : Map OpenDocument) (doc : OpenDocument)
    → least_used active m ≡ some (uri, used)
    → IsDistinct m
    → lookup uri m ≡ some doc
    → doc.last_used ≡ used
unfolding least_used lookup
least_used-there active uri used [] doc h d e = cc
least_used-there active uri used ((j, other) ∷ m) doc h d e =
    ground
      (arith, eq_iff j uri, least_used-there active uri used m doc, candidate active uri used m)

pub Evicts-subset :
    {active : String} {s s' : DocumentStore} {uris : List String} (j : String) (doc : OpenDocument)
    → Evicts active s uris s'
    → IsConsistent s
    → lookup j s'.documents ≡ some doc
    → lookup j s.documents ≡ some doc
Evicts-subset j doc (within s _) c h = h
Evicts-subset {s} j doc (drop_one uri used _ found steps) c h = ground (
  arith,
  Evicts-subset j doc steps (remove_document-IsConsistent s uri c) h,
  lookup-remove uri j s.documents c.distinct,
)

-- What the loop drops was used no later than whatever it keeps beside the active document.
Evicts-oldest :
    {active : String} {s s' : DocumentStore} {uris : List String} (k j : String)
    (dropped kept : OpenDocument)
    → Evicts active s uris s'
    → IsConsistent s
    → str_eq j active ≡ false
    → lookup k s.documents ≡ some dropped
    → lookup k s'.documents ≡ none
    → lookup j s'.documents ≡ some kept
    → dropped.last_used ≤ kept.last_used
Evicts-oldest k j dropped kept (within s _) c n h gone there = cc
Evicts-oldest {active} {s} k j dropped kept (drop_one uri used over found steps) c n h gone there =
    elim (Bool-cases (str_eq uri k)) [
      | inl same ↦ ground (
        arith,
        same,
        eq_iff uri k,
        least_used-there active uri used s.documents dropped found c.distinct,
        least_used-min active uri used s.documents j kept found
            (Evicts-subset j kept (drop_one uri used over found steps) c there) n,
      )
      | inr other ↦
          Evicts-oldest k j dropped kept steps (remove_document-IsConsistent s uri c) n
            (ground (arith, other, lookup-remove uri k s.documents c.distinct)) gone there
    ]

-- The active document is in the store that the loop leaves.
Evicts-active :
    {active : String} {s s' : DocumentStore} {uris : List String} (doc : OpenDocument)
    → Evicts active s uris s'
    → Evictable active doc s
    → lookup active s'.documents ≡ some doc
Evicts-active doc steps e = (Evicts-Evictable doc steps e).there

-- What is kept and what is given up, of one run.
abbrev Kept :
    DocumentStore → ReadDocument → DocumentStore → Result ContractFailure RefreshOutcome → Type 0
Kept s read s' r =
    (outcome : RefreshOutcome) × (r ≡ ok outcome)
    × (get s' read.uri ≡ some outcome.snapshot)
    × ((k j : String) (dropped kept : OpenDocument)
        → k ≢ read.uri
        → j ≢ read.uri
        → lookup k s.documents ≡ some dropped
        → lookup k s'.documents ≡ none
        → lookup j s'.documents ≡ some kept
        → dropped.last_used ≤ kept.last_used)

replace_document_lem :
    (host : Host) (s : DocumentStore) (read : ReadDocument) (language_id : String)
    (sync : TextSynchronization)
    → IsValid s
    → 1 ≤ s.max_open_documents
    → length read.text ≤ s.max_total_text_bytes
    → Returns (Kept s read) (replace_document host s read language_id sync)
replace_document_lem host s read language_id sync valid allowed fits =
    let (s', uris, steps, run) =
      replace_document-Evicts s read language_id valid allowed fits host sync in
    let r = ready s read language_id valid allowed fits in
    let snapshot = snapshot_read s read language_id in
    let evictable = enter-Evictable s _ snapshot r in
    rw run (
      _,
      refl,
      unfold get in ground (arith, Evicts-active _ steps evictable),
      λ k j dropped kept other_k other_j was gone there.
          Evicts-oldest k j dropped kept steps evictable.consistent
            (ground (arith, eq_iff j read.uri))
            (ground (
              arith,
              rw r.documents at (
                  lookup-insert read.uri k
                    (entered_document (versioned s read language_id).0 snapshot)
                    (versioned s read language_id).0.documents),
              lookup-remove read.uri k s.documents valid.consistent.distinct,
              eq_iff read.uri k,
            ))
            gone there,
    )

-- Replacing a Document that fits in a valid store (the part of `refresh` behind its reading and its
-- limits) returns with success, and the store that it leaves holds, at that URI, the very snapshot
-- that it returns.
pub replace_document-get :
    (host : Host) (s : DocumentStore) (read : ReadDocument) (language_id : String)
    (sync : TextSynchronization)
    → IsValid s
    → 1 ≤ s.max_open_documents
    → length read.text ≤ s.max_total_text_bytes
    → Returns
        (λ s' r.
          (outcome : RefreshOutcome) × (r ≡ ok outcome) × (get s' read.uri ≡ some outcome.snapshot))
        (replace_document host s read language_id sync)
replace_document-get host s read language_id sync valid allowed fits =
    go (replace_document host s read language_id sync)
      (replace_document_lem host s read language_id sync valid allowed fits)
  where
    go :
        (run : Run RefreshOutcome)
        → Returns (Kept s read) run
        → Returns
            (λ s' r.
              (outcome : RefreshOutcome) × (r ≡ ok outcome)
              × (get s' read.uri ≡ some outcome.snapshot))
            run
    go (done s' r) h = (h.0, h.1, h.2)
    go panicked h = h
    go out_of_fuel h = h

-- Where replacing a Document that fits in a valid store gives up another one and keeps a third, the
-- one it gives up was used no later than the one it keeps.
pub replace_document-oldest :
    (host : Host) (s s' : DocumentStore) (read : ReadDocument) (language_id : String)
    (sync : TextSynchronization) (outcome : RefreshOutcome) (k j : String)
    (dropped kept : OpenDocument)
    → IsValid s
    → 1 ≤ s.max_open_documents
    → length read.text ≤ s.max_total_text_bytes
    → replace_document host s read language_id sync ≡ done s' (ok outcome)
    → k ≢ read.uri
    → j ≢ read.uri
    → lookup k s.documents ≡ some dropped
    → lookup k s'.documents ≡ none
    → lookup j s'.documents ≡ some kept
    → dropped.last_used ≤ kept.last_used
replace_document-oldest host s s' read language_id sync outcome k j dropped kept valid allowed fits
      run other_k other_j was gone there =
    let kept_here : Returns (Kept s read) (done s' (ok outcome)) =
      subst (Returns (Kept s read)) run
        (replace_document_lem host s read language_id sync valid allowed fits) in
    kept_here.3 k j dropped kept other_k other_j was gone there
