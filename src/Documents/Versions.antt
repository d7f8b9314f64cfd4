-- ===== src/Documents/Versions.antt =====
-- The versions that `allocate_version` gives out: each is greater than every earlier one of its URI.
use lspctl.Prelude.{
  ℕ, ◌≤◌, ◌<◌, String, ◌≡◌, refl, Bool, true, false, Option, none, some, arith, str_eq, eq_iff,
  if◌then◌else◌, length, Result, ok, i64_max, saturating_add, saturating_add_exact,
}
use mathlib.Core.Path.{subst}
use lspctl.Failure.{ContractFailure}
use lspctl.Map.{lookup}
use lspctl.Map.Laws.{lookup-insert, lookup-remove}
use lspctl.Documents.{OpenDocument, DocumentStore, RefreshOutcome, TextSynchronization}
use lspctl.Documents.Reading.{Host, ReadDocument}
use lspctl.Documents.Store.{
  remove_document, allocate_version, next_version, entered_document, replace_document, done,
}
use lspctl.Documents.Eviction.{Evicts-SameFrame}
use lspctl.Documents.Refresh.{
  IsValid, existing, unchanged, versioned, snapshot_read, ready, enter-Evictable,
  replace_document-Evicts,
}
use lspctl.Documents.Recency.{Evicts-subset}
use lspctl.Documents.Total.{Returns}

abbrev pub or_zero : Option ℕ → ℕ
or_zero none = 0
or_zero (some v) = v

-- The last version given out for a URI.
abbrev pub issued : DocumentStore → String → ℕ
issued s uri = or_zero (lookup uri s.next_versions)

-- No open document is ahead of what was given out for its URI.
abbrev pub IsCovered : DocumentStore → Type 0
IsCovered s =
    (uri : String) (doc : OpenDocument)
    → lookup uri s.documents ≡ some doc
    → doc.snapshot.version ≤ issued s uri

-- A version chosen by `next_version`: one that stays, or a new one, above all before it.
record IsChosen (s : DocumentStore) (found : Option OpenDocument) (uri : String) (same : Bool)
    (t : DocumentStore) (version : ℕ) : Type 0 where
  grows : same ≡ false → issued s uri < version
  covered : version ≤ issued t uri
  others : (j : String) → issued s j ≤ issued t j

allocated-IsChosen :
    (s : DocumentStore) (found : Option OpenDocument) (uri : String) (same : Bool)
    → issued s uri < i64_max
    → IsChosen s found uri same (allocate_version s uri).0 (allocate_version s uri).1
unfolding allocate_version
allocated-IsChosen s found uri same h = record {
  grows = λ _. omega (arith, saturating_add_exact i64_max (issued s uri) 1);
  covered = ground (arith, allocated uri, eq_iff uri uri);
  others =
      λ j. ground (arith, allocated j, eq_iff uri j, saturating_add_exact i64_max (issued s uri) 1);
}
  where
    allocated :
        (j : String)
        → issued (allocate_version s uri).0 j
          ≡ (if str_eq uri j then saturating_add i64_max (issued s uri) 1 else issued s j)
    allocated j =
        ground
          (arith, lookup-insert uri j (saturating_add i64_max (issued s uri) 1) s.next_versions)

next_version-IsChosen :
    (s : DocumentStore) (found : Option OpenDocument) (uri : String) (same : Bool)
    → ((doc : OpenDocument) → found ≡ some doc → doc.snapshot.version ≤ issued s uri)
    → issued s uri < i64_max
    → IsChosen s found uri same (next_version s found uri same).0 (next_version s found uri same).1
unfolding allocate_version
next_version-IsChosen s none uri true c h = allocated-IsChosen s none uri true h
next_version-IsChosen s none uri false c h = allocated-IsChosen s none uri false h
next_version-IsChosen s (some doc) uri true c h = record {
  grows = λ e. cc;
  covered = c doc refl;
  others = λ j. omega arith;
}
next_version-IsChosen s (some doc) uri false c h = allocated-IsChosen s (some doc) uri false h

-- What a run does to the versions.
abbrev Numbered :
    DocumentStore
    → ReadDocument
    → String
    → DocumentStore
    → Result ContractFailure RefreshOutcome
    → Type 0
Numbered s read language_id s' r =
    IsCovered s'
    × ((outcome : RefreshOutcome)
        → r ≡ ok outcome
        → unchanged s read language_id ≡ false
        → issued s read.uri < outcome.snapshot.version)
    × ((j : String) → issued s j ≤ issued s' j)

replace_document_lem :
    (host : Host) (s : DocumentStore) (read : ReadDocument) (language_id : String)
    (sync : TextSynchronization)
    → IsValid s
    → IsCovered s
    → issued s read.uri < i64_max
    → 1 ≤ s.max_open_documents
    → length read.text ≤ s.max_total_text_bytes
    → Returns (Numbered s read language_id) (replace_document host s read language_id sync)
replace_document_lem host s read language_id sync valid covered short allowed fits =
    let (s', uris, steps, run) =
      replace_document-Evicts s read language_id valid allowed fits host sync in
    let r = ready s read language_id valid allowed fits in
    let snapshot = snapshot_read s read language_id in
    let chosen =
      next_version-IsChosen (remove_document s read.uri) (existing s read language_id) read.uri
        (unchanged s read language_id) (covered read.uri) short in
    let consistent = (enter-Evictable s _ snapshot r).consistent in
    let frame = Evicts-SameFrame steps in
    rw run (
      λ j doc there. rw frame.versions (
          ground (
            arith,
            Evicts-subset j doc steps consistent there,
            rw r.documents at (
                lookup-insert read.uri j
                  (entered_document (versioned s read language_id).0 snapshot)
                  (versioned s read language_id).0.documents),
            lookup-remove read.uri j s.documents valid.consistent.distinct,
            eq_iff read.uri j,
            covered j doc,
            chosen.covered,
            chosen.others j,
          )),
      λ outcome e changed. ground (arith, e, chosen.grows changed),
      λ j. rw frame.versions (chosen.others j),
    )

-- Replacing a Document that fits in a valid store, where it is new or has changed, gives it a
-- version above every one that was given out for its URI before, also across a close, if those are
-- short of the greatest `i64` and cover the open ones. No version given out is forgotten, and the
-- open ones stay covered.
pub replace_document-versions :
    (host : Host) (s s' : DocumentStore) (read : ReadDocument) (language_id : String)
    (sync : TextSynchronization) (outcome : RefreshOutcome)
    → IsValid s
    → IsCovered s
    → issued s read.uri < i64_max
    → 1 ≤ s.max_open_documents
    → length read.text ≤ s.max_total_text_bytes
    → unchanged s read language_id ≡ false
    → replace_document host s read language_id sync ≡ done s' (ok outcome)
    → (issued s read.uri < outcome.snapshot.version)
      × IsCovered s'
      × ((j : String) → issued s j ≤ issued s' j)
replace_document-versions host s s' read language_id sync outcome valid covered short allowed fits
      changed run =
    let numbered : Returns (Numbered s read language_id) (done s' (ok outcome)) =
      subst (Returns (Numbered s read language_id)) run
        (replace_document_lem host s read language_id sync valid covered short allowed fits) in
    (numbered.1 outcome refl changed, numbered.0, numbered.2)
