-- ===== src/Examples/DocumentRuns.antt =====
-- The theorems on Documents, at a store that has to evict.
use mathlib.Core.Path.{subst}
use lspctl.Prelude.{
  ◌≤◌, ◌<◌, String, ◌≡◌, refl, Bool, true, false, Option, none, some, ap, err, [], ◌∷◌, arith, ok,
  str_eq, eq_iff, if◌then◌else◌, saturating_add, ◌⊎◌,
}
use lspctl.Map.{insert, remove, lookup, contains_key}
use lspctl.Documents.{OpenDocument, RefreshOutcome, open_close, did_open, did_close}
use lspctl.Documents.Reading.{Attempt, ReadDocument, read_document, read_document_once}
use lspctl.Documents.Store.{
  evict_to_limits, least_used, allocate_version, refresh, refresh_open_documents, replace_document,
  get, done,
}
use lspctl.Documents.Consistency.{IsConsistent}
use lspctl.Documents.Refresh.{IsValid}
use lspctl.Documents.View.{View, InSync, notify_all, presented_of}
use lspctl.Documents.Total.{Returns, Accounts, refresh-IsValid, refresh_open_documents-IsValid}
use lspctl.Documents.Sync.{IsDigested, Tells, Keeps, refresh-InSync}
use lspctl.Documents.Recency.{replace_document-get, replace_document-oldest}
use lspctl.Documents.Versions.{IsCovered, issued, replace_document-versions}
use lspctl.Documents.Snapshot.{Saw, Torn, read_document-Saw}
use lspctl.Text.{is_utf8}
use lspctl.Failure.{file_uri}
use lspctl.Examples.{
  two_store, after_store, snapshot_b, document_a, document_c, host, full_store, snapshot_a, reading,
  attempt, digest_of, read_b, text_ab,
}

full_store-IsConsistent : IsConsistent full_store
unfolding lookup contains_key
full_store-IsConsistent = record {
  distinct = (refl, tt);
  total_exact = refl;
  keyed = λ uri doc h. ground (arith, eq_iff "file:///a" uri);
  room = omega arith;
}

full_store-IsValid : IsValid full_store
full_store-IsValid = record {
  consistent = full_store-IsConsistent;
  count_bound = omega arith;
  text_bound = omega arith;
}

-- the server shows the one open Document
abbrev server : View
server uri =
    if str_eq "file:///a" uri
    then some (record { language_id = "rust"; version = 1; text = 120 ∷ [] })
    else none

server-InSync : InSync server full_store
unfolding lookup notify_all
server-InSync = λ uri. step uri (str_eq "file:///a" uri)
  where
    step :
        (uri : String) (b : Bool)
        → (if b then some (record { language_id = "rust"; version = 1; text = 120 ∷ [] }) else none)
          ≡ presented_of
              (if b then some (record { snapshot = snapshot_a; last_used = 1 }) else none)
    step uri true = refl
    step uri false = refl

full_store-IsDigested : IsDigested host full_store
unfolding lookup
full_store-IsDigested = λ uri doc there. subst digested (first (str_eq "file:///a" uri) there) refl
  where
    digested : Option OpenDocument → Type 0
    digested none = Unit
    digested (some doc) = doc.snapshot.digest ≡ digest_of doc.snapshot.text

    first :
        {doc : OpenDocument} (b : Bool)
        → (if b then some document_a else none) ≡ some doc
        → some document_a ≡ some doc
    first true there = there
    first false there = cc

-- The Document that is read is not yet open.
read_b-Tells :
    (read : ReadDocument)
    → read_document host "/b" 10 reading ≡ ok read
    → Tells host full_store read
unfolding read_document read_document_once is_utf8 file_uri saturating_add lookup
read_b-Tells read made =
    let same : read_b ≡ read = ap (λ r. elim r [ ok d ↦ d | err _ ↦ read_b ]) made in
    subst (Tells host full_store) same (λ doc there e. cc)

refresh-InSync_example :
    Returns (Keeps host server) (refresh host full_store reading "/b" "rust" open_close)
refresh-InSync_example =
    refresh-InSync host full_store reading "/b" "rust" server full_store-IsValid server-InSync
      full_store-IsDigested read_b-Tells

refresh-IsValid_example :
    Returns (λ s' _. IsValid s') (refresh host full_store reading "/b" "rust" open_close)
refresh-IsValid_example =
    refresh-IsValid host full_store reading "/b" "rust" open_close full_store-IsValid

refresh_open_documents-IsValid_example :
    Returns
      (λ s' r. IsValid s' × Accounts 1 r)
      (refresh_open_documents host (λ path. reading) open_close full_store)
refresh_open_documents-IsValid_example =
    refresh_open_documents-IsValid host (λ path. reading) open_close full_store full_store-IsValid

replace_document-get_example :
    Returns
      (λ s' r.
        (outcome : RefreshOutcome) × (r ≡ ok outcome)
        × (get s' "file:///b" ≡ some outcome.snapshot))
      (replace_document host full_store read_b "rust" open_close)
replace_document-get_example =
    replace_document-get host full_store read_b "rust" open_close full_store-IsValid (omega arith)
      (omega arith)

read_document-Saw_example :
    (seen : Attempt) × ((seen ≡ attempt) ⊎ (seen ≡ attempt) × Torn attempt)
    × Saw host 10 seen text_ab "sha256:000"
unfolding read_document read_document_once is_utf8 file_uri saturating_add
read_document-Saw_example = read_document-Saw host "/b" 10 reading read_b (omega arith) refl

two_store-IsValid : IsValid two_store
unfolding lookup contains_key
two_store-IsValid = record {
  consistent = record {
    distinct = (refl, (refl, tt));
    total_exact = refl;
    keyed = λ uri doc h. ground (arith, eq_iff "file:///a" uri, eq_iff "file:///c" uri);
    room = omega arith;
  };
  count_bound = omega arith;
  text_bound = omega arith;
}

third_run :
    replace_document host two_store read_b "rust" open_close
    ≡ done after_store (
        ok (record {
          snapshot = snapshot_b;
          events = did_open snapshot_b ∷ did_close "file:///a" ∷ [];
        }))
unfolding replace_document evict_to_limits least_used allocate_version lookup insert remove
    contains_key saturating_add
third_run = refl

replace_document-oldest_example : 1 ≤ 2
unfolding lookup
replace_document-oldest_example =
    replace_document-oldest host two_store after_store read_b "rust" open_close
      (record { snapshot = snapshot_b; events = did_open snapshot_b ∷ did_close "file:///a" ∷ [] })
      "file:///a" "file:///c" document_a document_c two_store-IsValid (omega arith) (omega arith)
      third_run (λ h. absurd (ground (arith, eq_iff "file:///a" "file:///b")))
      (λ h. absurd (ground (arith, eq_iff "file:///c" "file:///b"))) refl refl refl

two_store-IsCovered : IsCovered two_store
unfolding lookup
two_store-IsCovered = λ uri doc h. ground arith

replace_document-versions_example :
    (issued two_store "file:///b" < 1)
    × IsCovered after_store
    × ((j : String) → issued two_store j ≤ issued after_store j)
unfolding lookup
replace_document-versions_example =
    replace_document-versions host two_store after_store read_b "rust" open_close
      (record { snapshot = snapshot_b; events = did_open snapshot_b ∷ did_close "file:///a" ∷ [] })
      two_store-IsValid two_store-IsCovered (omega arith) (omega arith) (omega arith) refl third_run
