-- ===== src/Documents/Sync.antt =====
-- `refresh` keeps the language server in step with the store: on every path the notifications that
-- it leaves pending, and then those it returns, turn the old view into that of the new store.
use mathlib.Core.Path.{subst}
use lspctl.Prelude.{
  ◌≤◌, String, ◌≡◌, refl, sym, ap, ◌∙◌, inl, inr, Bool-cases, str_eq, eq_iff, List, Bool, true,
  false, Option, none, some, [], ◌∷◌, arith, length, Result, ok, err, if_rule,
}
use lspctl.Map.{lookup, remove}
use lspctl.Map.Laws.{lookup-insert, lookup-remove}
use lspctl.Failure.{ContractFailure}
use lspctl.Documents.{
  DocumentStore, DocumentSnapshot, OpenDocument, RefreshOutcome, did_close, open_close,
}
use lspctl.Documents.Reading.{Host, Reading, ReadDocument, read_document}
use lspctl.Documents.Snapshot.{read_document-digested}
use lspctl.Documents.Consistency.{IsConsistent, remove_document-IsConsistent}
use lspctl.Documents.Store.{
  enter, entered_document, is_unchanged, remove_document, close_failed_document, never_fits,
  refresh_read, refresh, replace_document, next_version, allocate_version, open_events,
}
use lspctl.Documents.Eviction.{Evicts, within, drop_one, Evicts-SameFrame, close_events}
use lspctl.Documents.Refresh.{
  IsValid, existing, unchanged, versioned, snapshot_read, ready, replace_document-Evicts,
  enter-Evictable,
}
use lspctl.Documents.Total.{Returns, close_failed_rule}
use lspctl.Documents.View.{
  View, Shows, InSync, notify_all, notify_all-append, remove_document-Shows, Evicts-Shows,
  enter-Shows,
}

-- The digests in the store are those of its texts.
abbrev pub IsDigested : Host → DocumentStore → Type 0
IsDigested host s =
    (uri : String) (doc : OpenDocument)
    → lookup uri s.documents ≡ some doc
    → doc.snapshot.digest ≡ host.digest_raw_bytes doc.snapshot.text

-- The digest tells a text that is read from the one that the store has of the same Document.
abbrev pub Tells : Host → DocumentStore → ReadDocument → Type 0
Tells host s read =
    (doc : OpenDocument)
    → lookup read.uri s.documents ≡ some doc
    → host.digest_raw_bytes read.text ≡ host.digest_raw_bytes doc.snapshot.text
    → read.text ≡ doc.snapshot.text

-- The view after a call: the pending notifications, and the events of a success behind them.
abbrev pub StaysInSync : View → DocumentStore → Result ContractFailure RefreshOutcome → Type 0
StaysInSync v s (ok outcome) = Shows (notify_all (notify_all v s.pending_events) outcome.events) s
StaysInSync v s (err failure) = InSync v s

close_failed_document-InSync :
    (url : String → Option String) (s : DocumentStore) (path : String) (v : View)
    → IsValid s
    → InSync v s
    → InSync v (close_failed_document url s path open_close)
close_failed_document-InSync url s path v valid h =
    close_failed_rule (InSync v) url s path open_close h λ uri _ _ j.
      rw (notify_all-append v s.pending_events (did_close uri ∷ [])) (
        unfold notify_all in
        remove_document-Shows (notify_all v s.pending_events) s uri valid.consistent h j)

remove_document-IsDigested :
    (host : Host) (s : DocumentStore) (uri : String)
    → IsConsistent s
    → IsDigested host s
    → IsDigested host (remove_document s uri)
remove_document-IsDigested host s uri c h j doc there =
    h j doc (ground (arith, lookup-remove uri j s.documents c.distinct))

Evicts-IsDigested :
    {active : String} {s s' : DocumentStore} {uris : List String} (host : Host)
    → Evicts active s uris s'
    → IsConsistent s
    → IsDigested host s
    → IsDigested host s'
Evicts-IsDigested host (within s _) c h = h
Evicts-IsDigested {s} host (drop_one uri used _ found steps) c h =
    Evicts-IsDigested host steps (remove_document-IsConsistent s uri c)
      (remove_document-IsDigested host s uri c h)

abbrev IsDigestedAt : Host → Option OpenDocument → Type 0
IsDigestedAt host none = Unit
IsDigestedAt host (some doc) = doc.snapshot.digest ≡ host.digest_raw_bytes doc.snapshot.text

enter-IsDigested :
    (host : Host) (s t : DocumentStore) (snapshot : DocumentSnapshot)
    → IsConsistent s
    → t.documents ≡ remove snapshot.uri s.documents
    → snapshot.digest ≡ host.digest_raw_bytes snapshot.text
    → IsDigested host s
    → IsDigested host (enter t snapshot)
enter-IsDigested host s t snapshot c d own h j doc there =
    elim (Bool-cases (str_eq snapshot.uri j)) [
      | inl same ↦
          let entry : some (entered_document t snapshot) ≡ some doc =
            ground
              (arith, lookup-insert snapshot.uri j (entered_document t snapshot) t.documents) in
          subst (λ o. IsDigestedAt host o) entry own
      | inr other ↦ h j doc (
          ground (
            arith,
            rw d at (lookup-insert snapshot.uri j (entered_document t snapshot) t.documents),
            lookup-remove snapshot.uri j s.documents c.distinct,
          ))
    ]

-- An unchanged Document keeps its version.
kept_version :
    (s : DocumentStore) (found : Option OpenDocument) (uri : String) (same : Bool)
    (doc : OpenDocument)
    → found ≡ some doc
    → same ≡ true
    → (next_version s found uri same).1 ≡ doc.snapshot.version
unfolding allocate_version
kept_version s none uri same doc e h = cc
kept_version s (some other) uri true doc e h = ground arith
kept_version s (some other) uri false doc e h = cc

-- An unchanged Document has the text that is read.
kept_text :
    (host : Host) (s : DocumentStore) (read : ReadDocument) (language_id : String)
    → IsDigested host s
    → read.digest ≡ host.digest_raw_bytes read.text
    → Tells host s read
    → (doc : OpenDocument) → existing s read language_id ≡ some doc
    → unchanged s read language_id ≡ true
    → doc.snapshot.text ≡ read.text
kept_text host s read language_id digests own tells doc there same =
    let equal : doc.snapshot.digest ≡ read.digest = ground (
      arith,
      ap (λ o. is_unchanged o read.digest language_id) there,
      eq_iff doc.snapshot.digest read.digest,
    ) in
    sym (tells doc there (sym own ∙ sym equal ∙ digests read.uri doc there))

-- What a call keeps: the view in step, and the digests those of the texts.
abbrev pub Keeps : Host → View → DocumentStore → Result ContractFailure RefreshOutcome → Type 0
Keeps host v s r = StaysInSync v s r × IsDigested host s

module _ (host : Host) (s : DocumentStore) (v : View) (valid : IsValid s) (h : InSync v s)
    (digests : IsDigested host s) where
  failed-Keeps :
      (path : String)
      → InSync v (close_failed_document host.from_file_path s path open_close)
        × IsDigested host (close_failed_document host.from_file_path s path open_close)
  failed-Keeps path = (
    close_failed_document-InSync host.from_file_path s path v valid h,
    close_failed_rule (IsDigested host) host.from_file_path s path open_close digests
        (λ uri _ _. remove_document-IsDigested host s uri valid.consistent digests),
  )

  replace_document-Keeps :
      (read : ReadDocument) (language_id : String)
      → 1 ≤ s.max_open_documents
      → length read.text ≤ s.max_total_text_bytes
      → read.digest ≡ host.digest_raw_bytes read.text
      → Tells host s read
      → Returns (Keeps host v) (replace_document host s read language_id open_close)
  replace_document-Keeps read language_id allowed fits own tells =
      let (s', uris, steps, run) =
        replace_document-Evicts s read language_id valid allowed fits host open_close in
      let r = ready s read language_id valid allowed fits in
      let start = notify_all v s.pending_events in
      let c = (enter-Evictable s _ (snapshot_read s read language_id) r).consistent in
      let sent =
        open_events open_close (unchanged s read language_id) (existing s read language_id)
          (snapshot_read s read language_id) in
      rw
        (
          run,
          (Evicts-SameFrame steps).pending,
          r.pending,
          notify_all-append start sent (close_events open_close uris),
        )
        (
          Evicts-Shows (notify_all start sent) steps c (
              enter-Shows start s (versioned s read language_id).0 read language_id
                (existing s read language_id) (unchanged s read language_id) valid.consistent h refl
                refl r.documents (versioned s read language_id).1
                (λ doc there same. (
                  kept_version (remove_document s read.uri) (existing s read language_id) read.uri
                      (unchanged s read language_id) doc there same,
                  kept_text host s read language_id digests own tells doc there same,
                ))),
          Evicts-IsDigested host steps c (
              enter-IsDigested host s (versioned s read language_id).0
                (snapshot_read s read language_id) valid.consistent r.documents own digests),
        )

  refresh_read-Keeps :
      (read : Result ContractFailure ReadDocument) (path language_id : String)
      → ((d : ReadDocument)
          → read ≡ ok d
          → (d.digest ≡ host.digest_raw_bytes d.text) × Tells host s d)
      → Returns (Keeps host v) (refresh_read host s read path language_id open_close)
  unfolding refresh_read
  refresh_read-Keeps (err failure) path language_id good = failed-Keeps path
  refresh_read-Keeps (ok read) path language_id good =
      if_rule (Returns (Keeps host v)) (never_fits s read.text) _ _ (λ _. failed-Keeps read.path)
        λ fine.
          replace_document-Keeps read language_id (ground arith) (ground arith) (good read refl).0
            (good read refl).1

-- Let a store be valid, its digests those of its texts, and the server show it, texts included, once its
-- pending notifications have gone out. If a text that is read under the same URI as an open one, and
-- differs from it, has another digest, then the server shows the store again after a `refresh` that
-- synchronizes: a failure leaves what it closed pending, and a success returns its own events, the
-- evictions among them, to be sent behind the pending ones. The digests stay those of the texts.
pub refresh-InSync :
    (host : Host) (s : DocumentStore) (reading : Reading) (path language_id : String) (v : View)
    → IsValid s
    → InSync v s
    → IsDigested host s
    → ((read : ReadDocument)
        → read_document host path s.max_document_bytes reading ≡ ok read
        → Tells host s read)
    → Returns (Keeps host v) (refresh host s reading path language_id open_close)
unfolding refresh
refresh-InSync host s reading path language_id v valid h digests tells =
    refresh_read-Keeps host s v valid h digests
      (read_document host path s.max_document_bytes reading) path language_id
      (λ d made.
        (read_document-digested host path s.max_document_bytes reading d made, tells d made))
