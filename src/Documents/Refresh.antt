-- ===== src/Documents/Refresh.antt =====
-- `refresh`: it always returns, keeps the store valid, and fails only where the reading fails or the
-- Document does not fit.
use lspctl.Prelude.{
  ℕ, suc, ◌≤◌, String, ◌≡◌, refl, Bool, true, false, Option, none, some, List, [], ◌++◌, arith,
  eq_iff, length, ok, ap,
}
use lspctl.Map.{lookup, contains_key, remove}
use lspctl.Map.Laws.{lookup-remove, lookup-insert, contains_iff_lookup}
use lspctl.Documents.{OpenDocument, DocumentStore, DocumentSnapshot, TextSynchronization}
use lspctl.Documents.Reading.{Host, ReadDocument}
use lspctl.Documents.Store.{
  remove_document, done, enter, entered_document, next_version, new_snapshot, open_events,
  is_unchanged, allocate_version, with_events, replace_document,
}
use lspctl.Documents.Consistency.{IsConsistent, remove_document-IsConsistent, enter-IsConsistent}
use lspctl.Documents.Eviction.{Evicts, Evictable, evict_to_limits-Evicts, close_events}

-- A store between two calls: consistent, and within both limits.
pub record IsValid (s : DocumentStore) : Type 0 where
  pub consistent : IsConsistent s
  pub count_bound : length s.documents ≤ s.max_open_documents
  pub text_bound : s.total_text_bytes ≤ s.max_total_text_bytes

-- What holds of a store and of it with other versions holds after a version was chosen.
pub next_version_rule {ℓ} :
    (P : DocumentStore → Type ℓ) (s : DocumentStore) (existing : Option OpenDocument) (uri : String)
    (unchanged : Bool)
    → P s
    → P (allocate_version s uri).0
    → P (next_version s existing uri unchanged).0
unfolding allocate_version
next_version_rule P s none uri true h k = k
next_version_rule P s none uri false h k = k
next_version_rule P s (some doc) uri true h k = h
next_version_rule P s (some doc) uri false h k = k

-- The store `t` is `s` without the document at `uri`, with room for a text of `size` bytes.
pub record IsReady (s : DocumentStore) (uri : String) (size : ℕ) (t : DocumentStore) : Type 0 where
  pub documents : t.documents ≡ remove uri s.documents
  pub consistent : IsConsistent t
  pub absent : contains_key uri t.documents ≡ false
  pub total_fits : t.total_text_bytes ≤ t.max_total_text_bytes
  pub one_allowed : 1 ≤ t.max_open_documents
  pub fits : size ≤ t.max_total_text_bytes
  pub pending : t.pending_events ≡ s.pending_events
  pub clock : t.use_clock ≡ s.use_clock
  pub count_limit : t.max_open_documents ≡ s.max_open_documents
  pub text_limit : t.max_total_text_bytes ≡ s.max_total_text_bytes

module _ (s : DocumentStore) (uri : String) (size : ℕ) (v : IsValid s)
    (allowed : 1 ≤ s.max_open_documents) (fits : size ≤ s.max_total_text_bytes) where
  removed_absent : contains_key uri (remove uri s.documents) ≡ false
  removed_absent = ground (
    arith,
    contains_iff_lookup uri (remove uri s.documents),
    lookup-remove uri uri s.documents v.consistent.distinct,
    eq_iff uri uri,
  )

  remove_document-IsReady : IsReady s uri size (remove_document s uri)
  remove_document-IsReady = record {
    documents = refl;
    consistent = remove_document-IsConsistent s uri v.consistent;
    absent = removed_absent;
    total_fits = omega (arith, v.text_bound);
    one_allowed = allowed;
    fits = fits;
    pending = refl;
    clock = refl;
    count_limit = refl;
    text_limit = refl;
  }

  allocated-IsReady : IsReady s uri size (allocate_version (remove_document s uri) uri).0
  unfolding allocate_version
  allocated-IsReady =
      let c = remove_document-IsConsistent s uri v.consistent in
      record {
        documents = refl;
        consistent = record {
          distinct = c.distinct;
          total_exact = c.total_exact;
          keyed = c.keyed;
          room = c.room;
        };
        absent = removed_absent;
        total_fits = omega (arith, v.text_bound);
        one_allowed = allowed;
        fits = fits;
        pending = refl;
        clock = refl;
        count_limit = refl;
        text_limit = refl;
      }

  pub versioned-IsReady :
      (existing : Option OpenDocument) (unchanged : Bool)
      → IsReady s uri size (next_version (remove_document s uri) existing uri unchanged).0
  versioned-IsReady existing unchanged =
      next_version_rule (IsReady s uri size) (remove_document s uri) existing uri unchanged
        remove_document-IsReady allocated-IsReady

-- Entering a snapshot into a store that is ready for it lets the eviction end well.
pub enter-Evictable :
    (s t : DocumentStore) (snapshot : DocumentSnapshot)
    → IsReady s snapshot.uri (length snapshot.text) t
    → Evictable snapshot.uri (entered_document t snapshot) (enter t snapshot)
enter-Evictable s t snapshot r = record {
  consistent = enter-IsConsistent t snapshot r.consistent r.absent r.total_fits r.fits;
  there = ground (
    arith,
    lookup-insert snapshot.uri snapshot.uri (entered_document t snapshot) t.documents,
    eq_iff snapshot.uri snapshot.uri,
  );
  one_allowed = r.one_allowed;
  fits = r.fits;
}

-- The document that `refresh` enters, and the store with it in.
module _ (s : DocumentStore) (read : ReadDocument) (language_id : String) where
  abbrev pub existing : Option OpenDocument
  existing = lookup read.uri s.documents

  abbrev pub unchanged : Bool
  unchanged = is_unchanged existing read.digest language_id

  abbrev pub versioned : DocumentStore × ℕ
  versioned = next_version (remove_document s read.uri) existing read.uri unchanged

  abbrev pub snapshot_read : DocumentSnapshot
  snapshot_read = new_snapshot read language_id versioned.1

  abbrev pub entered : DocumentStore
  entered = enter versioned.0 snapshot_read

  module _ (v : IsValid s) (allowed : 1 ≤ s.max_open_documents)
      (fits : length read.text ≤ s.max_total_text_bytes) where
    pub ready : IsReady s read.uri (length read.text) versioned.0
    ready = versioned-IsReady s read.uri (length read.text) v allowed fits existing unchanged

    -- The run of `replace_document`: what was entered, then the evictions.
    pub replace_document-Evicts :
        (host : Host) (sync : TextSynchronization)
        → (s' : DocumentStore) × (uris : List String) × Evicts read.uri entered uris s'
          × (replace_document host s read language_id sync
              ≡ done s' (
                  ok (record {
                    snapshot = snapshot_read;
                    events =
                        open_events sync unchanged existing snapshot_read ++ close_events sync uris;
                  })))
    unfolding replace_document
    replace_document-Evicts host sync =
        let (s', uris, steps, run) =
          evict_to_limits-Evicts host.from_file_path (suc (length entered.documents)) entered
            read.uri (entered_document versioned.0 snapshot_read) sync []
            (enter-Evictable s versioned.0 snapshot_read ready) (omega arith) in
        (
          s',
          uris,
          steps,
          ap (with_events host snapshot_read (open_events sync unchanged existing snapshot_read))
              run,
        )
