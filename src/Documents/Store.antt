-- ===== src/Documents/Store.antt =====
-- `DocumentStore` of src/workspace.rs: each method returns the store that it leaves behind, beside its
-- result, on the failing paths too.
use lspctl.Prelude.{
  ℕ, zero, suc, ◌-◌, String, Bool, true, false, ◌&&◌, ◌||◌, Option, none, some, List, [], ◌∷◌, ◌++◌,
  map, Result, ok, err, str_eq, if◌then◌else◌, ltb, leb, ◌==◌, length, u64_max, i64_max,
  saturating_add,
}
use lspctl.Text.{Bytes}
use lspctl.Map
use lspctl.Map.{Map, lookup, contains_key, insert, remove}
use lspctl.Failure.{ContractFailure, document_too_large}
use lspctl.Documents.{
  DocumentSnapshot, TextSynchronization, SynchronizationEvent, did_open, did_close, open_close,
  RefreshOutcome, OpenDocument, DocumentStore, is_open_close,
}
use lspctl.Documents.Reading.{Host, Reading, ReadDocument, read_document}

unfoldable pub new : ℕ → ℕ → ℕ → DocumentStore
new max_open_documents max_document_bytes max_total_text_bytes = record {
  documents = [];
  next_versions = [];
  use_clock = 0;
  max_open_documents = max_open_documents;
  max_document_bytes = max_document_bytes;
  max_total_text_bytes = max_total_text_bytes;
  total_text_bytes = 0;
  pending_events = [];
}

abbrev pub text_len : OpenDocument → ℕ
text_len doc = length doc.snapshot.text

abbrev pub removed_len : Option OpenDocument → ℕ
removed_len none = 0
removed_len (some doc) = text_len doc

-- `remove`, and the first lines of `refresh`: the total loses the text of what was removed, if any
abbrev pub remove_document : DocumentStore → String → DocumentStore
remove_document s uri = record s {
  documents = remove uri s.documents;
  total_text_bytes = s.total_text_bytes - removed_len (lookup uri s.documents);
}

abbrev pub push_pending : DocumentStore → TextSynchronization → String → DocumentStore
push_pending s sync uri =
    if is_open_close sync
    then record s { pending_events = s.pending_events ++ did_close uri ∷ [] }
    else s

module _ (from_file_path : String → Option String) where
  unfoldable pub close_failed_document :
      DocumentStore → String → TextSynchronization → DocumentStore
  close_failed_document s path sync = elim (from_file_path path) [
    | none ↦ s
    | some uri ↦
        if contains_key uri s.documents then push_pending (remove_document s uri) sync uri else s
  ]

unfoldable pub allocate_version : DocumentStore → String → DocumentStore × ℕ
allocate_version s uri =
    let current : ℕ = elim (lookup uri s.next_versions) [ none ↦ 0 | some v ↦ v ] in
    let version = saturating_add i64_max current 1 in
    (record s { next_versions = insert uri version s.next_versions }, version)

-- the earlier of two candidates of `min_by_key`, and the first where they tie
abbrev pub first_least : String × ℕ → Option (String × ℕ) → Option (String × ℕ)
first_least a none = some a
first_least (u, t) (some (v, n)) = if leb t n then some (u, t) else some (v, n)

-- `.filter(|(uri, _)| uri != active).min_by_key(|(_, open)| open.last_used)`
unfoldable pub least_used : String → Map OpenDocument → Option (String × ℕ)
least_used active [] = none
least_used active ((uri, doc) ∷ m) =
    let rest = least_used active m in
    if str_eq uri active then rest else first_least (uri, doc.last_used) rest

abbrev pub over_limits : DocumentStore → Bool
over_limits s =
    ltb s.max_open_documents (length s.documents) || ltb s.max_total_text_bytes s.total_text_bytes

-- How a method ends: with a store and a result, in a panic (an `unwrap` of `None`), or, in the model
-- alone, without fuel.
pub data Run (A : Type 0) : Type 0 where
  done : DocumentStore → Result ContractFailure A → Run A
  panicked out_of_fuel : Run A

module _ (from_file_path : String → Option String) where
  -- the branch of `evict_to_limits` that has no candidate
  abbrev pub refuse_active :
      DocumentStore → String → TextSynchronization → Run (List SynchronizationEvent)
  refuse_active s active sync = elim (lookup active s.documents) [
    | none ↦ panicked
    | some doc ↦ done (push_pending (remove_document s active) sync active) (
        err (
          document_too_large from_file_path doc.snapshot.path doc.snapshot.uri (text_len doc)
            s.max_total_text_bytes))
  ]

  unfoldable pub evict_to_limits :
      ℕ
      → DocumentStore
      → String
      → TextSynchronization
      → List SynchronizationEvent
      → Run (List SynchronizationEvent)
  evict_to_limits zero s active sync events = out_of_fuel
  evict_to_limits (suc fuel) s active sync events = elim (over_limits s) [
    | false ↦ done s (ok events)
    | true ↦ elim (least_used active s.documents) [
      | none ↦ refuse_active s active sync
      | some (uri, _) ↦
          evict_to_limits fuel (remove_document s uri) active sync
            (if is_open_close sync then events ++ did_close uri ∷ [] else events)
    ]
  ]

-- `existing.as_ref().is_some_and(…)`
abbrev pub is_unchanged : Option OpenDocument → String → String → Bool
is_unchanged none digest language_id = false
is_unchanged (some doc) digest language_id =
    str_eq doc.snapshot.digest digest && str_eq doc.snapshot.language_id language_id

-- the version of the new snapshot: the old one where nothing changed
abbrev pub next_version : DocumentStore → Option OpenDocument → String → Bool → DocumentStore × ℕ
unfolding allocate_version
next_version s (some doc) uri true = (s, doc.snapshot.version)
next_version s _ uri _ = allocate_version s uri

abbrev pub open_events :
    TextSynchronization → Bool → Option OpenDocument → DocumentSnapshot → List SynchronizationEvent
open_events open_close false none snapshot = did_open snapshot ∷ []
open_events open_close false (some _) snapshot = did_close snapshot.uri ∷ did_open snapshot ∷ []
open_events _ _ _ snapshot = []

-- the store with the new snapshot in it, before `evict_to_limits`
abbrev pub entered_document : DocumentStore → DocumentSnapshot → OpenDocument
entered_document s snapshot = record {
  snapshot = snapshot;
  last_used = saturating_add u64_max s.use_clock 1;
}

abbrev pub enter : DocumentStore → DocumentSnapshot → DocumentStore
enter s snapshot = record s {
  use_clock = saturating_add u64_max s.use_clock 1;
  total_text_bytes = saturating_add u64_max s.total_text_bytes (length snapshot.text);
  documents = insert snapshot.uri (entered_document s snapshot) s.documents;
}

abbrev pub new_snapshot : ReadDocument → String → ℕ → DocumentSnapshot
new_snapshot read language_id version = record {
  path = read.path;
  uri = read.uri;
  language_id = language_id;
  version = version;
  text = read.text;
  digest = read.digest;
}

-- the test of `refresh` on the text that was read
abbrev pub never_fits : DocumentStore → Bytes → Bool
never_fits s text = s.max_open_documents == 0 || ltb s.max_total_text_bytes (length text)

module _ (host : Host) where
  open host use {from_file_path}

  -- the last lines of `refresh`: the events of the eviction behind its own
  abbrev pub with_events :
      DocumentSnapshot
      → List SynchronizationEvent
      → Run (List SynchronizationEvent)
      → Run RefreshOutcome
  with_events snapshot events (done s (ok evicted)) =
      done s (ok (record { snapshot = snapshot; events = events ++ evicted }))
  with_events snapshot events (done s (err e)) = done s (err e)
  with_events snapshot events panicked = panicked
  with_events snapshot events out_of_fuel = out_of_fuel

  -- `refresh` of a Document that was read and fits, from `self.documents.remove(&uri)` on
  unfoldable pub replace_document :
      DocumentStore → ReadDocument → String → TextSynchronization → Run RefreshOutcome
  unfolding evict_to_limits
  replace_document s read language_id sync =
      let existing = lookup read.uri s.documents in
      let unchanged = is_unchanged existing read.digest language_id in
      let (s', version) = next_version (remove_document s read.uri) existing read.uri unchanged in
      let snapshot = new_snapshot read language_id version in
      let entered = enter s' snapshot in
      with_events snapshot (open_events sync unchanged existing snapshot)
        (evict_to_limits from_file_path (suc (length entered.documents)) entered read.uri sync [])

  -- `refresh` after its call of `read_document`
  unfoldable pub refresh_read :
      DocumentStore
      → Result ContractFailure ReadDocument
      → String
      → String
      → TextSynchronization
      → Run RefreshOutcome
  refresh_read s (err failure) path language_id sync =
      done (close_failed_document from_file_path s path sync) (err failure)
  refresh_read s (ok read) path language_id sync =
      if never_fits s read.text
      then done (close_failed_document from_file_path s read.path sync) (
          err (
            document_too_large from_file_path read.path read.uri (length read.text)
              s.max_total_text_bytes))
      else replace_document s read language_id sync

  unfoldable pub refresh :
      DocumentStore → Reading → String → String → TextSynchronization → Run RefreshOutcome
  unfolding refresh_read replace_document close_failed_document
  refresh s reading path language_id sync =
      refresh_read s (read_document host path s.max_document_bytes reading) path language_id sync

  -- The loop of `refresh_open_documents`; `answers` is what the file system says at each path.
  unfoldable pub refresh_each :
      (String → Reading)
      → TextSynchronization
      → DocumentStore
      → List OpenDocument
      → List RefreshOutcome
      → List ContractFailure
      → Run (List RefreshOutcome × List ContractFailure)
  refresh_each answers sync s [] refreshed failures = done s (ok (refreshed, failures))
  refresh_each answers sync s (doc ∷ docs) refreshed failures =
      elim (refresh s (answers doc.snapshot.path) doc.snapshot.path doc.snapshot.language_id sync) [
        | done s' (ok outcome) ↦
            refresh_each answers sync s' docs (refreshed ++ outcome ∷ []) failures
        | done s' (err failure) ↦
            refresh_each answers sync s' docs refreshed (failures ++ failure ∷ [])
        | panicked ↦ panicked
        | out_of_fuel ↦ out_of_fuel
      ]

  unfoldable pub refresh_open_documents :
      (String → Reading)
      → TextSynchronization
      → DocumentStore
      → Run (List RefreshOutcome × List ContractFailure)
  unfolding refresh_each
  refresh_open_documents answers sync s = refresh_each answers sync s (Map.values s.documents) [] []

unfoldable pub get : DocumentStore → String → Option DocumentSnapshot
get s uri = elim (lookup uri s.documents) [ none ↦ none | some doc ↦ some doc.snapshot ]

unfoldable pub snapshots : DocumentStore → List DocumentSnapshot
snapshots s = map (λ (doc : OpenDocument). doc.snapshot) (Map.values s.documents)

unfoldable pub close_all :
    DocumentStore → TextSynchronization → DocumentStore × List SynchronizationEvent
close_all s sync = (
  record s { documents = []; total_text_bytes = 0 },
  if is_open_close sync then map did_close (Map.keys s.documents) else [],
)

unfoldable pub drain_pending_events : DocumentStore → DocumentStore × List SynchronizationEvent
drain_pending_events s = (record s { pending_events = [] }, s.pending_events)
