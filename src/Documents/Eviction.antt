-- ===== src/Documents/Eviction.antt =====
-- `least_used` and the loop of `evict_to_limits`: it always ends, within the limits, with the active
-- document still there.
use lspctl.Prelude.{
  ℕ, zero, suc, ◌≤◌, ◌<◌, String, ◌≡◌, refl, true, false, Option, none, some, List, [], ◌∷◌, ◌++◌,
  map, arith, str_eq, eq_iff, if◌then◌else◌, length, sym, ap, ◌∙◌, ok, inl, inr, Option-cases,
  Bool-cases,
}
use mathlib.Core.List.{append-nil, append_assoc}
use lspctl.Map.{Map, lookup, contains_key}
use lspctl.Map.Laws.{IsDistinct, lookup-remove}
use lspctl.Map.Totals.{total, length-remove}
use lspctl.Documents.{
  OpenDocument, DocumentStore, SynchronizationEvent, TextSynchronization, did_close, unsynchronized,
  open_close, is_open_close,
}
use lspctl.Documents.Store.{
  text_len, remove_document, over_limits, least_used, done, evict_to_limits,
}
use lspctl.Documents.Consistency.{IsConsistent, remove_document-IsConsistent}

-- Where there is no candidate, the active document is alone.
no_candidate :
    (active : String) (m : Map OpenDocument)
    → least_used active m ≡ none
    → IsDistinct m
    → (contains_key active m ≡ false → m ≡ []) × (length m ≤ 1)
unfolding least_used contains_key
no_candidate active [] h d = ground arith
no_candidate active ((uri, doc) ∷ m) h d = ground (arith, no_candidate active m, eq_iff uri active)

alone :
    (active : String) (doc : OpenDocument) (m : Map OpenDocument)
    → least_used active m ≡ none
    → IsDistinct m
    → lookup active m ≡ some doc
    → (length m ≤ 1) × (total text_len m ≡ text_len doc)
unfolding least_used lookup
alone active doc [] h d e = cc
alone active doc ((uri, other) ∷ m) h d e =
    let split : (contains_key active m ≡ false → m ≡ []) × (length m ≤ 1) =
      no_candidate active m (ground (arith, eq_iff uri active)) d.1 in
    ground (arith, split.0, d.0, eq_iff uri active)

-- A candidate is another document that is open.
pub candidate :
    (active uri : String) (used : ℕ) (m : Map OpenDocument)
    → least_used active m ≡ some (uri, used)
    → (str_eq uri active ≡ false) × (contains_key uri m ≡ true)
unfolding least_used contains_key
candidate active uri used [] h = cc
candidate active uri used ((j, doc) ∷ m) h =
    ground (arith, eq_iff j uri, eq_iff j active, candidate active uri used m)

-- What the loop does: each round drops the candidate, until the store is within its limits.
pub data Evicts (active : String) : DocumentStore → List String → DocumentStore → Type 0 where
  within : (s : DocumentStore) → over_limits s ≡ false → Evicts active s [] s
  drop_one :
      {s s' : DocumentStore} {uris : List String} (uri : String) (used : ℕ)
      → over_limits s ≡ true
      → least_used active s.documents ≡ some (uri, used)
      → Evicts active (remove_document s uri) uris s'
      → Evicts active s (uri ∷ uris) s'

-- What lets the loop end well: the active document is there, and alone it is within the limits.
pub record Evictable (active : String) (doc : OpenDocument) (s : DocumentStore) : Type 0 where
  pub consistent : IsConsistent s
  pub there : lookup active s.documents ≡ some doc
  pub one_allowed : 1 ≤ s.max_open_documents
  pub fits : text_len doc ≤ s.max_total_text_bytes

-- Dropping the candidate keeps what lets the loop end well.
remove_document-Evictable :
    (active uri : String) (used : ℕ) (doc : OpenDocument) (s : DocumentStore)
    → least_used active s.documents ≡ some (uri, used)
    → Evictable active doc s
    → Evictable active doc (remove_document s uri)
remove_document-Evictable active uri used doc s h e = record {
  consistent = remove_document-IsConsistent s uri e.consistent;
  there = ground (
    arith,
    e.there,
    lookup-remove uri active s.documents e.consistent.distinct,
    candidate active uri used s.documents h,
  );
  one_allowed = e.one_allowed;
  fits = e.fits;
}

not_over_limits_alone :
    (active : String) (doc : OpenDocument) (s : DocumentStore)
    → least_used active s.documents ≡ none
    → Evictable active doc s
    → over_limits s ≡ false
not_over_limits_alone active doc s h e = ground (
  arith,
  alone active doc s.documents h e.consistent.distinct e.there,
  e.consistent.total_exact,
  e.one_allowed,
  e.fits,
)

-- The events of a run that evicts `uris`.
abbrev pub close_events : TextSynchronization → List String → List SynchronizationEvent
close_events sync uris = if is_open_close sync then map did_close uris else []

close_events-cons :
    (sync : TextSynchronization) (events : List SynchronizationEvent) (uri : String)
    (uris : List String)
    → (if is_open_close sync then events ++ did_close uri ∷ [] else events)
        ++ close_events sync uris
      ≡ events ++ close_events sync (uri ∷ uris)
close_events-cons unsynchronized events uri uris = refl
close_events-cons open_close events uri uris =
    append_assoc events (did_close uri ∷ []) (map did_close uris)

close_events-nil :
    (sync : TextSynchronization) (events : List SynchronizationEvent)
    → events ++ close_events sync [] ≡ events
close_events-nil unsynchronized events = append-nil events
close_events-nil open_close events = append-nil events

module _ (url : String → Option String) (fuel : ℕ) (s : DocumentStore) (active : String)
    (sync : TextSynchronization) (events : List SynchronizationEvent) where
  evict-stop :
      over_limits s ≡ false
      → evict_to_limits url (suc fuel) s active sync events ≡ done s (ok events)
  unfolding evict_to_limits
  evict-stop h = ground arith

  evict-next :
      (uri : String) (used : ℕ)
      → over_limits s ≡ true
      → least_used active s.documents ≡ some (uri, used)
      → evict_to_limits url (suc fuel) s active sync events
        ≡ evict_to_limits url fuel
            (remove_document s uri)
            active
            sync
            (if is_open_close sync then events ++ did_close uri ∷ [] else events)
  unfolding evict_to_limits
  evict-next uri used over found = ground arith

-- With one round for each document and one more, the loop ends by its test.
pub evict_to_limits-Evicts :
    (url : String → Option String) (fuel : ℕ) (s : DocumentStore) (active : String)
    (doc : OpenDocument) (sync : TextSynchronization) (events : List SynchronizationEvent)
    → Evictable active doc s
    → length s.documents < fuel
    → (s' : DocumentStore) × (uris : List String) × Evicts active s uris s'
      × (evict_to_limits url fuel s active sync events
          ≡ done s' (ok (events ++ close_events sync uris)))
unfolding evict_to_limits
evict_to_limits-Evicts url zero s active doc sync events e h = absurd (omega arith)
evict_to_limits-Evicts url (suc fuel) s active doc sync events e h =
    elim (Bool-cases (over_limits s)) [
      | inl over ↦ elim (Option-cases (least_used active s.documents)) [
        | inl nobody ↦ cc (over, not_over_limits_alone active doc s nobody e)
        | inr ((uri, used), found) ↦
            let (s', uris, steps, run) =
              evict_to_limits-Evicts url fuel (remove_document s uri) active doc sync
                (if is_open_close sync then events ++ did_close uri ∷ [] else events)
                (remove_document-Evictable active uri used doc s found e)
                (ground (
                  arith,
                  length-remove uri s.documents,
                  candidate active uri used s.documents found,
                )) in
            (
              s',
              uri ∷ uris,
              drop_one uri used over found steps,
              evict-next url fuel s active sync events uri used over found
                  ∙ run
                  ∙ ap (λ l. done s' (ok l)) (close_events-cons sync events uri uris),
            )
      ]
      | inr fine ↦ (
        s,
        [],
        within s fine,
        evict-stop url fuel s active sync events fine
            ∙ ap (λ l. done s (ok l)) (sym (close_events-nil sync events)),
      )
    ]

-- What the steps keep and reach.
pub Evicts-Evictable :
    {active : String} {s s' : DocumentStore} {uris : List String} (doc : OpenDocument)
    → Evicts active s uris s'
    → Evictable active doc s
    → Evictable active doc s'
Evicts-Evictable doc (within s h) e = e
Evicts-Evictable {active} {s} doc (drop_one uri used _ found steps) e =
    Evicts-Evictable doc steps (remove_document-Evictable active uri used doc s found e)

pub Evicts-within :
    {active : String} {s s' : DocumentStore} {uris : List String}
    → Evicts active s uris s'
    → over_limits s' ≡ false
Evicts-within (within s h) = h
Evicts-within (drop_one uri used _ found steps) = Evicts-within steps

-- The fields that the loop leaves alone.
pub record SameFrame (s s' : DocumentStore) : Type 0 where
  pub versions : s'.next_versions ≡ s.next_versions
  pub clock : s'.use_clock ≡ s.use_clock
  pub count_limit : s'.max_open_documents ≡ s.max_open_documents
  pub document_limit : s'.max_document_bytes ≡ s.max_document_bytes
  pub text_limit : s'.max_total_text_bytes ≡ s.max_total_text_bytes
  pub pending : s'.pending_events ≡ s.pending_events

pub Evicts-SameFrame :
    {active : String} {s s' : DocumentStore} {uris : List String}
    → Evicts active s uris s'
    → SameFrame s s'
Evicts-SameFrame (within s h) = record {
  versions = refl;
  clock = refl;
  count_limit = refl;
  document_limit = refl;
  text_limit = refl;
  pending = refl;
}
Evicts-SameFrame (drop_one uri used _ found steps) =
    let frame = Evicts-SameFrame steps in
    record {
      versions = frame.versions;
      clock = frame.clock;
      count_limit = frame.count_limit;
      document_limit = frame.document_limit;
      text_limit = frame.text_limit;
      pending = frame.pending;
    }
