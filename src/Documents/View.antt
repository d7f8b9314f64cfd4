-- ===== src/Documents/View.antt =====
-- What the language server has been told: which Documents are open there, and with which text.
use lspctl.Prelude.{
  ℕ, String, ◌≡◌, refl, Bool, true, false, Option, none, some, List, [], ◌∷◌, ◌++◌, arith,
  if◌then◌else◌, str_eq, eq_iff,
}
use lspctl.Text.{Bytes}
use lspctl.Map.{lookup, remove}
use lspctl.Map.Laws.{lookup-remove, lookup-insert}
use lspctl.Documents.{
  OpenDocument, DocumentStore, DocumentSnapshot, SynchronizationEvent, did_open, did_close,
  open_close,
}
use lspctl.Documents.Reading.{ReadDocument}
use lspctl.Documents.Store.{
  remove_document, enter, entered_document, open_events, is_unchanged, new_snapshot,
}
use lspctl.Documents.Consistency.{IsConsistent, remove_document-IsConsistent}
use lspctl.Documents.Eviction.{Evicts, within, drop_one, close_events}

-- What a server is told of a Document: the parts of `textDocument/didOpen` beside the URI.
pub record Presented : Type 0 where
  pub language_id : String
  pub version : ℕ
  pub text : Bytes

abbrev pub presented : DocumentSnapshot → Presented
presented d = record { language_id = d.language_id; version = d.version; text = d.text }

-- The open Documents of the server, by their URI.
abbrev pub View : Type 0
View = String → Option Presented

-- What a server makes of one notification.
abbrev pub notify : View → SynchronizationEvent → View
notify v (did_open snapshot) uri =
    if str_eq snapshot.uri uri then some (presented snapshot) else v uri
notify v (did_close closed) uri = if str_eq closed uri then none else v uri

unfoldable pub notify_all : View → List SynchronizationEvent → View
notify_all v [] = v
notify_all v (e ∷ es) = notify_all (notify v e) es

-- What the store holds at a URI.
abbrev pub presented_of : Option OpenDocument → Option Presented
presented_of none = none
presented_of (some doc) = some (presented doc.snapshot)

-- The server's view is that of the store.
abbrev pub Shows : View → DocumentStore → Type 0
Shows v s = (uri : String) → v uri ≡ presented_of (lookup uri s.documents)

-- The same once the pending notifications have gone out.
abbrev pub InSync : View → DocumentStore → Type 0
InSync v s = Shows (notify_all v s.pending_events) s

pub notify_all-append :
    (v : View) (xs ys : List SynchronizationEvent)
    → notify_all v (xs ++ ys) ≡ notify_all (notify_all v xs) ys
unfolding notify_all
notify_all-append v [] ys = refl
notify_all-append v (e ∷ xs) ys = notify_all-append (notify v e) xs ys

-- Closing what the store drops keeps the view in step.
pub remove_document-Shows :
    (v : View) (s : DocumentStore) (uri : String)
    → IsConsistent s
    → Shows v s
    → Shows (notify v (did_close uri)) (remove_document s uri)
remove_document-Shows v s uri c h j =
    ground (arith, h j, lookup-remove uri j s.documents c.distinct, eq_iff uri j)

pub Evicts-Shows :
    {active : String} {s s' : DocumentStore} {uris : List String} (v : View)
    → Evicts active s uris s'
    → IsConsistent s
    → Shows v s
    → Shows (notify_all v (close_events open_close uris)) s'
unfolding notify_all
Evicts-Shows v (within s _) c h = h
Evicts-Shows {s} v (drop_one uri used _ found steps) c h =
    Evicts-Shows (notify v (did_close uri)) steps (remove_document-IsConsistent s uri c)
      (remove_document-Shows v s uri c h)

-- Entering a new snapshot with the events of `refresh` keeps the view in step. `t` is the store
-- without the old one. A Document that is left as it is keeps its version and its text.
pub enter-Shows :
    (v : View) (s t : DocumentStore) (read : ReadDocument) (language_id : String)
    (existing : Option OpenDocument) (unchanged : Bool)
    → IsConsistent s
    → Shows v s
    → existing ≡ lookup read.uri s.documents
    → unchanged ≡ is_unchanged existing read.digest language_id
    → t.documents ≡ remove read.uri s.documents
    → (version : ℕ)
    → ((doc : OpenDocument)
        → existing ≡ some doc
        → unchanged ≡ true
        → (version ≡ doc.snapshot.version) × (doc.snapshot.text ≡ read.text))
    → Shows
        (notify_all v
          (open_events open_close unchanged existing (new_snapshot read language_id version)))
        (enter t (new_snapshot read language_id version))
unfolding notify_all
enter-Shows v s t read lang none unchanged c h e u d version same j = ground (
  arith,
  h j,
  rw d at
      (lookup-insert read.uri j (entered_document t (new_snapshot read lang version)) t.documents),
  lookup-remove read.uri j s.documents c.distinct,
  eq_iff read.uri j,
)
enter-Shows v s t read lang (some doc) true c h e u d version same j = ground (
  arith,
  h j,
  same doc refl refl,
  rw d at
      (lookup-insert read.uri j (entered_document t (new_snapshot read lang version)) t.documents),
  lookup-remove read.uri j s.documents c.distinct,
  eq_iff read.uri j,
  eq_iff doc.snapshot.digest read.digest,
  eq_iff doc.snapshot.language_id lang,
)
enter-Shows v s t read lang (some doc) false c h e u d version same j = ground (
  arith,
  h j,
  rw d at
      (lookup-insert read.uri j (entered_document t (new_snapshot read lang version)) t.documents),
  lookup-remove read.uri j s.documents c.distinct,
  eq_iff read.uri j,
)
