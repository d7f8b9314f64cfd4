-- ===== src/Documents/Consistency.antt =====
-- What holds of a store between any two of its steps, and that the single steps keep it.
use lspctl.Prelude.{
  ◌+◌, ◌≤◌, String, ◌≡◌, false, some, arith, eq_iff, length, u64_max, saturating_add_exact,
}
use lspctl.Map.{lookup, contains_key}
use lspctl.Map.Laws.{IsDistinct, lookup-insert, lookup-remove, insert-IsDistinct, remove-IsDistinct}
use lspctl.Map.Totals.{total, total-remove, total-place, insert_absent}
use lspctl.Documents.{OpenDocument, DocumentSnapshot, DocumentStore}
use lspctl.Documents.Store.{text_len, remove_document, entered_document, enter}

-- The total is that of the texts, each key stands once and is the URI of its snapshot, and two
-- documents of the greatest size fit a `u64`.
pub record IsConsistent (s : DocumentStore) : Type 0 where
  pub distinct : IsDistinct s.documents
  pub total_exact : s.total_text_bytes ≡ total text_len s.documents
  pub keyed :
      (uri : String) (doc : OpenDocument)
      → lookup uri s.documents ≡ some doc
      → doc.snapshot.uri ≡ uri
  pub room : s.max_total_text_bytes + s.max_total_text_bytes ≤ u64_max

pub remove_document-IsConsistent :
    (s : DocumentStore) (uri : String) → IsConsistent s → IsConsistent (remove_document s uri)
remove_document-IsConsistent s uri c = record {
  distinct = remove-IsDistinct uri s.documents c.distinct;
  total_exact = ground (arith, c.total_exact, total-remove text_len uri s.documents);
  keyed = λ j d p. c.keyed j d (ground (arith, lookup-remove uri j s.documents c.distinct));
  room = c.room;
}

-- `enter` under a key that is not there yet, with room for the text
pub enter-IsConsistent :
    (s : DocumentStore) (snapshot : DocumentSnapshot)
    → IsConsistent s
    → contains_key snapshot.uri s.documents ≡ false
    → s.total_text_bytes ≤ s.max_total_text_bytes
    → length snapshot.text ≤ s.max_total_text_bytes
    → IsConsistent (enter s snapshot)
enter-IsConsistent s snapshot c new fits_total fits = record {
  distinct = insert-IsDistinct snapshot.uri _ s.documents c.distinct;
  total_exact =
      let entry : OpenDocument = entered_document s snapshot in
      rw (insert_absent snapshot.uri entry s.documents new) (
        omega (
          arith,
          c.total_exact,
          c.room,
          total-place text_len snapshot.uri entry s.documents,
          saturating_add_exact u64_max s.total_text_bytes (length snapshot.text),
        ));
  keyed = λ j d p. ground (
    arith,
    lookup-insert snapshot.uri j (entered_document s snapshot) s.documents,
    eq_iff snapshot.uri j,
    c.keyed j d,
  );
  room = c.room;
}
