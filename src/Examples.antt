-- ===== src/Examples.antt =====
-- Concrete inputs of the theorems: a host, a store with one open Document, and readings.
pub mod DocumentRuns
pub mod EditRuns
pub mod CacheRuns
pub mod FrameRuns
pub mod PlanRuns
pub mod ValueRuns
pub mod ReceiptRuns
use Prim.Native.String.{◌++◌ as str_append}
use lspctl.Prelude.{ℕ, String, Bool, true, Option, none, some, List, [], ◌∷◌, Result, ok, err}
use lspctl.Text.{Bytes}
use lspctl.Json.{null}
use lspctl.Documents.{
  DocumentSnapshot, DocumentStore, OpenDocument, TextSynchronization, SynchronizationEvent,
}
use lspctl.Documents.Reading.{Host, FileIdentity, Attempt, Reading, ReadDocument}

abbrev pub digest_of : Bytes → String
digest_of [] = "sha256:"
digest_of (b ∷ bytes) = str_append (digest_of bytes) "0"

abbrev pub host : Host
host = record {
  from_file_path = λ path. some (str_append "file://" path);
  digest_raw_bytes = digest_of;
  print_nanos = λ n. "0";
}

-- "ab" and a newline
abbrev pub text_ab : Bytes
text_ab = 97 ∷ 98 ∷ 10 ∷ []

abbrev pub snapshot_a : DocumentSnapshot
snapshot_a = record {
  path = "/a";
  uri = "file:///a";
  language_id = "rust";
  version = 1;
  text = 120 ∷ [];
  digest = "sha256:0";
}

-- One Document is open, and no more may be.
abbrev pub full_store : DocumentStore
full_store = record {
  documents = ("file:///a", record { snapshot = snapshot_a; last_used = 1 }) ∷ [];
  next_versions = ("file:///a", 1) ∷ [];
  use_clock = 1;
  max_open_documents = 1;
  max_document_bytes = 10;
  max_total_text_bytes = 10;
  total_text_bytes = 1;
  pending_events = [];
}

abbrev pub identity : FileIdentity
identity = record { size = 3; modified_nanos = some 5; device = 1; inode = 7 }

abbrev pub attempt : Attempt
attempt = record {
  opened = ok tt;
  metadata = ok (record { is_file = true; identity = identity });
  contents = ok text_ab;
  after_handle = ok identity;
  after_path = ok identity;
}

abbrev pub reading : Reading
reading = record { canonical = ok "/b"; first = attempt; second = attempt }

abbrev pub read_b : ReadDocument
read_b = record { path = "/b"; uri = "file:///b"; text = text_ab; digest = "sha256:000" }

-- Two Documents are open, and no more may be.
abbrev pub snapshot_c : DocumentSnapshot
snapshot_c = record {
  path = "/c";
  uri = "file:///c";
  language_id = "rust";
  version = 1;
  text = 121 ∷ [];
  digest = "sha256:0";
}

abbrev pub document_a : OpenDocument
document_a = record { snapshot = snapshot_a; last_used = 1 }

abbrev pub document_c : OpenDocument
document_c = record { snapshot = snapshot_c; last_used = 2 }

abbrev pub two_store : DocumentStore
two_store = record {
  documents = ("file:///a", document_a) ∷ ("file:///c", document_c) ∷ [];
  next_versions = ("file:///a", 1) ∷ ("file:///c", 1) ∷ [];
  use_clock = 2;
  max_open_documents = 2;
  max_document_bytes = 10;
  max_total_text_bytes = 10;
  total_text_bytes = 2;
  pending_events = [];
}

-- What is left of it behind a refresh of a third Document.
abbrev pub snapshot_b : DocumentSnapshot
snapshot_b = record {
  path = "/b";
  uri = "file:///b";
  language_id = "rust";
  version = 1;
  text = text_ab;
  digest = "sha256:000";
}

abbrev pub after_store : DocumentStore
after_store = record {
  documents =
      ("file:///b", record { snapshot = snapshot_b; last_used = 3 })
      ∷ ("file:///c", document_c)
      ∷ [];
  next_versions = ("file:///a", 1) ∷ ("file:///b", 1) ∷ ("file:///c", 1) ∷ [];
  use_clock = 3;
  max_open_documents = 2;
  max_document_bytes = 10;
  max_total_text_bytes = 10;
  total_text_bytes = 4;
  pending_events = [];
}
