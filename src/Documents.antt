-- ===== src/Documents.antt =====
-- The Document snapshots of one Owner (src/workspace.rs): the data that the store keeps.
pub mod Reading
pub mod Snapshot
pub mod Store
pub mod Consistency
pub mod Eviction
pub mod Refresh
pub mod Total
pub mod View
pub mod Recency
pub mod Versions
pub mod Sync
use lspctl.Prelude.{ℕ, String, Bool, true, false, Option, List}
use lspctl.Text.{Bytes}
use lspctl.Map.{Map}

-- A version is an `i64` that starts at 0 and only grows.
pub record DocumentSnapshot : Type 0 where
  pub path : String
  pub uri : String
  pub language_id : String
  pub version : ℕ
  pub text : Bytes
  pub digest : String

pub data TextSynchronization : Type 0 where
  unsynchronized open_close : TextSynchronization

pub data SynchronizationEvent : Type 0 where
  did_open : DocumentSnapshot → SynchronizationEvent
  did_close : String → SynchronizationEvent

pub record RefreshOutcome : Type 0 where
  pub snapshot : DocumentSnapshot
  pub events : List SynchronizationEvent

pub record OpenDocument : Type 0 where
  pub snapshot : DocumentSnapshot
  pub last_used : ℕ

pub record DocumentStore : Type 0 where
  pub documents : Map OpenDocument
  pub next_versions : Map ℕ
  pub use_clock : ℕ
  pub max_open_documents : ℕ
  pub max_document_bytes : ℕ
  pub max_total_text_bytes : ℕ
  pub total_text_bytes : ℕ
  pub pending_events : List SynchronizationEvent

-- the test `synchronization == TextSynchronization::OpenClose`
abbrev pub is_open_close : TextSynchronization → Bool
is_open_close open_close = true
is_open_close unsynchronized = false
