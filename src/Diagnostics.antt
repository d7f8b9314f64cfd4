-- ===== src/Diagnostics.antt =====
-- The data of src/workspace/diagnostics.rs: cached diagnostic reports, and the results of a query.
pub mod Cache
pub mod Pull
pub mod Import
pub mod Bounds
pub mod Freshness
pub mod Answers
pub mod PullLaws
use Prim.Native.String.{◌++◌ as str_append}
use text.Mathlib.Text.{starts_with}
use lspctl.Prelude.{
  ℕ, String, Bool, true, false, ◌&&◌, Option, none, some, [], if◌then◌else◌, ◌==◌, leb, i64_max,
}
use lspctl.Map.{Map}
use lspctl.Json.{Json, Number, pos_int, neg_int, float, number, null}

-- An `i64`, as the number that serde_json keeps for it.
abbrev pub I64 : Type 0
I64 = Number

-- `Value::as_i64`
abbrev pub as_i64 : Json → Option I64
as_i64 (number (pos_int n)) = if leb n i64_max then some (pos_int n) else none
as_i64 (number (neg_int n)) = some (neg_int n)
as_i64 _ = none

unfoldable pub same_number : I64 → I64 → Bool
same_number (pos_int a) (pos_int b) = a == b
same_number (neg_int a) (neg_int b) = a == b
same_number (float a) (float b) = a == b
same_number _ _ = false

-- `==` on two values of type `Option<i64>`
unfoldable pub same_version : Option I64 → Option I64 → Bool
unfolding same_number
same_version none none = true
same_version (some a) (some b) = same_number a b
same_version _ _ = false

abbrev pub is_some {ℓ} : {A : Type ℓ} → Option A → Bool
is_some none = false
is_some (some a) = true

pub record CachedDiagnostics : Type 0 where
  pub uri : String
  pub version : Option I64
  pub diagnostics : Json
  pub raw_report : Json
  pub result_id : Option String
  pub received_for_version : Option I64
  pub closed : Bool
  pub serialized_bytes : ℕ
  pub last_used : ℕ

pub record DiagnosticResult : Type 0 where
  pub uri : String
  pub diagnostics : Json
  pub raw_report : Json
  pub effective_report : Json
  pub result_id : Option String
  pub version : Option I64
  pub fresh : Bool
  pub complete : Bool
  pub closed : Bool

pub record WorkspaceDiagnosticResult : Type 0 where
  pub effective_report : Json
  pub raw_report : Json
  pub fresh : Bool
  pub complete : Bool
  pub workspace_complete : Bool

pub record DiagnosticCache : Type 0 where
  pub snapshots : Map CachedDiagnostics
  pub max_snapshots : ℕ
  pub max_total_bytes : ℕ
  pub total_bytes : ℕ
  pub clock : ℕ

unfoldable pub new_cache : ℕ → ℕ → DiagnosticCache
new_cache max_snapshots max_total_bytes = record {
  snapshots = [];
  max_snapshots = max_snapshots;
  max_total_bytes = max_total_bytes;
  total_bytes = 0;
  clock = 0;
}

unfoldable pub push_key : String → String
push_key uri = str_append "push\0" uri

unfoldable pub pull_key : String → String
pull_key uri = str_append "pull\0" uri

abbrev pub is_push : String → Bool
is_push key = starts_with key "push\0"

abbrev pub is_pull : String → Bool
is_pull key = starts_with key "pull\0"

-- the function `render`
unfoldable pub render_snapshot : CachedDiagnostics → Bool → Bool → DiagnosticResult
render_snapshot snapshot fresh complete = record {
  uri = snapshot.uri;
  diagnostics = snapshot.diagnostics;
  raw_report = snapshot.raw_report;
  effective_report = snapshot.raw_report;
  result_id = snapshot.result_id;
  version = snapshot.version;
  fresh = fresh;
  complete = complete;
  closed = snapshot.closed;
}
