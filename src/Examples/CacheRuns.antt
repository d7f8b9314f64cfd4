-- ===== src/Examples/CacheRuns.antt =====
-- The theorems on the diagnostic cache and the session log, at small inputs.
use lspctl.Prelude.{
  ℕ, ◌+◌, ◌≡◌, refl, Bool, true, false, none, some, [], ◌∷◌, ◌++◌, arith, length, drop, length-drop,
  ◌*◌,
}
use lspctl.Json.{Json, json, json_array, string, nat, pos_int, null, get, field, as_array}
use lspctl.Map.{lookup, contains_key}
use lspctl.Diagnostics.{CachedDiagnostics, DiagnosticCache, DiagnosticResult}
use lspctl.Diagnostics.Cache.{store, publish}
use lspctl.Diagnostics.Bounds.{IsValid, store-IsValid}
use lspctl.Diagnostics.Answers.{publish-is_answer}
use lspctl.Diagnostics.Pull.{reconstruct_pull_report, apply_pull_report, full_result}
use lspctl.Diagnostics.PullLaws.{apply_pull_report-remembers}
use lspctl.SessionLog.{SessionLog, SessionLogRecord, new_log, push}
use lspctl.SessionLog.Bounds.{IsBounded, IsKept, push-IsBounded}

-- each report counts ten bytes
abbrev size_of : Json → ℕ
size_of report = 10

-- a cache with room for one report, and one in it
abbrev cached : CachedDiagnostics
cached = record {
  uri = "file:///a";
  version = some (pos_int 1);
  diagnostics = json_array [];
  raw_report = null;
  result_id = none;
  received_for_version = none;
  closed = false;
  serialized_bytes = 10;
  last_used = 1;
}

abbrev full_cache : DiagnosticCache
full_cache = record {
  snapshots = ("push\0file:///a", cached) ∷ [];
  max_snapshots = 1;
  max_total_bytes = 15;
  total_bytes = 10;
  clock = 1;
}

full_cache-IsValid : IsValid full_cache
unfolding lookup contains_key
full_cache-IsValid = record {
  accounted = record { distinct = (refl, tt); exact = refl };
  count = omega arith;
  within = omega arith;
  aged = λ key snapshot h. ground arith;
  clock_fits = omega arith;
  room = omega arith;
}

store-IsValid_example :
    (cache' : DiagnosticCache) × (stored : Bool) × (store size_of full_cache "pull\0file:///b"
        cached
      ≡ some (cache', stored))
    × IsValid cache'
    × (cache'.max_snapshots ≡ 1)
    × (cache'.max_total_bytes ≡ 15)
store-IsValid_example = store-IsValid size_of full_cache "pull\0file:///b" cached full_cache-IsValid

publish-is_answer_example :
    (cache' : DiagnosticCache) × (r : DiagnosticResult) × (publish size_of full_cache "file:///b"
        none
        (string "broken")
        (some (pos_int 2))
        true
      ≡ some (cache', r))
    × (r.complete ≡ true)
    × (r.diagnostics ≡ string "broken")
    × (r.fresh ≡ false)
publish-is_answer_example =
    publish-is_answer size_of full_cache "file:///b" none (string "broken") (some (pos_int 2)) true
      full_cache-IsValid (omega arith) (omega arith) (omega arith)

abbrev full_report : Json
unfolding json
full_report = json (("kind", string "full") ∷ ("items", json_array (nat 1 ∷ [])) ∷ [])

abbrev unchanged_report : Json
unfolding json
unchanged_report = json (("kind", string "unchanged") ∷ ("resultId", string "r2") ∷ [])

apply_pull_report-remembers_example :
    (cache' : DiagnosticCache) × (apply_pull_report size_of full_cache "file:///b" full_report
      ≡ some (cache', full_result "file:///b" full_report (json_array (nat 1 ∷ []))))
    × IsValid cache'
    × (r : DiagnosticResult) × (reconstruct_pull_report cache' "file:///b" unchanged_report
        ≡ some r)
    × (r.complete ≡ true)
    × (r.diagnostics ≡ json_array (nat 1 ∷ []))
    × (r.raw_report ≡ unchanged_report)
unfolding json json_array get field as_array
apply_pull_report-remembers_example =
    apply_pull_report-remembers size_of full_cache "file:///b" full_report (json_array (nat 1 ∷ []))
      unchanged_report full_cache-IsValid (omega arith) (omega arith) (omega arith) refl refl refl

-- a text in which each byte of the message takes so much that two of them exceed the capacity
abbrev record_size : SessionLogRecord → ℕ
record_size entry = 100 + 1000000 * length entry.message

abbrev first_record : SessionLogRecord
first_record = record {
  sequence = 0;
  timestamp = "1970-01-01T00:00:00Z";
  kind = "server_stderr";
  level = "error";
  message = 104 ∷ 105 ∷ [];
  truncated = false;
  omitted_bytes = 0;
}

abbrev empty_log : SessionLog
unfolding new_log
empty_log = new_log

push-IsBounded_example :
    (log : SessionLog) × (kept : SessionLogRecord) × (dropped : ℕ) × (push record_size empty_log
        "1970-01-01T00:00:00Z" "server_stderr" "error"
        (104 ∷ 105 ∷ [])
      ≡ some log)
    × IsBounded log
    × (log.records ≡ drop dropped empty_log.records ++ (record_size kept, kept) ∷ [])
    × IsKept record_size first_record kept
unfolding new_log
push-IsBounded_example =
    push-IsBounded record_size empty_log "1970-01-01T00:00:00Z" "server_stderr" "error"
      (104 ∷ 105 ∷ []) (record { exact = refl; within = omega arith })
      (record {
        holds_message = omega arith;
        shrinks = λ start h boundary. omega (arith, length-drop start first_record.message);
        small = omega arith;
      })
