-- ===== src/Documents/Reading.antt =====
-- `read_document` of src/workspace.rs. What the file system answers is an argument: one `Attempt`
-- for each of the two rounds of the loop.
use lspctl.Prelude.{
  ℕ, String, Bool, true, false, not, ◌||◌, ◌&&◌, Option, none, some, [], ◌∷◌, Result, ok, err,
  ◌>>=◌, ◌>>◌, map_err, if◌then◌else◌, ltb, ◌==◌, length, take, u64_max, saturating_add,
}
use lspctl.Text.{Bytes, is_utf8}
use lspctl.Json.{Json, null, string, nat, json, members}
use lspctl.Failure.{ContractFailure, IoError, document_failure, document_too_large, file_uri}

-- The identity of a file on Unix. Times before the epoch have no `modified_nanos`.
pub record FileIdentity : Type 0 where
  pub size : ℕ
  pub modified_nanos : Option ℕ
  pub device : ℕ
  pub inode : ℕ

same_time : Option ℕ → Option ℕ → Bool
same_time none none = true
same_time (some a) (some b) = a == b
same_time _ _ = false

-- the derived `==`
unfoldable pub same_identity : FileIdentity → FileIdentity → Bool
unfolding same_time
same_identity a b =
    a.size == b.size
    && same_time a.modified_nanos b.modified_nanos
    && a.device == b.device
    && a.inode == b.inode

-- The length of the metadata is the `size` of the identity that is taken from them.
pub record Metadata : Type 0 where
  pub is_file : Bool
  pub identity : FileIdentity

-- One run of `read_document_once` meets these answers, in this order: `File::open`, the metadata of
-- the handle, the bytes that are there to read, and both identities after the read.
pub record Attempt : Type 0 where
  pub opened : Result IoError (Unit {0})
  pub metadata : Result IoError Metadata
  pub contents : Result IoError Bytes
  pub after_handle : Result IoError FileIdentity
  pub after_path : Result IoError FileIdentity

pub data ReadAttemptError : Type 0 where
  changed : FileIdentity → FileIdentity → ReadAttemptError
  failure : ContractFailure → ReadAttemptError

-- What one call of `read_document` meets: the canonical path, and two rounds.
pub record Reading : Type 0 where
  pub canonical : Result IoError String
  pub first : Attempt
  pub second : Attempt

pub record ReadDocument : Type 0 where
  pub path : String
  pub uri : String
  pub text : Bytes
  pub digest : String

-- The crates that the reading rests on: `url`, `sha2` and the printing of numbers.
pub record Host : Type 0 where
  pub from_file_path : String → Option String
  pub digest_raw_bytes : Bytes → String
  pub print_nanos : ℕ → String

module _ (host : Host) where
  open host use {from_file_path, digest_raw_bytes, print_nanos}

  unfoldable pub identity_json : FileIdentity → Json
  identity_json identity = json (
      ("length", nat identity.size)
      ∷ (
        "modifiedNanos",
        elim identity.modified_nanos [ none ↦ null | some n ↦ string (print_nanos n) ],
      )
      ∷ ("device", nat identity.device)
      ∷ ("inode", nat identity.inode)
      ∷ [])

  abbrev pub read_failed : String → String → IoError → ReadAttemptError
  read_failed path uri e = failure (
      document_failure from_file_path "document_read_failed" path 5
        (members (("uri", string uri) ∷ ("reason", string e.reason) ∷ ("osCode", e.os_code) ∷ [])))

  abbrev pub not_a_file : String → String → ReadAttemptError
  not_a_file path uri = failure (
      document_failure from_file_path "document_read_failed" path 5
        (members (("uri", string uri) ∷ ("reason", string "the path is not a regular file") ∷ [])))

  abbrev pub not_text : String → String → ReadAttemptError
  not_text path uri = failure (
      document_failure from_file_path "document_non_utf8" path 5
        (members (("uri", string uri) ∷ [])))

  unfoldable pub read_document_once :
      String → ℕ → String → Attempt → Result ReadAttemptError (Bytes × String)
  unfolding same_identity
  read_document_once path limit uri attempt = do
    map_err (read_failed path uri) attempt.opened
    before ← map_err (read_failed path uri) attempt.metadata
    if not before.is_file
        then err (not_a_file path uri)
        else if ltb limit before.identity.size
        then err (failure (document_too_large from_file_path path uri before.identity.size limit))
        else do
          available ← map_err (read_failed path uri) attempt.contents
          let bytes = take (saturating_add u64_max limit 1) available
          if ltb limit (length bytes)
              then err (failure (document_too_large from_file_path path uri (length bytes) limit))
              else do
                after_handle ← map_err (read_failed path uri) attempt.after_handle
                after_path ← map_err (read_failed path uri) attempt.after_path
                if not (same_identity before.identity after_handle)
                      || not (same_identity before.identity after_path)
                      || not (before.identity.size == length bytes)
                    then err (changed before.identity after_path)
                    else if is_utf8 bytes
                    then ok (bytes, digest_raw_bytes bytes)
                    else err (not_text path uri)

  -- What the loop does with the result of a round; `next` is what follows a change.
  abbrev pub after_attempt :
      {A : Type 0}
      → Result ReadAttemptError A
      → (FileIdentity → FileIdentity → Result ContractFailure A)
      → Result ContractFailure A
  after_attempt (ok a) next = ok a
  after_attempt (err (changed before after)) next = next before after
  after_attempt (err (failure f)) next = err f

  abbrev pub kept_changing : String → FileIdentity → FileIdentity → ContractFailure
  unfolding identity_json
  kept_changing uri before after = record {
    exit_code = 5;
    category = "query";
    code = "document_changed_while_reading";
    message = "The Document changed repeatedly while it was being read.";
    stage = "synchronize";
    delivery = "not_sent";
    retry = "safe";
    payload = json (
        ("uri", string uri)
        ∷ ("before", identity_json before)
        ∷ ("after", identity_json after)
        ∷ []);
  }

  abbrev pub unresolved : String → IoError → ContractFailure
  unfolding document_failure
  unresolved path e =
      document_failure from_file_path "document_read_failed" path 5
        (members (("reason", string e.reason) ∷ ("osCode", e.os_code) ∷ []))

  -- the loop of two rounds, and the lines behind it
  abbrev pub read_rounds : ℕ → Reading → String → String → Result ContractFailure (Bytes × String)
  read_rounds limit reading canonical uri =
      after_attempt (read_document_once canonical limit uri reading.first) λ _ _.
        after_attempt (read_document_once canonical limit uri reading.second)
          λ before after. err (kept_changing uri before after)

  unfoldable pub read_document : String → ℕ → Reading → Result ContractFailure ReadDocument
  unfolding file_uri
  read_document path limit reading = do
    canonical ← map_err (unresolved path) reading.canonical
    uri ← file_uri from_file_path canonical
    (text, digest) ← read_rounds limit reading canonical uri
    ok (record { path = canonical; uri = uri; text = text; digest = digest })
