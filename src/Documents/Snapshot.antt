-- ===== src/Documents/Snapshot.antt =====
-- What a successful `read_document` has seen.
use lspctl.Prelude.{
  ap, Option, none, some, ℕ, ◌≤◌, ◌<◌, String, ◌≡◌, refl, true, ◌⊎◌, inl, inr, arith, length,
  take_short, Result, ok, err, map_err, ◌>>=◌, ◌∙◌, u64_max, saturating_add, saturating_add_exact,
}
use lspctl.Text.{Bytes, is_utf8}
use lspctl.Failure.{IoError, ContractFailure, file_uri}
use lspctl.Documents.Reading.{
  FileIdentity, Metadata, Attempt, Reading, ReadDocument, Host, same_identity, ReadAttemptError,
  changed, failure, read_document_once, read_document, read_rounds, after_attempt, kept_changing,
  unresolved,
}

-- Identities that compare equal are the same.
same_identity-eq : (a b : FileIdentity) → same_identity a b ≡ true → a ≡ b
unfolding same_identity
same_identity-eq a b h = fields a.modified_nanos b.modified_nanos refl refl
  where
    fields : (m n : Option ℕ) → a.modified_nanos ≡ m → b.modified_nanos ≡ n → a ≡ b
    fields none none e f = ground arith
    fields (some x) (some y) e f = ground arith
    fields none (some y) e f = ground arith
    fields (some x) none e f = ground arith

-- One round saw a regular file that had one and the same identity before it was read and afterwards,
-- both through the open handle and at the path, read it to its end, and found text.
pub record Saw (host : Host) (limit : ℕ) (attempt : Attempt) (text : Bytes) (digest : String)
    : Type 0 where
  pub before : Metadata
  pub metadata : attempt.metadata ≡ ok before
  pub regular : before.is_file ≡ true
  pub contents : attempt.contents ≡ ok text
  pub whole : before.identity.size ≡ length text
  pub small : length text ≤ limit
  pub utf8 : is_utf8 text ≡ true
  pub digested : digest ≡ host.digest_raw_bytes text
  pub after_handle : attempt.after_handle ≡ ok before.identity
  pub after_path : attempt.after_path ≡ ok before.identity

module _ (host : Host) (path : String) (limit : ℕ) (uri : String) (text : Bytes) (digest : String)
    (room : limit < u64_max) where
  answered :
      (opened : Result IoError (Unit {0})) (metadata : Result IoError Metadata)
      (contents : Result IoError Bytes) (after_handle after_path : Result IoError FileIdentity)
      (attempt : Attempt)
      → attempt ≡ record {
        opened = opened;
        metadata = metadata;
        contents = contents;
        after_handle = after_handle;
        after_path = after_path;
      }
      → read_document_once host path limit uri attempt ≡ ok (text, digest)
      → Saw host limit attempt text digest
  unfolding read_document_once
  answered (err e) metadata contents handle after attempt same h = ground arith
  answered (ok _) (err e) contents handle after attempt same h = ground arith
  answered (ok _) (ok before) (err e) handle after attempt same h = ground arith
  answered (ok _) (ok before) (ok available) (err e) after attempt same h = ground arith
  answered (ok _) (ok before) (ok available) (ok handle) (err e) attempt same h = ground arith
  answered (ok _) (ok before) (ok available) (ok handle) (ok after) attempt same h = record {
    before = before;
    metadata = ground arith;
    regular = ground arith;
    contents = ground (
      arith,
      room,
      take_short (saturating_add u64_max limit 1) available,
      saturating_add_exact u64_max limit 1,
    );
    whole = ground arith;
    small = ground arith;
    utf8 = ground arith;
    digested = ground arith;
    after_handle = ground (arith, same_identity-eq before.identity handle);
    after_path = ground (arith, same_identity-eq before.identity after);
  }

  read_document_once-Saw :
      (attempt : Attempt)
      → read_document_once host path limit uri attempt ≡ ok (text, digest)
      → Saw host limit attempt text digest
  read_document_once-Saw attempt =
      answered attempt.opened attempt.metadata attempt.contents attempt.after_handle
        attempt.after_path attempt refl

same_identity_refl : (a : FileIdentity) → same_identity a a ≡ true
unfolding same_identity
same_identity_refl a = fields a.modified_nanos refl
  where
    fields : (m : Option ℕ) → a.modified_nanos ≡ m → same_identity a a ≡ true
    fields none e = ground arith
    fields (some x) e = ground arith

-- One round read a file that was not the same before and afterwards, or not as long as it was said to be.
abbrev pub Torn : Attempt → Type 0
Torn attempt =
    (before : Metadata) × (text : Bytes) × (after_handle after_path : FileIdentity)
    × (attempt.metadata ≡ ok before)
    × (attempt.contents ≡ ok text)
    × (attempt.after_handle ≡ ok after_handle)
    × (attempt.after_path ≡ ok after_path)
    × ¬ (
        (after_handle ≡ before.identity)
        × (after_path ≡ before.identity)
        × (before.identity.size ≡ length text))

module _ (host : Host) (path : String) (limit : ℕ) (uri : String) (was is : FileIdentity)
    (room : limit < u64_max) where
  changed_answer :
      (opened : Result IoError (Unit {0})) (metadata : Result IoError Metadata)
      (contents : Result IoError Bytes) (after_handle after_path : Result IoError FileIdentity)
      (attempt : Attempt)
      → attempt ≡ record {
        opened = opened;
        metadata = metadata;
        contents = contents;
        after_handle = after_handle;
        after_path = after_path;
      }
      → read_document_once host path limit uri attempt ≡ err (changed was is)
      → Torn attempt
  unfolding read_document_once
  changed_answer (err e) metadata contents handle after attempt same h = absurd (ground arith)
  changed_answer (ok _) (err e) contents handle after attempt same h = absurd (ground arith)
  changed_answer (ok _) (ok before) (err e) handle after attempt same h = absurd (ground arith)
  changed_answer (ok _) (ok before) (ok available) (err e) after attempt same h =
      absurd (ground arith)
  changed_answer (ok _) (ok before) (ok available) (ok handle) (err e) attempt same h =
      absurd (ground arith)
  changed_answer (ok _) (ok before) (ok available) (ok handle) (ok after) attempt same h = (
    before,
    available,
    handle,
    after,
    ground arith,
    ground arith,
    ground arith,
    ground arith,
    λ (e, f, g). ground (
      arith,
      ap (same_identity before.identity) e,
      ap (same_identity before.identity) f,
      same_identity_refl before.identity,
      take_short (saturating_add u64_max limit 1) available,
      saturating_add_exact u64_max limit 1,
    ),
  )

-- What holds of each round's answer holds of the round whose answer is returned.
module _ (host : Host) (limit : ℕ) (reading : Reading) (P : Attempt → Bytes × String → Type 0)
    (once : (canonical uri : String) (attempt : Attempt) (seen : Bytes × String)
      → read_document_once host canonical limit uri attempt ≡ ok seen
      → P attempt seen)
    (Q : Attempt → Type 0)
    (torn : (canonical uri : String) (attempt : Attempt) (before after : FileIdentity)
      → read_document_once host canonical limit uri attempt ≡ err (changed before after)
      → Q attempt) where
  abbrev SeenIn : Bytes × String → Type 0
  SeenIn seen =
      (attempt : Attempt) × ((attempt ≡ reading.first)
        ⊎ (attempt ≡ reading.second) × Q reading.first)
      × P attempt seen

  rounds-SeenIn :
      (canonical uri : String) (seen : Bytes × String)
      → (one two : Result ReadAttemptError (Bytes × String))
      → read_document_once host canonical limit uri reading.first ≡ one
      → read_document_once host canonical limit uri reading.second ≡ two
      → after_attempt host one (λ _ _.
        after_attempt host two (λ before after. err (kept_changing host uri before after)))
        ≡ ok seen
      → SeenIn seen
  rounds-SeenIn canonical uri seen (ok _) two e f r =
      (reading.first, inl refl, once canonical uri reading.first seen (cc))
  rounds-SeenIn canonical uri seen (err (changed b a)) (ok _) e f r = (
    reading.second,
    inr (refl, torn canonical uri reading.first b a e),
    once canonical uri reading.second seen (cc),
  )
  rounds-SeenIn canonical uri seen (err (changed b a)) (err (changed _ _)) e f r = cc
  rounds-SeenIn canonical uri seen (err (changed b a)) (err (failure x)) e f r = cc
  rounds-SeenIn canonical uri seen (err (failure x)) two e f r = cc

  module _ (d : ReadDocument) where
    seen-SeenIn :
        (canonical uri : String) (seen : Result ContractFailure (Bytes × String))
        → read_rounds host limit reading canonical uri ≡ seen
        → (seen >>= λ (text, digest).
            ok (record { path = canonical; uri = uri; text = text; digest = digest }))
          ≡ ok d
        → SeenIn (d.text, d.digest)
    seen-SeenIn canonical uri (err e) r made = cc
    seen-SeenIn canonical uri (ok (t, g)) r made =
        rounds-SeenIn canonical uri (d.text, d.digest) _ _ refl refl (r ∙ ground arith)

    uri-SeenIn :
        (canonical : String) (uri : Result ContractFailure String)
        → (do
          u ← uri
          (text, digest) ← read_rounds host limit reading canonical u
          ok (record { path = canonical; uri = u; text = text; digest = digest }))
          ≡ ok d
        → SeenIn (d.text, d.digest)
    uri-SeenIn canonical (err e) made = cc
    uri-SeenIn canonical (ok uri) made = seen-SeenIn canonical uri _ refl made

    canonical-SeenIn :
        (path : String) (canonical : Result IoError String)
        → (do
          c ← map_err (unresolved host path) canonical
          uri ← file_uri host.from_file_path c
          (text, digest) ← read_rounds host limit reading c uri
          ok (record { path = c; uri = uri; text = text; digest = digest }))
          ≡ ok d
        → SeenIn (d.text, d.digest)
    canonical-SeenIn path (err e) made = cc
    canonical-SeenIn path (ok canonical) made = uri-SeenIn canonical _ made

module _ (host : Host) (path : String) (limit : ℕ) (uri : String) (text : Bytes)
    (digest : String) where
  digested_answer :
      (opened : Result IoError (Unit {0})) (metadata : Result IoError Metadata)
      (contents : Result IoError Bytes) (after_handle after_path : Result IoError FileIdentity)
      → read_document_once host path limit uri (record {
        opened = opened;
        metadata = metadata;
        contents = contents;
        after_handle = after_handle;
        after_path = after_path;
      })
        ≡ ok (text, digest)
      → digest ≡ host.digest_raw_bytes text
  unfolding read_document_once
  digested_answer (err e) metadata contents handle after h = ground arith
  digested_answer (ok _) (err e) contents handle after h = ground arith
  digested_answer (ok _) (ok before) (err e) handle after h = ground arith
  digested_answer (ok _) (ok before) (ok available) (err e) after h = ground arith
  digested_answer (ok _) (ok before) (ok available) (ok handle) (err e) h = ground arith
  digested_answer (ok _) (ok before) (ok available) (ok handle) (ok after) h = ground arith

-- The digest of a Document that is returned is that of its text.
pub read_document-digested :
    (host : Host) (path : String) (limit : ℕ) (reading : Reading) (d : ReadDocument)
    → read_document host path limit reading ≡ ok d
    → d.digest ≡ host.digest_raw_bytes d.text
unfolding read_document
read_document-digested host path limit reading d made =
    let (attempt, round, digested) =
      canonical-SeenIn host limit reading (λ _ (t, g). g ≡ host.digest_raw_bytes t)
        (λ c uri attempt (t, g).
          digested_answer host c limit uri t g attempt.opened attempt.metadata attempt.contents
            attempt.after_handle attempt.after_path)
        (λ _. Unit) (λ _ _ _ _ _ _. tt) d path reading.canonical made in
    digested

-- A Document that `read_document` returns, under a limit short of the greatest `u64`, was seen in the
-- first of its two rounds, or in the second where the file changed during the first. In that round it
-- was a regular file with one and the same identity before the read and afterwards, through the handle
-- and at the path; its bytes are what the file held, as many as it was said to hold, within the limit,
-- and they are text; and the digest is theirs.
pub read_document-Saw :
    (host : Host) (path : String) (limit : ℕ) (reading : Reading) (d : ReadDocument)
    → limit < u64_max
    → read_document host path limit reading ≡ ok d
    → (attempt : Attempt) × ((attempt ≡ reading.first)
        ⊎ (attempt ≡ reading.second) × Torn reading.first)
      × Saw host limit attempt d.text d.digest
unfolding read_document
read_document-Saw host path limit reading d room =
    canonical-SeenIn host limit reading (λ attempt (t, g). Saw host limit attempt t g)
      (λ c uri attempt (t, g). read_document_once-Saw host c limit uri t g room attempt) Torn
      (λ c uri attempt b a.
        changed_answer host c limit uri b a room attempt.opened attempt.metadata attempt.contents
          attempt.after_handle attempt.after_path attempt refl)
      d path reading.canonical
