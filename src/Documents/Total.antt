-- ===== src/Documents/Total.antt =====
-- Every call of `refresh` returns, and leaves a valid store.
use lspctl.Prelude.{
  ℕ, ◌+◌, ◌≤◌, String, ◌≡◌, refl, true, false, Option, some, List, [], ◌∷◌, ◌++◌, arith, length,
  length-append, Result, ok, err, inl, inr, Option-cases, Bool-cases, if_rule,
}
use lspctl.Map.{Map, contains_key, values}
use lspctl.Map.Totals.{length-remove}
use lspctl.Failure.{ContractFailure}
use lspctl.Documents.{
  OpenDocument, DocumentStore, TextSynchronization, RefreshOutcome, unsynchronized, open_close,
}
use lspctl.Documents.Reading.{Host, Reading, ReadDocument, read_document}
use lspctl.Documents.Store.{
  Run, done, panicked, out_of_fuel, never_fits, over_limits, remove_document, push_pending,
  close_failed_document, refresh_read, refresh, replace_document, refresh_each,
  refresh_open_documents,
}
use lspctl.Documents.Consistency.{remove_document-IsConsistent}
use lspctl.Documents.Eviction.{Evictable, Evicts-Evictable, Evicts-within}
use lspctl.Documents.Refresh.{
  IsValid, snapshot_read, ready, enter-Evictable, replace_document-Evicts,
}

remove_document-IsValid :
    (s : DocumentStore) (uri : String) → IsValid s → IsValid (remove_document s uri)
remove_document-IsValid s uri v = record {
  consistent = remove_document-IsConsistent s uri v.consistent;
  count_bound = ground (arith, v.count_bound, length-remove uri s.documents);
  text_bound = omega (arith, v.text_bound);
}

push_pending-IsValid :
    (s : DocumentStore) (sync : TextSynchronization) (uri : String)
    → IsValid s
    → IsValid (push_pending s sync uri)
push_pending-IsValid s unsynchronized uri v = v
push_pending-IsValid s open_close uri v = record {
  consistent = record {
    distinct = v.consistent.distinct;
    total_exact = v.consistent.total_exact;
    keyed = v.consistent.keyed;
    room = v.consistent.room;
  };
  count_bound = v.count_bound;
  text_bound = v.text_bound;
}

-- how `close_failed_document` ends: nothing, or a removal
pub close_failed_rule {ℓ} :
    (P : DocumentStore → Type ℓ) (url : String → Option String) (s : DocumentStore) (path : String)
    (sync : TextSynchronization)
    → P s
    → ((uri : String)
        → url path ≡ some uri
        → contains_key uri s.documents ≡ true
        → P (push_pending (remove_document s uri) sync uri))
    → P (close_failed_document url s path sync)
unfolding close_failed_document
close_failed_rule P url s path sync h k = elim (Option-cases (url path)) [
  | inl e ↦ rw (e, close_failed_document) h
  | inr (uri, e) ↦ elim (Bool-cases (contains_key uri s.documents)) [
    | inl there ↦ rw (e, there, close_failed_document) (k uri e there)
    | inr gone ↦ rw (e, gone, close_failed_document) h
  ]
]

close_failed_document-IsValid :
    (url : String → Option String) (s : DocumentStore) (path : String) (sync : TextSynchronization)
    → IsValid s
    → IsValid (close_failed_document url s path sync)
close_failed_document-IsValid url s path sync v =
    close_failed_rule IsValid url s path sync v
      λ uri _ _. push_pending-IsValid _ sync uri (remove_document-IsValid s uri v)

-- A call that returns, with a store and a result for which `P` holds.
abbrev pub Returns :
    {A : Type 0} → (DocumentStore → Result ContractFailure A → Type 0) → Run A → Type 0
Returns P (done s r) = P s r
Returns P _ = ⊥

within-IsValid :
    (s : DocumentStore) (uri : String) (doc : OpenDocument)
    → Evictable uri doc s
    → over_limits s ≡ false
    → IsValid s
within-IsValid s uri doc e w = record {
  consistent = e.consistent;
  count_bound = ground arith;
  text_bound = ground arith;
}

replace_document-IsValid :
    (host : Host) (s : DocumentStore) (read : ReadDocument) (language_id : String)
    (sync : TextSynchronization)
    → IsValid s
    → 1 ≤ s.max_open_documents
    → length read.text ≤ s.max_total_text_bytes
    → Returns (λ s' _. IsValid s') (replace_document host s read language_id sync)
replace_document-IsValid host s read language_id sync v allowed fits =
    let (s', uris, steps, run) =
      replace_document-Evicts s read language_id v allowed fits host sync in
    let e = Evicts-Evictable _ steps (
      enter-Evictable s _ (snapshot_read s read language_id)
        (ready s read language_id v allowed fits)) in
    rw run (within-IsValid s' read.uri _ e (Evicts-within steps))

refresh_read-IsValid :
    (host : Host) (s : DocumentStore) (read : Result ContractFailure ReadDocument)
    (path language_id : String) (sync : TextSynchronization)
    → IsValid s
    → Returns (λ s' _. IsValid s') (refresh_read host s read path language_id sync)
unfolding refresh_read
refresh_read-IsValid host s (err failure) path language_id sync v =
    close_failed_document-IsValid host.from_file_path s path sync v
refresh_read-IsValid host s (ok read) path language_id sync v =
    if_rule (Returns (λ s' _. IsValid s')) (never_fits s read.text) _ _
      (λ _. close_failed_document-IsValid host.from_file_path s read.path sync v)
      λ fine. replace_document-IsValid host s read language_id sync v (ground arith) (ground arith)

-- Whatever the reading answers, `refresh` returns (it neither panics nor loops), and from a valid
-- store it leaves a valid one: the total is the size of the texts kept, and both limits hold.
pub refresh-IsValid :
    (host : Host) (s : DocumentStore) (reading : Reading) (path language_id : String)
    (sync : TextSynchronization)
    → IsValid s
    → Returns (λ s' _. IsValid s') (refresh host s reading path language_id sync)
unfolding refresh
refresh-IsValid host s reading path language_id sync v =
    refresh_read-IsValid host s (read_document host path s.max_document_bytes reading) path
      language_id sync v

-- A list of results that accounts for `n` documents.
abbrev pub Accounts :
    ℕ → Result ContractFailure (List RefreshOutcome × List ContractFailure) → Type 0
Accounts n (ok (refreshed, failures)) = length refreshed + length failures ≡ n
Accounts n (err failure) = ⊥

refresh_each-IsValid :
    (host : Host) (answers : String → Reading) (sync : TextSynchronization) (s : DocumentStore)
    (docs : List OpenDocument) (refreshed : List RefreshOutcome) (failures : List ContractFailure)
    (n : ℕ)
    → length refreshed + length failures + length docs ≡ n
    → IsValid s
    → Returns
        (λ s' r. IsValid s' × Accounts n r)
        (refresh_each host answers sync s docs refreshed failures)
unfolding refresh_each
refresh_each-IsValid host answers sync s [] refreshed failures n e v = (v, omega arith)
refresh_each-IsValid host answers sync s (doc ∷ docs) refreshed failures n e v =
    go (refresh host s (answers doc.snapshot.path) doc.snapshot.path doc.snapshot.language_id sync)
      (refresh-IsValid host s (answers doc.snapshot.path) doc.snapshot.path doc.snapshot.language_id
        sync v)
      (λ s' v' outcome.
        refresh_each-IsValid host answers sync s' docs (refreshed ++ outcome ∷ []) failures n
          (omega (arith, length-append refreshed (outcome ∷ []))) v')
      (λ s' v' failure.
        refresh_each-IsValid host answers sync s' docs refreshed (failures ++ failure ∷ []) n
          (omega (arith, length-append failures (failure ∷ []))) v')
  where
    go :
        (r : Run RefreshOutcome)
        → Returns (λ s' _. IsValid s') r
        → ((s' : DocumentStore)
            → IsValid s'
            → (outcome : RefreshOutcome)
            → Returns
                (λ s' r. IsValid s' × Accounts n r)
                (refresh_each host answers sync s' docs (refreshed ++ outcome ∷ []) failures))
        → ((s' : DocumentStore)
            → IsValid s'
            → (failure : ContractFailure)
            → Returns
                (λ s' r. IsValid s' × Accounts n r)
                (refresh_each host answers sync s' docs refreshed (failures ++ failure ∷ [])))
        → Returns
            (λ s' r. IsValid s' × Accounts n r)
            (elim r [
              | done s' (ok outcome) ↦
                  refresh_each host answers sync s' docs (refreshed ++ outcome ∷ []) failures
              | done s' (err failure) ↦
                  refresh_each host answers sync s' docs refreshed (failures ++ failure ∷ [])
              | panicked ↦ panicked
              | out_of_fuel ↦ out_of_fuel
            ])
    go (done s' (ok outcome)) h good bad = good s' h outcome
    go (done s' (err failure)) h good bad = bad s' h failure
    go panicked h good bad = h
    go out_of_fuel h good bad = h

length-values : (s : DocumentStore) → length (values s.documents) ≡ length s.documents
unfolding values
length-values s = all s.documents
  where
    all : (m : Map OpenDocument) → length (values m) ≡ length m
    all [] = refl
    all ((k, doc) ∷ m) = omega (arith, all m)

-- `refresh_open_documents` returns from every valid store, leaves a valid one, and has an outcome or
-- a failure for each document that was open.
pub refresh_open_documents-IsValid :
    (host : Host) (answers : String → Reading) (sync : TextSynchronization) (s : DocumentStore)
    → IsValid s
    → Returns
        (λ s' r. IsValid s' × Accounts (length s.documents) r)
        (refresh_open_documents host answers sync s)
unfolding refresh_open_documents
refresh_open_documents-IsValid host answers sync s v =
    refresh_each-IsValid host answers sync s (values s.documents) [] [] (length s.documents)
      (omega (arith, length-values s)) v
