-- ===== src/Receipts/Protection/Choice.antt =====
-- The decision of `prune_state` of src/mutation/state.rs on one identifier that was asked for.
use mathlib.Core.Path.{subst}
use text.Mathlib.Text.{starts_with}
use lspctl.Prelude.{
  String, ◌≡◌, ◌⊎◌, inl, inr, refl, sym, ap, true, false, not, ◌&&◌, ◌||◌, Option, none, some, List,
  [], ◌∷◌, ◌∙◌, Result, ok, err, arith, str_eq, eq_iff, if_rule, Bool-cases, if◌then◌else◌,
}
use lspctl.Json.{Json}
use lspctl.Map.{Map, lookup, insert, contains_key}
use lspctl.Map.Laws.{lookup-insert, contains_iff_lookup}
use lspctl.Edits.{contains}
use lspctl.Receipts.{StoredReceipt, select, identifiers_of, receipt_chain, receipt_chain_protected}
use lspctl.Receipts.Chain.{receipt_chain-IsClosed}
use lspctl.Receipts.Freedom.{IsFree, unprotected-IsFree, protected_not-IsFree}
use lspctl.Receipts.Prune.{
  PreviewFile, absent, refused, stored, Store, Target, preview_path, receipt_path, insert_chain,
  has_receipt, choose_chain, choose_preview, choose_receipt, choose, exists_file,
}

-- The identifier is that of a Preview which has a file.
abbrev pub IsPreview : Store → String → Type 0
IsPreview store id = starts_with id "prv_" && exists_file (store.preview_file id) ≡ true

-- A Preview may be pruned where it can be read and is not reserved, and a Receipt where its chain is
-- free.
abbrev pub Prunable : Store → String → Type 0
Prunable store id =
    IsPreview store id × (store.preview_file id ≡ stored false)
    ⊎ (¬ IsPreview store id)
      × (starts_with id "prv_" || starts_with id "rcp_" ≡ true)
      × (has_receipt id store.receipts ≡ true)
      × ((chain : List StoredReceipt) × (receipt_chain store.receipts id ≡ some chain)
          × IsFree chain)

-- Why a file is among those that are removed: it is a Preview which was asked for and is not reserved,
-- or a Receipt in the chain of one which was asked for, and this chain is free and removed as a whole.
abbrev pub MayPrune : Store → List String → Map Target → String → Target → Type 0
MayPrune store ids paths id preview_path =
    (contains ids id ≡ true) × (store.preview_file id ≡ stored false)
MayPrune store ids paths id receipt_path =
    (start : String) × (chain : List StoredReceipt) × (contains ids start ≡ true)
    × (receipt_chain store.receipts start ≡ some chain)
    × IsFree chain
    × (contains (identifiers_of chain) id ≡ true)
    × ((k : String) → contains (identifiers_of chain) k ≡ true → contains_key k paths ≡ true)

-- Every path that is chosen may go.
abbrev pub AllMayPrune : Store → List String → Map Target → Type 0
AllMayPrune store ids paths =
    (id : String) (target : Target)
    → lookup id paths ≡ some target
    → MayPrune store ids paths id target

abbrev pub Keeps : Map Target → Map Target → Type 0
Keeps paths more = (k : String) → contains_key k paths ≡ true → contains_key k more ≡ true

contains-insert :
    (k j : String) (target : Target) (paths : Map Target)
    → contains_key j (insert k target paths) ≡ (if str_eq k j then true else contains_key j paths)
contains-insert k j target paths = ground (
  arith,
  contains_iff_lookup j (insert k target paths),
  contains_iff_lookup j paths,
  lookup-insert k j target paths,
)

contains-insert_chain :
    (chain : List StoredReceipt) (paths : Map Target) (k : String)
    → contains_key k (insert_chain chain paths)
      ≡ (contains (identifiers_of chain) k || contains_key k paths)
unfolding insert_chain
contains-insert_chain [] paths k = refl
contains-insert_chain (r ∷ rest) paths k = ground (
  arith,
  contains-insert_chain rest (insert r.receipt_id receipt_path paths) k,
  contains-insert r.receipt_id k receipt_path paths,
)

module _ (store : Store) (ids : List String) where
  MayPrune-grows :
      (paths more : Map Target) (id : String) (target : Target)
      → Keeps paths more
      → MayPrune store ids paths id target
      → MayPrune store ids more id target
  MayPrune-grows paths more id preview_path keeps may = may
  MayPrune-grows paths more id receipt_path keeps (start, chain, asked, e, free, inside, whole) =
      (start, chain, asked, e, free, inside, λ k c. keeps k (whole k c))

  -- What each path in `paths` has on its side, where `final` is what is removed in the end.
  Backed : Map Target → Map Target → Type 0
  Backed final paths =
      (id : String) (target : Target)
      → lookup id paths ≡ some target
      → MayPrune store ids final id target

  insert-Backed :
      (k : String) (target : Target) (final paths : Map Target)
      → MayPrune store ids final k target
      → Backed final paths
      → Backed final (insert k target paths)
  unfolding Backed
  insert-Backed k target final paths may all id other found = elim (Bool-cases (str_eq k id)) [
    | inl same ↦
        let there : some target ≡ some other = ground (arith, lookup-insert k id target paths) in
        let target_path : target ≡ other = ap (λ o. elim o [ none ↦ target | some t ↦ t ]) there in
        subst (λ t. MayPrune store ids final id t) target_path
          (subst (λ i. MayPrune store ids final i target) ((eq_iff k id).0 same) may)
    | inr differ ↦ all id other (ground (arith, lookup-insert k id target paths))
  ]

  insert_chain-Backed :
      (rest : List StoredReceipt) (final paths : Map Target)
      → ((k : String)
          → contains (identifiers_of rest) k ≡ true
          → MayPrune store ids final k receipt_path)
      → Backed final paths
      → Backed final (insert_chain rest paths)
  unfolding insert_chain
  insert_chain-Backed [] final paths may all = all
  insert_chain-Backed (r ∷ rest) final paths may all =
      insert_chain-Backed rest final (insert r.receipt_id receipt_path paths)
        (λ k c. may k (ground arith))
        (insert-Backed r.receipt_id receipt_path final paths
          (may r.receipt_id (ground (arith, eq_iff r.receipt_id r.receipt_id))) all)

  -- The decision on one identifier that was asked for: a problem where it may not be pruned, and else
  -- more files, its own among them.
  abbrev pub Decided : String → Map Target → Option (Result Json (Map Target)) → Type 0
  Decided id paths o =
      ((fault : Json) × (o ≡ some (err fault)) × ¬ Prunable store id)
      ⊎ ((more : Map Target) × (o ≡ some (ok more))
          × Prunable store id
          × AllMayPrune store ids more
          × Keeps paths more
          × (contains_key id more ≡ true))

  -- What a free chain adds.
  chain-Decided :
      (id : String) (chain : List StoredReceipt) (paths : Map Target)
      → contains ids id ≡ true
      → receipt_chain store.receipts id ≡ some chain
      → IsFree chain
      → AllMayPrune store ids paths
      → AllMayPrune store ids (insert_chain chain paths)
  unfolding Backed
  chain-Decided id chain paths asked e free all =
      let final = insert_chain chain paths in
      insert_chain-Backed chain final paths
        (λ k c. (
          id,
          chain,
          asked,
          e,
          free,
          c,
          λ j d. ground (arith, contains-insert_chain chain paths j),
        ))
        (λ k target found.
          MayPrune-grows paths final k target
            (λ j d. ground (arith, contains-insert_chain chain paths j)) (all k target found))

  choose_receipt-Decided :
      (id : String) (paths : Map Target)
      → contains ids id ≡ true
      → ¬ IsPreview store id
      → starts_with id "prv_" || starts_with id "rcp_" ≡ true
      → AllMayPrune store ids paths
      → Decided id paths (choose_receipt store id paths)
  unfolding choose_receipt choose_chain
  choose_receipt-Decided id paths asked no_preview named all =
      if_rule (Decided id paths) (not (has_receipt id store.receipts)) _ _
        (λ t. inl (_, refl, unknown t))
        (λ f.
          let (n, e, inside, closed, chosen) = receipt_chain-IsClosed store.receipts id in
          let chain = select store.receipts n in
          let there : has_receipt id store.receipts ≡ true = ground arith in
          let here : contains (identifiers_of chain) id ≡ true = ground (arith, chosen id) in
          subst (λ o. Decided id paths (choose_chain id paths o)) (sym e)
            (if_rule (Decided id paths) (receipt_chain_protected chain) _ _
              (λ bound. inl (_, refl, protected chain e bound))
              (λ loose.
                let free = unprotected-IsFree chain loose in
                inr (
                  insert_chain chain paths,
                  refl,
                  inr (no_preview, named, there, (chain, e, free)),
                  chain-Decided id chain paths asked e free all,
                  λ k c. ground (arith, contains-insert_chain chain paths k),
                  ground (arith, contains-insert_chain chain paths id),
                ))))
    where
      unknown : not (has_receipt id store.receipts) ≡ true → ¬ Prunable store id
      unknown t (inl (preview, file)) = no_preview preview
      unknown t (inr (none_there, prefix, there, chain)) = ground arith

      protected :
          (chain : List StoredReceipt)
          → receipt_chain store.receipts id ≡ some chain
          → receipt_chain_protected chain ≡ true
          → ¬ Prunable store id
      protected chain e bound (inl (preview, file)) = no_preview preview
      protected chain e bound (inr (none_there, prefix, there, (other, found, free))) =
          let same : some chain ≡ some other = cc in
          protected_not-IsFree chain bound
            (subst IsFree (sym (ap (λ o. elim o [ none ↦ chain | some c ↦ c ]) same)) free)

  pub choose-Decided :
      (id : String) (paths : Map Target)
      → contains ids id ≡ true
      → AllMayPrune store ids paths
      → Decided id paths (choose store id paths)
  unfolding choose choose_preview Backed
  choose-Decided id paths asked all =
      if_rule (Decided id paths) (starts_with id "prv_" && exists_file (store.preview_file id)) _ _
        (λ t. preview t (store.preview_file id) refl)
        (λ f.
          if_rule (Decided id paths) (starts_with id "prv_" || starts_with id "rcp_") _ _
            (λ named. choose_receipt-Decided id paths asked (λ p. ground arith) named all)
            (λ g.
              if_rule (Decided id paths) (starts_with id "txn_" && store.transaction_exists id) _ _
                (λ t. inl (_, refl, unnamed f g)) (λ h. inl (_, refl, unnamed f g))))
    where
      unnamed :
          starts_with id "prv_" && exists_file (store.preview_file id) ≡ false
          → starts_with id "prv_" || starts_with id "rcp_" ≡ false
          → ¬ Prunable store id
      unnamed f g (inl (there, file)) = ground arith
      unnamed f g (inr (none_there, prefix, there, chain)) = ground arith

      kept :
          (file : PreviewFile)
          → IsPreview store id
          → store.preview_file id ≡ file
          → (file ≡ stored false → ⊥)
          → ¬ Prunable store id
      kept file there e other (inl (_, free)) = other (sym e ∙ free)
      kept file there e other (inr (none_there, _, _, _)) = none_there there

      preview :
          IsPreview store id
          → (file : PreviewFile) → store.preview_file id ≡ file
          → Decided id paths (choose_preview id paths file)
      preview there absent e = inl (_, refl, kept absent there e (λ h. cc))
      preview there refused e = inl (_, refl, kept refused there e (λ h. cc))
      preview there (stored true) e = inl (_, refl, kept (stored true) there e (λ h. ground arith))
      preview there (stored false) e =
          let more = insert id preview_path paths in
          let keeps : Keeps paths more =
            λ k c. ground (arith, contains-insert id k preview_path paths) in
          inr (
            more,
            refl,
            inl (there, e),
            insert-Backed id preview_path more paths (asked, e)
                (λ k target found. MayPrune-grows paths more k target keeps (all k target found)),
            keeps,
            ground (arith, contains-insert id id preview_path paths, eq_iff id id),
          )
