-- ===== src/Receipts/Expiry.antt =====
-- Which Receipts `expired_receipt_ids` of src/mutation/state.rs gives.
use mathlib.Core.Path.{subst}
use lspctl.Prelude.{
  ℕ, ◌≤◌, String, ◌≡◌, refl, sym, true, false, not, ◌&&◌, Option, none, some, List, [], ◌∷◌, ◌++◌,
  arith, All, if_rule, if◌then◌else◌, Bool-cases, ◌⊎◌, inl, inr, str_eq, eq_iff,
}
use lspctl.Map.{contains_key}
use lspctl.Edits.{contains}
use lspctl.Receipts.{
  StoredReceipt, Identifiers, select, receipt_chain, receipt_chain_protected, all_expired,
  identifiers_of, visit, expire_each, expired_receipt_ids,
}
use lspctl.Receipts.Chain.{receipt_chain-IsClosed}
use lspctl.Receipts.Freedom.{
  IsFree, unprotected-IsFree, protected_not-IsFree, all_expired-All, All-all_expired,
  contains-append, contains-visit,
}
use lspctl.Receipts.Prune.{has_receipt}

-- The identifier stands in a chain of which every record has expired, which is free, and which is
-- given up as a whole: every identifier in it is among `ids`.
abbrev pub MayExpire : ℕ → List StoredReceipt → List String → String → Type 0
MayExpire now receipts ids id =
    (start : String) × (chain : List StoredReceipt) × (receipt_chain receipts start ≡ some chain)
    × All (λ r. r.expires_unix_seconds ≤ now) chain
    × IsFree chain
    × (contains (identifiers_of chain) id ≡ true)
    × ((k : String) → contains (identifiers_of chain) k ≡ true → contains ids k ≡ true)

-- The identifier stands in a chain that has to stay: not all of it has expired, or it is not free.
abbrev pub MustStay : ℕ → List StoredReceipt → String → Type 0
MustStay now receipts id =
    (start : String) × (chain : List StoredReceipt) × (receipt_chain receipts start ≡ some chain)
    × ¬ (All (λ r. r.expires_unix_seconds ≤ now) chain × IsFree chain)
    × (contains (identifiers_of chain) id ≡ true)

-- What holds of a part of the receipts, where some identifiers were visited before.
Settled : ℕ → List StoredReceipt → List StoredReceipt → Identifiers → List String → Type 0
Settled now receipts rest visited ids =
    (id : String)
    → has_receipt id rest ≡ true
    → (contains ids id ≡ true) ⊎ MustStay now receipts id ⊎ (contains_key id visited ≡ true)

Expires : ℕ → List StoredReceipt → List StoredReceipt → Identifiers → Option (List String) → Type 0
Expires now receipts rest visited o =
    (ids : List String) × (o ≡ some ids)
    × ((id : String) → contains ids id ≡ true → MayExpire now receipts ids id)
    × Settled now receipts rest visited ids

-- one chain, before those that are found later
module _ (now : ℕ) (receipts : List StoredReceipt) where
  abbrev with_chain : List StoredReceipt → Option (List String) → Option (List String)
  with_chain chain o = elim o [
    | none ↦ none
    | some later ↦
        if all_expired now chain && not (receipt_chain_protected chain)
        then some (identifiers_of chain ++ later)
        else some later
  ]

  -- What may go beside some identifiers may go beside more.
  later-MayExpire :
      (more ids : List String) (id : String)
      → MayExpire now receipts ids id
      → MayExpire now receipts (more ++ ids) id
  later-MayExpire more ids id (start, chain, e, old, free, inside, whole) = (
    start,
    chain,
    e,
    old,
    free,
    inside,
    λ k c. ground (arith, whole k c, contains-append more ids k),
  )

  -- What is settled behind a chain is settled before it, and so is what stands in the chain.
  with_chain-Settled :
      (start : String) (chain rest : List StoredReceipt) (visited : Identifiers)
      (ids all : List String)
      → receipt_chain receipts start ≡ some chain
      → Settled now receipts rest (visit chain visited) ids
      → ((k : String) → contains ids k ≡ true → contains all k ≡ true)
      → ((k : String)
          → contains (identifiers_of chain) k ≡ true
          → (contains all k ≡ true) ⊎ MustStay now receipts k)
      → Settled now receipts rest visited all
  unfolding Settled
  with_chain-Settled start chain rest visited ids all e settled more inside id there =
      elim (settled id there) [
        | inl given ↦ inl (more id given)
        | inr (inl stays) ↦ inr (inl stays)
        | inr (inr seen) ↦ elim (Bool-cases (contains (identifiers_of chain) id)) [
          | inl here ↦ elim (inside id here) [ inl given ↦ inl given | inr stays ↦ inr (inl stays) ]
          | inr elsewhere ↦ inr (inr (ground (arith, contains-visit chain visited id)))
        ]
      ]

  with_chain-Expires :
      (start : String) (chain rest : List StoredReceipt) (visited : Identifiers)
      (o : Option (List String))
      → receipt_chain receipts start ≡ some chain
      → Expires now receipts rest (visit chain visited) o
      → (all : List String) × (with_chain chain o ≡ some all)
        × ((id : String) → contains all id ≡ true → MayExpire now receipts all id)
        × Settled now receipts rest visited all
        × ((k : String)
            → contains (identifiers_of chain) k ≡ true
            → (contains all k ≡ true) ⊎ MustStay now receipts k)
  unfolding Expires
  with_chain-Expires start chain rest visited o e (ids, found, may, settled) =
      subst (λ o. Chained (with_chain chain o)) (sym found)
        (if_rule Chained (all_expired now chain && not (receipt_chain_protected chain)) _ _
          (λ t. (
            identifiers_of chain ++ ids,
            refl,
            λ id c. elim (Bool-cases (contains (identifiers_of chain) id)) [
              | inl inside ↦ (
                start,
                chain,
                e,
                all_expired-All now chain (ground arith),
                unprotected-IsFree chain (ground arith),
                inside,
                λ k d. ground (arith, contains-append (identifiers_of chain) ids k),
              )
              | inr outside ↦
                  later-MayExpire (identifiers_of chain) ids id
                    (may id (ground (arith, contains-append (identifiers_of chain) ids id)))
            ],
            with_chain-Settled start chain rest visited ids (identifiers_of chain ++ ids) e settled
                (λ k c. ground (arith, contains-append (identifiers_of chain) ids k))
                (λ k c. inl (ground (arith, contains-append (identifiers_of chain) ids k))),
            λ k c. inl (ground (arith, contains-append (identifiers_of chain) ids k)),
          ))
          (λ f.
            let stays : ((k : String)
                → contains (identifiers_of chain) k ≡ true
                → MustStay now receipts k) =
              λ k c. (start, chain, e, must_stay f, c) in
            (
              ids,
              refl,
              may,
              with_chain-Settled start chain rest visited ids ids e settled (λ k c. c)
                  (λ k c. inr (stays k c)),
              λ k c. inr (stays k c),
            )))
    where
      Chained : Option (List String) → Type 0
      Chained r =
          (all : List String) × (r ≡ some all)
          × ((id : String) → contains all id ≡ true → MayExpire now receipts all id)
          × Settled now receipts rest visited all
          × ((k : String)
              → contains (identifiers_of chain) k ≡ true
              → (contains all k ≡ true) ⊎ MustStay now receipts k)

      must_stay :
          all_expired now chain && not (receipt_chain_protected chain) ≡ false
          → ¬ (All (λ r. r.expires_unix_seconds ≤ now) chain × IsFree chain)
      must_stay f (old, free) = elim (Bool-cases (receipt_chain_protected chain)) [
        | inl bound ↦ protected_not-IsFree chain bound free
        | inr loose ↦ ground (arith, All-all_expired now chain old)
      ]

  abbrev with_found :
      (List StoredReceipt → Option (List String))
      → Option (List StoredReceipt)
      → Option (List String)
  with_found later o = elim o [ none ↦ none | some chain ↦ with_chain chain (later chain) ]

  -- One more receipt in front of the others.
  cons-Settled :
      (r : StoredReceipt) (rest : List StoredReceipt) (visited : Identifiers) (ids : List String)
      → (contains ids r.receipt_id ≡ true)
        ⊎ MustStay now receipts r.receipt_id
        ⊎ (contains_key r.receipt_id visited ≡ true)
      → Settled now receipts rest visited ids
      → Settled now receipts (r ∷ rest) visited ids
  unfolding Settled has_receipt
  cons-Settled r rest visited ids first settled id there =
      elim (Bool-cases (str_eq r.receipt_id id)) [
        | inl same ↦
            subst
              (λ i.
                (contains ids i ≡ true) ⊎ MustStay now receipts i ⊎ (contains_key i visited ≡ true))
              ((eq_iff r.receipt_id id).0 same) first
        | inr differ ↦ settled id (ground arith)
      ]

  expire_each-Expires :
      (rest : List StoredReceipt) (visited : Identifiers)
      → ((id : String) → has_receipt id rest ≡ true → has_receipt id receipts ≡ true)
      → Expires now receipts rest visited (expire_each now receipts rest visited)
  unfolding expire_each Expires has_receipt Settled
  expire_each-Expires [] visited sub = ([], refl, λ id c. ground arith, none_left)
    where
      none_left : Settled now receipts [] visited []
      none_left id c = ground arith
  expire_each-Expires (r ∷ rest) visited sub =
      let later = λ (v : Identifiers). expire_each-Expires rest v (λ id c. sub id (ground arith)) in
      if_rule (Expires now receipts (r ∷ rest) visited) (contains_key r.receipt_id visited) _ _
        (λ t.
          let (ids, found, may, settled) = later visited in
          (ids, found, may, cons-Settled r rest visited ids (inr (inr t)) settled))
        (λ f.
          let (n, e, inside, closed, chosen) = receipt_chain-IsClosed receipts r.receipt_id in
          let chain = select receipts n in
          let (ids, found, may, settled, whole) =
            with_chain-Expires r.receipt_id chain rest visited
              (expire_each now receipts rest (visit chain visited)) e
              (later (visit chain visited)) in
          let known = sub r.receipt_id (ground (arith, eq_iff r.receipt_id r.receipt_id)) in
          let here : contains (identifiers_of chain) r.receipt_id ≡ true =
            ground (arith, known, inside, chosen r.receipt_id) in
          subst
            (λ o.
              Expires now receipts (r ∷ rest) visited
                (with_found (λ chain. expire_each now receipts rest (visit chain visited)) o))
            (sym e)
            (
              ids,
              found,
              may,
              cons-Settled r rest visited ids
                  (elim (whole r.receipt_id here) [
                    | inl given ↦ inl given
                    | inr stays ↦ inr (inl stays)
                  ])
                  settled,
            ))

-- Finding the expired Receipts always ends. Each that is given stands in a chain of which every record
-- has expired, and which holds a recovery that has ended or no cleanup that is pending; and with it the
-- whole chain is given. Each that is not given stands in a chain of which that does not hold.
pub expired_receipt_ids-MayExpire :
    (now : ℕ) (receipts : List StoredReceipt)
    → (ids : List String) × (expired_receipt_ids now receipts ≡ some ids)
      × ((id : String) → contains ids id ≡ true → MayExpire now receipts ids id)
      × ((id : String)
          → has_receipt id receipts ≡ true
          → (contains ids id ≡ true) ⊎ MustStay now receipts id)
unfolding expired_receipt_ids Expires Settled contains_key
expired_receipt_ids-MayExpire now receipts =
    let (ids, found, may, settled) = expire_each-Expires now receipts receipts [] (λ id c. c) in
    (
      ids,
      found,
      may,
      λ id there. elim (settled id there) [
        | inl given ↦ inl given
        | inr (inl stays) ↦ inr stays
        | inr (inr seen) ↦ ground arith
      ],
    )
