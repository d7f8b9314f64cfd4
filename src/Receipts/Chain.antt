-- ===== src/Receipts/Chain.antt =====
-- The loop that follows the links between Receipts ends, and its chain is closed under them.
pub mod Growth
use lspctl.Prelude.{
  ℕ, zero, suc, ◌+◌, ◌≤◌, ◌<◌, String, ◌≡◌, refl, sym, ap, ◌∙◌, inl, inr, true, false, ◌&&◌, ◌||◌,
  Option, none, some, List, [], ◌∷◌, arith, All, str_eq, eq_iff, length, ◌==◌, if◌then◌else◌,
  Bool-cases, if_rule,
}
use lspctl.Map.{contains_key, replace, insert}
use lspctl.Map.Laws.{contains-place}
use lspctl.Map.Totals.{length-place, insert_absent}
use lspctl.Edits.{contains}
use lspctl.Receipts.{
  StoredReceipt, Identifiers, links_into, insert_linked, follow, follow_all, saturate, select,
  receipt_chain, identifiers_of,
}
use lspctl.Receipts.Prune.{has_receipt}
use lspctl.Receipts.Chain.Growth.{
  IsNamed, Step, contains-insert, follow-Step, follow_all-Step, missing, missing-length,
}

-- A record is in the set exactly if what it links to is.
abbrev pub IsClosedAt : Identifiers → StoredReceipt → Type 0
IsClosedAt m r = elim r.linked_receipt_id as (λ o. Type 0) [
  | none ↦ Unit
  | some linked ↦ contains_key linked m ≡ contains_key r.receipt_id m
]

closed_for :
    (id : String) (o : Option String) (m : Identifiers)
    → (if contains_key id m || links_into o m then insert_linked o (insert id tt m) else m) ≡ m
    → (elim o as (λ o. Type 0) [
      | none ↦ Unit
      | some linked ↦ contains_key linked m ≡ contains_key id m
    ])
unfolding links_into insert_linked
closed_for id none m h = tt
closed_for id (some linked) m h = ground (
  arith,
  ap (contains_key id) h,
  ap (contains_key linked) h,
  eq_iff id id,
  eq_iff linked linked,
  eq_iff linked id,
  contains-insert linked id (insert id tt m),
  contains-insert linked linked (insert id tt m),
  contains-insert id id m,
)

follow-closed : (r : StoredReceipt) (m : Identifiers) → follow r m ≡ m → IsClosedAt m r
unfolding follow
follow-closed r m h = closed_for r.receipt_id r.linked_receipt_id m h

follow_all-closed :
    (us : List String) (rs : List StoredReceipt) (m : Identifiers)
    → All (IsNamed us) rs
    → follow_all rs m ≡ m
    → All (IsClosedAt m) rs
unfolding follow_all Step
follow_all-closed us [] m h e = tt
follow_all-closed us (r ∷ rs) m h e =
    let one = follow-Step us r m h.0 in
    let others = follow_all-Step us rs (follow r m) h.1 in
    let same : follow r m ≡ m = one.2 (omega (arith, one.0, others.0, ap length e)) in
    (follow-closed r m same, follow_all-closed us rs m h.1 (ap (follow_all rs) (sym same) ∙ e))

-- Nothing that is in the set is lost.
Keeps : Identifiers → Identifiers → Type 0
Keeps m n = (k : String) → contains_key k m ≡ true → contains_key k n ≡ true

follow-Keeps : (r : StoredReceipt) (m : Identifiers) → Keeps m (follow r m)
unfolding follow insert_linked Keeps
follow-Keeps r m k h =
    if_rule {A = Identifiers} (λ n. contains_key k n ≡ true)
      (contains_key r.receipt_id m || links_into r.linked_receipt_id m) _ _
      (λ t. linked r.linked_receipt_id) (λ f. h)
  where
    linked :
        (o : Option String) → contains_key k (insert_linked o (insert r.receipt_id tt m)) ≡ true
    linked none = ground (arith, contains-insert r.receipt_id k m)
    linked (some l) =
        ground
          (arith, contains-insert r.receipt_id k m, contains-insert l k (insert r.receipt_id tt m))

follow_all-Keeps : (rs : List StoredReceipt) (m : Identifiers) → Keeps m (follow_all rs m)
unfolding follow_all Keeps
follow_all-Keeps [] m k h = h
follow_all-Keeps (r ∷ rs) m k h = follow_all-Keeps rs (follow r m) k (follow-Keeps r m k h)

Saturated : List StoredReceipt → Identifiers → Option Identifiers → Type 0
Saturated rs m o = (n : Identifiers) × (o ≡ some n) × (follow_all rs n ≡ n) × Keeps m n

saturate-Saturated :
    (us : List String) (fuel : ℕ) (rs : List StoredReceipt) (m : Identifiers)
    → All (IsNamed us) rs
    → missing us m < fuel
    → Saturated rs m (saturate fuel rs m)
unfolding saturate Step Saturated Keeps
saturate-Saturated us zero rs m h f = absurd (omega (arith, f))
saturate-Saturated us (suc fuel) rs m h f =
    let step = follow_all-Step us rs m h in
    if_rule (Saturated rs m) (length (follow_all rs m) == length m) _ _
      (λ t.
        let same : follow_all rs m ≡ m = step.2 (ground arith) in
        (follow_all rs m, refl, ap (follow_all rs) same, follow_all-Keeps rs m))
      (λ f'.
        let (n, runs, fixed, kept) =
          saturate-Saturated us fuel rs (follow_all rs m) h (ground (arith, step.0, step.1)) in
        (n, runs, fixed, later n kept))
  where
    later : (n : Identifiers) → Keeps (follow_all rs m) n → Keeps m n
    later n kept k c = kept k (follow_all-Keeps rs m k c)

-- the identifiers of the records, and those that they link to
names : List StoredReceipt → List String
names [] = []
names (r ∷ rest) = elim r.linked_receipt_id [
  | none ↦ r.receipt_id ∷ names rest
  | some linked ↦ r.receipt_id ∷ linked ∷ names rest
]

names-length : (rs : List StoredReceipt) → length (names rs) ≤ length rs + length rs
unfolding names
names-length [] = omega arith
names-length (r ∷ rest) = ground (arith, names-length rest)

one_named :
    (us ns : List String) (id : String) (o : Option String)
    → ((k : String)
        → contains (elim o [ none ↦ id ∷ ns | some linked ↦ id ∷ linked ∷ ns ]) k ≡ true
        → contains us k ≡ true)
    → (contains us id ≡ true)
      × (elim o as (λ o. Type 0) [ none ↦ Unit | some linked ↦ contains us linked ≡ true ])
      × ((k : String) → contains ns k ≡ true → contains us k ≡ true)
one_named us ns id none h = (h id (ground (arith, eq_iff id id)), tt, λ k c. h k (ground arith))
one_named us ns id (some linked) h = (
  h id (ground (arith, eq_iff id id)),
  h linked (ground (arith, eq_iff linked linked)),
  λ k c. h k (ground arith),
)

names-IsNamed :
    (us : List String) (rs : List StoredReceipt)
    → ((k : String) → contains (names rs) k ≡ true → contains us k ≡ true)
    → All (IsNamed us) rs
unfolding names IsNamed
names-IsNamed us [] h = tt
names-IsNamed us (r ∷ rest) h =
    let (id, linked, others) = one_named us (names rest) r.receipt_id r.linked_receipt_id h in
    ((id, linked), names-IsNamed us rest others)

chain_runs :
    (rs : List StoredReceipt) (start : String) (n : Identifiers)
    → saturate (length rs + length rs + 2) rs ((start, tt) ∷ []) ≡ some n
    → receipt_chain rs start ≡ some (select rs n)
unfolding receipt_chain
chain_runs rs start n h = ap chosen h
  where
    chosen : Option Identifiers → Option (List StoredReceipt)
    chosen o = elim o [ none ↦ none | some identifiers ↦ some (select rs identifiers) ]

-- Selecting keeps the records whose identifiers are in the set, and no others.
contains-select :
    (id : String) (receipts : List StoredReceipt) (identifiers : Identifiers)
    → contains (identifiers_of (select receipts identifiers)) id
      ≡ (has_receipt id receipts && contains_key id identifiers)
unfolding has_receipt select
contains-select id [] identifiers = refl
contains-select id (r ∷ rest) identifiers =
    ground (arith, eq_iff r.receipt_id id, contains-select id rest identifiers)

-- Following the links from a Receipt always ends. Its chain holds exactly the records whose identifiers
-- are in a set which has the start, and in which a record is exactly if what it links to is.
pub receipt_chain-IsClosed :
    (receipts : List StoredReceipt) (start : String)
    → (identifiers : Identifiers) × (receipt_chain receipts start
        ≡ some (select receipts identifiers))
      × (contains_key start identifiers ≡ true)
      × All (IsClosedAt identifiers) receipts
      × ((id : String)
          → contains (identifiers_of (select receipts identifiers)) id
            ≡ (has_receipt id receipts && contains_key id identifiers))
unfolding Saturated Keeps missing contains_key
receipt_chain-IsClosed receipts start =
    let us = start ∷ names receipts in
    let named = names-IsNamed us receipts (λ k c. ground arith) in
    let fuel = length receipts + length receipts + 2 in
    let first : Identifiers = (start, tt) ∷ [] in
    let (n, runs, fixed, kept) =
      saturate-Saturated us fuel receipts first named
        (omega (arith, missing-length us first, names-length receipts)) in
    (
      n,
      chain_runs receipts start n runs,
      kept start (ground (arith, eq_iff start start)),
      follow_all-closed us receipts n named fixed,
      λ id. contains-select id receipts n,
    )
