-- ===== src/Receipts/Chain/Growth.antt =====
-- How one round over the Receipts (`receipt_chain` of src/mutation/state.rs) makes the set grow.
use lspctl.Prelude.{
  ℕ, suc, ◌+◌, ◌≤◌, ◌<◌, String, ◌≡◌, refl, ap, ◌∙◌, inl, inr, true, false, ◌||◌, Option, none,
  some, List, [], ◌∷◌, arith, All, str_eq, eq_iff, length, if◌then◌else◌, Bool-cases, if_rule,
}
use lspctl.Map.{contains_key, replace, insert}
use lspctl.Map.Laws.{contains-place}
use lspctl.Map.Totals.{length-place, insert_absent}
use lspctl.Edits.{contains}
use lspctl.Receipts.{StoredReceipt, Identifiers, links_into, insert_linked, follow, follow_all}

replace_same : (k : String) (m : Identifiers) → replace k tt m ≡ m
unfolding replace
replace_same k [] = refl
replace_same k ((j, v) ∷ m) = elim (Bool-cases (str_eq j k)) [
  | inl e ↦ rw e refl
  | inr e ↦ rw e (ap (λ l. (j, v) ∷ l) (replace_same k m))
]

insert_known : (k : String) (m : Identifiers) → contains_key k m ≡ true → insert k tt m ≡ m
unfolding insert
insert_known k m h = rw h (replace_same k m)

pub contains-insert :
    (k j : String) (m : Identifiers)
    → contains_key j (insert k tt m) ≡ (if str_eq k j then true else contains_key j m)
contains-insert k j m = elim (Bool-cases (contains_key k m)) [
  | inl old ↦ ground (arith, insert_known k m old, eq_iff k j)
  | inr new ↦ ground (arith, insert_absent k tt m new, contains-place k j tt m)
]

-- How many of the names are not there yet.
unfoldable pub missing : List String → Identifiers → ℕ
missing [] m = 0
missing (u ∷ us) m = if contains_key u m then missing us m else suc (missing us m)

pub missing-length : (us : List String) (m : Identifiers) → missing us m ≤ length us
unfolding missing
missing-length [] m = omega arith
missing-length (u ∷ us) m = ground (arith, missing-length us m)

missing-insert_le :
    (us : List String) (k : String) (m : Identifiers) → missing us (insert k tt m) ≤ missing us m
unfolding missing
missing-insert_le [] k m = omega arith
missing-insert_le (u ∷ us) k m = ground (arith, contains-insert k u m, missing-insert_le us k m)

missing-insert_lt :
    (us : List String) (k : String) (m : Identifiers)
    → contains us k ≡ true
    → contains_key k m ≡ false
    → missing us (insert k tt m) < missing us m
unfolding missing
missing-insert_lt [] k m h new = ground arith
missing-insert_lt (u ∷ us) k m h new = ground (
  arith,
  contains-insert k u m,
  eq_iff u k,
  eq_iff k u,
  missing-insert_le us k m,
  missing-insert_lt us k m,
)

-- From one set of identifiers to a later one, of which either is the same or has found new names.
unfoldable pub Step : List String → Identifiers → Identifiers → Type 0
Step us m m' =
    (length m ≤ length m')
    × (length m' + missing us m' ≤ length m + missing us m)
    × (length m' ≡ length m → m' ≡ m)

Step-refl : (us : List String) (m : Identifiers) → Step us m m
unfolding Step
Step-refl us m = (omega arith, omega arith, λ e. refl)

Step-trans : (us : List String) (l m n : Identifiers) → Step us l m → Step us m n → Step us l n
unfolding Step
Step-trans us l m n a b = (
  omega (arith, a.0, b.0),
  omega (arith, a.1, b.1),
  λ e. b.2 (omega (arith, a.0, b.0, e)) ∙ a.2 (omega (arith, a.0, b.0, e)),
)

insert-Step :
    (us : List String) (k : String) (m : Identifiers)
    → contains us k ≡ true
    → Step us m (insert k tt m)
unfolding Step
insert-Step us k m h = elim (Bool-cases (contains_key k m)) [
  | inl old ↦ rw (insert_known k m old) (omega arith, omega arith, λ e. refl)
  | inr new ↦
      let longer : length (insert k tt m) ≡ length m + 1 =
        ap length (insert_absent k tt m new) ∙ length-place k tt m in
      let fewer = missing-insert_lt us k m h new in
      (omega (arith, longer), omega (arith, longer, fewer), λ e. absurd (omega (arith, longer, e)))
]

-- The names of a record are among those given.
unfoldable pub IsNamed : List String → StoredReceipt → Type 0
IsNamed us r = (contains us r.receipt_id ≡ true) × (elim r.linked_receipt_id as (λ o. Type 0) [
  | none ↦ Unit
  | some linked ↦ contains us linked ≡ true
])

insert_linked-Step :
    (us : List String) (o : Option String) (m : Identifiers)
    → (elim o as (λ o. Type 0) [ none ↦ Unit | some linked ↦ contains us linked ≡ true ])
    → Step us m (insert_linked o m)
unfolding insert_linked
insert_linked-Step us none m h = Step-refl us m
insert_linked-Step us (some linked) m h = insert-Step us linked m h

pub follow-Step :
    (us : List String) (r : StoredReceipt) (m : Identifiers) → IsNamed us r → Step us m (follow r m)
unfolding follow IsNamed
follow-Step us r m h =
    if_rule (Step us m) (contains_key r.receipt_id m || links_into r.linked_receipt_id m) _ _
      (λ t.
        Step-trans us m (insert r.receipt_id tt m)
          (insert_linked r.linked_receipt_id (insert r.receipt_id tt m))
          (insert-Step us r.receipt_id m h.0)
          (insert_linked-Step us r.linked_receipt_id (insert r.receipt_id tt m) h.1))
      (λ f. Step-refl us m)

pub follow_all-Step :
    (us : List String) (rs : List StoredReceipt) (m : Identifiers)
    → All (IsNamed us) rs
    → Step us m (follow_all rs m)
unfolding follow_all
follow_all-Step us [] m h = Step-refl us m
follow_all-Step us (r ∷ rs) m h =
    Step-trans us m (follow r m) (follow_all rs (follow r m)) (follow-Step us r m h.0)
      (follow_all-Step us rs (follow r m) h.1)
