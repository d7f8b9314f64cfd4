-- ===== src/Canonical/Decode.antt =====
-- A reader of the canonical bytes of src/canonical_value.rs: what stands for a value is told apart from
-- what follows, and values with the same bytes have the same content.
use native.Mathlib.Nat.{div-add-mod'}
use lspctl.Prelude.{
  ℕ, zero, suc, ◌+◌, ◌-◌, ◌*◌, ◌/◌, ◌%◌, ◌^◌, ◌<◌, Bool, true, false, ◌≡◌, refl, sym, ap, ◌∙◌,
  Option, none, some, List, [], ◌∷◌, ◌++◌, length, arith, ◌==◌, if◌then◌else◌,
}
use lspctl.Json.{
  Json, Items, Members, pos_int, neg_int, float, null, boolean, number, string, array, object,
  no_items, item, no_members, member,
}
use lspctl.Text.{Bytes, as_bytes}
use lspctl.Canonical.{be_bytes, encode_bytes, normalized}

-- The content of a value: texts as bytes, and one zero among the floats.
mutual
  pub data Content : Type 0 where
    nothing : Content
    truth : Bool → Content
    negative natural real : ℕ → Content
    text : Bytes → Content
    sequence : Contents → Content
    mapping : Named → Content

  pub data Contents : Type 0 where
    end : Contents
    next : Content → Contents → Contents

  pub data Named : Type 0 where
    no_entry : Named
    entry : Bytes → Content → Named → Named

unfoldable mutual
  pub content : Json → Content
  content null = nothing
  content (boolean b) = truth b
  content (number (neg_int n)) = negative n
  content (number (pos_int n)) = natural n
  content (number (float bits)) = real (normalized bits)
  content (string s) = text (as_bytes s)
  content (array vs) = sequence (contents vs)
  content (object m) = mapping (named m)

  pub contents : Items → Contents
  contents no_items = end
  contents (item v vs) = next (content v) (contents vs)

  pub named : Members → Named
  named no_members = no_entry
  named (member k v m) = entry (as_bytes k) (content v) (named m)

unfoldable pub read_be : ℕ → ℕ → Bytes → Option (ℕ × Bytes)
read_be zero acc s = some (acc, s)
read_be (suc k) acc [] = none
read_be (suc k) acc (b ∷ s) = read_be k (acc * 256 + b) s

unfoldable pub read_exact : ℕ → Bytes → Option (Bytes × Bytes)
read_exact zero s = some ([], s)
read_exact (suc n) [] = none
read_exact (suc n) (b ∷ s) = elim (read_exact n s) [
  | none ↦ none
  | some (bs, rest) ↦ some (b ∷ bs, rest)
]

-- A number of `k` bytes.
abbrev Fits : ℕ → ℕ → Type 0
Fits zero n = n ≡ 0
Fits (suc k) n = Fits k (n / 256)

append_snoc {ℓ} :
    {A : Type ℓ} (xs : List A) (x : A) (ys : List A) → xs ++ (x ∷ []) ++ ys ≡ xs ++ (x ∷ ys)
append_snoc [] x ys = refl
append_snoc (y ∷ xs) x ys = ap (λ l. y ∷ l) (append_snoc xs x ys)

pub append_assoc {ℓ} : {A : Type ℓ} (xs ys zs : List A) → xs ++ ys ++ zs ≡ xs ++ (ys ++ zs)
append_assoc [] ys zs = refl
append_assoc (x ∷ xs) ys zs = ap (λ l. x ∷ l) (append_assoc xs ys zs)

read_be-be_bytes :
    (k j n : ℕ) (s : Bytes) → Fits k n → read_be (k + j) 0 (be_bytes k n ++ s) ≡ read_be j n s
unfolding read_be be_bytes
read_be-be_bytes zero j n s h = ap (λ x. read_be x 0 s) zero_plus ∙ ap (λ x. read_be j x s) (sym h)
  where
    zero_plus : zero + j ≡ j
    zero_plus = omega arith
read_be-be_bytes (suc k) j n s h =
    ap (λ x. read_be x 0 (be_bytes k (n / 256) ++ (n % 256 ∷ []) ++ s)) shifted
    ∙ ap (read_be (k + suc j) 0) (append_snoc (be_bytes k (n / 256)) (n % 256) s)
    ∙ read_be-be_bytes k (suc j) (n / 256) (n % 256 ∷ s) h
    ∙ ap (λ x. read_be j x s) (div-add-mod' n 256)
  where
    shifted : suc k + j ≡ k + suc j
    shifted = omega arith

read_exact_all : (bs s : Bytes) → read_exact (length bs) (bs ++ s) ≡ some (bs, s)
unfolding read_exact
read_exact_all [] s = refl
read_exact_all (b ∷ bs) s = rw (read_exact_all bs s) refl

word-Fits : (n : ℕ) → n < 2 ^ 64 → Fits 8 n
word-Fits n h = omega arith

pub word_read : (n : ℕ) (s : Bytes) → n < 2 ^ 64 → read_be 8 0 (be_bytes 8 n ++ s) ≡ some (n, s)
unfolding read_be
word_read n s h = read_be-be_bytes 8 0 n s (word-Fits n h)

unfoldable pub read_text : Bytes → Option (Bytes × Bytes)
unfolding read_be read_exact
read_text s = elim (read_be 8 0 s) [ none ↦ none | some (n, rest) ↦ read_exact n rest ]

pub text_read :
    (bs s : Bytes) → length bs < 2 ^ 64 → read_text (encode_bytes bs ++ s) ≡ some (bs, s)
unfolding read_text encode_bytes
text_read bs s h =
    ap read_text_after (
      ap (read_be 8 0) (append_assoc (be_bytes 8 (length bs)) bs s)
      ∙ word_read (length bs) (bs ++ s) h)
    ∙ read_exact_all bs s
  where
    read_text_after : Option (ℕ × Bytes) → Option (Bytes × Bytes)
    read_text_after o = elim o [ none ↦ none | some (n, rest) ↦ read_exact n rest ]

-- a value after its tag, by the tag
abbrev pub read_number : (ℕ → Content) → Bytes → Option (Content × Bytes)
read_number make s = elim (read_be 8 0 s) [ none ↦ none | some (n, rest) ↦ some (make n, rest) ]

unfoldable mutual
  pub decode : ℕ → Bytes → Option (Content × Bytes)
  decode zero s = none
  decode (suc f) [] = none
  decode (suc f) (tag ∷ s) =
      if tag == 0
      then some (nothing, s)
      else if tag == 1
      then some (truth false, s)
      else if tag == 2
      then some (truth true, s)
      else if tag == 3
      then read_number (λ n. negative (2 ^ 64 - 1 - n)) s
      else if tag == 4
      then read_number natural s
      else if tag == 5
      then read_number real s
      else if tag == 6
      then elim (read_text s) [ none ↦ none | some (bs, rest) ↦ some (text bs, rest) ]
      else if tag == 7
      then elim (read_be 8 0 s) [
        | none ↦ none
        | some (n, rest) ↦ elim (decode_items f n rest) [
          | none ↦ none
          | some (vs, more) ↦ some (sequence vs, more)
        ]
      ]
      else if tag == 8
      then elim (read_be 8 0 s) [
        | none ↦ none
        | some (n, rest) ↦ elim (decode_members f n rest) [
          | none ↦ none
          | some (m, more) ↦ some (mapping m, more)
        ]
      ]
      else none

  pub decode_items : ℕ → ℕ → Bytes → Option (Contents × Bytes)
  decode_items f zero s = some (end, s)
  decode_items zero (suc n) s = none
  decode_items (suc f) (suc n) s = elim (decode f s) [
    | none ↦ none
    | some (v, rest) ↦ elim (decode_items f n rest) [
      | none ↦ none
      | some (vs, more) ↦ some (next v vs, more)
    ]
  ]

  pub decode_members : ℕ → ℕ → Bytes → Option (Named × Bytes)
  decode_members f zero s = some (no_entry, s)
  decode_members zero (suc n) s = none
  decode_members (suc f) (suc n) s = elim (read_text s) [
    | none ↦ none
    | some (k, rest) ↦ elim (decode f rest) [
      | none ↦ none
      | some (v, more) ↦ elim (decode_members f n more) [
        | none ↦ none
        | some (m, others) ↦ some (entry k v m, others)
      ]
    ]
  ]
