-- ===== src/Canonical/RoundTrip.antt =====
-- Reading the canonical bytes of a value gives its content back, so the bytes determine the content.
use lspctl.Prelude.{
  ℕ, zero, suc, ◌+◌, ◌-◌, ◌^◌, ◌<◌, ◌≤◌, true, false, ◌≡◌, refl, sym, ap, ◌∙◌, Option, none, some,
  ◌++◌, length, arith,
}
use lspctl.Json.{
  Json, Items, Members, Number, pos_int, neg_int, float, null, boolean, number, string, array,
  object, no_items, item, no_members, member,
}
use lspctl.Text.{Bytes, as_bytes}
use lspctl.Canonical.{
  be_bytes, encode_bytes, normalized, encode_number, items_len, members_len, encode_canonical_value,
  encode_items, encode_members,
}
use lspctl.Canonical.Decode.{
  Content, Named, entry, negative, natural, real, read_number, content, contents, named, read_text,
  decode, decode_items, decode_members, append_assoc, word_read, text_read,
}

-- Numbers fit their types, and lengths fit 64 bits.
abbrev pub FitsNumber : Number → Type 0
FitsNumber (pos_int n) = n < 2 ^ 64
FitsNumber (neg_int n) = n < 2 ^ 63
FitsNumber (float bits) = bits < 2 ^ 64

unfoldable mutual
  pub IsEncodable : Json → Type 0
  IsEncodable null = Unit
  IsEncodable (boolean b) = Unit
  IsEncodable (number n) = FitsNumber n
  IsEncodable (string s) = length (as_bytes s) < 2 ^ 64
  IsEncodable (array vs) = (items_len vs < 2 ^ 64) × AreEncodable vs
  IsEncodable (object m) = (members_len m < 2 ^ 64) × AllEncodable m

  pub AreEncodable : Items → Type 0
  AreEncodable no_items = Unit
  AreEncodable (item v vs) = IsEncodable v × AreEncodable vs

  pub AllEncodable : Members → Type 0
  AllEncodable no_members = Unit
  AllEncodable (member k v m) = (length (as_bytes k) < 2 ^ 64) × IsEncodable v × AllEncodable m

-- the fuel that reading a value takes
unfoldable mutual
  pub cost : Json → ℕ
  cost null = 1
  cost (boolean b) = 1
  cost (number n) = 1
  cost (string s) = 1
  cost (array vs) = 1 + cost_items vs
  cost (object m) = 1 + cost_members m

  pub cost_items : Items → ℕ
  cost_items no_items = 0
  cost_items (item v vs) = 1 + cost v + cost_items vs

  pub cost_members : Members → ℕ
  cost_members no_members = 0
  cost_members (member k v m) = 1 + cost v + cost_members m

normalized_fits : (bits : ℕ) → bits < 2 ^ 64 → normalized bits < 2 ^ 64
unfolding normalized
normalized_fits bits h = ground arith

number_after :
    (make : ℕ → Content) (n : ℕ) (s : Bytes)
    → n < 2 ^ 64
    → read_number make (be_bytes 8 n ++ s) ≡ some (make n, s)
number_after make n s h = ap after (word_read n s h)
  where
    after : Option (ℕ × Bytes) → Option (Content × Bytes)
    after o = elim o [ none ↦ none | some (x, rest) ↦ some (make x, rest) ]

number_read :
    (f : ℕ) (n : Number) (s : Bytes)
    → FitsNumber n
    → decode (suc f) (encode_number n ++ s) ≡ some (content (number n), s)
unfolding decode encode_number content
number_read f (pos_int n) s h = number_after natural n s h
number_read f (neg_int n) s h =
    number_after (λ x. negative (2 ^ 64 - 1 - x)) (2 ^ 64 - 1 - n) s (omega arith)
    ∙ ap (λ x. some (negative x, s)) back
  where
    back : 2 ^ 64 - 1 - (2 ^ 64 - 1 - n) ≡ n
    back = omega arith
number_read f (float bits) s h = number_after real (normalized bits) s (normalized_fits bits h)

members_step :
    (f n : ℕ) (s k rest more others : Bytes) (v : Content) (m : Named)
    → read_text s ≡ some (k, rest)
    → decode f rest ≡ some (v, more)
    → decode_members f n more ≡ some (m, others)
    → decode_members (suc f) (suc n) s ≡ some (entry k v m, others)
unfolding decode
members_step f n s k rest more others v m a b c = ground arith

cost-pos : (v : Json) → 1 ≤ cost v
unfolding cost
cost-pos null = omega arith
cost-pos (boolean b) = omega arith
cost-pos (number n) = omega arith
cost-pos (string t) = omega arith
cost-pos (array vs) = omega arith
cost-pos (object m) = omega arith

mutual
  unfolding decode encode_canonical_value content IsEncodable cost

  decode-encode :
      (v : Json) (f : ℕ) (s : Bytes)
      → IsEncodable v
      → cost v ≤ f
      → decode f (encode_canonical_value v ++ s) ≡ some (content v, s)
  decode-encode null (suc f) s h c = refl
  decode-encode (boolean false) (suc f) s h c = refl
  decode-encode (boolean true) (suc f) s h c = refl
  decode-encode (number n) (suc f) s h c = number_read f n s h
  decode-encode (string t) (suc f) s h c = rw (text_read (as_bytes t) s h) refl
  decode-encode (array vs) (suc f) s h c =
      rw
        (
          append_assoc (be_bytes 8 (items_len vs)) (encode_items vs) s,
          word_read (items_len vs) (encode_items vs ++ s) h.0,
          decode_items-encode vs f s h.1 (omega arith),
        )
        refl
  decode-encode (object m) (suc f) s h c =
      rw
        (
          append_assoc (be_bytes 8 (members_len m)) (encode_members m) s,
          word_read (members_len m) (encode_members m ++ s) h.0,
          decode_members-encode m f s h.1 (omega arith),
        )
        refl
  decode-encode v zero s h c = absurd (omega (arith, c, cost-pos v))

  decode_items-encode :
      (vs : Items) (f : ℕ) (s : Bytes)
      → AreEncodable vs
      → cost_items vs ≤ f
      → decode_items f (items_len vs) (encode_items vs ++ s) ≡ some (contents vs, s)
  decode_items-encode no_items f s h c = refl
  decode_items-encode (item v vs) zero s h c = absurd (omega arith)
  decode_items-encode (item v vs) (suc f) s h c =
      rw
        (
          append_assoc (encode_canonical_value v) (encode_items vs) s,
          decode-encode v f (encode_items vs ++ s) h.0 (omega arith),
          decode_items-encode vs f s h.1 (omega arith),
        )
        refl

  decode_members-encode :
      (m : Members) (f : ℕ) (s : Bytes)
      → AllEncodable m
      → cost_members m ≤ f
      → decode_members f (members_len m) (encode_members m ++ s) ≡ some (named m, s)
  decode_members-encode no_members f s h c = refl
  decode_members-encode (member k v m) zero s h c = absurd (omega arith)
  decode_members-encode (member k v m) (suc f) s h c =
      let key = encode_bytes (as_bytes k) in
      let value = encode_canonical_value v in
      let rest = encode_members m in
      ap (decode_members (suc f) (suc (members_len m)))
        (append_assoc key (value ++ rest) s ∙ ap (λ x. key ++ x) (append_assoc value rest s))
      ∙ members_step f (members_len m) (key ++ (value ++ (rest ++ s))) (as_bytes k)
          (value ++ (rest ++ s)) (rest ++ s) s (content v) (named m)
          (text_read (as_bytes k) (value ++ (rest ++ s)) h.0)
          (decode-encode v f (rest ++ s) h.1 (omega arith))
          (decode_members-encode m f s h.2 (omega arith))

-- Reading the bytes of a value whose numbers and lengths fit, with something behind them, gives the
-- value's content and what stands behind.
pub decode-encode_canonical_value :
    (v : Json) (s : Bytes)
    → IsEncodable v
    → decode (cost v) (encode_canonical_value v ++ s) ≡ some (content v, s)
decode-encode_canonical_value v s h = decode-encode v (cost v) s h (omega arith)

-- Two values whose numbers and lengths fit have the same content if what begins with their canonical
-- bytes is the same, and then the same stands behind.
pub encode_canonical_value-injective :
    (v w : Json) (s t : Bytes)
    → IsEncodable v
    → IsEncodable w
    → encode_canonical_value v ++ s ≡ encode_canonical_value w ++ t
    → (content v ≡ content w) × (s ≡ t)
encode_canonical_value-injective v w s t h g same =
    let f = cost v + cost w in
    let both : some (content v, s) ≡ some (content w, t) =
      sym (decode-encode v f s h (omega arith))
      ∙ ap (decode f) same
      ∙ decode-encode w f t g (omega arith) in
    (ap first both, ap second both)
  where
    first : Option (Content × Bytes) → Content
    first o = elim o [ none ↦ content v | some (c, rest) ↦ c ]

    second : Option (Content × Bytes) → Bytes
    second o = elim o [ none ↦ s | some (c, rest) ↦ rest ]
