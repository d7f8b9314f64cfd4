-- ===== src/Canonical.antt =====
-- src/canonical_value.rs: the bytes that stand for a JSON value in a digest. The hash of the crate sha2,
-- printed in hexadecimal digits, is a parameter.
pub mod Decode
pub mod RoundTrip
use Prim.Native.String.{◌++◌ as str_append}
use lspctl.Prelude.{
  ℕ, zero, suc, ◌-◌, ◌/◌, ◌%◌, ◌^◌, String, true, false, [], ◌∷◌, ◌++◌, length, ◌==◌, if◌then◌else◌,
}
use lspctl.Json.{
  Json, Items, Members, Number, pos_int, neg_int, float, null, boolean, number, string, array,
  object, no_items, item, no_members, member,
}
use lspctl.Text.{Bytes, as_bytes}

-- the `k` bytes of a number, the most significant first: `to_be_bytes` of a `u64` for 8
unfoldable pub be_bytes : ℕ → ℕ → Bytes
be_bytes zero n = []
be_bytes (suc k) n = be_bytes k (n / 256) ++ n % 256 ∷ []

unfoldable pub encode_bytes : Bytes → Bytes
unfolding be_bytes
encode_bytes bytes = be_bytes 8 (length bytes) ++ bytes

-- `number == 0.0` of a float: the bits of both zeros; their bits become those of 0.0
unfoldable pub normalized : ℕ → ℕ
normalized bits = if bits == 2 ^ 63 then 0 else bits

-- a negative integer is kept as how far it lies below -1
unfoldable pub encode_number : Number → Bytes
unfolding be_bytes normalized
encode_number (neg_int n) = 3 ∷ be_bytes 8 (2 ^ 64 - 1 - n)
encode_number (pos_int n) = 4 ∷ be_bytes 8 n
encode_number (float bits) = 5 ∷ be_bytes 8 (normalized bits)

abbrev pub items_len : Items → ℕ
items_len no_items = 0
items_len (item v vs) = suc (items_len vs)

abbrev pub members_len : Members → ℕ
members_len no_members = 0
members_len (member k v m) = suc (members_len m)

-- The members of an object stand in the order of their names already.
unfoldable mutual
  pub encode_canonical_value : Json → Bytes
  encode_canonical_value null = 0 ∷ []
  encode_canonical_value (boolean false) = 1 ∷ []
  encode_canonical_value (boolean true) = 2 ∷ []
  encode_canonical_value (number n) = encode_number n
  encode_canonical_value (string s) = 6 ∷ encode_bytes (as_bytes s)
  encode_canonical_value (array vs) = 7 ∷ (be_bytes 8 (items_len vs) ++ encode_items vs)
  encode_canonical_value (object m) = 8 ∷ (be_bytes 8 (members_len m) ++ encode_members m)

  pub encode_items : Items → Bytes
  encode_items no_items = []
  encode_items (item v vs) = encode_canonical_value v ++ encode_items vs

  pub encode_members : Members → Bytes
  encode_members no_members = []
  encode_members (member k v m) =
      encode_bytes (as_bytes k) ++ (encode_canonical_value v ++ encode_members m)

module _ (sha256_hex : Bytes → String) where
  unfoldable pub digest_canonical_value : String → Json → String
  unfolding encode_canonical_value
  digest_canonical_value domain value =
      str_append "sha256:" (sha256_hex (as_bytes domain ++ (0 ∷ encode_canonical_value value)))

  unfoldable pub digest_raw_bytes : Bytes → String
  digest_raw_bytes bytes = str_append "sha256:" (sha256_hex bytes)
