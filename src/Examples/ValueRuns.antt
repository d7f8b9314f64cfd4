-- ===== src/Examples/ValueRuns.antt =====
-- Canonical bytes of two small values.
use lspctl.Prelude.{◌<◌, ◌^◌, true, ◌≡◌, refl, some, [], ◌∷◌, ◌++◌, arith, length}
use lspctl.Json.{Json, boolean, number, string, array, no_items, item, neg_int}
use lspctl.Text.{Bytes, as_bytes}
use lspctl.Canonical.{encode_canonical_value}
use lspctl.Canonical.Decode.{content, decode}
use lspctl.Canonical.RoundTrip.{
  IsEncodable, cost, decode-encode_canonical_value, encode_canonical_value-injective,
}

-- [true, -1, "ab"]
abbrev value : Json
value = array (item (boolean true) (item (number (neg_int 0)) (item (string "ab") no_items)))

abbrev behind : Bytes
behind = 7 ∷ []

two_bytes : length (as_bytes "ab") < 2 ^ 64
unfolding as_bytes
two_bytes = omega arith

value-IsEncodable : IsEncodable value
unfolding IsEncodable
value-IsEncodable = (omega arith, (tt, (omega arith, (two_bytes, tt))))

decode-encode_canonical_value_example :
    decode (cost value) (encode_canonical_value value ++ behind) ≡ some (content value, behind)
decode-encode_canonical_value_example = decode-encode_canonical_value value behind value-IsEncodable

encode_canonical_value-injective_example : (content value ≡ content value) × (behind ≡ behind)
encode_canonical_value-injective_example =
    encode_canonical_value-injective value value behind behind value-IsEncodable value-IsEncodable
      refl
