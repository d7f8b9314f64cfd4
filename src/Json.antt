-- ===== src/Json.antt =====
-- `serde_json::Value`. Its default map keeps the members of an object in the order of their names.
use Prim.Native.Nat.{Ordering}
use Prim.Native.String.{compare}
use lspctl.Prelude.{
  ℕ, String, Bool, true, false, Option, none, some, List, [], ◌∷◌, str_eq, if◌then◌else◌,
}

-- the three kinds of number that serde_json keeps: a negative integer by how far it lies below -1, a
-- float by its bit pattern
pub data Number : Type 0 where
  pos_int neg_int float : ℕ → Number

mutual
  pub data Json : Type 0 where
    null : Json
    boolean : Bool → Json
    number : Number → Json
    string : String → Json
    array : Items → Json
    object : Members → Json

  pub data Items : Type 0 where
    no_items : Items
    item : Json → Items → Items

  pub data Members : Type 0 where
    no_members : Members
    member : String → Json → Members → Members

abbrev pub nat : ℕ → Json
nat n = number (pos_int n)

-- `map.get(name)`
unfoldable pub get : String → Members → Option Json
get k no_members = none
get k (member j v m) = if str_eq j k then some v else get k m

-- `map.contains_key(name)`
unfoldable pub has_key : String → Members → Bool
has_key k no_members = false
has_key k (member j v m) = if str_eq j k then true else has_key k m

-- `map.insert(name, value)`
unfoldable pub set_member : String → Json → Members → Members
set_member k v no_members = member k v no_members
set_member k v (member j w m) = elim (compare j k) [
  | Ordering.lt ↦ member j w (set_member k v m)
  | Ordering.eq ↦ member j v m
  | Ordering.gt ↦ member k v (member j w m)
]

unfoldable pub members : List (String × Json) → Members
unfolding set_member
members [] = no_members
members ((k, v) ∷ rest) = set_member k v (members rest)

-- the macro `json!({…})`
unfoldable pub json : List (String × Json) → Json
unfolding members
json fields = object (members fields)

unfoldable pub items : List Json → Items
items [] = no_items
items (v ∷ vs) = item v (items vs)

unfoldable pub json_array : List Json → Json
unfolding items
json_array vs = array (items vs)

-- `Value::as_str`, `as_object`, `as_array`, `as_u64`, `as_bool`
abbrev pub as_str : Json → Option String
as_str (string s) = some s
as_str _ = none

abbrev pub as_object : Json → Option Members
as_object (object m) = some m
as_object _ = none

unfoldable pub item_list : Items → List Json
item_list no_items = []
item_list (item v vs) = v ∷ item_list vs

unfoldable pub as_array : Json → Option (List Json)
unfolding item_list
as_array (array vs) = some (item_list vs)
as_array _ = none

abbrev pub as_u64 : Json → Option ℕ
as_u64 (number (pos_int n)) = some n
as_u64 _ = none

abbrev pub as_bool : Json → Option Bool
as_bool (boolean b) = some b
as_bool _ = none

-- `value.get(name)` on any value, and `Some(x)` or `null`
unfoldable pub field : String → Json → Option Json
unfolding get
field k (object m) = get k m
field k _ = none

abbrev pub from_option : Option Json → Json
from_option none = null
from_option (some v) = v
