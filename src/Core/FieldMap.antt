-- ===== src/Core/FieldMap.antt =====
-- `Fields` of src/journal/fields.rs and the conversions into `Value` of src/core/value.rs. The map is an
-- association list without repeated keys.
pub mod Latest
use Prim.Native.String.{compare}
use Prim.Native.Nat.{Ordering}
use eventline.Prelude.{
  ℕ, zero, ◌+◌, ◌/◌, ◌%◌, ◌^◌, String, Bool, true, false, Option, none, some, List, [], ◌∷◌,
  if◌then◌else◌, length,
}
use eventline.Core.{Signed, Value, Fields}

-- Equality of keys.
abbrev pub same_key : String → String → Bool
same_key a b = elim (compare a b) [ Ordering.eq ↦ true | _ ↦ false ]

-- `Fields::new`.
abbrev pub no_fields : Fields
no_fields = none

-- `HashMap::insert`.
unfoldable pub put : String → Value → List (String × Value) → List (String × Value)
put key value [] = (key, value) ∷ []
put key value ((k, v) ∷ pairs) =
    if same_key k key then (k, value) ∷ pairs else (k, v) ∷ put key value pairs

-- `Fields::insert`; the map is made on the first call.
unfoldable pub insert : String → Value → Fields → Fields
unfolding put
insert key value none = some (put key value [])
insert key value (some pairs) = some (put key value pairs)

unfoldable pub find_pair : String → List (String × Value) → Option Value
find_pair key [] = none
find_pair key ((k, v) ∷ pairs) = if same_key k key then some v else find_pair key pairs

-- `Fields::get`.
unfoldable pub get : String → Fields → Option Value
unfolding find_pair
get key none = none
get key (some pairs) = find_pair key pairs

-- `Fields::len` and `Fields::is_empty`.
unfoldable pub len : Fields → ℕ
len none = 0
len (some pairs) = length pairs

unfoldable pub is_empty : Fields → Bool
is_empty none = true
is_empty (some []) = true
is_empty (some (p ∷ pairs)) = false

-- `collect` into a map, from the pairs that are there.
collect : List (String × Value) → List (String × Value) → List (String × Value)
unfolding put
collect pairs [] = pairs
collect pairs ((key, value) ∷ more) = collect (put key value pairs) more

-- A map that is empty is not kept.
kept : List (String × Value) → Fields
kept [] = none
kept (p ∷ pairs) = some (p ∷ pairs)

-- `Fields::from_iter`.
unfoldable pub from_iter : List (String × Value) → Fields
unfolding collect kept
from_iter pairs = kept (collect [] pairs)

-- The conversions into a `Value`; a duration is given in nanoseconds.
abbrev pub from_text : String → Value
from_text = Value.string

abbrev pub from_signed : Signed → Value
from_signed = Value.int

abbrev pub from_unsigned : ℕ → Value
from_unsigned = Value.uint

abbrev pub from_bool : Bool → Value
from_bool = Value.bool

abbrev pub from_duration : ℕ → Value
from_duration nanos = Value.duration_ms (nanos / 1000000 % 2 ^ 64)
