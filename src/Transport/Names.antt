-- ===== src/Transport/Names.antt =====
-- The name checks of trace_transport.cpp on C strings agree with those of trace_renderer.cpp on
-- bytes with a length.
use apiscope.Prelude.{
  Bool, Bytes, Option, [], arith, length, none, some, suc, true, zero, ℕ, ◌<◌, ◌∷◌, ◌≡◌, ◌≤◌,
}
use apiscope.Protocol.{trace_max_field_name_bytes}
use apiscope.Renderer.Parse.{is_valid_field_name_bytes, is_valid_identifier_bytes}
use apiscope.Transport.{
  c_string, get_bounded_string_length, is_valid_field_name, is_valid_identifier, string_index,
}

string_index-le : (left : ℕ) (value : Bytes) → string_index left value ≤ length value
unfolding string_index
string_index-le zero value = omega arith
string_index-le (suc left) [] = omega arith
string_index-le (suc left) (c ∷ value) = ground (arith, string_index-le left value)

-- The length that `GetBoundedStringLength` stores is between 1 and the maximum, and is that of a
-- prefix of the string.
get_bounded_string_length_bounds :
    (name : Option Bytes) (maximum n : ℕ)
    → maximum < 256
    → get_bounded_string_length name maximum ≡ some n
    → (1 ≤ n) × (n ≤ maximum) × (n ≤ length (c_string name))
unfolding get_bounded_string_length
get_bounded_string_length_bounds none maximum n small h = absurd (cc)
get_bounded_string_length_bounds (some value) maximum n small h =
    ground (arith, string_index-le (suc maximum) value)

-- A field name that the writer accepts has its length within the string, and the reader accepts the
-- same bytes.
pub is_valid_field_name-bytes :
    (name : Option Bytes) {n : ℕ}
    → is_valid_field_name name ≡ some n
    → (n ≤ length (c_string name)) × (is_valid_field_name_bytes (c_string name) n ≡ true)
unfolding is_valid_field_name is_valid_field_name_bytes
is_valid_field_name-bytes name {n} h =
    ground (arith, get_bounded_string_length_bounds name trace_max_field_name_bytes n)

pub is_valid_identifier-bytes :
    (name : Option Bytes) (module_name : Bool) {n : ℕ}
    → is_valid_identifier name 63 module_name ≡ some n
    → (n ≤ 63)
      × (n ≤ length (c_string name))
      × (is_valid_identifier_bytes (c_string name) n module_name ≡ true)
unfolding is_valid_identifier is_valid_identifier_bytes
is_valid_identifier-bytes name module_name {n} h =
    ground (arith, get_bounded_string_length_bounds name 63 n)
