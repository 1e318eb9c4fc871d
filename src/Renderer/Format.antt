-- ===== src/Renderer/Format.antt =====
-- src/apiscope/trace_renderer.cpp: how numbers, bytes and strings are written. FileTimeToSystemTime
-- and WideCharToMultiByte are parameters.
use apiscope.Prelude.{
  Bool, Bytes, List, Option, [], bit_and, codes, if◌then◌else◌, leb, length, ltb, none, not,
  replicate, some, suc, zero, ℕ, ◌%◌, ◌&&◌, ◌++◌, ◌+◌, ◌-◌, ◌/◌, ◌==◌, ◌^◌, ◌∷◌,
}
use apiscope.Correlator.{wide_units}
use apiscope.Protocol.{Event}
use apiscope.Stats.{to_string}

-- SYSTEMTIME, without the day of the week and the milliseconds.
pub record SystemTime : Type 0 where
  pub year : ℕ
  pub month : ℕ
  pub day : ℕ
  pub hour : ℕ
  pub minute : ℕ
  pub second : ℕ

-- A digit below 16; `letter` is the one for 10.
abbrev pub hex_digit : ℕ → ℕ → ℕ
hex_digit letter d = if ltb d 10 then b'0' + d else letter + (d - 10)

-- The `n` low hexadecimal digits of a number, the first highest: `std::setw(n)` filled with zeros.
unfoldable pub hex_digits : ℕ → ℕ → ℕ → Bytes
hex_digits letter zero value = []
hex_digits letter (suc n) value =
    hex_digits letter n (value / 16) ++ hex_digit letter (value % 16) ∷ []

-- `HexStatus`
unfoldable pub hex_status : ℕ → Bytes
hex_status status = codes "0x" ++ hex_digits b'A' 8 status

-- `FormatPointer`
unfoldable pub format_pointer : ℕ → Bytes
format_pointer pointer = codes "0x" ++ hex_digits b'A' 16 pointer

abbrev pub status_names : List (ℕ × Bytes)
status_names =
    (0x00000000, codes "STATUS_SUCCESS")
    ∷ (0x00000103, codes "STATUS_PENDING")
    ∷ (0x00000104, codes "STATUS_REPARSE")
    ∷ (0x00000105, codes "STATUS_MORE_ENTRIES")
    ∷ (0x40000000, codes "STATUS_OBJECT_NAME_EXISTS")
    ∷ (0x80000005, codes "STATUS_BUFFER_OVERFLOW")
    ∷ (0x8000000D, codes "STATUS_PARTIAL_COPY")
    ∷ (0x8000001A, codes "STATUS_NO_MORE_ENTRIES")
    ∷ (0xC0000001, codes "STATUS_UNSUCCESSFUL")
    ∷ (0xC0000002, codes "STATUS_NOT_IMPLEMENTED")
    ∷ (0xC0000008, codes "STATUS_INVALID_HANDLE")
    ∷ (0xC000000D, codes "STATUS_INVALID_PARAMETER")
    ∷ (0xC000000F, codes "STATUS_NO_SUCH_FILE")
    ∷ (0xC0000011, codes "STATUS_END_OF_FILE")
    ∷ (0xC0000022, codes "STATUS_ACCESS_DENIED")
    ∷ (0xC0000023, codes "STATUS_BUFFER_TOO_SMALL")
    ∷ (0xC0000034, codes "STATUS_OBJECT_NAME_NOT_FOUND")
    ∷ (0xC0000035, codes "STATUS_OBJECT_NAME_COLLISION")
    ∷ (0xC000003A, codes "STATUS_OBJECT_PATH_NOT_FOUND")
    ∷ (0xC0000043, codes "STATUS_SHARING_VIOLATION")
    ∷ (0xC0000061, codes "STATUS_PRIVILEGE_NOT_HELD")
    ∷ (0xC00000BA, codes "STATUS_FILE_IS_A_DIRECTORY")
    ∷ (0xC0000103, codes "STATUS_NOT_A_DIRECTORY")
    ∷ (0xC0000120, codes "STATUS_CANCELLED")
    ∷ (0xC0000225, codes "STATUS_NOT_FOUND")
    ∷ []

unfoldable pub name_in : List (ℕ × Bytes) → ℕ → Option Bytes
name_in [] status = none
name_in ((code, name) ∷ names) status = if code == status then some name else name_in names status

-- `StatusName`
abbrev pub status_name : ℕ → Option Bytes
status_name status = name_in status_names status

-- `FormatStatus`
unfoldable pub format_status : ℕ → Bytes
format_status status = elim (status_name status) [
  | none ↦ hex_status status
  | some name ↦ name ++ codes " (" ++ hex_status status ++ codes ")"
]

-- A number in `width` places, filled with zeros.
abbrev pub zero_filled : ℕ → ℕ → Bytes
zero_filled width value = replicate (width - length (to_string value)) b'0' ++ to_string value

-- `FormatTimestamp`
unfoldable pub format_timestamp : (ℕ → Option SystemTime) → ℕ → Bytes
format_timestamp file_time_to_system_time timestamp =
    if timestamp == 0 then codes "unavailable" else elim (file_time_to_system_time timestamp) [
      | none ↦ codes "invalid"
      | some time ↦
          zero_filled 4 time.year
          ++ codes "-"
          ++ zero_filled 2 time.month
          ++ codes "-"
          ++ zero_filled 2 time.day
          ++ codes "T"
          ++ zero_filled 2 time.hour
          ++ codes ":"
          ++ zero_filled 2 time.minute
          ++ codes ":"
          ++ zero_filled 2 time.second
          ++ codes "."
          ++ zero_filled 7 (timestamp % 10000000)
          ++ codes "Z"
    ]

-- `HexBytes`
unfoldable pub hex_bytes : Bool → Bytes → Bytes
hex_bytes spaced [] = []
hex_bytes spaced (b ∷ []) = hex_digits b'A' 2 b
hex_bytes spaced (b ∷ (c ∷ bytes)) =
    hex_digits b'A' 2 b ++ (if spaced then codes " " else []) ++ hex_bytes spaced (c ∷ bytes)

-- One character of `JsonEscape`.
abbrev pub escape_byte : ℕ → Bytes
escape_byte value =
    if value == b'"'
    then b'\\' ∷ b'"' ∷ []
    else if value == b'\\'
    then b'\\' ∷ b'\\' ∷ []
    else if value == 8
    then b'\\' ∷ b'b' ∷ []
    else if value == 12
    then b'\\' ∷ b'f' ∷ []
    else if value == 10
    then b'\\' ∷ b'n' ∷ []
    else if value == 13
    then b'\\' ∷ b'r' ∷ []
    else if value == 9
    then b'\\' ∷ b't' ∷ []
    else if ltb value 0x20
    then b'\\' ∷ b'u' ∷ hex_digits b'a' 4 value
    else value ∷ []

-- `JsonEscape`
unfoldable pub json_escape : Bytes → Bytes
json_escape [] = []
json_escape (value ∷ input) = escape_byte value ++ json_escape input

-- `PreviewText`
unfoldable pub preview_text : Bytes → Bytes
preview_text [] = []
preview_text (value ∷ bytes) =
    (if leb 32 value && leb value 126 then value else b'.') ∷ preview_text bytes

-- `WideToUtf8`; a conversion that fails gives no bytes.
unfoldable pub wide_to_utf8 : (List ℕ → Bytes) → Bytes → Bytes
wide_to_utf8 wide_char_to_multi_byte value =
    if ltb (length value) 2 then [] else wide_char_to_multi_byte (wide_units value)

-- An `int32_t` and an `int64_t` of the bits of a number.
abbrev pub signed_string : ℕ → ℕ → Bytes
signed_string width value =
    if ltb value (2 ^ (width - 1)) then to_string value else b'-' ∷ to_string (2 ^ width - value)

abbrev pub true_or_false : Bool → Bytes
true_or_false b = if b then codes "true" else codes "false"

abbrev pub has_flag : Event → ℕ → Bool
has_flag e flag = not (bit_and e.header.flags flag == 0)
