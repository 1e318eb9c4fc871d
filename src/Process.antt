-- ===== src/Process.antt =====
-- src/apiscope/process_manager.cpp: what it reads of the images of another process. The memory of
-- the process is read by ReadProcessMemory, a parameter that gives the bytes read; the structures of
-- an image are those of winnt.h, which is not part of the repository, and stand here as their sizes
-- and the fields read, each a function of the structure's bytes. The headers of a Dll in a buffer of
-- the tool's own are checked by `is_range_within`.
pub mod Lookup
use apiscope.Prelude.{
  Bool, Bytes, Option, [], drop, false, guard, if◌then◌else◌, is_zero, le_value, leb, ltb, none,
  not, some, suc, take, zero, ℕ, ◌%◌, ◌&&◌, ◌*◌, ◌+◌, ◌-◌, ◌==◌, ◌>>=◌, ◌>>◌, ◌^◌, ◌∷◌,
}
use apiscope.Memory.{custom_str_cmp}

-- winnt.h: IMAGE_DOS_HEADER, IMAGE_NT_HEADERS and IMAGE_EXPORT_DIRECTORY. `e_lfanew` is taken as a
-- 64-bit offset, `export_address` and `export_size` are those of the export directory.
pub record ImageFormat : Type 0 where
  pub dos_header_size : ℕ
  pub nt_headers_size : ℕ
  pub export_directory_size : ℕ
  pub dos_signature : ℕ
  pub nt_signature : ℕ
  pub e_magic : Bytes → ℕ
  pub e_lfanew : Bytes → ℕ
  pub signature : Bytes → ℕ
  pub size_of_image : Bytes → ℕ
  pub export_address : Bytes → ℕ
  pub export_size : Bytes → ℕ
  pub number_of_functions : Bytes → ℕ
  pub number_of_names : Bytes → ℕ
  pub address_of_functions : Bytes → ℕ
  pub address_of_names : Bytes → ℕ
  pub address_of_name_ordinals : Bytes → ℕ
  pub name_address : Bytes → ℕ

-- `RemoteExport`; no address is 0, no forwarder is empty.
pub record RemoteExport : Type 0 where
  pub address : ℕ
  pub forwarder : Bytes

-- The three tables of an export directory, and the range of the directory.
pub record Exports : Type 0 where
  pub functions : Bytes
  pub function_count : ℕ
  pub names : Bytes
  pub name_count : ℕ
  pub ordinals : Bytes
  pub directory : ℕ
  pub directory_size : ℕ

-- `IsRangeWithin`
unfoldable pub is_range_within : ℕ → ℕ → ℕ → Bool
is_range_within offset size buffer_size = leb offset buffer_size && leb size (buffer_size - offset)

-- An address at an offset from a base.
abbrev pub offset_from : ℕ → ℕ → ℕ
offset_from base offset = (base + offset) % 2 ^ 64

-- The element `i` of an array of little-endian numbers of `size` bytes.
abbrev pub element : ℕ → Bytes → ℕ → ℕ
element size table i = le_value (take size (drop (size * i) table))

unfoldable pub up_to_zero : Bytes → Bytes
up_to_zero [] = []
up_to_zero (b ∷ bs) = if b == 0 then [] else b ∷ up_to_zero bs

-- The string in a `char[256]` whose last byte has been set to 0.
unfoldable pub string_of : Bytes → Bytes
string_of buffer = up_to_zero (take 255 buffer)

module _ (read : ℕ → ℕ → Option Bytes) (image : ImageFormat) where
  -- The checked headers of an image.
  unfoldable pub read_headers : ℕ → Option Bytes
  read_headers base = do
    dos ← read base image.dos_header_size
    guard (image.e_magic dos == image.dos_signature)
    nt ← read (offset_from base (image.e_lfanew dos)) image.nt_headers_size
    guard (image.signature nt == image.nt_signature)
    some nt

  -- `GetRemoteImageSize`
  unfoldable pub get_remote_image_size : ℕ → ℕ
  get_remote_image_size base = elim (read_headers base) [
    | none ↦ 0
    | some nt ↦ image.size_of_image nt
  ]

  unfoldable pub read_directory : ℕ → Bytes → Option Bytes
  read_directory base nt = do
    guard (not (image.export_address nt == 0))
    read (offset_from base (image.export_address nt)) image.export_directory_size

  unfoldable pub read_module_name : ℕ → Option Bytes
  read_module_name base = do
    nt ← read_headers base
    directory ← read_directory base nt
    guard (not (image.name_address directory == 0))
    name ← read (offset_from base (image.name_address directory)) 256
    some (string_of name)

  -- `GetRemoteModuleName`
  unfoldable pub get_remote_module_name : ℕ → Bytes
  get_remote_module_name base = elim (read_module_name base) [ none ↦ [] | some name ↦ name ]

  -- The tables of `GetRemoteExport`.
  unfoldable pub read_exports : ℕ → Option Exports
  read_exports base = do
    nt ← read_headers base
    directory ← read_directory base nt
    functions ←
        read (offset_from base (image.address_of_functions directory))
          (image.number_of_functions directory * 4)
    names ←
        read (offset_from base (image.address_of_names directory))
          (image.number_of_names directory * 4)
    ordinals ←
        read (offset_from base (image.address_of_name_ordinals directory))
          (image.number_of_names directory * 2)
    some (record {
      functions = functions;
      function_count = image.number_of_functions directory;
      names = names;
      name_count = image.number_of_names directory;
      ordinals = ordinals;
      directory = image.export_address nt;
      directory_size = image.export_size nt;
    })

  -- Whether the name at index `i` is the one asked for; a name that cannot be read is passed over.
  unfoldable pub is_named : ℕ → Exports → Bytes → ℕ → Bool
  is_named base exports name i = elim (read (offset_from base (element 4 exports.names i)) 256) [
    | none ↦ false
    | some buffer ↦ is_zero (custom_str_cmp (string_of buffer) name)
  ]

  -- The export of the name at index `i`.
  unfoldable pub export_at : ℕ → Exports → ℕ → Option RemoteExport
  export_at base exports i =
      let ordinal = element 2 exports.ordinals i in
      let rva = element 4 exports.functions ordinal in
      if leb exports.function_count ordinal
      then none
      else if leb exports.directory rva
          && ltb rva ((exports.directory + exports.directory_size) % 2 ^ 32)
      then (do
        buffer ← read (offset_from base rva) 256
        some (record { address = 0; forwarder = string_of buffer }))
      else some (record { address = offset_from base rva; forwarder = [] })

  -- The loop of `GetRemoteExport`, with the names that remain from index `i` on.
  unfoldable pub find_export : ℕ → Exports → Bytes → ℕ → ℕ → Option RemoteExport
  find_export base exports name zero i = none
  find_export base exports name (suc remaining) i =
      let next = find_export base exports name remaining (i + 1) in
      if is_named base exports name i then export_at base exports i else next

  -- `GetRemoteExport`
  unfoldable pub get_remote_export : ℕ → Bytes → Option RemoteExport
  get_remote_export base name = do
    exports ← read_exports base
    find_export base exports name exports.name_count 0
