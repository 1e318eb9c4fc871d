-- ===== src/Registry.antt =====
-- src/apiscope/hook_registry.cpp and src/include/api_hook_descriptor.h: the hooks that the hook library
-- offers. The loaded library is its list of exported names, each with the descriptor that stands
-- there, and the test whether a name is exported (`GetProcAddress`).
pub mod Names
pub mod Sort
pub mod Discover
use apiscope.Prelude.{
  Bool, Bytes, List, Option, [], any, bytes_eq, codes, false, guard, if◌then◌else◌, leb, length,
  ltb, map, none, not, some, take, true, ℕ, ◌&&◌, ◌++◌, ◌+◌, ◌==◌, ◌>>=◌, ◌>>◌, ◌||◌, ◌∷◌,
}

-- `HookDefinition`
pub record HookDefinition : Type 0 where
  pub module_name : Bytes
  pub export_name : Bytes
  pub handler_export : Bytes
  pub trampoline_export : Bytes
  pub canonical_name : Bytes

-- `ApiHookDescriptor`
pub record Descriptor : Type 0 where
  pub magic : ℕ
  pub version : ℕ
  pub size : ℕ
  pub module_name : Bytes
  pub export_name : Bytes
  pub handler_export : Bytes
  pub trampoline_export : Bytes

abbrev pub descriptor_magic : ℕ
descriptor_magic = 0x4B484150

abbrev pub descriptor_version : ℕ
descriptor_version = 1

-- `sizeof(ApiHookDescriptor)`: 4 + 2 + 2 + 64 + 3 * 128
abbrev pub descriptor_bytes : ℕ
descriptor_bytes = 456

-- `HasPrefix`
unfoldable pub has_prefix : Bytes → Bytes → Bool
has_prefix value prefix = bytes_eq (take (length prefix) value) prefix

-- The bytes before the first zero.
unfoldable pub until_zero : Bytes → Bytes
until_zero [] = []
until_zero (c ∷ cs) = let later = until_zero cs in if c == 0 then [] else c ∷ later

-- `ReadFixedString` of an array, whose length is its capacity.
unfoldable pub read_fixed_string : Bytes → Option Bytes
read_fixed_string value =
    let text = until_zero value in
    if length text == 0 || length text == length value then none else some text

-- `std::tolower` in the C locale
abbrev pub to_lower : ℕ → ℕ
to_lower c = if leb b'A' c && leb c b'Z' then c + 32 else c

abbrev pub is_path_separator : ℕ → Bool
is_path_separator c = c == b'\\' || c == b'/'

-- What stands behind the last separator, or all.
unfoldable pub base_name : Bytes → Bytes
base_name [] = []
base_name (c ∷ cs) =
    let later = base_name cs in
    if any is_path_separator cs then later else if is_path_separator c then cs else c ∷ cs

-- `NormalizeModuleName`
unfoldable pub normalize_module_name : Bytes → Bytes
normalize_module_name module_name = map to_lower (base_name module_name)

-- `operator<` of `std::string`
unfoldable pub bytes_lt : Bytes → Bytes → Bool
bytes_lt xs [] = false
bytes_lt [] (y ∷ ys) = true
bytes_lt (x ∷ xs) (y ∷ ys) = if x == y then bytes_lt xs ys else ltb x y

-- `FindSupportedHook`
unfoldable pub find_supported_hook : List HookDefinition → Bytes → Option HookDefinition
find_supported_hook [] canonical_name = none
find_supported_hook (h ∷ hooks) canonical_name =
    if bytes_eq h.canonical_name canonical_name
    then some h
    else find_supported_hook hooks canonical_name

-- `std::set::count` of the canonical names seen so far
unfoldable pub is_known : List HookDefinition → Bytes → Bool
is_known [] name = false
is_known (h ∷ hooks) name = bytes_eq h.canonical_name name || is_known hooks name

-- The four tests and the four strings of one descriptor.
unfoldable pub read_descriptor : Option Descriptor → Option HookDefinition
read_descriptor none = none
read_descriptor (some d) = do
  guard (d.magic == descriptor_magic)
  guard (d.version == descriptor_version)
  guard (d.size == descriptor_bytes)
  module_name ← read_fixed_string d.module_name
  export_name ← read_fixed_string d.export_name
  handler_export ← read_fixed_string d.handler_export
  trampoline_export ← read_fixed_string d.trampoline_export
  let normalized = normalize_module_name module_name
  some (record {
    module_name = normalized;
    export_name = export_name;
    handler_export = handler_export;
    trampoline_export = trampoline_export;
    canonical_name = normalized ++ (b'!' ∷ export_name);
  })

module _ (is_exported : Bytes → Bool) where
  -- The loop of `DiscoverHooks` over the exports, behind the hooks found so far; `none` for the
  -- `break` that clears them.
  unfoldable pub discover_from :
      List HookDefinition → List (Bytes × Option Descriptor) → Option (List HookDefinition)
  discover_from hooks [] = some hooks
  discover_from hooks ((export_name, descriptor) ∷ exports) =
      if not (has_prefix export_name (codes "ApiScopeHook_"))
      then discover_from hooks exports
      else elim (read_descriptor descriptor) [
        | none ↦ none
        | some hook ↦
            let later = discover_from (hooks ++ hook ∷ []) exports in
            if is_known hooks hook.canonical_name
              || not (is_exported hook.handler_export)
              || not (is_exported hook.trampoline_export)
            then none
            else later
      ]

-- `std::sort` by the canonical name
unfoldable pub insert_hook : HookDefinition → List HookDefinition → List HookDefinition
insert_hook h [] = h ∷ []
insert_hook h (g ∷ hooks) =
    if bytes_lt h.canonical_name g.canonical_name then h ∷ (g ∷ hooks) else g ∷ insert_hook h hooks

unfoldable pub sort_hooks : List HookDefinition → List HookDefinition
sort_hooks [] = []
sort_hooks (h ∷ hooks) = insert_hook h (sort_hooks hooks)

-- `DiscoverHooks` of a library that loads and has an export directory.
unfoldable pub discover_hooks :
    (Bytes → Bool) → List (Bytes × Option Descriptor) → List HookDefinition
discover_hooks is_exported exports = elim (discover_from is_exported [] exports) [
  | none ↦ []
  | some hooks ↦ sort_hooks hooks
]
