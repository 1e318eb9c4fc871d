-- ===== src/Cli.antt =====
-- apiscope/cli_options.cpp: the command line. A wide string is the list of its UTF-16 units, and
-- `argv` the list of its strings.
use Prim.Native.String.{String}
pub mod Parse
pub mod Quote
pub mod Argv
pub mod Quoted
pub mod RoundTrip
pub mod Pid
pub mod Hooks
pub mod Usable
use apiscope.Prelude.{
  Bool, Bytes, List, Option, [], all, any, bytes_eq, codes, guard, if◌then◌else◌, leb, length, ltb,
  none, not, some, ℕ, ◌*◌, ◌++◌, ◌+◌, ◌-◌, ◌==◌, ◌>>=◌, ◌>>◌, ◌∷◌,
}
use apiscope.Registry.{HookDefinition, find_supported_hook, is_known, normalize_module_name}
use apiscope.Transport.{is_digit}

abbrev pub WideText : Type 0
WideText = List ℕ

-- `CommandMode`
pub data CommandMode : Type 0 where
  run attach list_hooks help version error : CommandMode

-- `TraceOutputFormat`
pub data OutputFormat : Type 0 where
  text jsonl : OutputFormat

-- `TraceColorMode`
pub data ColorMode : Type 0 where
  auto always never : ColorMode

-- `TraceOutputOptions`
pub record OutputOptions : Type 0 where
  pub format : OutputFormat
  pub output_path : WideText
  pub quiet : Bool
  pub color : ColorMode
  pub status : ColorMode

-- `CommandLineOptions`, with the error's text as its bytes
pub record Options : Type 0 where
  pub mode : CommandMode
  pub hooks : List HookDefinition
  pub target_arguments : List WideText
  pub target_process_id : ℕ
  pub output : OutputOptions
  pub error : Bytes

-- `NarrowHookName`: empty for a name that is not ASCII
unfoldable pub narrow_hook_name : WideText → Bytes
narrow_hook_name value = if all (λ c. leb c 0x7F) value then value else []

-- `AddHook`
unfoldable pub add_hook : List HookDefinition → HookDefinition → List HookDefinition
add_hook hooks hook = if is_known hooks hook.canonical_name then hooks else hooks ++ hook ∷ []

unfoldable pub add_hooks : List HookDefinition → List HookDefinition → List HookDefinition
add_hooks hooks [] = hooks
add_hooks hooks (h ∷ available) = add_hooks (add_hook hooks h) available

-- The bytes before the first `!` of a name, and those behind it.
unfoldable pub split_bang : Bytes → Option (Bytes × Bytes)
split_bang [] = none
split_bang (c ∷ cs) =
    let later = split_bang cs in
    if c == b'!'
    then some ([], cs)
    else elim later [ none ↦ none | some (before, behind) ↦ some (c ∷ before, behind) ]

-- A requested name's canonical form; `none` for a name that is not `module!Export`.
unfoldable pub canonical_request : Bytes → Option Bytes
canonical_request requested = do
  (before, behind) ← split_bang requested
  guard (ltb 0 (length before))
  guard (ltb 0 (length behind))
  guard (not (any (λ c. c == b'!') behind))
  some (normalize_module_name before ++ (b'!' ∷ behind))

-- `ExpandAndValidateHooks` before its last test: the hooks so far, and the error's text if any.
unfoldable pub expand_hooks :
    List HookDefinition → List Bytes → List HookDefinition → List HookDefinition × Option Bytes
expand_hooks available [] hooks = (hooks, none)
expand_hooks available (requested ∷ others) hooks =
    let after_all = expand_hooks available others (add_hooks hooks available) in
    if bytes_eq requested (codes "all") then after_all else elim (canonical_request requested) [
      | none ↦ (hooks, some (codes "Hook names must use module.dll!Export"))
      | some name ↦ elim (find_supported_hook available name) [
        | none ↦ (hooks, some (codes "Unsupported hook: " ++ requested))
        | some hook ↦ expand_hooks available others (add_hook hooks hook)
      ]
    ]

-- The last test of `ExpandAndValidateHooks`
abbrev pub at_least_one : List HookDefinition × Option Bytes → List HookDefinition × Option Bytes
at_least_one (hooks, some message) = (hooks, some message)
at_least_one ([], none) = ([], some (codes "At least one --hook is required"))
at_least_one (h ∷ hooks, none) = (h ∷ hooks, none)

-- `ExpandAndValidateHooks` of options that have no hook yet.
unfoldable pub expand_and_validate_hooks :
    List HookDefinition → List Bytes → List HookDefinition × Option Bytes
expand_and_validate_hooks available requested = at_least_one (expand_hooks available requested [])

-- The loop of `ParseProcessId`
unfoldable pub parse_digits : WideText → ℕ → Option ℕ
parse_digits [] parsed = some parsed
parse_digits (c ∷ cs) parsed =
    let next = parsed * 10 + (c - b'0') in
    let later = parse_digits cs next in
    if not (is_digit c) then none else if ltb 4294967295 next then none else later

-- `ParseProcessId`: what it stores, or `none` where it fails.
unfoldable pub parse_process_id : WideText → Option ℕ
parse_process_id value = do
  guard (ltb 0 (length value))
  parsed ← parse_digits value 0
  guard (not (parsed == 0))
  some parsed
