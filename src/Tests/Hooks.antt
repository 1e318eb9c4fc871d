-- ===== src/Tests/Hooks.antt =====
-- Two hooks that a library offers, command lines that select them, and a call of NtClose.
use Prim.Native.String.{String}
use apiscope.Prelude.{
  Bool, Bytes, List, Option, [], bytes_eq, codes, if◌then◌else◌, length, length-replicate, none,
  refl, replicate, some, true, ℕ, ◌++◌, ◌-◌, ◌||◌, ◌∷◌, ◌≡◌, ◌≤◌,
}
use apiscope.Cli.{
  WideText, add_hook, canonical_request, expand_and_validate_hooks, expand_hooks, narrow_hook_name,
  parse_digits, parse_process_id, split_bang,
}
use apiscope.Cli.Argv.{read_arguments}
use apiscope.Cli.Hooks.{AreSelected, expand_and_validate_hooks-AreSelected}
use apiscope.Cli.Parse.{
  check_output, check_target, finish_command, option_round, parse_command, parse_command_line,
  parse_options, select_hooks,
}
use apiscope.Cli.Pid.{decimal, is_process_id, parse_process_id_lem}
use apiscope.Cli.Quote.{build_from, build_windows_command_line, quote_from, quote_windows_argument}
use apiscope.Cli.RoundTrip.{read_arguments-build_windows_command_line}
use apiscope.Cli.Usable.{is_usable, parse_command_line-is_usable}
use apiscope.Handlers.{Situation, nt_close}
use apiscope.Handlers.Valid.{Emitted-is_valid_trace_event, closes}
use apiscope.Protocol.{payload_bytes}
use apiscope.Registry.{
  Descriptor, HookDefinition, base_name, bytes_lt, descriptor_magic, discover_from, discover_hooks,
  find_supported_hook, has_prefix, insert_hook, is_known, normalize_module_name, read_descriptor,
  read_fixed_string, sort_hooks, until_zero,
}
use apiscope.Registry.Discover.{AreFound, discover_hooks-AreFound}
use apiscope.Registry.Names.{normalize_module_name_lem}
use apiscope.Registry.Sort.{AreSorted}
use apiscope.Renderer.Parse.{is_valid_trace_event}
use apiscope.Transport.{zero_header}

abbrev array_of : ℕ → String → Bytes
array_of n s = codes s ++ replicate (n - length (codes s)) 0

abbrev described : String → Descriptor
described s = record {
  magic = descriptor_magic;
  version = 1;
  size = 456;
  module_name = array_of 64 "NTDLL.dll";
  export_name = array_of 128 s;
  handler_export = array_of 128 "H";
  trampoline_export = array_of 128 "T";
}

abbrev exported : Bytes → Bool
exported name = bytes_eq name (codes "H") || bytes_eq name (codes "T")

abbrev offered : List (Bytes × Option Descriptor)
offered =
    (codes "ApiScopeHook_NtOpenKey", some (described "NtOpenKey"))
    ∷ (codes "ApiScopeHook_NtClose", some (described "NtClose"))
    ∷ (codes "Other", none)
    ∷ []

abbrev definition : String → HookDefinition
definition s = record {
  module_name = codes "ntdll.dll";
  export_name = codes s;
  handler_export = codes "H";
  trampoline_export = codes "T";
  canonical_name = codes "ntdll.dll!" ++ codes s;
}

abbrev two_hooks : List HookDefinition
two_hooks = definition "NtClose" ∷ definition "NtOpenKey" ∷ []

discover_test : discover_hooks exported offered ≡ two_hooks
unfolding discover_hooks discover_from has_prefix read_descriptor read_fixed_string until_zero
    normalize_module_name base_name is_known bytes_lt sort_hooks insert_hook bytes_eq
discover_test = refl

discover_hooks-AreFound_example :
    AreFound exported (discover_hooks exported offered)
    × AreSorted (discover_hooks exported offered)
discover_hooks-AreFound_example = discover_hooks-AreFound exported offered

normalize_module_name_lem_example :
    normalize_module_name (codes "C:/" ++ (92 ∷ codes "Ntdll.DLL"))
    ≡ normalize_module_name (codes "Ntdll.DLL")
normalize_module_name_lem_example =
    (normalize_module_name_lem (codes "Ntdll.DLL")).2 (codes "C:/") 92 refl refl

parse_process_id_lem_example :
    parse_process_id (codes "0042")
    ≡ (if is_process_id (codes "0042") then some (decimal (codes "0042")) else none)
parse_process_id_lem_example = parse_process_id_lem (codes "0042")

expand_and_validate_hooks-AreSelected_example :
    AreSelected two_hooks
      (expand_and_validate_hooks two_hooks (codes "ntdll.dll!NtClose" ∷ codes "all" ∷ [])).0
    × ((expand_and_validate_hooks two_hooks (codes "ntdll.dll!NtClose" ∷ codes "all" ∷ [])).1 ≡ none
        → 1
          ≤ length
              (expand_and_validate_hooks two_hooks
                (codes "ntdll.dll!NtClose" ∷ codes "all" ∷ [])).0)
expand_and_validate_hooks-AreSelected_example =
    expand_and_validate_hooks-AreSelected two_hooks (codes "ntdll.dll!NtClose" ∷ codes "all" ∷ [])

abbrev attach_arguments : List Bytes
attach_arguments =
    codes "apiscope"
    ∷ codes "attach"
    ∷ codes "--pid"
    ∷ codes "42"
    ∷ codes "-k"
    ∷ codes "NTDLL.dll!NtClose"
    ∷ []

attach_test : (parse_command_line attach_arguments two_hooks).target_process_id ≡ 42
unfolding parse_command_line parse_command parse_options option_round parse_process_id parse_digits
    bytes_eq finish_command check_target check_output select_hooks expand_and_validate_hooks
    expand_hooks split_bang canonical_request normalize_module_name base_name find_supported_hook
    add_hook is_known narrow_hook_name
attach_test = refl

parse_command_line-is_usable_example :
    is_usable (parse_command_line attach_arguments two_hooks) ≡ true
parse_command_line-is_usable_example = parse_command_line-is_usable attach_arguments two_hooks

abbrev situation : Situation
situation = record {
  thread_id = 7;
  timestamp = 9;
  stack = record { header = zero_header; payload = replicate payload_bytes 0 };
  before = none;
  after = none;
  result = 0xC0000008;
}

Emitted-is_valid_trace_event_example :
    is_valid_trace_event (nt_close situation 140) (nt_close situation 140).header.size ≡ true
Emitted-is_valid_trace_event_example =
    Emitted-is_valid_trace_event situation (nt_close situation 140)
      (length-replicate {A = ℕ} payload_bytes 0) (closes 140)

abbrev spaced_arguments : List WideText
spaced_arguments = codes "a.exe" ∷ [] ∷ (codes "b c" ++ 92 ∷ []) ∷ (34 ∷ []) ∷ []

spaced_test :
    build_windows_command_line spaced_arguments
    ≡ codes "a.exe "
      ++ (34 ∷ 34 ∷ 32 ∷ 34 ∷ [])
      ++ codes "b c"
      ++ (92 ∷ 92 ∷ 34 ∷ 32 ∷ 34 ∷ 92 ∷ 34 ∷ 34 ∷ [])
unfolding build_windows_command_line build_from quote_windows_argument quote_from
spaced_test = refl

read_arguments-build_windows_command_line_example :
    read_arguments (build_windows_command_line (codes "a b.exe" ∷ spaced_arguments))
    ≡ codes "a b.exe" ∷ spaced_arguments
read_arguments-build_windows_command_line_example =
    read_arguments-build_windows_command_line (codes "a b.exe") spaced_arguments refl refl
