-- ===== src/Tests/Debug.antt =====
-- A session on the small process, whose module m.dll is loaded and unloaded.
use apiscope.Prelude.{
  List, [], bytes_eq, codes, false, le_bytes, le_value, length, none, refl, some, true, ℕ, ◌∷◌, ◌≡◌,
}
use apiscope.Debug.{
  ModuleRecord, Session, exports_of, find_newest, handle_unload_dll, install_at, install_pending,
  remove_hooks, resolve_export_address, resolve_hook_address, resolved, try_install_pending_hooks,
  without_module,
}
use apiscope.Debug.Events.{
  ModuleEvent, handle_module_event, handle_module_events, loads, module_name_of, narrow_ascii,
  register_module, unloads,
}
use apiscope.Debug.Install.{IsKept}
use apiscope.Debug.Modules.{IsNewest, IsOneOf, has_base}
use apiscope.Debug.Resolve.{LeadsTo, resolve_hook_address-LeadsTo}
use apiscope.Debug.Run.{handle_module_events-IsKept}
use apiscope.Debug.Unload.{handle_unload_dll-IsKept, staying}
use apiscope.Hooks.{
  calculate_patch_size, count_instructions, create_bypass_trampoline, create_trampoline,
  decode_instruction_64, exported_address, finish_hook, hook_function, patch_function,
  patch_size_of,
}
use apiscope.Memory.{custom_str_cmp}
use apiscope.Process.{
  export_at, find_export, get_remote_export, is_named, read_directory, read_exports, read_headers,
  string_of, up_to_zero,
}
use apiscope.Registry.{HookDefinition, base_name, normalize_module_name}
use apiscope.Tests.Manager.{calls, format, memory, one_byte}

abbrev request : HookDefinition
request = record {
  module_name = codes "m.dll";
  export_name = codes "h";
  handler_export = codes "h";
  trampoline_export = codes "t";
  canonical_name = codes "m.dll!h";
}

abbrev loaded_module : ModuleRecord
loaded_module = record { module_base = 16384; module_name = codes "m.dll"; generation = 1 }

abbrev started : Session (ℕ → ℕ)
started = record {
  process = memory;
  hook_image_base = 16384;
  hook_image_size = 4096;
  modules = [];
  installed_hooks = [];
  module_generation = 0;
  transport_configured = true;
  set_event_bypass = none;
  read_memory_bypass = none;
}

started-IsKept : IsKept (calls true) one_byte format started
unfolding IsKept
started-IsKept = (tt, tt)

abbrev events : List ModuleEvent
events = loads 16384 (codes "C:\\M.dll") ∷ unloads 4096 ∷ []

-- The load of the module installs the hook.
after_load :
    length
      (handle_module_events
        (calls true)
        one_byte
        format
        (request ∷ [])
        started
        events).1.installed_hooks
    ≡ 1
unfolding handle_module_events handle_module_event register_module module_name_of narrow_ascii
    normalize_module_name try_install_pending_hooks install_pending install_at handle_unload_dll
    remove_hooks without_module resolve_hook_address resolve_export_address find_newest
    hook_function exported_address get_remote_export read_exports read_headers read_directory
    find_export is_named export_at string_of up_to_zero custom_str_cmp le_value finish_hook
    create_bypass_trampoline calculate_patch_size patch_size_of count_instructions
    decode_instruction_64 create_trampoline patch_function le_bytes bytes_eq base_name
after_load = refl

handle_module_events-IsKept_example :
    IsKept
      (calls true)
      one_byte
      format
      (handle_module_events (calls true) one_byte format (request ∷ []) started events).1
handle_module_events-IsKept_example =
    handle_module_events-IsKept (calls true) one_byte format (request ∷ []) started events
      started-IsKept

request_resolved :
    resolve_hook_address
      (exports_of (calls true) one_byte format memory)
      (loaded_module ∷ [])
      request
    ≡ some (16384, resolved 16640 16384)
unfolding resolve_hook_address resolve_export_address find_newest bytes_eq normalize_module_name
    get_remote_export read_exports read_headers read_directory find_export is_named export_at
    string_of up_to_zero custom_str_cmp le_value base_name
request_resolved = refl

resolve_hook_address-LeadsTo_example :
    LeadsTo
      (exports_of (calls true) one_byte format memory)
      (loaded_module ∷ [])
      16640
      16384
      8
      (codes "m.dll")
      (codes "h")
    × ((m : ModuleRecord) × (m.module_base ≡ 16384)
        × IsOneOf (codes "m.dll") (loaded_module ∷ []) m
        × IsNewest (codes "m.dll") (loaded_module ∷ []) m)
resolve_hook_address-LeadsTo_example =
    resolve_hook_address-LeadsTo (exports_of (calls true) one_byte format memory)
      (loaded_module ∷ []) request 16384 16640 16384 request_resolved

abbrev final : Session (ℕ → ℕ)
final = (handle_module_events (calls true) one_byte format (request ∷ []) started events).1

handle_unload_dll-IsKept_example :
    IsKept (calls true) one_byte format (handle_unload_dll (calls true) one_byte format 16384 final)
    × ((handle_unload_dll (calls true) one_byte format 16384 final).installed_hooks
        ≡ staying (calls true) one_byte format 16384 final.installed_hooks)
    × (has_base 16384 (handle_unload_dll (calls true) one_byte format 16384 final).modules ≡ false)
handle_unload_dll-IsKept_example =
    handle_unload_dll-IsKept (calls true) one_byte format 16384 final
      handle_module_events-IsKept_example
