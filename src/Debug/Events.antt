-- ===== src/Debug/Events.antt =====
-- The events of modules in src/apiscope/debug_session.cpp, with ConfigureTransport of
-- src/apiscope/trace_session.cpp, which the load of ntdll.dll calls.
use apiscope.Prelude.{
  Bool, Bytes, List, Option, [], any, bytes_eq, codes, false, if◌then◌else◌, le_bytes, length, ltb,
  none, not, some, true, ℕ, ◌%◌, ◌&&◌, ◌+◌, ◌==◌, ◌^◌, ◌∷◌,
}
use apiscope.Debug.{Session, handle_unload_dll, try_install_pending_hooks, without_module}
use apiscope.Hooks.{
  RemoteTrampoline, Windows, ZydisInstruction, create_bypass_trampoline_for_function,
  exported_address, is_some,
}
use apiscope.Process.{ImageFormat, get_remote_module_name}
use apiscope.Registry.{HookDefinition, normalize_module_name}

-- `NarrowAscii`
unfoldable pub narrow_ascii : List ℕ → Bytes
narrow_ascii path = if any (λ c. ltb 0x7F c) path then [] else path

-- A load of a module, with its base and the path of its file (none is empty), or an unload.
pub data ModuleEvent : Type 0 where
  loads : ℕ → List ℕ → ModuleEvent
  unloads : ℕ → ModuleEvent

module _ {S : Type 0} (windows : Windows S) (zydis : Bytes → Option ZydisInstruction)
    (image : ImageFormat) where
  -- `TraceSession::WriteRemoteExport`
  unfoldable pub write_remote_export : S → ℕ → Bytes → Bytes → Bool × S
  write_remote_export s base name value = elim (exported_address windows image s base name) [
    | none ↦ (false, s)
    | some address ↦ windows.write_process_memory s address value
  ]

  abbrev pub bypass_address : Option RemoteTrampoline → Bytes
  bypass_address none = le_bytes 8 0
  bypass_address (some bypass) = le_bytes 8 bypass.trampoline

  -- `TraceSession::ConfigureTransport`
  unfoldable pub configure_transport : Session S → ℕ → Bool × Session S
  configure_transport session ntdll =
      let first =
        create_bypass_trampoline_for_function windows zydis image session.process ntdll
          (codes "NtSetEvent") in
      let second =
        create_bypass_trampoline_for_function windows zydis image first.1 ntdll
          (codes "NtReadVirtualMemory") in
      let base = session.hook_image_base in
      let written =
        write_remote_export second.1 base (codes "TransportNtSetEvent") (bypass_address first.0) in
      let all_written =
        write_remote_export written.1 base (codes "TransportNtReadVirtualMemory")
          (bypass_address second.0) in
      let set_up : S → Session S = λ s. record session {
        process = s;
        set_event_bypass = first.0;
        read_memory_bypass = second.0;
      } in
      if not (is_some first.0)
      then (false, record session { process = first.1 })
      else if not (is_some second.0)
      then (false, record session { process = second.1; set_event_bypass = first.0 })
      else if not written.0
      then (false, set_up written.1)
      else (all_written.0, set_up all_written.1)

  -- The name under which `RegisterModule` keeps a module.
  unfoldable pub module_name_of : S → ℕ → List ℕ → Bytes
  module_name_of s base path =
      let of_path = normalize_module_name (narrow_ascii path) in
      if length of_path == 0
      then normalize_module_name (get_remote_module_name (windows.read_process_memory s) image base)
      else of_path

  -- The session with a module of a name added.
  abbrev pub with_module : Session S → ℕ → Bytes → Session S
  with_module session base name =
      let generation = (session.module_generation + 1) % 2 ^ 64 in
      record session {
        module_generation = generation;
        modules =
            record { module_base = base; module_name = name; generation = generation }
            ∷ without_module base session.modules;
      }

  -- `DebugSession::RegisterModule`, with the hooks of the options.
  unfoldable pub register_module : List HookDefinition → Session S → ℕ → List ℕ → Bool × Session S
  register_module definitions session base path =
      let name = module_name_of session.process base path in
      let added = with_module session base name in
      let configured = configure_transport added base in
      let ready = record (configured.1) { transport_configured = true } in
      if length name == 0
      then (true, session)
      else if bytes_eq name (codes "ntdll.dll") && not session.transport_configured
      then if configured.0
        then try_install_pending_hooks windows zydis image definitions ready
        else (false, configured.1)
      else if not session.transport_configured
      then (true, added)
      else try_install_pending_hooks windows zydis image definitions added

  -- `HandleLoadDll` and `HandleUnloadDll`
  unfoldable pub handle_module_event :
      List HookDefinition → Session S → ModuleEvent → Bool × Session S
  handle_module_event definitions session (loads base path) =
      register_module definitions session base path
  handle_module_event definitions session (unloads base) =
      (true, handle_unload_dll windows zydis image base session)

  -- The events that the debugger reports, until a handler fails.
  unfoldable pub handle_module_events :
      List HookDefinition → Session S → List ModuleEvent → Bool × Session S
  handle_module_events definitions session [] = (true, session)
  handle_module_events definitions session (event ∷ events) =
      let handled = handle_module_event definitions session event in
      let rest = handle_module_events definitions handled.1 events in
      if handled.0 then rest else (false, handled.1)
