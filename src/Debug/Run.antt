-- ===== src/Debug/Run.antt =====
-- The invariant of a session over all events of modules.
use apiscope.Prelude.{
  Bool, Bool-cases, Bytes, List, Option, [], arith, bytes_eq, codes, false, inl, inr, length, not,
  refl, true, ℕ, ◌%◌, ◌&&◌, ◌+◌, ◌==◌, ◌^◌, ◌∷◌, ◌≡◌,
}
use apiscope.Debug.{ModuleRecord, Session, SessionHook, without_module}
use apiscope.Debug.Events.{
  ModuleEvent, bypass_address, configure_transport, handle_module_event, handle_module_events,
  loads, module_name_of, register_module, unloads, with_module, write_remote_export,
}
use apiscope.Debug.Install.{AreLoaded, IsKept, try_install_pending_hooks-IsKept}
use apiscope.Debug.Modules.{has_base, has_base-without_module}
use apiscope.Debug.Unload.{handle_unload_dll-IsKept}
use apiscope.Hooks.{Windows, ZydisInstruction, create_bypass_trampoline_for_function, is_some}
use apiscope.Process.{ImageFormat}
use apiscope.Registry.{HookDefinition}

-- The hooks stay in loaded modules when a module is added.
has_base-added :
    (m : ModuleRecord) (b : ℕ) (modules : List ModuleRecord)
    → has_base b modules ≡ true
    → has_base b (m ∷ without_module m.module_base modules) ≡ true
has_base-added m b modules h = elim (Bool-cases (m.module_base == b)) [
  | inl this ↦ rw (this) refl
  | inr other ↦
      rw (other) (has_base-without_module m.module_base b modules (λ e. ground (arith, other)) h)
]

added-AreLoaded :
    (m : ModuleRecord) (modules : List ModuleRecord) (hooks : List SessionHook)
    → AreLoaded modules hooks
    → AreLoaded (m ∷ without_module m.module_base modules) hooks
added-AreLoaded m modules [] ok = tt
added-AreLoaded m modules (hook ∷ hooks) ok = (
  has_base-added m hook.source_module_base modules ok.0,
  has_base-added m hook.target_module_base modules ok.1,
  added-AreLoaded m modules hooks ok.2,
)

module _ {S : Type 0} (windows : Windows S) (zydis : Bytes → Option ZydisInstruction)
    (image : ImageFormat) where
  with_module-IsKept :
      (session : Session S) (base : ℕ) (name : Bytes)
      → IsKept windows zydis image session
      → IsKept windows zydis image (with_module windows zydis image session base name)
  unfolding IsKept
  with_module-IsKept session base name ok = (
    ok.0,
    added-AreLoaded
        (record {
          module_base = base;
          module_name = name;
          generation = (session.module_generation + 1) % 2 ^ 64;
        })
        session.modules session.installed_hooks ok.1,
  )

  configure_transport-IsKept :
      (session : Session S) (ntdll : ℕ)
      → IsKept windows zydis image session
      → IsKept windows zydis image (configure_transport windows zydis image session ntdll).1
  unfolding configure_transport IsKept
  configure_transport-IsKept session ntdll ok =
      let first =
        create_bypass_trampoline_for_function windows zydis image session.process ntdll
          (codes "NtSetEvent") in
      let second =
        create_bypass_trampoline_for_function windows zydis image first.1 ntdll
          (codes "NtReadVirtualMemory") in
      let written =
        write_remote_export windows zydis image second.1 session.hook_image_base
          (codes "TransportNtSetEvent") (bypass_address windows zydis image first.0) in
      elim (Bool-cases (is_some first.0)) [
        | inr no_first ↦ rw (no_first, configure_transport) ok
        | inl has_first ↦ elim (Bool-cases (is_some second.0)) [
          | inr no_second ↦ rw (has_first, no_second, configure_transport) ok
          | inl has_second ↦ elim (Bool-cases written.0) [
            | inr unwritten ↦ rw (has_first, has_second, unwritten, configure_transport) ok
            | inl done ↦ rw (has_first, has_second, done, configure_transport) ok
          ]
        ]
      ]

  ready-IsKept :
      (b : Bool) (session : Session S)
      → IsKept windows zydis image session
      → IsKept windows zydis image (record session { transport_configured = b })
  unfolding IsKept
  ready-IsKept b session ok = ok

  register_module-IsKept :
      (definitions : List HookDefinition) (session : Session S) (base : ℕ) (path : List ℕ)
      → IsKept windows zydis image session
      → IsKept windows zydis image
          (register_module windows zydis image definitions session base path).1
  unfolding register_module
  register_module-IsKept definitions session base path ok =
      let name = module_name_of windows zydis image session.process base path in
      let added = with_module windows zydis image session base name in
      let added_ok = with_module-IsKept session base name ok in
      let configured = configure_transport windows zydis image added base in
      let configured_ok = configure_transport-IsKept added base added_ok in
      let is_first = bytes_eq name (codes "ntdll.dll") && not session.transport_configured in
      elim (Bool-cases (length name == 0)) [
        | inl nameless ↦ rw (nameless, register_module) ok
        | inr named ↦ elim (Bool-cases is_first) [
          | inl ntdll ↦ elim (Bool-cases configured.0) [
            | inr failed_here ↦ rw (named, ntdll, failed_here, register_module) configured_ok
            | inl done ↦
                rw (named, ntdll, done, register_module)
                  (try_install_pending_hooks-IsKept windows zydis image definitions
                    (record (configured.1) { transport_configured = true })
                    (ready-IsKept true configured.1 configured_ok))
          ]
          | inr other ↦ elim (Bool-cases session.transport_configured) [
            | inr too_early ↦
                rw (named, other, too_early, register_module) (ready-IsKept false added added_ok)
            | inl set_up ↦
                rw (named, other, set_up, register_module)
                  (try_install_pending_hooks-IsKept windows zydis image definitions
                    (record added { transport_configured = true })
                    (ready-IsKept true added added_ok))
          ]
        ]
      ]

  handle_module_event-IsKept :
      (definitions : List HookDefinition) (session : Session S) (event : ModuleEvent)
      → IsKept windows zydis image session
      → IsKept windows zydis image
          (handle_module_event windows zydis image definitions session event).1
  unfolding handle_module_event
  handle_module_event-IsKept definitions session (loads base path) ok =
      register_module-IsKept definitions session base path ok
  handle_module_event-IsKept definitions session (unloads base) ok =
      (handle_unload_dll-IsKept windows zydis image base session ok).0

  -- Whatever modules are loaded and unloaded, and whether the handlers succeed or fail, the hooks
  -- installed have different names and different functions, and the modules that each was found from
  -- and in are loaded.
  pub handle_module_events-IsKept :
      (definitions : List HookDefinition) (session : Session S) (events : List ModuleEvent)
      → IsKept windows zydis image session
      → IsKept windows zydis image
          (handle_module_events windows zydis image definitions session events).1
  unfolding handle_module_events
  handle_module_events-IsKept definitions session [] ok = ok
  handle_module_events-IsKept definitions session (event ∷ events) ok =
      let handled = handle_module_event windows zydis image definitions session event in
      let handled_ok = handle_module_event-IsKept definitions session event ok in
      elim (Bool-cases handled.0) [
        | inl goes_on ↦
            rw (goes_on, handle_module_events)
              (handle_module_events-IsKept definitions handled.1 events handled_ok)
        | inr stops ↦ rw (stops, handle_module_events) handled_ok
      ]
