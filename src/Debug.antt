-- ===== src/Debug.antt =====
-- src/apiscope/debug_session.cpp: the modules of the traced process and the hooks installed in it.
-- The process is reached through the calls of Windows, and instructions through Zydis, as in Hooks.
-- `modules_` is a list, whose order nothing depends on; the events of the debugger are one call each.
pub mod Modules
pub mod Resolve
pub mod Install
pub mod Unload
pub mod Events
pub mod Run
use apiscope.Prelude.{
  Bool, Bytes, List, Option, [], any, bytes_eq, codes, false, guard, if◌then◌else◌, leb, length,
  ltb, none, not, some, suc, true, zero, ℕ, ◌&&◌, ◌++◌, ◌+◌, ◌==◌, ◌>>=◌, ◌>>◌, ◌||◌, ◌∷◌,
}
use apiscope.Hooks.{
  InstalledHook, RemoteTrampoline, Windows, ZydisInstruction, hook_function, release_unloaded_hook,
  unhook_function,
}
use apiscope.Memory.{byte, rest}
use apiscope.Process.{ImageFormat, RemoteExport, get_remote_export}
use apiscope.Registry.{HookDefinition, normalize_module_name}

-- `DebugSession::ModuleRecord`
pub record ModuleRecord : Type 0 where
  pub module_base : ℕ
  pub module_name : Bytes
  pub generation : ℕ

-- An `InstalledHook` with the bases that the debug session sets.
pub record SessionHook : Type 0 where
  pub installed : InstalledHook
  pub source_module_base : ℕ
  pub target_module_base : ℕ

-- The members of `DebugSession` that its modules and hooks concern, with the state of the process and
-- the bypasses of its `TraceSession`.
pub record Session (S : Type 0) : Type 0 where
  pub process : S
  pub hook_image_base : ℕ
  pub hook_image_size : ℕ
  pub modules : List ModuleRecord
  pub installed_hooks : List SessionHook
  pub module_generation : ℕ
  pub transport_configured : Bool
  pub set_event_bypass : Option RemoteTrampoline
  pub read_memory_bypass : Option RemoteTrampoline

-- `DebugSession::ResolveResult`, with the address and the base of the module that has it.
pub data ResolveResult : Type 0 where
  resolved : ℕ → ℕ → ResolveResult
  pending : ResolveResult
  failed : ResolveResult

-- The newer of a module and those found before.
abbrev pub newer : ModuleRecord → Option ModuleRecord → ModuleRecord
newer m none = m
newer m (some newest) = if ltb newest.generation m.generation then m else newest

-- `DebugSession::FindModule`, from the newest module found so far.
unfoldable pub find_newest : Bytes → List ModuleRecord → Option ModuleRecord → Option ModuleRecord
find_newest name [] newest = newest
find_newest name (m ∷ modules) newest =
    find_newest name modules (if bytes_eq m.module_name name then some (newer m newest) else newest)

abbrev pub find_module : List ModuleRecord → Bytes → Option ModuleRecord
find_module modules name = find_newest name modules none

-- `modules_.erase`
unfoldable pub without_module : ℕ → List ModuleRecord → List ModuleRecord
without_module base [] = []
without_module base (m ∷ modules) =
    let rest = without_module base modules in if m.module_base == base then rest else m ∷ rest

-- A forwarder before and behind its last dot.
unfoldable pub split_last_dot : Bytes → Option (Bytes × Bytes)
split_last_dot [] = none
split_last_dot (c ∷ cs) = elim (split_last_dot cs) [
  | none ↦ if c == b'.' then some ([], cs) else none
  | some (before, behind) ↦ some (c ∷ before, behind)
]

-- The module and the export that a forwarder names.
unfoldable pub read_forwarder : Bytes → Option (Bytes × Bytes)
read_forwarder forwarder = do
  parts ← split_last_dot forwarder
  guard (not (length parts.0 == 0) && (not (length parts.1 == 0) && not (byte parts.1 == b'#')))
  some parts

-- The file name of a module that a hook or a forwarder names.
abbrev pub full_name : Bytes → Bytes
full_name name =
    let normalized = normalize_module_name name in
    if any (λ c. c == b'.') normalized then normalized else normalized ++ codes ".dll"

abbrev pub identity_of : Bytes → Bytes → Bytes
identity_of module_name export_name = module_name ++ b'!' ∷ export_name

abbrev pub forwarder_depth : ℕ
forwarder_depth = 8

module _ (exports : ℕ → Bytes → Option RemoteExport) (modules : List ModuleRecord) where
  -- `DebugSession::ResolveExportAddress` with the forwarders that it may still follow, 8 less the
  -- source's depth. `exports` is GetRemoteExport on the process.
  unfoldable pub resolve_export_address : ℕ → Bytes → Bytes → List Bytes → ResolveResult
  resolve_export_address zero name export_name visited = failed
  resolve_export_address (suc left) name export_name visited =
      let identity = identity_of (full_name name) export_name in
      if any (bytes_eq identity) visited
      then failed
      else elim (find_module modules (full_name name)) [
        | none ↦ pending
        | some m ↦ elim (exports m.module_base export_name) [
          | none ↦ failed
          | some remote ↦
              let next : ResolveResult = elim (read_forwarder remote.forwarder) [
                | none ↦ failed
                | some parts ↦ resolve_export_address left parts.0 parts.1 (identity ∷ visited)
              ] in
              if remote.address == 0 then next else resolved remote.address m.module_base
        ]
      ]

  -- `DebugSession::ResolveHookAddress`, with the base of the module that the hook names.
  unfoldable pub resolve_hook_address : HookDefinition → Option (ℕ × ResolveResult)
  resolve_hook_address definition = do
    source ← find_module modules definition.module_name
    some (
      source.module_base,
      resolve_export_address forwarder_depth definition.module_name definition.export_name [],
    )

module _ {S : Type 0} (windows : Windows S) (zydis : Bytes → Option ZydisInstruction)
    (image : ImageFormat) where
  abbrev pub is_installed : Bytes → SessionHook → Bool
  is_installed name hook = bytes_eq hook.installed.hook_name name

  abbrev pub is_hook_of : ℕ → SessionHook → Bool
  is_hook_of address hook = hook.installed.original_function == address

  abbrev pub exports_of : S → ℕ → Bytes → Option RemoteExport
  exports_of s base name = get_remote_export (windows.read_process_memory s) image base name

  -- One round of the loop of `TryInstallPendingHooks`: whether the loop goes on, and the session.
  unfoldable pub install_at : Session S → HookDefinition → ℕ → ResolveResult → Bool × Session S
  install_at session definition source pending = (true, session)
  install_at session definition source failed = (false, session)
  install_at session definition source (resolved address target) =
      let made =
        hook_function windows zydis image session.process address session.hook_image_base
          definition in
      if any (is_hook_of address) session.installed_hooks then (false, session) else elim made.0 [
        | none ↦ (false, record session { process = made.1 })
        | some hook ↦ (
          true,
          record session {
            process = made.1;
            installed_hooks =
                session.installed_hooks
                ++ (record {
                  installed = hook;
                  source_module_base = source;
                  target_module_base = target;
                }
                    ∷ []);
          },
        )
      ]

  unfoldable pub install_pending : Session S → HookDefinition → Bool × Session S
  install_pending session definition =
      if any (is_installed definition.canonical_name) session.installed_hooks
      then (true, session)
      else elim (resolve_hook_address (exports_of session.process) session.modules definition) [
        | none ↦ (true, session)
        | some (source, result) ↦ install_at session definition source result
      ]

  -- `DebugSession::TryInstallPendingHooks`
  unfoldable pub try_install_pending_hooks : List HookDefinition → Session S → Bool × Session S
  try_install_pending_hooks [] session = (true, session)
  try_install_pending_hooks (definition ∷ definitions) session =
      let round = install_pending session definition in
      let rest = try_install_pending_hooks definitions round.1 in
      if round.0 then rest else (false, round.1)

  -- The loop of `HandleUnloadDll` over the hooks: the process, and the hooks that stay.
  unfoldable pub remove_hooks : ℕ → S → List SessionHook → S × List SessionHook
  remove_hooks base s [] = (s, [])
  remove_hooks base s (hook ∷ hooks) =
      let is_target = hook.target_module_base == base in
      let is_source = hook.source_module_base == base in
      let next =
        if is_target
        then (release_unloaded_hook windows s hook.installed).1
        else if is_source
        then (unhook_function windows s hook.installed).1
        else s in
      let rest = remove_hooks base next hooks in
      if is_target || is_source then rest else (rest.0, hook ∷ rest.1)

  -- `DebugSession::HandleUnloadDll`
  unfoldable pub handle_unload_dll : ℕ → Session S → Session S
  handle_unload_dll base session =
      let removed = remove_hooks base session.process session.installed_hooks in
      record session {
        process = removed.0;
        installed_hooks = removed.1;
        modules = without_module base session.modules;
      }

  -- The loop of `CleanupRemote` over the hooks, the last one first.
  unfoldable pub unhook_all : S → List SessionHook → Bool × S
  unhook_all s [] = (true, s)
  unhook_all s (hook ∷ hooks) =
      let rest = unhook_all s hooks in
      let unhooked = unhook_function windows rest.1 hook.installed in
      (unhooked.0 && rest.0, unhooked.1)

-- `DebugSession::IsInstrumentationAddress`
unfoldable pub is_instrumentation_address : {S : Type 0} → Session S → ℕ → Bool
is_instrumentation_address session ip =
    (not (session.hook_image_base == 0)
      && (leb session.hook_image_base ip
          && ltb ip (session.hook_image_base + session.hook_image_size)))
    || any
        (λ hook.
          (leb hook.installed.original_function ip
            && ltb ip (hook.installed.original_function + length hook.installed.original_bytes))
          || (leb hook.installed.trampoline_address ip
              && ltb ip (hook.installed.trampoline_address + 1024)))
        session.installed_hooks
