-- ===== src/Debug/Install.antt =====
-- The hooks of a session: no two of one name, no two of one function, and all in loaded modules.
use apiscope.Prelude.{
  Bool-cases, Bytes, List, Option, Option-cases, [], any, arith, bytes_eq, bytes_eq_refl, false,
  inl, inr, le_bytes, none, refl, some, subst, sym, true, ||-eq-false, ℕ, ◌++◌, ◌==◌, ◌∙◌, ◌∷◌, ◌≡◌,
  ◌≢◌,
}
use apiscope.Debug.{
  ModuleRecord, ResolveResult, Session, SessionHook, exports_of, failed, install_at,
  install_pending, is_hook_of, is_installed, pending, resolve_hook_address, resolved,
  try_install_pending_hooks,
}
use apiscope.Debug.Modules.{has_base}
use apiscope.Debug.Resolve.{IsLoaded, resolve_hook_address-IsLoaded}
use apiscope.Hooks.{
  InstalledHook, RemoteTrampoline, Windows, ZydisInstruction, create_bypass_trampoline,
  exported_address, finish_hook, hook_function, patch_function,
}
use apiscope.Process.{ImageFormat}
use apiscope.Registry.{HookDefinition}

-- A hook has another name and another function than each hook of a list.
abbrev pub IsApart : SessionHook → List SessionHook → Type 0
IsApart hook [] = Unit {0}
IsApart hook (h ∷ hooks) =
    (h.installed.hook_name ≢ hook.installed.hook_name)
    × (h.installed.original_function ≢ hook.installed.original_function)
    × IsApart hook hooks

-- The hooks installed have different names and different functions.
abbrev pub AreInstalled : List SessionHook → Type 0
AreInstalled [] = Unit {0}
AreInstalled (hook ∷ hooks) = IsApart hook hooks × AreInstalled hooks

IsApart-snoc :
    (h hook : SessionHook) (hooks : List SessionHook)
    → IsApart h hooks
    → (hook.installed.hook_name ≢ h.installed.hook_name)
    → (hook.installed.original_function ≢ h.installed.original_function)
    → IsApart h (hooks ++ hook ∷ [])
IsApart-snoc h hook [] ok a b = (a, b, tt)
IsApart-snoc h hook (g ∷ hooks) ok a b = (ok.0, ok.1, IsApart-snoc h hook hooks ok.2 a b)

AreInstalled-snoc :
    (hooks : List SessionHook) (hook : SessionHook)
    → AreInstalled hooks
    → IsApart hook hooks
    → AreInstalled (hooks ++ hook ∷ [])
AreInstalled-snoc [] hook ok apart = (tt, tt)
AreInstalled-snoc (h ∷ hooks) hook ok apart = (
  IsApart-snoc h hook hooks ok.0 (λ e. apart.0 (sym e)) (λ e. apart.1 (sym e)),
  AreInstalled-snoc hooks hook ok.1 apart.2,
)

-- The modules that a hook was found from and in are loaded.
abbrev pub AreLoaded : List ModuleRecord → List SessionHook → Type 0
AreLoaded modules [] = Unit {0}
AreLoaded modules (hook ∷ hooks) =
    (has_base hook.source_module_base modules ≡ true)
    × (has_base hook.target_module_base modules ≡ true)
    × AreLoaded modules hooks

AreLoaded-snoc :
    (modules : List ModuleRecord) (hooks : List SessionHook) (hook : SessionHook)
    → AreLoaded modules hooks
    → has_base hook.source_module_base modules ≡ true
    → has_base hook.target_module_base modules ≡ true
    → AreLoaded modules (hooks ++ hook ∷ [])
AreLoaded-snoc modules [] hook ok a b = (a, b, tt)
AreLoaded-snoc modules (h ∷ hooks) hook ok a b =
    (ok.0, ok.1, AreLoaded-snoc modules hooks hook ok.2 a b)

module _ {S : Type 0} (windows : Windows S) (zydis : Bytes → Option ZydisInstruction)
    (image : ImageFormat) where
  -- A hook is apart from those that the two searches pass.
  searched-IsApart :
      (hook : SessionHook) (hooks : List SessionHook) (name : Bytes) (address : ℕ)
      → hook.installed.hook_name ≡ name
      → hook.installed.original_function ≡ address
      → any (is_installed windows zydis image name) hooks ≡ false
      → any (is_hook_of windows zydis image address) hooks ≡ false
      → IsApart hook hooks
  searched-IsApart hook [] name address n f a b = tt
  searched-IsApart hook (h ∷ hooks) name address n f a b =
      let (a0, a1) =
        ||-eq-false (bytes_eq h.installed.hook_name name)
          (any (is_installed windows zydis image name) hooks) a in
      let (b0, b1) =
        ||-eq-false (h.installed.original_function == address)
          (any (is_hook_of windows zydis image address) hooks) b in
      (
        (λ e.
            let self : bytes_eq name name ≡ false =
              subst (λ k. bytes_eq k name ≡ false) (e ∙ n) a0 in
            let same = bytes_eq_refl name in absurd (cc)),
        (λ e. ground (arith, b0)),
        searched-IsApart hook hooks name address n f a1 b1,
      )

  -- The name and the function of the hook that HookFunction makes.
  unfoldable MadeOf : ℕ → Bytes → Option InstalledHook → Type 0
  MadeOf function name none = Unit {0}
  MadeOf function name (some hook) = (hook.hook_name ≡ name) × (hook.original_function ≡ function)

  finish_hook-MadeOf :
      (function handler slot : ℕ) (name : Bytes) (r : Option RemoteTrampoline × S)
      → MadeOf function name (finish_hook windows zydis function handler slot name r).0
  unfolding finish_hook MadeOf
  finish_hook-MadeOf function handler slot name (none, s) = tt
  finish_hook-MadeOf function handler slot name (some t, s) =
      let pointed = windows.write_process_memory s slot (le_bytes 8 t.trampoline) in
      let patched = patch_function windows pointed.1 function handler t.patch_bytes in
      elim (Option-cases (windows.read_process_memory s function t.patch_bytes)) [
        | inl unread ↦ rw (unread, finish_hook) tt
        | inr (bytes, readable) ↦ elim (Bool-cases pointed.0) [
          | inr failed_write ↦ rw (readable, failed_write, finish_hook) tt
          | inl done ↦ elim (Bool-cases patched.0) [
            | inr refused ↦ rw (readable, done, refused, finish_hook) tt
            | inl active ↦ rw (readable, done, active, finish_hook) (refl, refl)
          ]
        ]
      ]

  hook_function-MadeOf :
      (s : S) (function base : ℕ) (definition : HookDefinition)
      → MadeOf function definition.canonical_name
          (hook_function windows zydis image s function base definition).0
  unfolding hook_function MadeOf
  hook_function-MadeOf s function base definition = elim (Bool-cases (function == 0)) [
    | inl absent ↦ rw (absent, hook_function) tt
    | inr present ↦
        elim (Option-cases (exported_address windows image s base definition.handler_export)) [
          | inl no_handler ↦ rw (present, no_handler, hook_function) tt
          | inr (handler, has_handler) ↦
              elim (Option-cases
                (exported_address windows image s base definition.trampoline_export)) [
                  | inl no_slot ↦ rw (present, has_handler, no_slot, hook_function) tt
                  | inr (slot, has_slot) ↦
                      rw (present, has_handler, has_slot, hook_function)
                        (finish_hook-MadeOf function handler slot definition.canonical_name
                          (create_bypass_trampoline windows zydis s function))
                ]
        ]
  ]

  -- The invariant of the session.
  unfoldable pub IsKept : Session S → Type 0
  IsKept session =
      AreInstalled session.installed_hooks × AreLoaded session.modules session.installed_hooks

  made_of :
      (hook : InstalledHook) (function : ℕ) (name : Bytes) (o : Option InstalledHook)
      → o ≡ some hook
      → MadeOf function name o
      → (hook.hook_name ≡ name) × (hook.original_function ≡ function)
  unfolding MadeOf
  made_of hook function name o done made = subst (MadeOf function name) done made

  install_at-IsKept :
      (session : Session S) (definition : HookDefinition) (source : ℕ) (result : ResolveResult)
      → any (is_installed windows zydis image definition.canonical_name) session.installed_hooks
        ≡ false
      → has_base source session.modules ≡ true
      → IsLoaded (exports_of windows zydis image session.process) session.modules result
      → IsKept session
      → IsKept (install_at windows zydis image session definition source result).1
  unfolding install_at IsKept
  install_at-IsKept session definition source pending new from into ok = ok
  install_at-IsKept session definition source failed new from into ok = ok
  install_at-IsKept session definition source (resolved address target) new from into ok =
      let made =
        hook_function windows zydis image session.process address session.hook_image_base
          definition in
      elim (Bool-cases (any (is_hook_of windows zydis image address) session.installed_hooks)) [
        | inl taken ↦ rw (taken, install_at) ok
        | inr free ↦ elim (Option-cases made.0) [
          | inl refused ↦ rw (free, refused, install_at) ok
          | inr (hook, done) ↦
              let (named, at) : (hook.hook_name ≡ definition.canonical_name)
                  × (hook.original_function ≡ address) =
                made_of hook address definition.canonical_name made.0 done (
                  hook_function-MadeOf session.process address session.hook_image_base
                    definition) in
              let entry : SessionHook = record {
                installed = hook;
                source_module_base = source;
                target_module_base = target;
              } in
              rw (free, done, install_at)
                (
                  AreInstalled-snoc session.installed_hooks entry ok.0 (
                      searched-IsApart entry session.installed_hooks definition.canonical_name
                        address named at new free),
                  AreLoaded-snoc session.modules session.installed_hooks entry ok.1 from into,
                )
        ]
      ]

  install_pending-IsKept :
      (session : Session S) (definition : HookDefinition)
      → IsKept session
      → IsKept (install_pending windows zydis image session definition).1
  unfolding install_pending
  install_pending-IsKept session definition ok =
      let here =
        any (is_installed windows zydis image definition.canonical_name) session.installed_hooks in
      let found =
        resolve_hook_address (exports_of windows zydis image session.process) session.modules
          definition in
      elim (Bool-cases here) [
        | inl before ↦ rw (before, install_pending) ok
        | inr new ↦ elim (Option-cases found) [
          | inl absent ↦ rw (new, absent, install_pending) ok
          | inr ((source, result), there) ↦
              rw (new, there, install_pending)
                (let (from, into) =
                    resolve_hook_address-IsLoaded (exports_of windows zydis image session.process)
                      session.modules definition source result there in
                  install_at-IsKept session definition source result new from into ok)
        ]
      ]

  -- TryInstallPendingHooks keeps the hooks installed different in name and in function, and those of
  -- modules that are loaded, whether it succeeds or not.
  pub try_install_pending_hooks-IsKept :
      (definitions : List HookDefinition) (session : Session S)
      → IsKept session
      → IsKept (try_install_pending_hooks windows zydis image definitions session).1
  unfolding try_install_pending_hooks
  try_install_pending_hooks-IsKept [] session ok = ok
  try_install_pending_hooks-IsKept (definition ∷ definitions) session ok =
      let round = install_pending windows zydis image session definition in
      let round_ok = install_pending-IsKept session definition ok in
      elim (Bool-cases round.0) [
        | inl goes_on ↦
            rw (goes_on, try_install_pending_hooks)
              (try_install_pending_hooks-IsKept definitions round.1 round_ok)
        | inr stops ↦ rw (stops, try_install_pending_hooks) round_ok
      ]
