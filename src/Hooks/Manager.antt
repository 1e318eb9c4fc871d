-- ===== src/Hooks/Manager.antt =====
-- HookFunction and UnhookFunction: a hook, a refusal, and a hook taken back.
use apiscope.Prelude.{
  Bool-cases, Bytes, Option, Option-cases, [], ap, append-nil, ap₂, arith, drop, drop-append, inl,
  inr, le_bytes, length, none, refl, replicate, some, subst, sym, true, ℕ, ◌%◌, ◌++◌, ◌+◌, ◌<◌,
  ◌==◌, ◌^◌, ◌∙◌, ◌≡◌, ◌≤◌, ◌⊎◌,
}
use apiscope.Hooks.{
  InstalledHook, Windows, ZydisInstruction, create_bypass_trampoline, decode_instruction_64,
  exported_address, finish_hook, hook_function, jump_code, patch_size, unhook_function,
}
use apiscope.Hooks.Bypass.{create_bypass_trampoline-IsMade}
use apiscope.Hooks.Install.{HookOf, IsInstalled, IsRefused, hooked}
use apiscope.Hooks.Jump.{runs_to, runs_to-jump_code}
use apiscope.Hooks.Memory.{AreApart, IsDocumented, IsOutside, apart_less, bytes_at}
use apiscope.Hooks.Patch.{patch_code-jump}
use apiscope.Hooks.Remove.{IsRestored, IsUnhooked, unhook_function-IsUnhooked}
use apiscope.Hooks.Size.{IsBounded}
use apiscope.Process.{ImageFormat}
use apiscope.Registry.{HookDefinition}

module _ {S : Type 0} (windows : Windows S) (content : S → ℕ → ℕ) (granted : ℕ)
    (doc : IsDocumented windows content granted) (zydis : Bytes → Option ZydisInstruction)
    (bounded : IsBounded (decode_instruction_64 zydis)) (image : ImageFormat) (s : S)
    (function base : ℕ) (definition : HookDefinition) (handler slot : ℕ)
    (handler_is : exported_address windows image s base definition.handler_export ≡ some handler)
    (slot_is : exported_address windows image s base definition.trampoline_export ≡ some slot)
    (slot_away : AreApart function 32 slot 8)
    (slot_readable : (old : Bytes) × (windows.read_process_memory s slot 8 ≡ some old)) where
  hook_function-HookOf :
      HookOf windows content granted doc zydis bounded s function handler slot
        (hook_function windows zydis image s function base definition)
  unfolding hook_function HookOf
  hook_function-HookOf = elim (Bool-cases (function == 0)) [
    | inl absent ↦ rw (absent, hook_function) (inl (λ x readable out. refl))
    | inr present ↦
        rw (present, handler_is, slot_is, hook_function)
          (hooked windows content granted doc zydis bounded s function handler slot
            definition.canonical_name slot_away slot_readable
            (create_bypass_trampoline windows zydis s function)
            (create_bypass_trampoline-IsMade windows content granted doc zydis bounded s function))
  ]

  -- The jump at the end of a trampoline.
  abbrev onward : ℕ → Bytes
  onward size = jump_code ((function + size) % 2 ^ 64)

  -- Where HookFunction succeeds with a handler and a variable that the library exports, the variable
  -- readable and away from the function's first bytes, the function runs to the handler, its first
  -- instructions stand in the trampoline and go on behind the patch, the variable holds the
  -- trampoline's address, nothing else has changed, and the hook preserves the function's bytes, if
  -- Windows and Zydis do what they document.
  pub hook_function-IsInstalled :
      (hook : InstalledHook) (s1 : S)
      → handler < 2 ^ 64
      → hook_function windows zydis image s function base definition ≡ (some hook, s1)
      → (ok : IsInstalled windows content granted doc zydis bounded s s1 function handler slot hook)
        × (runs_to (bytes_at (content s1) function ok.size) ≡ some handler)
        × (runs_to
              (drop ok.size (bytes_at (content s1) hook.trampoline_address (ok.size + patch_size)))
            ≡ some ((function + ok.size) % 2 ^ 64))
  unfolding HookOf
  hook_function-IsInstalled hook s1 small done =
      let ok : IsInstalled windows content granted doc zydis bounded s s1 function handler slot
          hook =
        subst (HookOf windows content granted doc zydis bounded s function handler slot) done
          hook_function-HookOf in
      (
        ok,
        ap runs_to (ok.patched ∙ patch_code-jump handler ok.size ok.big)
            ∙ runs_to-jump_code handler (drop patch_size (replicate ok.size 0x90)) small,
        ap (λ code. runs_to (drop ok.size code)) ok.detour
            ∙ ap runs_to (
                ap (λ n. drop n (hook.original_bytes ++ onward ok.size)) (sym ok.size_is)
                ∙ drop-append hook.original_bytes (onward ok.size)
                ∙ sym (append-nil (onward ok.size)))
            ∙ runs_to-jump_code ((function + ok.size) % 2 ^ 64) [] (omega arith),
      )

  abbrev pub IsTakenBack : S → S → InstalledHook → ℕ → ℕ → Type 0
  IsTakenBack s2 s3 hook at variable =
      (bytes_at (content s3) at (length hook.original_bytes)
        ≡ bytes_at (content s) at (length hook.original_bytes))
      × (bytes_at (content s3) variable 8 ≡ le_bytes 8 0)
      × ((x : ℕ)
          → IsOutside x at (length hook.original_bytes)
          → IsOutside x variable 8
          → IsOutside x hook.trampoline_address granted
          → content s3 x ≡ content s2 x)

  -- UnhookFunction, where it succeeds at any later time on the hook that HookFunction gave, restores
  -- the function's bytes of before the hook, empties the variable, and changes nothing else outside
  -- the trampoline that it frees.
  pub unhook_function-hook_function :
      (hook : InstalledHook) (s1 s2 s3 : S)
      → hook_function windows zydis image s function base definition ≡ (some hook, s1)
      → unhook_function windows s2 hook ≡ (true, s3)
      → (bytes_at (content s3) function (length hook.original_bytes)
          ≡ bytes_at (content s) function (length hook.original_bytes))
        × (bytes_at (content s3) slot 8 ≡ le_bytes 8 0)
        × ((x : ℕ)
            → IsOutside x function (length hook.original_bytes)
            → IsOutside x slot 8
            → IsOutside x hook.trampoline_address granted
            → content s3 x ≡ content s2 x)
  unfolding HookOf IsUnhooked
  unhook_function-hook_function hook s1 s2 s3 done unhooked =
      let ok : IsInstalled windows content granted doc zydis bounded s s1 function handler slot
          hook =
        subst (HookOf windows content granted doc zydis bounded s function handler slot) done
          hook_function-HookOf in
      let size = length hook.original_bytes in
      let tramp = hook.trampoline_address in
      let fits : size ≤ 32 = omega (arith, ok.small, ok.size_is) in
      let away : AreApart hook.original_function size hook.trampoline_slot 8 =
        subst (λ f. AreApart f size hook.trampoline_slot 8) (sym ok.function_is)
          (subst (λ v. AreApart function size v 8) (sym ok.slot_is)
            (apart_less function 32 size slot 8 fits slot_away)) in
      let function_apart : AreApart hook.original_function size tramp granted =
        subst (λ f. AreApart f size tramp granted) (sym ok.function_is)
          (apart_less function 32 size tramp granted fits ok.function_apart) in
      let slot_apart : AreApart hook.trampoline_slot 8 tramp granted =
        subst (λ v. AreApart v 8 tramp granted) (sym ok.slot_is) ok.slot_apart in
      let back : IsRestored windows content granted doc s2 s3 hook =
        subst (IsUnhooked windows content granted doc s2 hook) unhooked
          (unhook_function-IsUnhooked windows content granted doc s2 hook away function_apart
            slot_apart)
          refl in
      let preserved : hook.original_bytes ≡ bytes_at (content s) hook.original_function size =
        ok.preserved ∙ ap₂ (bytes_at (content s)) (sym ok.function_is) (sym ok.size_is) in
      subst (λ f. IsTakenBack s2 s3 hook f slot) ok.function_is
        (subst (λ v. IsTakenBack s2 s3 hook hook.original_function v) ok.slot_is
          (back.restored ∙ preserved, back.emptied, back.kept))

module _ {S : Type 0} (windows : Windows S) (content : S → ℕ → ℕ) (granted : ℕ)
    (doc : IsDocumented windows content granted) (zydis : Bytes → Option ZydisInstruction)
    (bounded : IsBounded (decode_instruction_64 zydis)) (image : ImageFormat) (s : S)
    (function base : ℕ) (definition : HookDefinition) where
  none_exported :
      {A : Type 0} (handler slot : Option ℕ) (given : A) (hooked : ℕ → ℕ → A)
      → (handler ≡ none) ⊎ (slot ≡ none)
      → elim handler [ none ↦ given | some h ↦ elim slot [ none ↦ given | some v ↦ hooked h v ] ]
        ≡ given
  none_exported none slot given hooked m = refl
  none_exported (some h) none given hooked m = refl
  none_exported (some h) (some v) given hooked (inl m) = absurd (cc)
  none_exported (some h) (some v) given hooked (inr m) = absurd (cc)

  -- Nothing has changed, or the library has the handler and the variable and `IsRefused` holds.
  abbrev pub IsLeft : S → Type 0
  IsLeft s1 =
      (s1 ≡ s)
      ⊎ ((handler slot : ℕ) × (exported_address windows image s base definition.handler_export
            ≡ some handler)
          × (exported_address windows image s base definition.trampoline_export ≡ some slot)
          × IsRefused windows content granted doc zydis bounded s s1 function handler slot)

  -- Where HookFunction gives no hook, nothing at all has changed, or the library exports the handler and
  -- the variable, and every byte that could be read before is as it was, but for the variable, or but
  -- for the variable and the whole patch of the function. The variable, if it is exported, is assumed
  -- readable and away from the function's first bytes, and Windows and Zydis to do what they document.
  pub hook_function-IsRefused :
      (s1 : S)
      → ((slot : ℕ)
          → exported_address windows image s base definition.trampoline_export ≡ some slot
          → AreApart function 32 slot 8
            × ((old : Bytes) × (windows.read_process_memory s slot 8 ≡ some old)))
      → hook_function windows zydis image s function base definition ≡ (none, s1)
      → IsLeft s1
  unfolding HookOf hook_function
  hook_function-IsRefused s1 away refused =
      elim (Option-cases (exported_address windows image s base definition.handler_export)) [
        | inl no_handler ↦ inl (unchanged (missing (inl no_handler)))
        | inr (handler, handler_is) ↦
            elim (Option-cases
              (exported_address windows image s base definition.trampoline_export)) [
                | inl no_slot ↦ inl (unchanged (missing (inr no_slot)))
                | inr (slot, slot_is) ↦ inr (
                  handler,
                  slot,
                  handler_is,
                  slot_is,
                  subst (HookOf windows content granted doc zydis bounded s function handler slot)
                      refused
                      (hook_function-HookOf windows content granted doc zydis bounded image s
                        function base definition handler slot handler_is slot_is
                        (away slot slot_is).0 (away slot slot_is).1),
                )
              ]
      ]
    where
      missing :
          (exported_address windows image s base definition.handler_export ≡ none)
            ⊎ (exported_address windows image s base definition.trampoline_export ≡ none)
          → hook_function windows zydis image s function base definition ≡ (none, s)
      missing m = elim (Bool-cases (function == 0)) [
        | inl absent ↦ rw (absent, hook_function) refl
        | inr present ↦
            rw (present, hook_function)
              (none_exported (exported_address windows image s base definition.handler_export)
                (exported_address windows image s base definition.trampoline_export) (none, s)
                (λ handler slot.
                  finish_hook windows zydis function handler slot definition.canonical_name
                    (create_bypass_trampoline windows zydis s function))
                m)
      ]

      unchanged : hook_function windows zydis image s function base definition ≡ (none, s) → s1 ≡ s
      unchanged h = ap (λ r. r.1) (sym refused ∙ h)
