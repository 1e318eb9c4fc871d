-- ===== src/Hooks.antt =====
-- src/apiscope/hook_manager.cpp and src/apiscope/instruction_decoder.cpp: the patch over the first
-- instructions of a function and the trampoline that stands for them, in the memory of the traced
-- process. The calls of Windows and of Zydis, the decoder of instructions, are parameters.
pub mod Size
pub mod Jump
pub mod Memory
pub mod Patch
pub mod Bypass
pub mod Install
pub mod Remove
pub mod Manager
use apiscope.Prelude.{
  Bool, Bytes, List, Option, [], any, drop, false, guard, if◌then◌else◌, le_bytes, length, ltb,
  none, not, replicate, some, suc, true, zero, ℕ, ◌%◌, ◌&&◌, ◌++◌, ◌+◌, ◌/◌, ◌==◌, ◌>>=◌, ◌>>◌, ◌^◌,
  ◌||◌, ◌∷◌,
}
use apiscope.Memory.{custom_mem_cpy}
use apiscope.Process.{ImageFormat, get_remote_export}
use apiscope.Registry.{HookDefinition}
use apiscope.Transport.Capture.{written}

-- The calls of Windows on the traced process, whose state they change. A call that gives a Bool says
-- whether it succeeded; VirtualProtectEx gives the old protection, VirtualAllocEx an address.
pub record Windows (S : Type 0) : Type 0 where
  pub read_process_memory : S → ℕ → ℕ → Option Bytes
  pub write_process_memory : S → ℕ → Bytes → Bool × S
  pub virtual_protect : S → ℕ → ℕ → ℕ → Option ℕ × S
  pub flush_instruction_cache : S → ℕ → ℕ → Bool × S
  pub virtual_alloc : S → ℕ → Option ℕ × S
  pub virtual_free : S → ℕ → Bool × S

-- `DecodedInstruction`
pub record DecodedInstruction : Type 0 where
  pub instruction_length : ℕ
  pub has_rip_relative_memory : Bool
  pub has_relative_immediate : Bool

-- What `DecodeInstruction64` reads of an operand of Zydis: a memory operand with whether its base is
-- RIP or EIP, an immediate one with whether it is relative, or another.
pub data Operand : Type 0 where
  memory_operand : Bool → Operand
  immediate_operand : Bool → Operand
  other_operand : Operand

-- An instruction of Zydis: its length and its operands.
pub record ZydisInstruction : Type 0 where
  pub zydis_length : ℕ
  pub operands : List Operand

abbrev pub is_rip_relative : Operand → Bool
is_rip_relative (memory_operand rip) = rip
is_rip_relative (immediate_operand relative) = false
is_rip_relative other_operand = false

abbrev pub is_relative : Operand → Bool
is_relative (memory_operand rip) = false
is_relative (immediate_operand relative) = relative
is_relative other_operand = false

-- `DecodeInstruction64`
unfoldable pub decode_instruction_64 :
    (Bytes → Option ZydisInstruction) → Bytes → Option DecodedInstruction
decode_instruction_64 zydis [] = none
decode_instruction_64 zydis (b ∷ code) = do
  instruction ← zydis (b ∷ code)
  some (record {
    instruction_length = instruction.zydis_length;
    has_rip_relative_memory = any is_rip_relative instruction.operands;
    has_relative_immediate = any is_relative instruction.operands;
  })

-- `RemoteTrampoline`
pub record RemoteTrampoline : Type 0 where
  pub trampoline : ℕ
  pub patch_bytes : ℕ

-- `InstalledHook`, without the module bases, which the debug session sets.
pub record InstalledHook : Type 0 where
  pub hook_name : Bytes
  pub original_function : ℕ
  pub trampoline_address : ℕ
  pub trampoline_slot : ℕ
  pub original_bytes : Bytes

abbrev pub patch_size : ℕ
patch_size = 14

abbrev pub trampoline_size : ℕ
trampoline_size = 1024

abbrev pub page_execute_readwrite : ℕ
page_execute_readwrite = 64

abbrev pub page_execute_read : ℕ
page_execute_read = 32

abbrev pub is_some {ℓ} : {A : Type ℓ} → Option A → Bool
is_some none = false
is_some (some a) = true

-- Whether the loop takes an instruction over.
abbrev pub is_movable : DecodedInstruction → Bool
is_movable instruction =
    not (instruction.instruction_length == 0)
    && (not instruction.has_rip_relative_memory && not instruction.has_relative_immediate)

-- The loop of `CalculatePatchSize`, on the bytes from `total` on; `none` is out of fuel, `some 0` is
-- a refusal.
unfoldable pub count_instructions : (Bytes → Option DecodedInstruction) → Bytes → ℕ → ℕ → Option ℕ
count_instructions decode code zero total = none
count_instructions decode code (suc fuel) total =
    if not (ltb total patch_size && not (length code == 0))
    then some total
    else elim (decode code) [
      | none ↦ some 0
      | some instruction ↦
          let next =
            count_instructions decode (drop instruction.instruction_length code) fuel
              (total + instruction.instruction_length) in
          if is_movable instruction then next else some 0
    ]

-- The end of `CalculatePatchSize`.
abbrev pub enough : Option ℕ → ℕ
enough none = 0
enough (some total) = if ltb total patch_size then 0 else total

-- `CalculatePatchSize` of the bytes read, with fuel for the loop.
unfoldable pub patch_size_of : (Bytes → Option DecodedInstruction) → Bytes → ℕ
patch_size_of decode code = enough (count_instructions decode code (suc patch_size) 0)

-- push imm32; mov dword [rsp+4], imm32; ret
abbrev pub jump_code : ℕ → Bytes
jump_code address =
    (0x68 ∷ le_bytes 4 (address % 2 ^ 32))
    ++ (0xC7 ∷ 0x44 ∷ 0x24 ∷ 0x04 ∷ le_bytes 4 (address / 2 ^ 32 % 2 ^ 32))
    ++ (0xC3 ∷ [])

-- The bytes that `PatchFunction` writes.
abbrev pub patch_code : ℕ → ℕ → Bytes
patch_code address size = custom_mem_cpy (replicate size 0x90) (jump_code address) patch_size

module _ {S : Type 0} (windows : Windows S) where
  -- The address of an export of an image, where it has one of its own.
  unfoldable pub exported_address : ImageFormat → S → ℕ → Bytes → Option ℕ
  exported_address image s base name = do
    remote ← get_remote_export (windows.read_process_memory s) image base name
    guard (not (remote.address == 0))
    some remote.address

  -- `PatchFunction`
  unfoldable pub patch_function : S → ℕ → ℕ → ℕ → Bool × S
  patch_function s function address size =
      let opened = windows.virtual_protect s function size page_execute_readwrite in
      elim opened.0 [
        | none ↦ (false, opened.1)
        | some old ↦
            let written =
              windows.write_process_memory opened.1 function (patch_code address size) in
            let closed = windows.virtual_protect written.1 function size old in
            if not written.0
            then (false, closed.1)
            else if not (is_some closed.0)
            then (false, closed.1)
            else windows.flush_instruction_cache closed.1 function size
      ]

  -- `CreateTrampoline`
  unfoldable pub create_trampoline : S → ℕ → ℕ → ℕ → Bool × S
  create_trampoline s function trampoline size =
      elim (windows.read_process_memory s function size) [
        | none ↦ (false, s)
        | some original ↦
            let written =
              windows.write_process_memory s trampoline
                (original ++ jump_code ((function + size) % 2 ^ 64)) in
            let closed =
              windows.virtual_protect written.1 trampoline (size + patch_size) page_execute_read in
            if not written.0
            then (false, written.1)
            else if not (is_some closed.0)
            then (false, closed.1)
            else windows.flush_instruction_cache closed.1 trampoline (size + patch_size)
      ]

  module _ (zydis : Bytes → Option ZydisInstruction) where
    -- `CalculatePatchSize`
    unfoldable pub calculate_patch_size : S → ℕ → ℕ
    calculate_patch_size s function = elim (windows.read_process_memory s function 32) [
      | none ↦ 0
      | some code ↦ patch_size_of (decode_instruction_64 zydis) code
    ]

    -- `CreateBypassTrampoline`
    unfoldable pub create_bypass_trampoline : S → ℕ → Option RemoteTrampoline × S
    create_bypass_trampoline s function =
        let size = calculate_patch_size s function in
        let given = windows.virtual_alloc s trampoline_size in
        if size == 0 then (none, s) else elim given.0 [
          | none ↦ (none, given.1)
          | some trampoline ↦
              let created = create_trampoline given.1 function trampoline size in
              if created.0
              then (some (record { trampoline = trampoline; patch_bytes = size }), created.1)
              else (none, (windows.virtual_free created.1 trampoline).1)
        ]

    -- The end of `HookFunction`, once it has tried to make a trampoline, with the addresses of the
    -- handler and of the trampoline's variable.
    unfoldable pub finish_hook :
        ℕ → ℕ → ℕ → Bytes → Option RemoteTrampoline × S → Option InstalledHook × S
    finish_hook function handler slot name (none, s) = (none, s)
    finish_hook function handler slot name (some t, s) =
        elim (windows.read_process_memory s function t.patch_bytes) [
          | none ↦ (none, (windows.virtual_free s t.trampoline).1)
          | some bytes ↦
              let pointed = windows.write_process_memory s slot (le_bytes 8 t.trampoline) in
              let patched = patch_function pointed.1 function handler t.patch_bytes in
              let cleared = windows.write_process_memory patched.1 slot (le_bytes 8 0) in
              if not pointed.0
              then (none, (windows.virtual_free pointed.1 t.trampoline).1)
              else if not patched.0
              then (none, (windows.virtual_free cleared.1 t.trampoline).1)
              else (
                some (record {
                  hook_name = name;
                  original_function = function;
                  trampoline_address = t.trampoline;
                  trampoline_slot = slot;
                  original_bytes = bytes;
                }),
                patched.1,
              )
        ]

    -- `CreateBypassTrampolineForFunction`
    unfoldable pub create_bypass_trampoline_for_function :
        ImageFormat → S → ℕ → Bytes → Option RemoteTrampoline × S
    create_bypass_trampoline_for_function image s base name =
        elim (exported_address image s base name) [
          | none ↦ (none, s)
          | some function ↦ create_bypass_trampoline s function
        ]

    -- `HookFunction`
    unfoldable pub hook_function :
        ImageFormat → S → ℕ → ℕ → HookDefinition → Option InstalledHook × S
    hook_function image s function base definition =
        if function == 0
        then (none, s)
        else elim (exported_address image s base definition.handler_export) [
          | none ↦ (none, s)
          | some handler ↦ elim (exported_address image s base definition.trampoline_export) [
            | none ↦ (none, s)
            | some slot ↦
                finish_hook function handler slot definition.canonical_name
                  (create_bypass_trampoline s function)
          ]
        ]

  -- `UnhookFunction`
  unfoldable pub unhook_function : S → InstalledHook → Bool × S
  unhook_function s hook =
      let size = length hook.original_bytes in
      let opened = windows.virtual_protect s hook.original_function size page_execute_readwrite in
      if hook.original_function == 0
        || (hook.trampoline_address == 0 || (hook.trampoline_slot == 0 || size == 0))
      then (false, s)
      else elim opened.0 [
        | none ↦ (false, opened.1)
        | some old ↦
            let restored =
              windows.write_process_memory opened.1 hook.original_function hook.original_bytes in
            let closed = windows.virtual_protect restored.1 hook.original_function size old in
            let flushed = windows.flush_instruction_cache closed.1 hook.original_function size in
            let cleared =
              windows.write_process_memory flushed.1 hook.trampoline_slot (le_bytes 8 0) in
            if not restored.0 || (not (is_some closed.0) || not flushed.0)
            then (false, flushed.1)
            else if not cleared.0
            then (false, cleared.1)
            else windows.virtual_free cleared.1 hook.trampoline_address
      ]

  -- `ReleaseUnloadedHook`
  unfoldable pub release_unloaded_hook : S → InstalledHook → Bool × S
  release_unloaded_hook s hook =
      let cleared = windows.write_process_memory s hook.trampoline_slot (le_bytes 8 0) in
      let freed = windows.virtual_free cleared.1 hook.trampoline_address in
      (cleared.0 && freed.0, freed.1)
