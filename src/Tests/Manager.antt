-- ===== src/Tests/Manager.antt =====
-- Hooks in a small process: its image has a handler `h` and a variable `t`, and every byte of its
-- functions is an instruction.
use apiscope.Prelude.{
  Bool, Bool-cases, Bytes, Option, [], ap, arith, codes, drop, false, get_or, if◌then◌else◌, inl,
  inr, le_bytes, le_value, leb, length, ltb, none, refl, replicate, some, subst, suc, sym, true, ℕ,
  ◌%◌, ◌++◌, ◌+◌, ◌-◌, ◌<◌, ◌^◌, ◌∙◌, ◌∷◌, ◌≡◌, ◌≢◌, ◌≤◌,
}
use apiscope.Hooks.{
  InstalledHook, Windows, ZydisInstruction, calculate_patch_size, count_instructions,
  create_bypass_trampoline, create_trampoline, decode_instruction_64, exported_address, finish_hook,
  hook_function, jump_code, patch_function, patch_size, patch_size_of, unhook_function,
}
use apiscope.Hooks.Install.{IsInstalled}
use apiscope.Hooks.Jump.{runs_to}
use apiscope.Hooks.Manager.{
  IsLeft, hook_function-IsInstalled, hook_function-IsRefused, unhook_function-hook_function,
}
use apiscope.Hooks.Memory.{AreApart, IsDocumented, IsOutside, bytes_at, stored}
use apiscope.Hooks.Size.{IsBounded, IsWhole, patch_size_of-IsWhole, patch_size_of-ends}
use apiscope.Memory.{custom_mem_cpy, custom_str_cmp}
use apiscope.Process.{
  Exports, ImageFormat, export_at, find_export, get_remote_export, is_named, read_directory,
  read_exports, read_headers, string_of, up_to_zero,
}
use apiscope.Process.Lookup.{get_remote_export-first}
use apiscope.Registry.{HookDefinition}

-- An image in a format of one-byte fields: headers, the export directory, its tables and names.
abbrev image_bytes : Bytes
image_bytes =
    (77 ∷ 4 ∷ 0 ∷ 0 ∷ 80 ∷ 16 ∷ 5 ∷ [])
    ++ replicate 9 0
    ++ (2 ∷ 2 ∷ 32 ∷ 48 ∷ 64 ∷ [])
    ++ replicate 11 0
    ++ (0 ∷ 1 ∷ 0 ∷ 0 ∷ 0 ∷ 2 ∷ 0 ∷ 0 ∷ [])
    ++ replicate 8 0
    ++ (80 ∷ 0 ∷ 0 ∷ 0 ∷ 96 ∷ 0 ∷ 0 ∷ 0 ∷ [])
    ++ replicate 8 0
    ++ (0 ∷ 0 ∷ 1 ∷ 0 ∷ [])
    ++ replicate 12 0
    ++ (104 ∷ [])
    ++ replicate 15 0
    ++ (116 ∷ [])

abbrev pub format : ImageFormat
format = record {
  dos_header_size = 2;
  nt_headers_size = 3;
  export_directory_size = 5;
  dos_signature = 77;
  nt_signature = 80;
  e_magic = λ b. get_or b 0 0;
  e_lfanew = λ b. get_or b 1 0;
  signature = λ b. get_or b 0 0;
  size_of_image = λ b. 4096;
  export_address = λ b. get_or b 1 0;
  export_size = λ b. get_or b 2 0;
  number_of_functions = λ b. get_or b 0 0;
  number_of_names = λ b. get_or b 1 0;
  address_of_functions = λ b. get_or b 2 0;
  address_of_names = λ b. get_or b 3 0;
  address_of_name_ordinals = λ b. get_or b 4 0;
  name_address = λ b. 0;
}

-- A process whose memory below 65536 can be read, and the outcome of FlushInstructionCache.
abbrev pub flushing : (ℕ → Bool) → Windows (ℕ → ℕ)
flushing flushes = record {
  read_process_memory = λ m a n. if leb (a + n) 65536 then some (bytes_at m a n) else none;
  write_process_memory = λ m a bytes. (true, stored m a bytes);
  virtual_protect = λ m a n protection. (some 32, m);
  flush_instruction_cache = λ m a n. (flushes a, m);
  virtual_alloc = λ m n. (some 65536, m);
  virtual_free = λ m t. (true, m);
}

abbrev pub calls : Bool → Windows (ℕ → ℕ)
calls flushes = flushing (λ a. flushes)

calls-IsDocumented : (flushes : Bool) → IsDocumented (calls flushes) (λ m. m) 4096
calls-IsDocumented flushes = record {
  reads = λ s a n bytes h. readable_bytes s a n bytes (leb (a + n) 65536) h;
  writes = λ s a bytes h x. refl;
  write_fails = λ s a bytes h. absurd (cc);
  protects = λ s a n protection x. refl;
  flushes = λ s a n x. refl;
  granted_size = omega arith;
  fails_to_allocate = λ s h. absurd (cc);
  allocates = λ s t h x out. refl;
  fresh = λ s t a n bytes positive h k. below_region a n t bytes s h k;
  frees = λ s t x out. refl;
}
  where
    readable_bytes :
        (s : ℕ → ℕ) (a n : ℕ) (bytes : Bytes) (b : Bool)
        → (if b then some (bytes_at s a n) else none) ≡ some bytes
        → bytes ≡ bytes_at s a n
    readable_bytes s a n bytes true h = cc
    readable_bytes s a n bytes false h = absurd (cc)

    below_region :
        (a n t : ℕ) (bytes : Bytes) (s : ℕ → ℕ)
        → some 65536 ≡ some t
        → (if leb (a + n) 65536 then some (bytes_at s a n) else none) ≡ some bytes
        → AreApart a n t 4096
    below_region a n t bytes s h k = elim (Bool-cases (leb (a + n) 65536)) [
      | inl inside ↦ let same : 65536 ≡ t = cc in inl (ground arith)
      | inr outside ↦
          let no : ◌≡◌ {A = Option Bytes} none (some bytes) =
            subst (λ b. (if b then some (bytes_at s a n) else none) ≡ some bytes) outside k in
          absurd (cc)
    ]

abbrev pub one_byte : Bytes → Option ZydisInstruction
one_byte code = some (record { zydis_length = 1; operands = [] })

one_byte-IsBounded : IsBounded (decode_instruction_64 one_byte)
unfolding decode_instruction_64
one_byte-IsBounded [] i h = absurd (cc)
one_byte-IsBounded (b ∷ code) i h =
    let one : 1 ≡ i.instruction_length =
      ap (λ o. elim o [ none ↦ 0 | some d ↦ d.instruction_length ]) h in
    omega arith

abbrev pub memory : ℕ → ℕ
memory x = get_or image_bytes (x - 16384) 0

abbrev definition : HookDefinition
definition = record {
  module_name = codes "m";
  export_name = codes "f";
  handler_export = codes "h";
  trampoline_export = codes "t";
  canonical_name = codes "m!f";
}

exported_handler :
    (flushes : Bool) → exported_address (calls flushes) format memory 16384 (codes "h") ≡ some 16640
unfolding exported_address get_remote_export read_exports read_headers read_directory find_export
    is_named export_at string_of up_to_zero custom_str_cmp le_value
exported_handler flushes = refl

exported_slot :
    (flushes : Bool) → exported_address (calls flushes) format memory 16384 (codes "t") ≡ some 16896
unfolding exported_address get_remote_export read_exports read_headers read_directory find_export
    is_named export_at string_of up_to_zero custom_str_cmp le_value
exported_slot flushes = refl

some_size : patch_size_of (decode_instruction_64 one_byte) image_bytes ≢ 0
unfolding patch_size_of count_instructions decode_instruction_64
some_size h = absurd (omega (arith, h))

patch_size_of-IsWhole_example :
    (patch_size ≤ patch_size_of (decode_instruction_64 one_byte) image_bytes)
    × (patch_size_of (decode_instruction_64 one_byte) image_bytes ≤ length image_bytes)
    × IsWhole
        (decode_instruction_64 one_byte)
        image_bytes
        (patch_size_of (decode_instruction_64 one_byte) image_bytes)
patch_size_of-IsWhole_example =
    patch_size_of-IsWhole (decode_instruction_64 one_byte) image_bytes one_byte-IsBounded some_size

patch_size_of-ends_example :
    (k : ℕ) × (count_instructions (decode_instruction_64 one_byte) image_bytes (suc patch_size) 0
      ≡ some k)
patch_size_of-ends_example = patch_size_of-ends (decode_instruction_64 one_byte) image_bytes

abbrev hook : InstalledHook
hook = record {
  hook_name = codes "m!f";
  original_function = 4096;
  trampoline_address = 65536;
  trampoline_slot = 16896;
  original_bytes = replicate 14 77;
}

abbrev attempt : Bool → Option InstalledHook × (ℕ → ℕ)
attempt flushes = hook_function (calls flushes) one_byte format memory 4096 16384 definition

attempt_succeeds : attempt true ≡ (some hook, (attempt true).1)
unfolding hook_function exported_address get_remote_export read_exports read_headers read_directory
    find_export is_named export_at string_of up_to_zero custom_str_cmp le_value finish_hook
    create_bypass_trampoline calculate_patch_size patch_size_of count_instructions
    decode_instruction_64 create_trampoline patch_function le_bytes
attempt_succeeds = refl

-- Without a flush of the instruction cache the trampoline is given up.
attempt_fails : attempt false ≡ (none, (attempt false).1)
unfolding hook_function exported_address get_remote_export read_exports read_headers read_directory
    find_export is_named export_at string_of up_to_zero custom_str_cmp le_value finish_hook
    create_bypass_trampoline calculate_patch_size patch_size_of count_instructions
    decode_instruction_64 create_trampoline patch_function le_bytes
attempt_fails = refl

-- Without a flush at the function alone, the function keeps its patch while the trampoline is freed
-- and the variable emptied.
abbrev stuck : Option InstalledHook × (ℕ → ℕ)
stuck = hook_function (flushing (λ a. ltb 60000 a)) one_byte format memory 4096 16384 definition

stuck_fails :
    (stuck.0 ≡ none)
    × (bytes_at stuck.1 4096 14 ≡ jump_code 16640)
    × (bytes_at stuck.1 16896 8 ≡ replicate 8 0)
unfolding hook_function exported_address get_remote_export read_exports read_headers read_directory
    find_export is_named export_at string_of up_to_zero custom_str_cmp le_value finish_hook
    create_bypass_trampoline calculate_patch_size patch_size_of count_instructions
    decode_instruction_64 create_trampoline patch_function le_bytes custom_mem_cpy
stuck_fails = (refl, refl, refl)

slot_readable :
    (flushes : Bool)
    → (old : Bytes) × ((calls flushes).read_process_memory memory 16896 8 ≡ some old)
slot_readable flushes = (bytes_at memory 16896 8, refl)

hook_function-IsInstalled_example :
    (ok : IsInstalled
      (calls true)
      (λ m. m)
      4096
      (calls-IsDocumented true)
      one_byte
      one_byte-IsBounded
      memory
      (attempt true).1
      4096
      16640
      16896
      hook)
    × (runs_to (bytes_at (attempt true).1 4096 ok.size) ≡ some 16640)
    × (runs_to (drop ok.size (bytes_at (attempt true).1 65536 (ok.size + patch_size)))
        ≡ some ((4096 + ok.size) % 2 ^ 64))
hook_function-IsInstalled_example =
    hook_function-IsInstalled (calls true) (λ m. m) 4096 (calls-IsDocumented true) one_byte
      one_byte-IsBounded format memory 4096 16384 definition 16640 16896 (exported_handler true)
      (exported_slot true) (inl (omega arith)) (slot_readable true) hook (attempt true).1
      (omega arith) attempt_succeeds

slot_away :
    (slot : ℕ)
    → exported_address (calls false) format memory 16384 (codes "t") ≡ some slot
    → AreApart 4096 32 slot 8
      × ((old : Bytes) × ((calls false).read_process_memory memory slot 8 ≡ some old))
slot_away slot h =
    let same : 16896 ≡ slot =
      ap (λ o. elim o [ none ↦ 0 | some v ↦ v ]) (sym (exported_slot false) ∙ h) in
    subst
      (λ v.
        AreApart 4096 32 v 8
        × ((old : Bytes) × ((calls false).read_process_memory memory v 8 ≡ some old)))
      same (inl (omega arith), slot_readable false)

hook_function-IsRefused_example :
    IsLeft
      (calls false)
      (λ m. m)
      4096
      (calls-IsDocumented false)
      one_byte
      one_byte-IsBounded
      format
      memory
      4096
      16384
      definition
      (attempt false).1
hook_function-IsRefused_example =
    hook_function-IsRefused (calls false) (λ m. m) 4096 (calls-IsDocumented false) one_byte
      one_byte-IsBounded format memory 4096 16384 definition (attempt false).1 slot_away
      attempt_fails

abbrev removal : Bool × (ℕ → ℕ)
removal = unhook_function (calls true) (attempt true).1 hook

removal_succeeds : removal ≡ (true, removal.1)
unfolding unhook_function
removal_succeeds = refl

unhook_function-hook_function_example :
    (bytes_at removal.1 4096 14 ≡ bytes_at memory 4096 14)
    × (bytes_at removal.1 16896 8 ≡ le_bytes 8 0)
    × ((x : ℕ)
        → IsOutside x 4096 14
        → IsOutside x 16896 8
        → IsOutside x 65536 4096
        → removal.1 x ≡ (attempt true).1 x)
unhook_function-hook_function_example =
    unhook_function-hook_function (calls true) (λ m. m) 4096 (calls-IsDocumented true) one_byte
      one_byte-IsBounded format memory 4096 16384 definition 16640 16896 (exported_handler true)
      (exported_slot true) (inl (omega arith)) (slot_readable true) hook (attempt true).1
      (attempt true).1 removal.1 attempt_succeeds removal_succeeds

abbrev tables : Exports
tables = record {
  functions = 0 ∷ 1 ∷ 0 ∷ 0 ∷ 0 ∷ 2 ∷ 0 ∷ 0 ∷ [];
  function_count = 2;
  names = 80 ∷ 0 ∷ 0 ∷ 0 ∷ 96 ∷ 0 ∷ 0 ∷ 0 ∷ [];
  name_count = 2;
  ordinals = 0 ∷ 0 ∷ 1 ∷ 0 ∷ [];
  directory = 16;
  directory_size = 5;
}

tables_readable : read_exports ((calls true).read_process_memory memory) format 16384 ≡ some tables
unfolding read_exports read_headers read_directory
tables_readable = refl

-- The name `h` stands before the name `t`.
first_differs :
    (m : ℕ)
    → m < 1
    → is_named ((calls true).read_process_memory memory) format 16384 tables (codes "t") m ≡ false
unfolding is_named string_of up_to_zero custom_str_cmp le_value
first_differs m h =
    let first : 0 ≡ m = omega arith in
    subst
      (λ k.
        is_named ((calls true).read_process_memory memory) format 16384 tables (codes "t") k
        ≡ false)
      first refl

second_named :
    is_named ((calls true).read_process_memory memory) format 16384 tables (codes "t") 1 ≡ true
unfolding is_named string_of up_to_zero custom_str_cmp le_value
second_named = refl

get_remote_export-first_example :
    get_remote_export ((calls true).read_process_memory memory) format 16384 (codes "t")
    ≡ export_at ((calls true).read_process_memory memory) format 16384 tables 1
get_remote_export-first_example =
    get_remote_export-first ((calls true).read_process_memory memory) format 16384 tables
      (codes "t") 1 tables_readable (omega arith) second_named first_differs
