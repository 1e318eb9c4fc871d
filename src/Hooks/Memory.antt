-- ===== src/Hooks/Memory.antt =====
-- The bytes of the traced process, and what its calls leave of them.
use apiscope.Prelude.{
  ==_refl, Bytes, [], ap, ap₂, arith, false, if◌then◌else◌, inl, inr, length, none, refl, some, suc,
  true, zero, ℕ, ◌+◌, ◌<◌, ◌==◌, ◌∙◌, ◌∷◌, ◌≡◌, ◌≤◌, ◌⊎◌,
}
use apiscope.Hooks.{Windows, trampoline_size}

-- The bytes from an address on.
abbrev pub bytes_at : (ℕ → ℕ) → ℕ → ℕ → Bytes
bytes_at memory a zero = []
bytes_at memory a (suc n) = memory a ∷ bytes_at memory (a + 1) n

-- The memory after a write.
abbrev pub stored : (ℕ → ℕ) → ℕ → Bytes → ℕ → ℕ
stored memory a [] x = memory x
stored memory a (b ∷ bytes) x = if x == a then b else stored memory (a + 1) bytes x

-- An address outside the `n` bytes from `a` on.
abbrev pub IsOutside : ℕ → ℕ → ℕ → Type 0
IsOutside x a n = (x < a) ⊎ (a + n ≤ x)

-- Two ranges that share no address.
abbrev pub AreApart : ℕ → ℕ → ℕ → ℕ → Type 0
AreApart a n b m = (a + n ≤ b) ⊎ (b + m ≤ a)

pub length-bytes_at : (memory : ℕ → ℕ) (a n : ℕ) → length (bytes_at memory a n) ≡ n
length-bytes_at memory a zero = refl
length-bytes_at memory a (suc n) = ap suc (length-bytes_at memory (a + 1) n)

-- Two memories that agree on a range have the same bytes there.
pub bytes_at-agree :
    (memory other : ℕ → ℕ) (a n : ℕ)
    → ((x : ℕ) → a ≤ x → x < a + n → memory x ≡ other x)
    → bytes_at memory a n ≡ bytes_at other a n
bytes_at-agree memory other a zero same = refl
bytes_at-agree memory other a (suc n) same =
    ap₂ (λ b bs. b ∷ bs) (same a (omega arith) (omega arith))
      (bytes_at-agree memory other (a + 1) n (λ x h k. same x (omega arith) (omega arith)))

pub stored_outside :
    (memory : ℕ → ℕ) (a : ℕ) (bytes : Bytes) (x : ℕ)
    → IsOutside x a (length bytes)
    → stored memory a bytes x ≡ memory x
stored_outside memory a [] x out = refl
stored_outside memory a (b ∷ bytes) x (inl below) =
    let apart : (x == a) ≡ false = ground arith in
    rw (apart) (stored_outside memory (a + 1) bytes x (inl (omega arith)))
stored_outside memory a (b ∷ bytes) x (inr above) =
    let apart : (x == a) ≡ false = ground arith in
    rw (apart) (stored_outside memory (a + 1) bytes x (inr (omega arith)))

pub stored-agree :
    (memory other : ℕ → ℕ) (a : ℕ) (bytes : Bytes) (x : ℕ)
    → memory x ≡ other x
    → stored memory a bytes x ≡ stored other a bytes x
stored-agree memory other a [] x same = same
stored-agree memory other a (b ∷ bytes) x same =
    ap (λ v. if x == a then b else v) (stored-agree memory other (a + 1) bytes x same)

-- An address of one of two ranges that are apart is outside the other.
pub IsOutside-first : (x a n b m : ℕ) → AreApart a n b m → b ≤ x → x < b + m → IsOutside x a n
IsOutside-first x a n b m (inl below) h k = inr (omega arith)
IsOutside-first x a n b m (inr above) h k = inl (omega arith)

pub IsOutside-second : (x a n b m : ℕ) → AreApart a n b m → a ≤ x → x < a + n → IsOutside x b m
IsOutside-second x a n b m (inl below) h k = inl (omega arith)
IsOutside-second x a n b m (inr above) h k = inr (omega arith)

pub IsOutside-less : (x a n m : ℕ) → m ≤ n → IsOutside x a n → IsOutside x a m
IsOutside-less x a n m fits (inl below) = inl below
IsOutside-less x a n m fits (inr above) = inr (omega arith)

-- The bytes of a range after a write to the range.
pub bytes_at-stored :
    (memory : ℕ → ℕ) (a : ℕ) (bytes : Bytes)
    → bytes_at (stored memory a bytes) a (length bytes) ≡ bytes
bytes_at-stored memory a [] = refl
bytes_at-stored memory a (b ∷ bytes) =
    ap₂ (λ c cs. c ∷ cs) (rw (==_refl a) refl)
      (bytes_at-agree (stored memory a (b ∷ bytes)) (stored memory (a + 1) bytes) (a + 1)
          (length bytes) (λ x h k. let apart : (x == a) ≡ false = ground arith in rw (apart) refl)
        ∙ bytes_at-stored memory (a + 1) bytes)

-- What the documentation of Windows says of the calls: `content` is the memory, and `granted` is
-- what VirtualAllocEx gives for the size of a trampoline, which is at least that size. A call that
-- fails changes nothing; a region that VirtualAllocEx gives has no byte that could be read before.
pub record IsDocumented {S : Type 0} (windows : Windows S) (content : S → ℕ → ℕ) (granted : ℕ)
    : Type 0 where
  pub reads :
      (s : S) (a n : ℕ) (bytes : Bytes)
      → windows.read_process_memory s a n ≡ some bytes
      → bytes ≡ bytes_at (content s) a n
  pub writes :
      (s : S) (a : ℕ) (bytes : Bytes)
      → (windows.write_process_memory s a bytes).0 ≡ true
      → (x : ℕ)
      → content (windows.write_process_memory s a bytes).1 x ≡ stored (content s) a bytes x
  pub write_fails :
      (s : S) (a : ℕ) (bytes : Bytes)
      → (windows.write_process_memory s a bytes).0 ≡ false
      → (x : ℕ) → content (windows.write_process_memory s a bytes).1 x ≡ content s x
  pub protects :
      (s : S) (a n protection : ℕ)
      → (x : ℕ) → content (windows.virtual_protect s a n protection).1 x ≡ content s x
  pub flushes :
      (s : S) (a n : ℕ)
      → (x : ℕ) → content (windows.flush_instruction_cache s a n).1 x ≡ content s x
  pub granted_size : trampoline_size ≤ granted
  pub fails_to_allocate :
      (s : S)
      → (windows.virtual_alloc s trampoline_size).0 ≡ none
      → (x : ℕ) → content (windows.virtual_alloc s trampoline_size).1 x ≡ content s x
  pub allocates :
      (s : S) (t : ℕ)
      → (windows.virtual_alloc s trampoline_size).0 ≡ some t
      → (x : ℕ) → IsOutside x t granted
      → content (windows.virtual_alloc s trampoline_size).1 x ≡ content s x
  pub fresh :
      (s : S) (t a n : ℕ) (bytes : Bytes)
      → 0 < n
      → (windows.virtual_alloc s trampoline_size).0 ≡ some t
      → windows.read_process_memory s a n ≡ some bytes
      → AreApart a n t granted
  pub frees :
      (s : S) (t x : ℕ)
      → IsOutside x t granted
      → content (windows.virtual_free s t).1 x ≡ content s x

pub apart_less : (a n m b k : ℕ) → m ≤ n → AreApart a n b k → AreApart a m b k
apart_less a n m b k fits (inl below) = inl (omega arith)
apart_less a n m b k fits (inr above) = inr above
