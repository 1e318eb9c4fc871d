-- ===== src/Stats/Counts.antt =====
-- The counts of events, and their digits.
use apiscope.Prelude.{
  Bool, Bool-cases, Bytes, List, [], all, ap, append-nil, arith, bytes_eq, bytes_eq_sound, dec_lt,
  false, if◌then◌else◌, inl, inr, length, length-take, ltb, lt→ltb, not, not-ltb, refl, subst, suc,
  sym, take, true, zero, ℕ, ◌%◌, ◌&&◌, ◌*◌, ◌++◌, ◌+◌, ◌-◌, ◌/◌, ◌<◌, ◌==◌, ◌^◌, ◌∙◌, ◌∷◌, ◌≡◌, ◌≢◌,
  ◌≤◌,
}
use apiscope.Registry.Sort.{bytes_eq_symm}
use apiscope.Stats.{
  TraceStats, count_hook, format_status_line, group_from, group_thousands, last_digits,
  record_event, reversed, status_text, to_string,
}
use apiscope.Transport.{is_digit}

-- The events of all hooks, modulo 2 ^ 64.
abbrev pub total_count : List (Bytes × ℕ) → ℕ
total_count [] = 0
total_count ((name, count) ∷ hooks) = count + total_count hooks

-- The events of one hook.
unfoldable pub find_count : List (Bytes × ℕ) → Bytes → ℕ
find_count [] hook = 0
find_count ((name, count) ∷ hooks) hook =
    if bytes_eq name hook then count else find_count hooks hook

total_count-count_hook :
    (hooks : List (Bytes × ℕ)) (hook : Bytes)
    → total_count (count_hook hooks hook) % 2 ^ 64 ≡ (total_count hooks + 1) % 2 ^ 64
unfolding count_hook
total_count-count_hook [] hook = omega arith
total_count-count_hook ((name, count) ∷ hooks) hook = elim (Bool-cases (bytes_eq name hook)) [
  | inl eq ↦ rw (eq) (omega arith)
  | inr eq ↦ rw (eq) (omega (arith, total_count-count_hook hooks hook))
]

-- `Record` keeps the number of events the total of the hooks' counts, modulo 2 ^ 64.
pub record_event-total_count :
    (s : TraceStats) (hook : Bytes)
    → s.events ≡ total_count s.per_hook % 2 ^ 64
    → (record_event s hook).events ≡ total_count (record_event s hook).per_hook % 2 ^ 64
unfolding record_event
record_event-total_count s hook h = omega (arith, total_count-count_hook s.per_hook hook)

counted_twice :
    (b : Bool) (c z : ℕ)
    → (if b then (c + 1) % 2 ^ 64 else z)
      ≡ (if b then ((if b then c else z) + 1) % 2 ^ 64 else (if b then c else z))
counted_twice true c z = refl
counted_twice false c z = refl

find_count-count_hook :
    (hooks : List (Bytes × ℕ)) (hook name : Bytes)
    → find_count (count_hook hooks hook) name
      ≡ (if bytes_eq hook name then (find_count hooks name + 1) % 2 ^ 64 else find_count hooks name)
unfolding count_hook find_count
find_count-count_hook [] hook name = ground arith
find_count-count_hook ((first, count) ∷ hooks) hook name = elim (Bool-cases (bytes_eq first hook)) [
  | inl eq ↦
      let same = bytes_eq_sound first hook eq in
      rw (eq, same) (counted_twice (bytes_eq hook name) count (find_count hooks name))
  | inr eq ↦ elim (Bool-cases (bytes_eq first name)) [
    | inl named ↦ rw (eq, named, other hook name first eq named) refl
    | inr unnamed ↦ rw (eq, unnamed) (find_count-count_hook hooks hook name)
  ]
]
  where
    other :
        (hook name first : Bytes)
        → bytes_eq first hook ≡ false
        → bytes_eq first name ≡ true
        → bytes_eq hook name ≡ false
    other hook name first apart named =
        rw (sym (bytes_eq_sound first name named), bytes_eq_symm hook first) apart

-- `Record` counts one event more for its hook, modulo 2 ^ 64, and none for another.
pub find_count-record_event :
    (s : TraceStats) (hook name : Bytes)
    → find_count (record_event s hook).per_hook name ≡ (
        if bytes_eq hook name
        then (find_count s.per_hook name + 1) % 2 ^ 64
        else find_count s.per_hook name)
unfolding record_event
find_count-record_event s hook name = find_count-count_hook s.per_hook hook name

abbrev pub without_commas : Bytes → Bytes
without_commas [] = []
without_commas (c ∷ cs) = if c == b',' then without_commas cs else c ∷ without_commas cs

without_commas-append :
    (xs ys : Bytes) → without_commas (xs ++ ys) ≡ without_commas xs ++ without_commas ys
without_commas-append [] ys = refl
without_commas-append (x ∷ xs) ys = ground (arith, without_commas-append xs ys)

without_commas-reversed : (xs : Bytes) → without_commas (reversed xs) ≡ reversed (without_commas xs)
without_commas-reversed [] = refl
without_commas-reversed (x ∷ xs) =
    without_commas-append (reversed xs) (x ∷ []) ∙ elim (Bool-cases (x == b',')) [
      | inl eq ↦ rw (eq) (append-nil (without_commas (reversed xs)) ∙ without_commas-reversed xs)
      | inr eq ↦ rw (eq) (ap (λ ys. ys ++ x ∷ []) (without_commas-reversed xs))
    ]

without_commas-group_from :
    (count : ℕ) (digits : Bytes)
    → all is_digit digits ≡ true
    → without_commas (group_from count digits) ≡ digits
unfolding group_from
without_commas-group_from count [] h = refl
without_commas-group_from count (d ∷ digits) h =
    ground (arith, without_commas-group_from (count + 1) digits)

last_digits-is_digit : (fuel value : ℕ) → all is_digit (last_digits fuel value) ≡ true
unfolding last_digits
last_digits-is_digit zero value = refl
last_digits-is_digit (suc fuel) value = ground (arith, last_digits-is_digit fuel (value / 10))

group_thousands-to_string : (value : ℕ) → without_commas (group_thousands value) ≡ to_string value
unfolding group_thousands
group_thousands-to_string value =
    without_commas-reversed (group_from 0 (last_digits 20 value))
    ∙ ap reversed
        (without_commas-group_from 0 (last_digits 20 value) (last_digits-is_digit 20 value))

cut_width :
    (line : Bytes) (max_width : ℕ)
    → 1 ≤ max_width
    → length
        (if not (max_width == 0) && ltb max_width (length line) then take max_width line else line)
      ≤ max_width
cut_width line max_width h = ground (arith, length-take {A = ℕ} max_width line)

-- `FormatStatusLine` keeps to a width that is not 0.
length-format_status_line :
    (s : TraceStats) (rate duration max_width : ℕ)
    → 1 ≤ max_width
    → length (format_status_line s rate duration max_width) ≤ max_width
unfolding format_status_line
length-format_status_line s rate duration max_width h =
    cut_width (status_text s rate duration) max_width h

-- The number that digits stand for, the last of them first.
abbrev pub digits_value : Bytes → ℕ
digits_value [] = 0
digits_value (c ∷ cs) = (c - b'0') + 10 * digits_value cs

abbrev ten_power : ℕ → ℕ
ten_power zero = 1
ten_power (suc n) = 10 * ten_power n

last_digits-value :
    (fuel value : ℕ) → value < ten_power fuel → digits_value (last_digits fuel value) ≡ value
unfolding last_digits
last_digits-value zero value h = omega arith
last_digits-value (suc fuel) value h = elim (dec_lt value 10) [
  | yes small ↦ rw (lt→ltb value 10 small) (omega arith)
  | no large ↦
      rw (not-ltb value 10 (omega arith))
        (omega (arith, last_digits-value fuel (value / 10) (omega arith)))
]

reversed-snoc : (xs : Bytes) (c : ℕ) → reversed (xs ++ c ∷ []) ≡ c ∷ reversed xs
reversed-snoc [] c = refl
reversed-snoc (x ∷ xs) c = ap (λ ys. ys ++ x ∷ []) (reversed-snoc xs c)

reversed_twice : (xs : Bytes) → reversed (reversed xs) ≡ xs
reversed_twice [] = refl
reversed_twice (x ∷ xs) = reversed-snoc (reversed xs) x ∙ ap (◌∷◌ x) (reversed_twice xs)

-- From the last byte on: a comma wherever a byte stands at 3, 7, 11 and so on, a digit elsewhere,
-- and no comma, or nothing, at the front.
abbrev pub is_grouped : ℕ → Bytes → Bool
is_grouped position [] = not (position % 4 == 0)
is_grouped position (c ∷ cs) =
    (if position % 4 == 3 then c == b',' else is_digit c) && is_grouped (position + 1) cs

-- `n` digits and `n / 3` commas behind the first digit.
group_from-is_grouped :
    (n : ℕ) (digits : Bytes)
    → all is_digit digits ≡ true
    → is_grouped (suc n + n / 3) (group_from (suc n) digits) ≡ true
unfolding group_from
group_from-is_grouped n [] h = ground arith
group_from-is_grouped n (d ∷ digits) h =
    let digit : is_digit d ≡ true = ground arith in
    let count : suc (suc n) ≡ suc n + 1 = omega arith in
    let later : follows n digits (suc (suc n) + suc n / 3) =
      subst (λ c. is_grouped (suc (suc n) + suc n / 3) (group_from c digits) ≡ true) count
        (group_from-is_grouped (suc n) digits (ground arith)) in
    let some_digit : (suc n == 0) ≡ false = ground arith in
    elim (Bool-cases (suc n % 3 == 0)) [
      | inl third ↦
          let here : (suc n + n / 3) % 4 == 3 ≡ true = ground arith in
          let next : (suc n + n / 3 + 1) % 4 == 3 ≡ false = ground arith in
          let same : suc (suc n) + suc n / 3 ≡ suc n + n / 3 + 1 + 1 = ground arith in
          rw (some_digit, third, here, next, digit) (subst (follows n digits) same later)
      | inr between ↦
          let here : (suc n + n / 3) % 4 == 3 ≡ false = ground arith in
          let same : suc (suc n) + suc n / 3 ≡ suc n + n / 3 + 1 = ground arith in
          rw (some_digit, between, here, digit) (subst (follows n digits) same later)
    ]
  where
    follows : (n : ℕ) (digits : Bytes) → ℕ → Type 0
    follows n digits position = is_grouped position (group_from (suc n + 1) digits) ≡ true

first_group :
    (digits : Bytes)
    → all is_digit digits ≡ true
    → length digits ≢ 0
    → is_grouped 0 (group_from 0 digits) ≡ true
unfolding group_from
first_group [] h some_digit = absurd (some_digit refl)
first_group (d ∷ digits) h some_digit =
    let digit : is_digit d ≡ true = ground arith in
    rw (digit) (group_from-is_grouped 0 digits (ground arith))

last_digits-nonempty : (fuel value : ℕ) → length (last_digits (suc fuel) value) ≢ 0
unfolding last_digits
last_digits-nonempty fuel value = λ h. absurd (omega arith)

-- `GroupThousands` of a 64-bit number writes digits that stand for it, with a comma before each three
-- of them from the last on, and none in front of the first digit or elsewhere.
pub digits_value-group_thousands :
    (value : ℕ)
    → value < 2 ^ 64
    → (digits_value (reversed (without_commas (group_thousands value))) ≡ value)
      × (is_grouped 0 (reversed (group_thousands value)) ≡ true)
unfolding group_thousands
digits_value-group_thousands value small = (
  rw (group_thousands-to_string value, reversed_twice (last_digits 20 value))
      (last_digits-value 20 value (omega arith)),
  ap (is_grouped 0) (reversed_twice (group_from 0 (last_digits 20 value)))
      ∙ first_group (last_digits 20 value) (last_digits-is_digit 20 value)
          (last_digits-nonempty 19 value),
)
