-- ===== src/Stats.antt =====
-- src/apiscope/trace_stats.cpp: the counts of events and the lines that show them. The number of
-- events for each hook is an association list, in the order in which the hooks first came, and a
-- duration is given in whole seconds, as FormatDuration rounds it.
use Prim.Native.String.{String}
pub mod Counts
use apiscope.Prelude.{
  Bool, Bytes, List, [], bytes_eq, codes, if◌then◌else◌, length, ltb, none, not, some, suc, take,
  zero, ℕ, ◌%◌, ◌&&◌, ◌++◌, ◌+◌, ◌/◌, ◌==◌, ◌^◌, ◌∷◌,
}
use apiscope.Cli.{split_bang}
use apiscope.Registry.{bytes_lt}

-- `TraceStats`
pub record TraceStats : Type 0 where
  pub events : ℕ
  pub dropped : ℕ
  pub per_hook : List (Bytes × ℕ)

-- `++perHook[hook]`
unfoldable pub count_hook : List (Bytes × ℕ) → Bytes → List (Bytes × ℕ)
count_hook [] hook = (hook, 1) ∷ []
count_hook ((name, count) ∷ hooks) hook =
    let later = count_hook hooks hook in
    if bytes_eq name hook then (name, (count + 1) % 2 ^ 64) ∷ hooks else (name, count) ∷ later

-- `TraceStats::Record`
unfoldable pub record_event : TraceStats → Bytes → TraceStats
record_event s hook = record s {
  events = (s.events + 1) % 2 ^ 64;
  per_hook = count_hook s.per_hook hook;
}

-- The decimal digits of a number, the last first; `fuel` of them, which 20 are for 64 bits.
unfoldable pub last_digits : ℕ → ℕ → Bytes
last_digits zero value = []
last_digits (suc fuel) value =
    let earlier = last_digits fuel (value / 10) in
    (b'0' + value % 10) ∷ (if ltb value 10 then [] else earlier)

abbrev pub reversed : Bytes → Bytes
reversed [] = []
reversed (c ∷ cs) = reversed cs ++ c ∷ []

-- `std::to_string` of a 64-bit number
abbrev pub to_string : ℕ → Bytes
to_string value = reversed (last_digits 20 value)

-- The loop of `GroupThousands` over the digits, the last first.
unfoldable pub group_from : ℕ → Bytes → Bytes
group_from count [] = []
group_from count (digit ∷ digits) =
    let more = digit ∷ group_from (count + 1) digits in
    if not (count == 0) && count % 3 == 0 then b',' ∷ more else more

-- `GroupThousands`
unfoldable pub group_thousands : ℕ → Bytes
group_thousands value = reversed (group_from 0 (last_digits 20 value))

-- `%02llu`
abbrev pub two_digits : ℕ → Bytes
two_digits value = if ltb value 10 then b'0' ∷ to_string value else to_string value

-- `FormatDuration`, of the seconds that it has rounded
unfoldable pub format_duration : ℕ → Bytes
format_duration duration =
    let hours = duration / 3600 in
    let minutes = duration % 3600 / 60 in
    let seconds = duration % 60 in
    if not (hours == 0)
    then to_string hours ++ (b':' ∷ (two_digits minutes ++ (b':' ∷ two_digits seconds)))
    else to_string minutes ++ (b':' ∷ two_digits seconds)

-- The comparison of `SortedHooks`
abbrev pub is_before : Bytes × ℕ → Bytes × ℕ → Bool
is_before (a, n) (b, m) = if n == m then bytes_lt a b else ltb m n

-- `SortedHooks`
unfoldable pub insert_count : Bytes × ℕ → List (Bytes × ℕ) → List (Bytes × ℕ)
insert_count h [] = h ∷ []
insert_count h (g ∷ hooks) = if is_before h g then h ∷ (g ∷ hooks) else g ∷ insert_count h hooks

unfoldable pub sorted_hooks : List (Bytes × ℕ) → List (Bytes × ℕ)
sorted_hooks [] = []
sorted_hooks (h ∷ hooks) = insert_count h (sorted_hooks hooks)

-- What stands behind the first `!`, or all.
unfoldable pub short_name : Bytes → Bytes
short_name name = elim (split_bang name) [ none ↦ name | some (before, behind) ↦ behind ]

-- The loop of `FormatStatusLine` over the first hooks.
unfoldable pub hook_items : List (Bytes × ℕ) → Bytes
hook_items [] = []
hook_items ((name, count) ∷ hooks) =
    codes "  " ++ (short_name name ++ (b' ' ∷ (to_string count ++ hook_items hooks)))

-- The line before it is cut.
unfoldable pub status_text : TraceStats → ℕ → ℕ → Bytes
status_text s rate duration =
    (b' ' ∷ group_thousands s.events)
    ++ (codes " events"
        ++ (codes "  "
            ++ (to_string s.dropped
                ++ (codes " drops"
                    ++ (codes "  "
                        ++ (to_string rate
                            ++ (codes "/s"
                                ++ (codes "  "
                                    ++ (format_duration duration
                                        ++ hook_items (take 4 (sorted_hooks s.per_hook)))))))))))

-- `FormatStatusLine`, of the rate and the duration that it has rounded
unfoldable pub format_status_line : TraceStats → ℕ → ℕ → ℕ → Bytes
format_status_line s rate duration max_width =
    let line = status_text s rate duration in
    if not (max_width == 0) && ltb max_width (length line) then take max_width line else line

-- The lines of `FormatSummary` for the hooks
unfoldable pub summary_items : List (Bytes × ℕ) → Bytes
summary_items [] = []
summary_items ((name, count) ∷ hooks) =
    codes "      " ++ (name ++ (codes " : " ++ (to_string count ++ (10 ∷ summary_items hooks))))

-- `FormatSummary`, of the duration that it has rounded
unfoldable pub format_summary : TraceStats → ℕ → Bytes
format_summary s duration =
    let hooks = sorted_hooks s.per_hook in
    codes "[=] Session summary"
    ++ (10
        ∷ (codes "    events   : "
            ++ (to_string s.events
                ++ (10
                    ∷ (codes "    dropped  : "
                        ++ (to_string s.dropped
                            ++ (10
                                ∷ (codes "    duration : "
                                    ++ (format_duration duration
                                        ++ (10
                                            ∷ (if length hooks == 0
                                                then []
                                                else codes "    per hook :"
                                                  ++ (10 ∷ summary_items hooks))))))))))))
