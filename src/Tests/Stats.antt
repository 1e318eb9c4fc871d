-- ===== src/Tests/Stats.antt =====
-- Counts of two hooks.
use apiscope.Prelude.{[], arith, codes, refl, true, ◌%◌, ◌^◌, ◌∷◌, ◌≡◌}
use apiscope.Cli.{split_bang}
use apiscope.Registry.{bytes_lt}
use apiscope.Stats.{
  TraceStats, format_duration, format_status_line, group_from, group_thousands, hook_items,
  insert_count, last_digits, record_event, reversed, short_name, sorted_hooks, status_text,
}
use apiscope.Stats.Counts.{
  digits_value, digits_value-group_thousands, is_grouped, record_event-total_count, total_count,
  without_commas,
}

abbrev stats : TraceStats
stats = record {
  events = 1234566;
  dropped = 3;
  per_hook = (codes "NtClose", 1234560) ∷ (codes "NtOpenKey", 6) ∷ [];
}

group_test : group_thousands 1234567 ≡ codes "1,234,567"
unfolding group_thousands group_from last_digits
group_test = refl

duration_test : format_duration 3725 ≡ codes "1:02:05"
unfolding format_duration last_digits
duration_test = refl

sorted_test :
    sorted_hooks ((codes "b", 2) ∷ (codes "a", 2) ∷ (codes "c", 5) ∷ [])
    ≡ (codes "c", 5) ∷ (codes "a", 2) ∷ (codes "b", 2) ∷ []
unfolding sorted_hooks insert_count bytes_lt
sorted_test = refl

record_event-total_count_example :
    (record_event stats (codes "NtClose")).events
    ≡ total_count (record_event stats (codes "NtClose")).per_hook % 2 ^ 64
record_event-total_count_example = record_event-total_count stats (codes "NtClose") refl

digits_value-group_thousands_example :
    (digits_value (reversed (without_commas (group_thousands 1234567))) ≡ 1234567)
    × (is_grouped 0 (reversed (group_thousands 1234567)) ≡ true)
digits_value-group_thousands_example = digits_value-group_thousands 1234567 (omega arith)

status_test :
    format_status_line stats 12 61 0
    ≡ codes " 1,234,566 events  3 drops  12/s  1:01  NtClose 1234560  NtOpenKey 6"
unfolding format_status_line status_text group_thousands group_from last_digits format_duration
    hook_items short_name split_bang sorted_hooks insert_count bytes_lt
status_test = refl
