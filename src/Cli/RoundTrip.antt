-- ===== src/Cli/RoundTrip.antt =====
-- The command line that BuildWindowsCommandLine writes, read by the documented rules.
use apiscope.Prelude.{
  ==_iff, Bool, Bool-cases, List, [], any, ap, append-nil, append_assoc, arith, false, inl, inr,
  length, length-append, refl, suc, sym, true, ℕ, ◌&&◌, ◌++◌, ◌==◌, ◌∙◌, ◌∷◌, ◌≡◌,
}
use apiscope.Cli.{WideText}
use apiscope.Cli.Argv.{
  all_arguments, at, backslashes, between, is_blank, read_arguments, read_char, read_from,
  read_from-append, read_program,
}
use apiscope.Cli.Quote.{
  build_from, build_windows_command_line, needs_quotes, quote_from, quote_windows_argument,
}
use apiscope.Cli.Quoted.{backslashes_shift, not_open, quote_windows_argument-EndsIn}

-- The arguments behind the program's name, as they are written.
abbrev tails : List WideText → WideText
tails [] = []
tails (argument ∷ arguments) = 32 ∷ (quote_windows_argument argument ++ tails arguments)

longer : (xs ys : WideText) (c : ℕ) → (length ((xs ++ c ∷ []) ++ ys) == 0) ≡ false
longer xs ys c = ground (arith, length-append (xs ++ c ∷ []) ys, length-append xs (c ∷ []))

build_from-tails :
    (line : WideText) (arguments : List WideText)
    → (length line == 0) ≡ false
    → build_from line arguments ≡ line ++ tails arguments
unfolding build_from
build_from-tails line [] some_char = sym (append-nil line)
build_from-tails line (argument ∷ arguments) some_char =
    let quoted = quote_windows_argument argument in
    rw (some_char) (
      build_from-tails ((line ++ 32 ∷ []) ++ quoted) arguments (longer line quoted 32)
      ∙ append_assoc (line ++ 32 ∷ []) quoted (tails arguments)
      ∙ append_assoc line (32 ∷ []) (quoted ++ tails arguments))

-- The end of an argument, at the end of the line or before a blank.
argument_ends :
    (f : List WideText) (k : ℕ) (a : WideText) (arguments : List WideText)
    → all_arguments (read_from (at f false k a) (tails arguments))
      ≡ all_arguments (read_from (between (f ++ (a ++ backslashes k) ∷ [])) (tails arguments))
unfolding read_from read_char
argument_ends f k a [] = refl
argument_ends f k a (argument ∷ arguments) = refl

read_from-tails :
    (f arguments : List WideText)
    → all_arguments (read_from (between f) (tails arguments)) ≡ f ++ arguments
unfolding read_from read_char
read_from-tails f [] = sym (append-nil f)
read_from-tails f (argument ∷ arguments) =
    let (k, a, read, same) = quote_windows_argument-EndsIn f argument in
    ap all_arguments (
      read_from-append (between f) (quote_windows_argument argument) (tails arguments)
      ∙ ap (λ r. read_from r (tails arguments)) read)
    ∙ argument_ends f k a arguments
    ∙ ap (λ x. all_arguments (read_from (between (f ++ x ∷ [])) (tails arguments))) same
    ∙ read_from-tails (f ++ argument ∷ []) arguments
    ∙ append_assoc f (argument ∷ []) arguments

-- A program's name: no quotes, and no backslash at its end, as in every path of a file.
abbrev pub is_quote : ℕ → Bool
is_quote c = c == b'"'

abbrev pub ends_in_backslash : WideText → Bool
ends_in_backslash [] = false
ends_in_backslash (c ∷ []) = c == b'\\'
ends_in_backslash (c ∷ (d ∷ cs)) = ends_in_backslash (d ∷ cs)

program_ends :
    (name : WideText) (arguments : List WideText)
    → read_program false name (tails arguments) ≡ (name, tails arguments)
program_ends name [] = refl
program_ends name (argument ∷ arguments) = refl

read_program-quoted :
    (name program later : WideText)
    → any is_quote program ≡ false
    → read_program true name (program ++ (b'"' ∷ later))
      ≡ read_program false (name ++ program) later
read_program-quoted name [] later plain =
    ap (λ x. read_program false x later) (sym (append-nil name))
read_program-quoted name (c ∷ cs) later plain =
    let first : (c == b'"') ≡ false = ground arith in
    let rest_plain : any is_quote cs ≡ false = ground arith in
    rw (first, not_open (is_blank c))
      (read_program-quoted (name ++ c ∷ []) cs later rest_plain
        ∙ ap (λ x. read_program false x later) (append_assoc name (c ∷ []) cs))

read_program-unquoted :
    (name program : WideText) (arguments : List WideText)
    → any needs_quotes program ≡ false
    → read_program false name (program ++ tails arguments) ≡ (name ++ program, tails arguments)
read_program-unquoted name [] arguments plain =
    program_ends name arguments ∙ ap (λ x. (x, tails arguments)) (sym (append-nil name))
read_program-unquoted name (c ∷ cs) arguments plain =
    let first : (c == b'"') ≡ false = ground arith in
    let blank : (is_blank c && true) ≡ false = ground arith in
    let rest_plain : any needs_quotes cs ≡ false = ground arith in
    rw (first, blank)
      (read_program-unquoted (name ++ c ∷ []) cs arguments rest_plain
        ∙ ap (λ x. (x, tails arguments)) (append_assoc name (c ∷ []) cs))

quote_from-plain :
    (c : ℕ) (cs : WideText) (k : ℕ)
    → any is_quote (c ∷ cs) ≡ false
    → ends_in_backslash (c ∷ cs) ≡ false
    → quote_from (c ∷ cs) k ≡ backslashes k ++ ((c ∷ cs) ++ b'"' ∷ [])
unfolding quote_from
quote_from-plain c [] k plain open_end =
    let quote : (c == b'"') ≡ false = ground arith in rw (open_end, quote) refl
quote_from-plain c (d ∷ cs) k plain open_end =
    let quote : (c == b'"') ≡ false = ground arith in
    let rest_plain : any is_quote (d ∷ cs) ≡ false = ground arith in
    elim (Bool-cases (c == b'\\')) [
      | inl slash ↦ rw (slash) (
          quote_from-plain d cs (suc k) rest_plain open_end
          ∙ backslashes_shift k ((d ∷ cs) ++ b'"' ∷ [])
          ∙ ap (λ x. backslashes k ++ (x ∷ ((d ∷ cs) ++ b'"' ∷ [])))
              (sym ((==_iff c b'\\').0 slash)))
      | inr no_slash ↦
          rw (no_slash, quote)
            (ap (λ x. backslashes k ++ (c ∷ x)) (quote_from-plain d cs 0 rest_plain open_end))
    ]

quote_from-program :
    (program : WideText)
    → any is_quote program ≡ false
    → ends_in_backslash program ≡ false
    → quote_from program 0 ≡ program ++ b'"' ∷ []
unfolding quote_from
quote_from-program [] plain open_end = refl
quote_from-program (c ∷ cs) plain open_end = quote_from-plain c cs 0 plain open_end

quoted_program :
    (program : WideText) (arguments : List WideText)
    → any is_quote program ≡ false
    → ends_in_backslash program ≡ false
    → read_program false [] (b'"' ∷ (quote_from program 0 ++ tails arguments))
      ≡ (program, tails arguments)
quoted_program program arguments plain open_end =
    ap (λ x. read_program true [] (x ++ tails arguments))
      (quote_from-program program plain open_end)
    ∙ ap (read_program true []) (append_assoc program (b'"' ∷ []) (tails arguments))
    ∙ read_program-quoted [] program (tails arguments) plain
    ∙ program_ends program arguments

quote_windows_argument-program :
    (program : WideText) (arguments : List WideText)
    → any is_quote program ≡ false
    → ends_in_backslash program ≡ false
    → read_program false [] (quote_windows_argument program ++ tails arguments)
      ≡ (program, tails arguments)
unfolding quote_windows_argument
quote_windows_argument-program program arguments plain open_end =
    elim (Bool-cases (length program == 0)) [
      | inl nothing ↦ rw (nothing) (quoted_program program arguments plain open_end)
      | inr some_char ↦ elim (Bool-cases (any needs_quotes program)) [
        | inl needs ↦ rw (some_char, needs) (quoted_program program arguments plain open_end)
        | inr bare ↦ rw (some_char, bare) (read_program-unquoted [] program arguments bare)
      ]
    ]

quote_windows_argument-nonempty :
    (argument : WideText) → (length (quote_windows_argument argument) == 0) ≡ false
unfolding quote_windows_argument
quote_windows_argument-nonempty [] = ground arith
quote_windows_argument-nonempty (c ∷ cs) = elim (Bool-cases (any needs_quotes (c ∷ cs))) [
  | inl needs ↦ rw (needs) (ground arith)
  | inr plain ↦ rw (plain) (ground arith)
]

-- The documented rules find in the line that BuildWindowsCommandLine writes the program's name and the
-- arguments that it was given, whatever characters the arguments have, if the name has no quote and
-- does not end in a backslash.
pub read_arguments-build_windows_command_line :
    (program : WideText) (arguments : List WideText)
    → any is_quote program ≡ false
    → ends_in_backslash program ≡ false
    → read_arguments (build_windows_command_line (program ∷ arguments)) ≡ program ∷ arguments
unfolding read_arguments build_windows_command_line build_from
read_arguments-build_windows_command_line program arguments plain open_end =
    ap read_arguments (
      build_from-tails (quote_windows_argument program) arguments
        (quote_windows_argument-nonempty program))
    ∙ ap (λ r. all_arguments (read_from (between (r.0 ∷ [])) r.1))
        (quote_windows_argument-program program arguments plain open_end)
    ∙ read_from-tails (program ∷ []) arguments
