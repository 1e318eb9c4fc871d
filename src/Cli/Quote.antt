-- ===== src/Cli/Quote.antt =====
-- BuildWindowsCommandLine of src/apiscope/cli_options.cpp: the quoting of arguments.
use apiscope.Prelude.{
  Bool, List, [], any, if◌then◌else◌, length, not, replicate, suc, ℕ, ◌&&◌, ◌*◌, ◌++◌, ◌+◌, ◌==◌,
  ◌||◌, ◌∷◌,
}
use apiscope.Cli.{WideText}

-- The characters of `find_first_of(L" \t\n\v\"")`
abbrev pub needs_quotes : ℕ → Bool
needs_quotes c = c == 32 || c == 9 || c == 10 || c == 11 || c == b'"'

-- The loop of `QuoteWindowsArgument`, with `backslashes` read and not yet written.
unfoldable pub quote_from : WideText → ℕ → WideText
quote_from [] backslashes = replicate (backslashes * 2) b'\\' ++ b'"' ∷ []
quote_from (c ∷ cs) backslashes =
    let more = quote_from cs (suc backslashes) in
    let none_left = quote_from cs 0 in
    if c == b'\\'
    then more
    else if c == b'"'
    then replicate (backslashes * 2 + 1) b'\\' ++ (b'"' ∷ none_left)
    else replicate backslashes b'\\' ++ (c ∷ none_left)

-- `QuoteWindowsArgument`
unfoldable pub quote_windows_argument : WideText → WideText
quote_windows_argument argument =
    if not (length argument == 0) && not (any needs_quotes argument)
    then argument
    else b'"' ∷ quote_from argument 0

-- The loop of `BuildWindowsCommandLine`
unfoldable pub build_from : WideText → List WideText → WideText
build_from line [] = line
build_from line (argument ∷ arguments) =
    build_from
      ((if length line == 0 then line else line ++ 32 ∷ []) ++ quote_windows_argument argument)
      arguments

-- `BuildWindowsCommandLine`
unfoldable pub build_windows_command_line : List WideText → WideText
build_windows_command_line arguments = build_from [] arguments
