-- ===== src/Cli/Argv.antt =====
-- How a program finds its arguments in a command line: the rules that the documentation of
-- CommandLineToArgvW and of the C runtime gives for the arguments, as a specification. Spaces and
-- tabs outside of quotes part arguments, a quote starts and ends a quoted part, and backslashes are
-- themselves, but before a quote two stand for one, and an odd one makes the quote literal. The
-- first argument, the program's name, is read by simpler rules: a quote starts and ends a quoted
-- part, and a backslash is always itself.
use apiscope.Prelude.{
  Bool, List, Option, [], ap, arith, false, if◌then◌else◌, none, not, refl, replicate, some, suc,
  zero, ℕ, ◌%◌, ◌&&◌, ◌*◌, ◌++◌, ◌+◌, ◌/◌, ◌==◌, ◌||◌, ◌∷◌, ◌≡◌,
}
use apiscope.Cli.{WideText}
use apiscope.Renderer.Jsonl.{quoted}

-- What has been read: the arguments before, whether a quoted part is open, the backslashes that
-- are not yet decided, and the argument that has begun.
pub record Reading : Type 0 where
  pub finished : List WideText
  pub quoted : Bool
  pub pending : ℕ
  pub current : Option WideText

abbrev pub content : Option WideText → WideText
content none = []
content (some a) = a

abbrev pub backslashes : ℕ → WideText
backslashes n = replicate n b'\\'

-- The arguments with the one that has begun.
abbrev pub all_arguments : Reading → List WideText
all_arguments r = elim (r.current) [
  | none ↦ r.finished
  | some a ↦ r.finished ++ (a ++ backslashes r.pending) ∷ []
]

abbrev pub is_blank : ℕ → Bool
is_blank c = c == 32 || c == 9

-- A quote behind the pending backslashes.
abbrev pub read_quote : Reading → Reading
read_quote r =
    let half = content r.current ++ backslashes (r.pending / 2) in
    if r.pending % 2 == 0
    then record r { quoted = not r.quoted; pending = 0; current = some half }
    else record r { pending = 0; current = some (half ++ b'"' ∷ []) }

unfoldable pub read_char : Reading → ℕ → Reading
read_char r c =
    if c == b'\\'
    then record r { pending = suc r.pending; current = some (content r.current) }
    else if c == b'"'
    then read_quote r
    else if is_blank c && not r.quoted
    then record { finished = all_arguments r; quoted = false; pending = 0; current = none }
    else record r {
      pending = 0;
      current = some ((content r.current ++ backslashes r.pending) ++ c ∷ []);
    }

unfoldable pub read_from : Reading → WideText → Reading
read_from r [] = r
read_from r (c ∷ cs) = read_from (read_char r c) cs

-- The program's name behind what has been read of it, and the rest of the line.
abbrev pub read_program : Bool → WideText → WideText → WideText × WideText
read_program quoted name [] = (name, [])
read_program quoted name (c ∷ cs) =
    let toggled = read_program (not quoted) name cs in
    let longer = read_program quoted (name ++ c ∷ []) cs in
    if c == b'"' then toggled else if is_blank c && not quoted then (name, c ∷ cs) else longer

-- The start of an argument, behind others.
abbrev pub between : List WideText → Reading
between f = record { finished = f; quoted = false; pending = 0; current = none }

-- The arguments of a command line.
unfoldable pub read_arguments : WideText → List WideText
read_arguments line =
    let (program, later) = read_program false [] line in
    all_arguments (read_from (between (program ∷ [])) later)

pub read_from-append :
    (r : Reading) (xs ys : WideText) → read_from r (xs ++ ys) ≡ read_from (read_from r xs) ys
unfolding read_from
read_from-append r [] ys = refl
read_from-append r (x ∷ xs) ys = read_from-append (read_char r x) xs ys

abbrev pub at : List WideText → Bool → ℕ → WideText → Reading
at finished quoted pending current = record {
  finished = finished;
  quoted = quoted;
  pending = pending;
  current = some current;
}

read_from-backslashes :
    (f : List WideText) (q : Bool) (k n m : ℕ) (a : WideText)
    → m ≡ k + n
    → read_from (at f q k a) (backslashes n) ≡ at f q m a
unfolding read_from read_char
read_from-backslashes f q k zero m a h = let same : k ≡ m = omega arith in ap (λ i. at f q i a) same
read_from-backslashes f q k (suc n) m a h = read_from-backslashes f q (suc k) n m a (omega arith)

-- An even number of backslashes before a quote, an odd one, and some before another character.
pub read_from-even :
    (f : List WideText) (q : Bool) (k : ℕ) (a later : WideText)
    → read_from (at f q 0 a) (backslashes (k * 2) ++ (b'"' ∷ later))
      ≡ read_from (at f (not q) 0 (a ++ backslashes k)) later
unfolding read_from read_char
read_from-even f q k a later =
    let even : k * 2 % 2 ≡ 0 = omega arith in
    let half : k * 2 / 2 ≡ k = omega arith in
    rw
      (
        read_from-append (at f q 0 a) (backslashes (k * 2)) (b'"' ∷ later),
        read_from-backslashes f q 0 (k * 2) (k * 2) a (omega arith),
        even,
        half,
      )
      refl

pub read_from-odd :
    (f : List WideText) (q : Bool) (k : ℕ) (a later : WideText)
    → read_from (at f q 0 a) (backslashes (k * 2 + 1) ++ (b'"' ∷ later))
      ≡ read_from (at f q 0 ((a ++ backslashes k) ++ b'"' ∷ [])) later
unfolding read_from read_char
read_from-odd f q k a later =
    let odd : (k * 2 + 1) % 2 ≡ 1 = omega arith in
    let half : (k * 2 + 1) / 2 ≡ k = omega arith in
    rw
      (
        read_from-append (at f q 0 a) (backslashes (k * 2 + 1)) (b'"' ∷ later),
        read_from-backslashes f q 0 (k * 2 + 1) (k * 2 + 1) a (omega arith),
        odd,
        half,
      )
      refl

pub read_from-plain :
    (f : List WideText) (q : Bool) (k c : ℕ) (a later : WideText)
    → (c == b'\\') ≡ false
    → (c == b'"') ≡ false
    → (is_blank c && not q) ≡ false
    → read_from (at f q 0 a) (backslashes k ++ (c ∷ later))
      ≡ read_from (at f q 0 ((a ++ backslashes k) ++ c ∷ [])) later
unfolding read_from read_char
read_from-plain f q k c a later h1 h2 h3 =
    rw
      (
        read_from-append (at f q 0 a) (backslashes k) (c ∷ later),
        read_from-backslashes f q 0 k k a (omega arith),
        h1,
        h2,
        h3,
      )
      refl
