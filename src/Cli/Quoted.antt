-- ===== src/Cli/Quoted.antt =====
-- An argument that QuoteWindowsArgument writes, read by the documented rules.
use apiscope.Prelude.{
  ==_iff, Bool, Bool-cases, List, [], any, ap, append-nil, append_assoc, arith, false, inl, inr,
  length, refl, suc, sym, true, zero, ℕ, ◌&&◌, ◌++◌, ◌==◌, ◌∙◌, ◌∷◌, ◌≡◌,
}
use apiscope.Cli.{WideText}
use apiscope.Cli.Argv.{
  Reading, at, backslashes, between, is_blank, read_char, read_from, read_from-even, read_from-odd,
  read_from-plain,
}
use apiscope.Cli.Quote.{needs_quotes, quote_from, quote_windows_argument}

pub backslashes_shift :
    (k : ℕ) (cs : WideText) → backslashes (suc k) ++ cs ≡ backslashes k ++ (b'\\' ∷ cs)
backslashes_shift zero cs = refl
backslashes_shift (suc k) cs = ap (◌∷◌ b'\\') (backslashes_shift k cs)

behind_one :
    (a b : WideText) (c : ℕ) (cs : WideText) → ((a ++ b) ++ c ∷ []) ++ cs ≡ a ++ (b ++ (c ∷ cs))
behind_one a b c cs = append_assoc (a ++ b) (c ∷ []) cs ∙ append_assoc a b (c ∷ cs)

pub not_open : (b : Bool) → (b && false) ≡ false
not_open true = refl
not_open false = refl

-- A quoted argument, behind the backslashes that are read and not yet written.
read_from-quote_from :
    (f : List WideText) (argument : WideText) (k : ℕ) (a : WideText)
    → read_from (at f true 0 a) (quote_from argument k)
      ≡ at f false 0 (a ++ (backslashes k ++ argument))
unfolding quote_from read_from
read_from-quote_from f [] k a =
    read_from-even f true k a []
    ∙ ap (λ b. at f false 0 (a ++ b)) (sym (append-nil (backslashes k)))
read_from-quote_from f (c ∷ cs) k a = elim (Bool-cases (c == b'\\')) [
  | inl slash ↦ rw (slash) (
      read_from-quote_from f cs (suc k) a
      ∙ ap (λ b. at f false 0 (a ++ b))
          (backslashes_shift k cs
            ∙ ap (λ d. backslashes k ++ (d ∷ cs)) (sym ((==_iff c b'\\').0 slash))))
  | inr plain ↦ elim (Bool-cases (c == b'"')) [
    | inl quote ↦
        rw (plain, quote)
          (read_from-odd f true k a (quote_from cs 0)
            ∙ read_from-quote_from f cs 0 ((a ++ backslashes k) ++ b'"' ∷ [])
            ∙ ap (at f false 0) (
                behind_one a (backslashes k) b'"' cs
                ∙ ap (λ d. a ++ (backslashes k ++ (d ∷ cs))) (sym ((==_iff c b'"').0 quote))))
    | inr other ↦
        rw (plain, other)
          (read_from-plain f true k c a (quote_from cs 0) plain other (not_open (is_blank c))
            ∙ read_from-quote_from f cs 0 ((a ++ backslashes k) ++ c ∷ [])
            ∙ ap (at f false 0) (behind_one a (backslashes k) c cs))
  ]
]

-- What has been read ends in an argument, to which a rest of it may be added.
abbrev pub EndsIn : Reading → List WideText → WideText → Type 0
EndsIn r f argument =
    (k : ℕ) × (a : WideText) × (r ≡ at f false k a) × (a ++ backslashes k ≡ argument)

-- An argument that needs no quotes.
read_from-unquoted :
    (f : List WideText) (argument : WideText) (k : ℕ) (a : WideText)
    → any needs_quotes argument ≡ false
    → EndsIn (read_from (at f false k a) argument) f ((a ++ backslashes k) ++ argument)
unfolding read_from read_char
read_from-unquoted f [] k a plain = (k, a, refl, sym (append-nil (a ++ backslashes k)))
read_from-unquoted f (c ∷ cs) k a plain = elim (Bool-cases (c == b'\\')) [
  | inl slash ↦
      let (k', a', read, same) = read_from-unquoted f cs (suc k) a (plain_tail c cs plain) in
      (k', a', rw (slash) read, same ∙ shifted slash)
  | inr no_slash ↦
      let (k', a', read, same) =
        read_from-unquoted f cs 0 ((a ++ backslashes k) ++ c ∷ []) (plain_tail c cs plain) in
      (
        k',
        a',
        rw (no_slash, plain_quote c cs plain, plain_blank c cs plain) read,
        same
            ∙ ap (λ x. x ++ cs) (append-nil ((a ++ backslashes k) ++ c ∷ []))
            ∙ append_assoc (a ++ backslashes k) (c ∷ []) cs,
      )
]
  where
    plain_tail :
        (c : ℕ) (cs : WideText) → any needs_quotes (c ∷ cs) ≡ false → any needs_quotes cs ≡ false
    plain_tail c cs h = ground arith

    plain_quote : (c : ℕ) (cs : WideText) → any needs_quotes (c ∷ cs) ≡ false → (c == b'"') ≡ false
    plain_quote c cs h = ground arith

    plain_blank :
        (c : ℕ) (cs : WideText) → any needs_quotes (c ∷ cs) ≡ false → (is_blank c && true) ≡ false
    plain_blank c cs h = ground arith

    shifted :
        (c == b'\\') ≡ true → (a ++ backslashes (suc k)) ++ cs ≡ (a ++ backslashes k) ++ (c ∷ cs)
    shifted slash =
        append_assoc a (backslashes (suc k)) cs
        ∙ ap (λ b. a ++ b)
            (backslashes_shift k cs
              ∙ ap (λ d. backslashes k ++ (d ∷ cs)) (sym ((==_iff c b'\\').0 slash)))
        ∙ sym (append_assoc a (backslashes k) (c ∷ cs))

begun :
    (f : List WideText) (c : ℕ)
    → is_blank c ≡ false
    → read_char (between f) c ≡ read_char (at f false 0 []) c
unfolding read_char
begun f c h = rw (h) refl

first_plain : (c : ℕ) (cs : WideText) → any needs_quotes (c ∷ cs) ≡ false → is_blank c ≡ false
first_plain c cs h = ground arith

unquoted-EndsIn :
    (f : List WideText) (argument : WideText)
    → (length argument == 0) ≡ false
    → any needs_quotes argument ≡ false
    → EndsIn (read_from (between f) argument) f argument
unfolding read_from
unquoted-EndsIn f [] some_char plain = absurd (cc)
unquoted-EndsIn f (c ∷ cs) some_char plain =
    let (k, a, read, same) = read_from-unquoted f (c ∷ cs) 0 [] plain in
    (k, a, ap (λ r. read_from r cs) (begun f c (first_plain c cs plain)) ∙ read, same)

quoted-EndsIn :
    (f : List WideText) (argument : WideText)
    → EndsIn (read_from (between f) (b'"' ∷ quote_from argument 0)) f argument
unfolding read_from read_char
quoted-EndsIn f argument = (0, argument, read_from-quote_from f argument 0 [], append-nil argument)

pub quote_windows_argument-EndsIn :
    (f : List WideText) (argument : WideText)
    → EndsIn (read_from (between f) (quote_windows_argument argument)) f argument
unfolding quote_windows_argument
quote_windows_argument-EndsIn f argument = elim (Bool-cases (length argument == 0)) [
  | inl nothing ↦ rw (nothing) (quoted-EndsIn f argument)
  | inr some_char ↦ elim (Bool-cases (any needs_quotes argument)) [
    | inl needs ↦ rw (some_char, needs) (quoted-EndsIn f argument)
    | inr plain ↦ rw (some_char, plain) (unquoted-EndsIn f argument some_char plain)
  ]
]
