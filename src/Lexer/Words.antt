-- ===== src/Lexer/Words.antt =====
-- htaccess_lex_line reads back the words of a line.
use ngx_htaccess.Common.{
  ℕ, zero, suc, ◌<◌, ◌≡◌, refl, ◌∙◌, false, List, [], ◌∷◌, ◌++◌, map, arith, ◌==◌, Bytes, length,
  length-append, All, ok,
}
use mathlib.Core.List.{append-nil, append_assoc}
use ngx_htaccess.Lexer.{
  to_newline, skip_newlines, skip_space, token, prepend, scan_quoted, scan_bare, ends_token,
  lex_token, at_end, lex_loop, lex_line,
}

-- A word as an author writes it: bare, or between quotes.
pub data Word : Type 0 where
  bare quoted : Bytes → Word

abbrev pub text : Word → Bytes
text (bare w) = w
text (quoted w) = w

abbrev pub print_word : Word → Bytes
print_word (bare w) = w
print_word (quoted w) = b'"' ∷ (w ++ (b'"' ∷ []))

-- The words of a line, each with a blank behind it, and the end of the line.
abbrev pub print_line : List Word → Bytes → Bytes
print_line [] rest = b'\n' ∷ rest
print_line (w ∷ ws) rest = print_word w ++ (b' ' ∷ print_line ws rest)

-- A byte that may stand in a bare word.
abbrev pub IsBare : ℕ → Type 0
IsBare c = (ends_token c ≡ false) × ((c == b'\\') ≡ false)

-- A byte that may stand between quotes.
abbrev pub IsInner : ℕ → Type 0
IsInner c = ((c == b'"') ≡ false) × ((c == b'\\') ≡ false)

-- A byte that may begin a bare word.
abbrev pub IsFirst : ℕ → Type 0
IsFirst c = ((c == b'"') ≡ false) × ((c == b'<') ≡ false)

-- A bare word has a first byte, and needs no quotes; a quoted one has no quote and no backslash.
abbrev pub IsWord : Word → Type 0
IsWord (bare []) = ⊥
IsWord (bare (c ∷ w)) = IsFirst c × All IsBare (c ∷ w)
IsWord (quoted w) = All IsInner w

scan_bare-plain :
    (c : ℕ) (p : Bytes) → IsBare c → scan_bare (c ∷ p) ≡ prepend (c ∷ []) (scan_bare p)
unfolding scan_bare
scan_bare-plain c [] h = rw h.0
scan_bare-plain c (d ∷ p) h = rw (h.0, h.1)

scan_bare_word : (w p : Bytes) → All IsBare w → scan_bare (w ++ (b' ' ∷ p)) ≡ token w (b' ' ∷ p)
scan_bare_word [] [] h = unfold scan_bare in refl
scan_bare_word [] (d ∷ p) h = unfold scan_bare in refl
scan_bare_word (c ∷ w) p h = scan_bare-plain c (w ++ (b' ' ∷ p)) h.0 ∙ rw (scan_bare_word w p h.1)

scan_quoted-plain :
    (c : ℕ) (p : Bytes)
    → IsInner c
    → scan_quoted b'"' (c ∷ p) ≡ prepend (c ∷ []) (scan_quoted b'"' p)
unfolding scan_quoted
scan_quoted-plain c [] h = rw h.0
scan_quoted-plain c (d ∷ p) h = rw (h.0, h.1)

scan_quoted_word : (w p : Bytes) → All IsInner w → scan_quoted b'"' (w ++ (b'"' ∷ p)) ≡ token w p
scan_quoted_word [] [] h = unfold scan_quoted in refl
scan_quoted_word [] (d ∷ p) h = unfold scan_quoted in refl
scan_quoted_word (c ∷ w) p h =
    scan_quoted-plain c (w ++ (b'"' ∷ p)) h.0 ∙ rw (scan_quoted_word w p h.1)

-- A printed word is one token, and no blank stands in front of it.
lex_token_word :
    (w : Word) (p : Bytes)
    → IsWord w
    → (lex_token (print_word w ++ (b' ' ∷ p)) ≡ token (text w) (b' ' ∷ p))
      × (skip_space (print_word w ++ (b' ' ∷ p)) ≡ print_word w ++ (b' ' ∷ p))
      × (at_end (print_word w ++ (b' ' ∷ p)) ≡ false)
unfolding lex_token
lex_token_word (bare []) p h = absurd h
lex_token_word (bare (c ∷ w)) p (f, h) =
    (ground (arith, scan_bare_word (c ∷ w) p h), ground arith, ground arith)
lex_token_word (quoted w) p h = (rw append_assoc (scan_quoted_word w (b' ' ∷ p) h), refl, refl)

length-print_line : (ws : List Word) (rest : Bytes) → length ws < length (print_line ws rest)
length-print_line [] rest = omega arith
length-print_line (w ∷ ws) rest =
    omega
      (arith, length-append (print_word w) (b' ' ∷ print_line ws rest), length-print_line ws rest)

-- One round of the loop over a printed word; the blank behind it is skipped by the next round.
lex_loop_word :
    (fuel : ℕ) (tokens : List Bytes) (w : Word) (p : Bytes)
    → IsWord w
    → lex_loop (suc (suc fuel)) tokens (print_word w ++ (b' ' ∷ p))
      ≡ lex_loop (suc fuel) (tokens ++ (text w ∷ [])) p
lex_loop_word fuel tokens w p h =
    let (lexed, skipped, more) = lex_token_word w p h in
    first (print_word w ++ (b' ' ∷ p)) lexed skipped more ∙ blank (tokens ++ (text w ∷ []))
  where
    first :
        (s : Bytes)
        → lex_token s ≡ token (text w) (b' ' ∷ p)
        → skip_space s ≡ s
        → at_end s ≡ false
        → lex_loop (suc (suc fuel)) tokens s
          ≡ lex_loop (suc fuel) (tokens ++ (text w ∷ [])) (b' ' ∷ p)
    first s a b c = unfold lex_loop in rw (b, c, a)

    blank : (ts : List Bytes) → lex_loop (suc fuel) ts (b' ' ∷ p) ≡ lex_loop (suc fuel) ts p
    blank ts = unfold lex_loop skip_space in refl

lex_loop_end :
    (fuel : ℕ) (tokens : List Bytes) (rest : Bytes)
    → lex_loop (suc fuel) tokens (b'\n' ∷ rest)
      ≡ ok (record { tokens = tokens; rest = skip_newlines rest })
unfolding lex_loop to_newline skip_newlines
lex_loop_end fuel tokens [] = refl
lex_loop_end fuel tokens (c ∷ rest) = refl

lex_loop_line :
    (ws : List Word) (fuel : ℕ) (tokens : List Bytes) (rest : Bytes)
    → length ws < fuel
    → All IsWord ws
    → lex_loop fuel tokens (print_line ws rest)
      ≡ ok (record { tokens = tokens ++ map text ws; rest = skip_newlines rest })
lex_loop_line ws zero tokens rest l h = absurd (omega arith)
lex_loop_line [] (suc fuel) tokens rest l h = rw append-nil (lex_loop_end fuel tokens rest)
lex_loop_line (w ∷ ws) (suc zero) tokens rest l h = absurd (omega arith)
lex_loop_line (w ∷ ws) (suc (suc fuel)) tokens rest l h =
    lex_loop_word fuel tokens w (print_line ws rest) h.0
    ∙ lex_loop_line ws (suc fuel) (tokens ++ (text w ∷ [])) rest (omega arith) h.1
    ∙ rw append_assoc

-- `htaccess_lex_line` reads back the words of a line, bare and quoted, in order, and stops at the
-- first byte of the next line that is not empty.
pub lex_line-print_line :
    (ws : List Word) (rest : Bytes)
    → All IsWord ws
    → lex_line (print_line ws rest)
      ≡ ok (record { tokens = map text ws; rest = skip_newlines rest })
unfolding lex_line
lex_line-print_line ws rest h =
    lex_loop_line ws (suc (length (print_line ws rest))) [] rest
      (omega (arith, length-print_line ws rest)) h
