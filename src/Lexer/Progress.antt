-- ===== src/Lexer/Progress.antt =====
-- htaccess_lex_line ends, and moves forward.
use ngx_htaccess.Common.{
  ℕ, zero, suc, ◌+◌, ◌-◌, ◌≤◌, ◌<◌, ◌≡◌, refl, ◌⊎◌, inl, inr, Bool, true, false, if◌then◌else◌,
  List, [], ◌∷◌, ◌++◌, arith, ◌==◌, Bytes, length, length-append, Outcome, ok, error, fault,
  out_of_fuel,
}
use ngx_htaccess.Lexer.{
  prepend, ok_unless_empty, lex_next, to_newline, skip_newlines, skip_line, skip_space, Lexed,
  token, done, refused, scan_quoted, read_quoted, scan_angle, scan_bare, ends_token, lex_start,
  lex_token, Line, at_end, lex_loop, lex_line,
}

length-to_newline : (p : Bytes) → length (to_newline p) ≤ length p
unfolding to_newline
length-to_newline [] = omega arith
length-to_newline (c ∷ p) = ground (arith, length-to_newline p)

length-skip_newlines : (p : Bytes) → length (skip_newlines p) ≤ length p
unfolding skip_newlines
length-skip_newlines [] = omega arith
length-skip_newlines (c ∷ p) = ground (arith, length-skip_newlines p)

-- At least one byte goes, unless none is left.
pub length-skip_line : (p : Bytes) → length (skip_line p) ≤ length p - 1
unfolding skip_line to_newline skip_newlines
length-skip_line [] = omega arith
length-skip_line (c ∷ p) =
    ground (arith, length-to_newline p, length-skip_newlines (to_newline p), length-skip_newlines p)

length-skip_space : (p : Bytes) → length (skip_space p) ≤ length p
unfolding skip_space
length-skip_space [] = omega arith
length-skip_space (c ∷ p) = ground (arith, length-skip_space p)

-- A token leaves fewer bytes than it found.
abbrev Shorter : Bytes → Lexed → Type 0
Shorter p (token t next) = length next < length p
Shorter p _ = Unit

-- A token and what it leaves are no longer than what it found.
abbrev Fits : Bytes → Lexed → Type 0
Fits p (token t next) = length t + length next ≤ length p
Fits p _ = Unit

Shorter-prepend :
    (cs p q : Bytes) (r : Lexed) → length q ≤ length p → Shorter q r → Shorter p (prepend cs r)
Shorter-prepend cs p q (token t next) h k = omega arith
Shorter-prepend cs p q (done next) h k = tt
Shorter-prepend cs p q refused h k = tt

Fits-prepend :
    (cs p q : Bytes) (r : Lexed)
    → length cs + length q ≤ length p
    → Fits q r
    → Fits p (prepend cs r)
Fits-prepend cs p q (token t next) h k = omega (arith, length-append cs t)
Fits-prepend cs p q (done next) h k = tt
Fits-prepend cs p q refused h k = tt

Shorter-if :
    (p : Bytes) (b : Bool) (r s : Lexed)
    → Shorter p r
    → Shorter p s
    → Shorter p (if b then r else s)
Shorter-if p true r s h k = h
Shorter-if p false r s h k = k

Fits-if : (p : Bytes) (b : Bool) (r s : Lexed) → Fits p r → Fits p s → Fits p (if b then r else s)
Fits-if p true r s h k = h
Fits-if p false r s h k = k

scan_quoted-Shorter : (quote : ℕ) (p : Bytes) → Shorter p (scan_quoted quote p)
unfolding scan_quoted
scan_quoted-Shorter quote [] = tt
scan_quoted-Shorter quote (c ∷ []) = Shorter-if (c ∷ []) (c == quote) _ _ (omega arith) tt
scan_quoted-Shorter quote (c ∷ d ∷ p) = Shorter-if (c ∷ d ∷ p) (c == quote) _ _ (omega arith) (
    Shorter-if (c ∷ d ∷ p) (c == b'\\') _ _
      (Shorter-prepend (c ∷ d ∷ []) (c ∷ d ∷ p) p (scan_quoted quote p) (omega arith)
        (scan_quoted-Shorter quote p))
      (Shorter-prepend (c ∷ []) (c ∷ d ∷ p) (d ∷ p) (scan_quoted quote (d ∷ p)) (omega arith)
        (scan_quoted-Shorter quote (d ∷ p))))

scan_angle-Shorter : (p : Bytes) → Shorter p (scan_angle p)
unfolding scan_angle
scan_angle-Shorter [] = tt
scan_angle-Shorter (c ∷ p) =
    Shorter-if (c ∷ p) (c == b'>') _ _ (omega arith)
      (Shorter-prepend (c ∷ []) (c ∷ p) p (scan_angle p) (omega arith) (scan_angle-Shorter p))

scan_bare-Fits : (p : Bytes) → Fits p (scan_bare p)
unfolding scan_bare
scan_bare-Fits [] = omega arith
scan_bare-Fits (c ∷ []) = Fits-if (c ∷ []) (ends_token c) _ _ (omega arith) (omega arith)
scan_bare-Fits (c ∷ d ∷ p) = Fits-if (c ∷ d ∷ p) (ends_token c) _ _ (omega arith) (
    Fits-if (c ∷ d ∷ p) (c == b'\\') _ _
      (Fits-prepend (c ∷ d ∷ []) (c ∷ d ∷ p) p (scan_bare p) (omega arith) (scan_bare-Fits p))
      (Fits-prepend (c ∷ []) (c ∷ d ∷ p) (d ∷ p) (scan_bare (d ∷ p)) (omega arith)
        (scan_bare-Fits (d ∷ p))))

ok_unless_empty-Shorter : (p : Bytes) (r : Lexed) → Fits p r → Shorter p (ok_unless_empty r)
ok_unless_empty-Shorter p (token [] next) h = tt
ok_unless_empty-Shorter p (token (c ∷ t) next) h = omega arith
ok_unless_empty-Shorter p (done next) h = tt
ok_unless_empty-Shorter p refused h = tt

lex_start-Shorter : (p : Bytes) → Shorter p (lex_start p)
unfolding lex_start read_quoted
lex_start-Shorter [] = tt
lex_start-Shorter (c ∷ p) = Shorter-if (c ∷ p) (c == b'#') _ _ tt (
    Shorter-if (c ∷ p) (c == b'"') _ _
      (Shorter-if (c ∷ p) true (scan_quoted c p) refused
        (Shorter-weaken (scan_quoted c p) (scan_quoted-Shorter c p)) tt)
      (Shorter-if (c ∷ p) (c == b'<') _ _ (scan_angle-Shorter (c ∷ p))
        (ok_unless_empty-Shorter (c ∷ p) (scan_bare (c ∷ p)) (scan_bare-Fits (c ∷ p)))))
  where
    Shorter-weaken : (r : Lexed) → Shorter p r → Shorter (c ∷ p) r
    Shorter-weaken (token t next) h = omega arith
    Shorter-weaken (done next) h = tt
    Shorter-weaken refused h = tt

pub lex_token-Shorter : (p : Bytes) → Shorter p (lex_token p)
unfolding lex_token
lex_token-Shorter p = weaken (lex_start (skip_space p)) (lex_start-Shorter (skip_space p))
  where
    weaken : (r : Lexed) → Shorter (skip_space p) r → Shorter p r
    weaken (token t next) h = omega (arith, length-skip_space p)
    weaken (done next) h = tt
    weaken refused h = tt

-- The loop ends by itself, and leaves fewer bytes unless there were none.
abbrev Ends : Bytes → Outcome Line → Type 0
Ends p (ok l) = length l.rest ≤ length p - 1
Ends p error = Unit
Ends p _ = ⊥

Ends-weaken : (p q : Bytes) (m : Outcome Line) → length q ≤ length p → Ends q m → Ends p m
Ends-weaken p q (ok l) h e = omega arith
Ends-weaken p q error h e = tt
Ends-weaken p q fault h e = e
Ends-weaken p q out_of_fuel h e = e

Ends-if :
    (p : Bytes) (b : Bool) (m n : Outcome Line) → Ends p m → Ends p n → Ends p (if b then m else n)
Ends-if p true m n h k = h
Ends-if p false m n h k = k

lex_loop-Ends :
    (fuel : ℕ) (tokens : List Bytes) (p : Bytes) → length p < fuel → Ends p (lex_loop fuel tokens p)
unfolding lex_loop
lex_loop-Ends zero tokens p h = absurd (omega arith)
lex_loop-Ends (suc fuel) tokens p h =
    Ends-if p (at_end s) _ _ (omega (arith, length-skip_space p, length-skip_line s)) (
      next (lex_token s) (lex_token-Shorter s)
        (λ t r k. lex_loop-Ends fuel (tokens ++ (t ∷ [])) r k))
  where
    s : Bytes
    s = skip_space p

    next :
        (r : Lexed)
        → Shorter s r
        → ((t q : Bytes) → length q < fuel → Ends q (lex_loop fuel (tokens ++ (t ∷ [])) q))
        → Ends p (lex_next r tokens s (lex_loop fuel))
    next (token t q) k again =
        Ends-weaken p q (lex_loop fuel (tokens ++ (t ∷ [])) q) (omega (arith, length-skip_space p))
          (again t q (omega (arith, length-skip_space p)))
    next (done r) k again = omega (arith, length-skip_space p, length-skip_line s)
    next refused k again = tt

-- A call of `htaccess_lex_line` always returns: it is refused, or it gives a line and leaves at
-- least one byte less than it was given, unless it was given none.
pub lex_line_progress :
    (p : Bytes)
    → (lex_line p ≡ error) ⊎ ((l : Line) × (lex_line p ≡ ok l) × (length l.rest ≤ length p - 1))
unfolding lex_line
lex_line_progress p = cases (lex_line p) refl (lex_loop-Ends (suc (length p)) [] p (omega arith))
  where
    cases :
        (m : Outcome Line)
        → lex_line p ≡ m
        → Ends p m
        → (lex_line p ≡ error) ⊎ ((l : Line) × (lex_line p ≡ ok l) × (length l.rest ≤ length p - 1))
    cases (ok l) e h = inr (l, e, h)
    cases error e h = inl e
    cases fault e h = absurd h
    cases out_of_fuel e h = absurd h
