-- ===== src/Lexer.antt =====
-- src/htaccess_lexer.c: the tokens of one line. A pair of pointers `p`, `end` is the list of the
-- bytes between them, and a function that moves `p` returns what is left.
pub mod Progress
pub mod Words
use ngx_htaccess.Common.{
  ℕ, zero, suc, Bool, true, ◌||◌, List, [], ◌∷◌, ◌++◌, Option, none, some, ◌==◌, if◌then◌else◌,
  Bytes, length, Outcome, ok, error, out_of_fuel,
}

-- `c == '\n' || c == '\r'`
abbrev pub is_newline : ℕ → Bool
is_newline c = c == b'\n' || c == b'\r'

-- `c == ' ' || c == '\t'`
abbrev pub is_blank : ℕ → Bool
is_blank c = c == b' ' || c == b'\t'

-- The first loop of `htaccess_skip_line`.
unfoldable pub to_newline : Bytes → Bytes
to_newline [] = []
to_newline (c ∷ p) = if is_newline c then c ∷ p else to_newline p

-- Its second loop.
unfoldable pub skip_newlines : Bytes → Bytes
skip_newlines [] = []
skip_newlines (c ∷ p) = if is_newline c then skip_newlines p else c ∷ p

unfoldable pub skip_line : Bytes → Bytes
skip_line p = skip_newlines (to_newline p)

unfoldable pub skip_space : Bytes → Bytes
skip_space [] = []
skip_space (c ∷ p) = if is_blank c then skip_space p else c ∷ p

-- What `htaccess_lex_token` returns: NGX_OK with the token and `next`, NGX_DONE with `next`, or
-- NGX_ERROR.
pub data Lexed : Type 0 where
  token : Bytes → Bytes → Lexed
  done : Bytes → Lexed
  refused : Lexed

-- The token grows by bytes in front.
abbrev pub prepend : Bytes → Lexed → Lexed
prepend cs (token t next) = token (cs ++ t) next
prepend cs (done next) = done next
prepend cs refused = refused

-- The loop of `htaccess_read_quoted`, behind the opening quote.
unfoldable pub scan_quoted : ℕ → Bytes → Lexed
scan_quoted quote [] = refused
scan_quoted quote (c ∷ []) = if c == quote then token [] [] else refused
scan_quoted quote (c ∷ d ∷ p) =
    let escaped = prepend (c ∷ d ∷ []) (scan_quoted quote p) in
    let plain = prepend (c ∷ []) (scan_quoted quote (d ∷ p)) in
    if c == quote then token [] (d ∷ p) else if c == b'\\' then escaped else plain

unfoldable pub read_quoted : Bytes → Lexed
unfolding scan_quoted
read_quoted [] = refused
read_quoted (quote ∷ p) = scan_quoted quote p

-- The loop over a token that begins with `<`.
unfoldable pub scan_angle : Bytes → Lexed
scan_angle [] = refused
scan_angle (c ∷ p) =
    let rest = prepend (c ∷ []) (scan_angle p) in if c == b'>' then token (c ∷ []) p else rest

-- The bytes that end a bare token.
abbrev pub ends_token : ℕ → Bool
ends_token c = is_blank c || is_newline c || c == b'#'

-- The loop over a bare token.
unfoldable pub scan_bare : Bytes → Lexed
scan_bare [] = token [] []
scan_bare (c ∷ []) = if ends_token c then token [] (c ∷ []) else token (c ∷ []) []
scan_bare (c ∷ d ∷ p) =
    let escaped = prepend (c ∷ d ∷ []) (scan_bare p) in
    let plain = prepend (c ∷ []) (scan_bare (d ∷ p)) in
    if ends_token c then token [] (c ∷ d ∷ p) else if c == b'\\' then escaped else plain

-- `token->len ? NGX_OK : NGX_DONE`
abbrev pub ok_unless_empty : Lexed → Lexed
ok_unless_empty (token [] next) = done next
ok_unless_empty r = r

-- `htaccess_lex_token` behind the skipped blanks.
unfoldable pub lex_start : Bytes → Lexed
unfolding skip_line to_newline skip_newlines read_quoted scan_angle scan_bare
lex_start [] = done (skip_line [])
lex_start (c ∷ p) =
    if c == b'#'
    then done (skip_line (c ∷ p))
    else if c == b'"'
    then read_quoted (c ∷ p)
    else if c == b'<'
    then scan_angle (c ∷ p)
    else ok_unless_empty (scan_bare (c ∷ p))

unfoldable pub lex_token : Bytes → Lexed
unfolding lex_start skip_space
lex_token p = lex_start (skip_space p)

-- One line: its tokens, and the position behind it.
pub record Line : Type 0 where
  pub tokens : List Bytes
  pub rest : Bytes

-- The guard `p >= end || *p == '#'` of the loop.
abbrev pub at_end : Bytes → Bool
at_end [] = true
at_end (c ∷ p) = c == b'#'

-- What the loop does with one result of `htaccess_lex_token` at `p`; `again` is the next round.
abbrev pub lex_next :
    Lexed → List Bytes → Bytes → (List Bytes → Bytes → Outcome Line) → Outcome Line
lex_next (token t next) tokens p again = again (tokens ++ (t ∷ [])) next
lex_next (done _) tokens p again = ok (record { tokens = tokens; rest = skip_line p })
lex_next refused tokens p again = error

-- The loop of `htaccess_lex_line`, with the final `htaccess_skip_line`. `p` is as it stands after
-- the round's `htaccess_skip_space`.
unfoldable pub lex_loop : ℕ → List Bytes → Bytes → Outcome Line
unfolding lex_token skip_line
lex_loop zero tokens p = out_of_fuel
lex_loop (suc fuel) tokens p =
    let s = skip_space p in
    let more = lex_next (lex_token s) tokens s (lex_loop fuel) in
    if at_end s then ok (record { tokens = tokens; rest = skip_line s }) else more

-- Every round but the last takes at least one byte, so one round more than there are bytes is
-- enough.
unfoldable pub lex_line : Bytes → Outcome Line
unfolding lex_loop
lex_line p = lex_loop (suc (length p)) [] p
