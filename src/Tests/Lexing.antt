-- ===== src/Tests/Lexing.antt =====
-- The lexer at concrete lines.
use ngx_htaccess.Common.{
  ◌⊎◌, ◌≤◌, ◌-◌, length, ◌≡◌, refl, List, [], ◌∷◌, codes, ok, error, arith, map,
}
use ngx_htaccess.Lexer.Progress.{lex_line_progress}
use ngx_htaccess.Lexer.Words.{Word, bare, quoted, print_line, lex_line-print_line, text}
use ngx_htaccess.Lexer.{Line, lex_line, skip_newlines}

comment_ends_token :
    lex_line (codes "Deny all#x\nB")
    ≡ ok (record { tokens = codes "Deny" ∷ codes "all" ∷ []; rest = codes "B" })
unfolding lex_line
comment_ends_token = refl

open_quote : lex_line (codes "AuthName \"x\n") ≡ error
unfolding lex_line
open_quote = refl

block_token :
    lex_line (codes " <IfModule a b>\n\nB")
    ≡ ok (record { tokens = codes "<IfModule a b>" ∷ []; rest = codes "B" })
unfolding lex_line
block_token = refl

abbrev auth_line : List Word
auth_line = bare (codes "AuthName") ∷ quoted (codes "My Site") ∷ []

lex_line-print_line_example :
    lex_line (print_line auth_line (codes "\nB"))
    ≡ ok (record { tokens = map text auth_line; rest = skip_newlines (codes "\nB") })
lex_line-print_line_example = lex_line-print_line auth_line (codes "\nB") (ground arith)

lex_line_progress_example :
    (lex_line (codes "Deny all\n") ≡ error)
    ⊎ ((l : Line) × (lex_line (codes "Deny all\n") ≡ ok l)
        × (length l.rest ≤ length (codes "Deny all\n") - 1))
lex_line_progress_example = lex_line_progress (codes "Deny all\n")
