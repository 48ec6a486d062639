-- ===== src/Parser/Parse/Nested.antt =====
-- The nesting of blocks: htaccess_parse against a parser that keeps a stack.
use ngx_htaccess.Common.{
  ℕ, zero, suc, List, [], ◌∷◌, Option, none, some, ltb, if◌then◌else◌, Bytes, length, Outcome, ok,
  out_of_fuel, ◌>>=◌,
}
use ngx_htaccess.Directives.{DirectiveId, ParsedFile}
use ngx_htaccess.Lexer.{lex_line}
use ngx_htaccess.Ngx.{Ngx}
use ngx_htaccess.Parser.Blocks.{parse_files_match}
use ngx_htaccess.Parser.Ids.{directive_id}
use ngx_htaccess.Parser.Push.{Gathered, push_directive}
use ngx_htaccess.Parser.Parse.{is_block, is_closing}

-- The patterns of the open blocks, the innermost first; the outermost stands for no block.
pub record Nested : Type 0 where
  pub gathered : Gathered
  pub patterns : List Bytes

abbrev pub innermost : List Bytes → Bytes
innermost [] = []
innermost (p ∷ _) = p

abbrev pub pop : List Bytes → List Bytes
pop (p ∷ q ∷ l) = q ∷ l
pop l = l

abbrev pub push : Bytes → List Bytes → List Bytes
push p l = if ltb (length l) 16 then p ∷ l else l

module _ (ngx : Ngx) where
  abbrev pub nested_directive : Option DirectiveId → List Bytes → Nested → Outcome Nested
  nested_directive none args n = ok n
  nested_directive (some id) args n =
      push_directive ngx id args (innermost n.patterns) n.gathered >>= λ g.
      ok (record n { gathered = g })

  -- No block is ever disabled here, and every known directive of every line is taken.
  unfoldable pub nested_tokens : List Bytes → Nested → Outcome Nested
  nested_tokens [] n = ok n
  nested_tokens (t ∷ ts) n =
      if is_block t
      then ok (record n {
        patterns =
            if is_closing t then pop n.patterns else push (parse_files_match ngx t) n.patterns;
      })
      else nested_directive (directive_id ngx t) (t ∷ ts) n

  unfoldable pub nested_loop : ℕ → Bytes → Nested → Outcome Nested
  unfolding nested_tokens
  nested_loop zero bytes n = out_of_fuel
  nested_loop (suc fuel) [] n = ok n
  nested_loop (suc fuel) (c ∷ bytes) n =
      lex_line (c ∷ bytes) >>= λ l. nested_tokens l.tokens n >>= λ m. nested_loop fuel l.rest m

  unfoldable pub parse_nested : ℕ → Bytes → Outcome ParsedFile
  unfolding nested_loop
  parse_nested pool bytes =
      nested_loop (suc (length bytes)) bytes
        (record { gathered = record { directives = []; pending = [] }; patterns = [] ∷ [] })
      >>= λ n. ok (record { directives = n.gathered.directives; pool = pool })
