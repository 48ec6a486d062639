-- ===== src/Parser/Parse.antt =====
-- htaccess_parse: the loop over the lines of a file.
pub mod Total
pub mod Arrays
pub mod Nested
pub mod Refine
use ngx_htaccess.Common.{
  ℕ, zero, suc, ◌+◌, ◌-◌, Bool, true, false, ◌&&◌, List, [], ◌∷◌, Option, none, some, ◌==◌, leb,
  ltb, if◌then◌else◌, Bytes, length, get_or, set, replicate, Outcome, ok, out_of_fuel, ◌>>=◌,
}
use ngx_htaccess.Directives.{DirectiveId, ParsedFile}
use ngx_htaccess.Lexer.{lex_line}
use ngx_htaccess.Ngx.{Ngx}
use ngx_htaccess.Parser.Blocks.{block_enabled, parse_files_match}
use ngx_htaccess.Parser.Conds.{byte_at}
use ngx_htaccess.Parser.Ids.{directive_id}
use ngx_htaccess.Parser.Push.{Gathered, push_directive}

-- The variables of the loop. `enabled` and `files_match` are its arrays of 16 slots.
pub record Parser : Type 0 where
  pub gathered : Gathered
  pub depth : ℕ
  pub enabled : List Bool
  pub files_match : List Bytes

abbrev pub initial : Parser
initial = record {
  gathered = record { directives = []; pending = [] };
  depth = 0;
  enabled = set (replicate 16 false) 0 true;
  files_match = replicate 16 [];
}

-- `t.len >= 2 && t.data[0] == '<' && t.data[t.len - 1] == '>'`
abbrev pub is_block : Bytes → Bool
is_block t = leb 2 (length t) && byte_at t 0 == b'<' && byte_at t (length t - 1) == b'>'

abbrev pub is_closing : Bytes → Bool
is_closing t = leb 3 (length t) && byte_at t 1 == b'/'

abbrev pub close_block : Parser → Parser
close_block p = record p { depth = if ltb 0 p.depth then p.depth - 1 else p.depth }

module _ (ngx : Ngx) where
  abbrev pub open_block : Bytes → Parser → Parser
  open_block t p =
      if ltb p.depth 15
      then record p {
        depth = p.depth + 1;
        enabled =
            set p.enabled (p.depth + 1)
              (block_enabled ngx t true true && get_or p.enabled p.depth false);
        files_match = set p.files_match (p.depth + 1) (parse_files_match ngx t);
      }
      else p

  -- A directive, by the id of its name; an unknown name is passed over.
  abbrev pub parse_directive : Option DirectiveId → List Bytes → Parser → Outcome Parser
  parse_directive none args p = ok p
  parse_directive (some id) args p =
      push_directive ngx id args (get_or p.files_match p.depth []) p.gathered >>= λ g.
      ok (record p { gathered = g })

  -- The body of the loop behind `htaccess_lex_line`.
  unfoldable pub parse_tokens : List Bytes → Parser → Outcome Parser
  unfolding block_enabled parse_files_match directive_id push_directive
  parse_tokens [] p = ok p
  parse_tokens (t ∷ ts) p =
      if is_block t
      then ok (if is_closing t then close_block p else open_block t p)
      else if get_or p.enabled p.depth false
      then parse_directive (directive_id ngx t) (t ∷ ts) p
      else ok p

  unfoldable pub parse_loop : ℕ → Bytes → Parser → Outcome Parser
  unfolding lex_line parse_tokens
  parse_loop zero bytes p = out_of_fuel
  parse_loop (suc fuel) [] p = ok p
  parse_loop (suc fuel) (c ∷ bytes) p =
      lex_line (c ∷ bytes) >>= λ l. parse_tokens l.tokens p >>= λ q. parse_loop fuel l.rest q

  -- `pool` is the number of the pool that the file is parsed into.
  unfoldable pub parse : ℕ → Bytes → Outcome ParsedFile
  unfolding parse_loop
  parse pool bytes = parse_loop (suc (length bytes)) bytes initial >>= λ p.
      ok (record { directives = p.gathered.directives; pool = pool })
