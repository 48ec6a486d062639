-- ===== src/Parser/Parse/Total.antt =====
-- htaccess_parse always returns.
use ngx_htaccess.Common.{
  ℕ, zero, suc, ◌<◌, ◌≡◌, refl, ◌⊎◌, inl, inr, List, [], ◌∷◌, Option, none, some, arith, Bool-cases,
  Bytes, length, Outcome, ok, error, fault, out_of_fuel, IsDone, >>=-IsDone, get_or, false,
}
use ngx_htaccess.Directives.{DirectiveId, ParsedFile}
use ngx_htaccess.Lexer.Progress.{lex_line_progress}
use ngx_htaccess.Ngx.{Ngx}
use ngx_htaccess.Parser.Ids.{directive_id}
use ngx_htaccess.Parser.Parse.{
  Parser, initial, is_block, parse_directive, parse_tokens, parse_loop, parse,
}
use ngx_htaccess.Parser.Push.Faults.{push_directive-IsDone}

module _ (ngx : Ngx) where
  parse_directive-IsDone :
      (id : Option DirectiveId) (t : Bytes) (ts : List Bytes) (p : Parser)
      → IsDone (parse_directive ngx id (t ∷ ts) p)
  parse_directive-IsDone none t ts p = tt
  parse_directive-IsDone (some id) t ts p =
      >>=-IsDone _ _ (push_directive-IsDone ngx id t ts _ p.gathered) (λ g e. tt)

  parse_tokens-IsDone : (tokens : List Bytes) (p : Parser) → IsDone (parse_tokens ngx tokens p)
  unfolding parse_tokens
  parse_tokens-IsDone [] p = tt
  parse_tokens-IsDone (t ∷ ts) p = elim (Bool-cases (is_block t)) [
    | inl block ↦ rw block tt
    | inr line ↦ rw line (elim (Bool-cases (get_or p.enabled p.depth false)) [
      | inl on ↦ rw on (parse_directive-IsDone (directive_id ngx t) t ts p)
      | inr off ↦ rw off tt
    ])
  ]

  parse_loop-IsDone :
      (fuel : ℕ) (bytes : Bytes) (p : Parser)
      → length bytes < fuel
      → IsDone (parse_loop ngx fuel bytes p)
  unfolding parse_loop
  parse_loop-IsDone zero bytes p h = absurd (omega arith)
  parse_loop-IsDone (suc fuel) [] p h = tt
  parse_loop-IsDone (suc fuel) (c ∷ bytes) p h = elim (lex_line_progress (c ∷ bytes)) [
    | inl refused ↦ rw refused tt
    | inr (l, read, shorter) ↦ rw read (
        >>=-IsDone (parse_tokens ngx l.tokens p) _ (parse_tokens-IsDone l.tokens p)
          (λ q e. parse_loop-IsDone fuel l.rest q (omega arith)))
  ]

  pub parse-IsDone : (pool : ℕ) (bytes : Bytes) → IsDone (parse ngx pool bytes)
  unfolding parse
  parse-IsDone pool bytes =
      >>=-IsDone (parse_loop ngx (suc (length bytes)) bytes initial) _
        (parse_loop-IsDone (suc (length bytes)) bytes initial (omega arith)) (λ p e. tt)

  -- `htaccess_parse` ends on every text: it gives the directives, it refuses the text, or it reads
  -- an argument that was never written.
  pub parse_total :
      (pool : ℕ) (bytes : Bytes)
      → ((f : ParsedFile) × (parse ngx pool bytes ≡ ok f))
        ⊎ (parse ngx pool bytes ≡ error)
        ⊎ (parse ngx pool bytes ≡ fault)
  parse_total pool bytes = cases (parse ngx pool bytes) (parse-IsDone pool bytes)
    where
      cases :
          (m : Outcome ParsedFile)
          → IsDone m
          → ((f : ParsedFile) × (m ≡ ok f)) ⊎ (m ≡ error) ⊎ (m ≡ fault)
      cases (ok f) h = inl (f, refl)
      cases error h = inr (inl refl)
      cases fault h = inr (inr refl)
      cases out_of_fuel h = absurd h
