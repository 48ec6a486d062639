-- ===== src/Parser/Parse/Refine.antt =====
-- The parser with its arrays refines the one that keeps a stack.
use ngx_htaccess.Common.{
  ltb→lt, ℕ, zero, suc, ◌+◌, ◌<◌, ◌≡◌, refl, sym, ap, ◌∙◌, inl, inr, Bool, true, ◌&&◌, List, [],
  ◌∷◌, Option, none, some, arith, ltb, Bool-cases, Bytes, length, get_or, length-set, Outcome, ok,
  error, fault, out_of_fuel, ◌>>=◌,
}
use ngx_htaccess.Directives.{DirectiveId, ParsedFile}
use ngx_htaccess.Lexer.{Line, lex_line}
use ngx_htaccess.Ngx.{Ngx}
use ngx_htaccess.Parser.Blocks.{block_enabled, parse_files_match}
use ngx_htaccess.Parser.Ids.{directive_id}
use ngx_htaccess.Parser.Push.{Gathered, push_directive}
use ngx_htaccess.Parser.Parse.{
  Parser, initial, is_block, is_closing, open_block, close_block, parse_directive, parse_tokens,
  parse_loop, parse,
}
use ngx_htaccess.Parser.Parse.Nested.{
  Nested, pop, push, nested_directive, nested_tokens, nested_loop, parse_nested,
}
use ngx_htaccess.Parser.Parse.Arrays.{
  stack_of, all_on, stack_of-closed, all_on-closed, stack_of_opened, all_on_opened, length-stack_of,
  all_on_here, innermost-stack_of, le_not_ltb,
}

record IsSound (p : Parser) : Type 0 where
  deep : p.depth < 16
  flags : length p.enabled ≡ 16
  slots : length p.files_match ≡ 16
  on : all_on p.enabled p.depth ≡ true

nested_of : Parser → Nested
nested_of p = record { gathered = p.gathered; patterns = stack_of p.files_match p.depth }

module _ (ngx : Ngx) where
  -- With the two flags that `htaccess_parse` passes, every block is enabled.
  pub block_enabled_always : (block : Bytes) → block_enabled ngx block true true ≡ true
  unfolding block_enabled
  block_enabled_always block = ground arith

  enable_block :
      (block : Bytes) (b : Bool) → b ≡ true → (block_enabled ngx block true true && b) ≡ true
  enable_block block b h = rw (block_enabled_always block, h)

  -- The two parsers agree: on the outcome, and on the state where there is one.
  Agrees : Outcome Parser → Outcome Nested → Type 0
  Agrees (ok p) n = IsSound p × (n ≡ ok (nested_of p))
  Agrees error n = n ≡ error
  Agrees fault n = n ≡ fault
  Agrees out_of_fuel n = n ≡ out_of_fuel

  close-IsSound :
      (p : Parser)
      → IsSound p
      → IsSound (close_block p)
        × (nested_of (close_block p)
            ≡ record (nested_of p) { patterns = pop (nested_of p).patterns })
  unfolding nested_of
  close-IsSound p s = (
    record {
      deep = ground arith;
      flags = s.flags;
      slots = s.slots;
      on = all_on-closed p.enabled p.depth s.on;
    },
    rw (stack_of-closed p.files_match p.depth),
  )

  open-IsSound :
      (p : Parser) (t : Bytes)
      → IsSound p
      → IsSound (open_block ngx t p)
        × (nested_of (open_block ngx t p) ≡ record (nested_of p) {
          patterns = push (parse_files_match ngx t) (nested_of p).patterns;
        })
  unfolding nested_of
  open-IsSound p t s = elim (Bool-cases (ltb p.depth 15)) [
    | inl room ↦
        let shallow = ltb→lt p.depth 15 room in
        rw room (
          record {
            deep = omega arith;
            flags = length-set p.enabled (p.depth + 1) _ ∙ s.flags;
            slots = length-set p.files_match (p.depth + 1) _ ∙ s.slots;
            on =
                all_on_opened p.enabled p.depth _ shallow s.flags
                  (enable_block t _ (all_on_here p.enabled p.depth s.on)) s.on;
          },
          rw (stack_of_opened p.files_match p.depth (parse_files_match ngx t) shallow s.slots),
        )
    | inr full ↦ rw full (s, rw (length-stack_of p.files_match p.depth, le_not_ltb p.depth full))
  ]

  Agrees-gathered :
      (m : Outcome Gathered) (p : Parser)
      → IsSound p
      → Agrees
          (m >>= λ g. ok (record p { gathered = g }))
          (m >>= λ g. ok (record (nested_of p) { gathered = g }))
  unfolding Agrees nested_of
  Agrees-gathered (ok g) p s =
      (record { deep = s.deep; flags = s.flags; slots = s.slots; on = s.on }, refl)
  Agrees-gathered error p s = refl
  Agrees-gathered fault p s = refl
  Agrees-gathered out_of_fuel p s = refl

  Agrees-directive :
      (id : Option DirectiveId) (args : List Bytes) (p : Parser)
      → IsSound p
      → Agrees (parse_directive ngx id args p) (nested_directive ngx id args (nested_of p))
  unfolding nested_of
  Agrees-directive none args p s = unfold Agrees in (s, refl)
  Agrees-directive (some id) args p s = rw innermost-stack_of (
      Agrees-gathered (push_directive ngx id args (get_or p.files_match p.depth []) p.gathered) p s)

  Agrees-tokens :
      (tokens : List Bytes) (p : Parser)
      → IsSound p
      → Agrees (parse_tokens ngx tokens p) (nested_tokens ngx tokens (nested_of p))
  unfolding parse_tokens nested_tokens
  Agrees-tokens [] p s = unfold Agrees in (s, refl)
  Agrees-tokens (t ∷ ts) p s = elim (Bool-cases (is_block t)) [
    | inl block ↦ rw block (elim (Bool-cases (is_closing t)) [
      | inl closing ↦
          let (sound, same) = close-IsSound p s in
          rw closing (unfold Agrees in (sound, ap ok (sym same)))
      | inr opening ↦
          let (sound, same) = open-IsSound p t s in
          rw opening (unfold Agrees in (sound, ap ok (sym same)))
    ])
    | inr line ↦
        rw (line, all_on_here p.enabled p.depth s.on)
          (Agrees-directive (directive_id ngx t) (t ∷ ts) p s)
  ]

  Agrees->>= :
      (m : Outcome Parser) (n : Outcome Nested) (f : Parser → Outcome Parser)
      (g : Nested → Outcome Nested)
      → Agrees m n
      → ((p : Parser) → IsSound p → Agrees (f p) (g (nested_of p)))
      → Agrees (m >>= f) (n >>= g)
  unfolding Agrees
  Agrees->>= (ok p) n f g (s, e) k = rw e (k p s)
  Agrees->>= error n f g e k = rw e
  Agrees->>= fault n f g e k = rw e
  Agrees->>= out_of_fuel n f g e k = rw e

  Agrees-loop :
      (fuel : ℕ) (bytes : Bytes) (p : Parser)
      → IsSound p
      → Agrees (parse_loop ngx fuel bytes p) (nested_loop ngx fuel bytes (nested_of p))
  unfolding parse_loop nested_loop
  Agrees-loop zero bytes p s = unfold Agrees in refl
  Agrees-loop (suc fuel) [] p s = unfold Agrees in (s, refl)
  Agrees-loop (suc fuel) (c ∷ bytes) p s =
      lines (lex_line (c ∷ bytes)) (λ rest q r. Agrees-loop fuel rest q r)
    where
      lines :
          (l : Outcome Line)
          → ((rest : Bytes) (q : Parser)
              → IsSound q
              → Agrees (parse_loop ngx fuel rest q) (nested_loop ngx fuel rest (nested_of q)))
          → Agrees (l >>= λ l. parse_tokens ngx l.tokens p >>= λ q. parse_loop ngx fuel l.rest q) (
              l >>= λ l.
              nested_tokens ngx l.tokens (nested_of p) >>= λ m. nested_loop ngx fuel l.rest m)
      lines (ok l) again =
          Agrees->>= (parse_tokens ngx l.tokens p) _ _ _ (Agrees-tokens l.tokens p s)
            (λ q r. again l.rest q r)
      lines error again = unfold Agrees in refl
      lines fault again = unfold Agrees in refl
      lines out_of_fuel again = unfold Agrees in refl

  initial-IsSound : IsSound initial
  unfolding all_on
  initial-IsSound = record { deep = omega arith; flags = refl; slots = refl; on = refl }

  -- `htaccess_parse`, with its arrays and its depth, has the outcome of the parser that keeps a
  -- stack of at most 16 patterns, in which no block is disabled, whatever `IfModule` names, and a
  -- directive takes the pattern of the innermost block only.
  pub parse-parse_nested :
      (pool : ℕ) (bytes : Bytes) → parse ngx pool bytes ≡ parse_nested ngx pool bytes
  unfolding parse parse_nested Agrees nested_of stack_of
  parse-parse_nested pool bytes =
      finish (parse_loop ngx (suc (length bytes)) bytes initial) _
        (Agrees-loop (suc (length bytes)) bytes initial initial-IsSound)
    where
      finish :
          (m : Outcome Parser) (n : Outcome Nested)
          → Agrees m n
          → ◌>>=◌ {B = ParsedFile} m
              (λ p. ok (record { directives = p.gathered.directives; pool = pool }))
            ≡ ◌>>=◌ n (λ n. ok (record { directives = n.gathered.directives; pool = pool }))
      finish (ok p) n (s, e) = rw e
      finish error n e = rw e
      finish fault n e = rw e
      finish out_of_fuel n e = rw e
