-- ===== src/Parser/Flags.antt =====
-- htaccess_parse_rule_flags: the flags of `RewriteRule`.
pub mod Total
use ngx_htaccess.Common.{
  ℕ, zero, suc, ◌+◌, true, ◌&&◌, ◌||◌, [], ◌∷◌, ◌++◌, none, some, ◌==◌, leb, if◌then◌else◌, Bytes,
  codes, length, drop, Outcome, ok, out_of_fuel,
}
use ngx_htaccess.Directives.{RewriteRule}
use ngx_htaccess.Ngx.{Ngx}
use ngx_htaccess.Parser.Conds.{byte_at}

-- `while (p < last && (*p == ',' || *p == ' ')) p++`
unfoldable pub skip_separators : Bytes → Bytes
skip_separators [] = []
skip_separators (c ∷ p) = if c == b',' || c == b' ' then skip_separators p else c ∷ p

-- A part up to the next comma, and what is left.
unfoldable pub to_comma : Bytes → Bytes × Bytes
to_comma [] = ([], [])
to_comma (c ∷ p) =
    let (part, rest) = to_comma p in if c == b',' then ([], c ∷ p) else (c ∷ part, rest)

unfoldable pub trim_front : Bytes → Bytes
trim_front [] = []
trim_front (c ∷ p) = if c == b' ' || c == b'[' then trim_front p else c ∷ p

-- A byte in front of what is left of the bytes behind it.
abbrev pub trim_step : ℕ → Bytes → Bytes
trim_step c [] = if c == b' ' || c == b']' then [] else c ∷ []
trim_step c (d ∷ p) = c ∷ d ∷ p

unfoldable pub trim_back : Bytes → Bytes
trim_back [] = []
trim_back (c ∷ p) = trim_step c (trim_back p)

-- NGX_HTTP_MOVED_TEMPORARILY
abbrev pub moved_temporarily : ℕ
moved_temporarily = 302

module _ (ngx : Ngx) where
  open ngx use {strncasecmp_eq, strlchr, atoi}

  -- The code behind `=` in an `R` flag.
  unfoldable pub redirect_code_of : Bytes → ℕ
  redirect_code_of part = elim (strlchr part b'=') [
    | none ↦ moved_temporarily
    | some eq ↦ elim (atoi (drop (eq + 1) part)) [ none ↦ moved_temporarily | some code ↦ code ]
  ]

  -- What one trimmed part does to the rule.
  unfoldable pub apply_flag : Bytes → RewriteRule → RewriteRule
  unfolding redirect_code_of
  apply_flag part rule =
      if length part == 1 && byte_at part 0 == b'L'
      then record rule { last = true }
      else if length part == 3 && strncasecmp_eq part (codes "END") 3
      then record rule { end = true }
      else if length part == 2 && strncasecmp_eq part (codes "NC") 2
      then record rule { nocase = true }
      else if leb 2 (length part) && strncasecmp_eq part (codes "R") 1
      then record rule { redirect = true; redirect_code = redirect_code_of part }
      else if length part == 1 && byte_at part 0 == b'C'
      then record rule { chain = true }
      else if length part == 3 && strncasecmp_eq part (codes "QSA") 3
      then record rule { qsa = true }
      else if leb 2 (length part) && strncasecmp_eq part (codes "E=") 2
      then record rule { env_vars = rule.env_vars ++ (drop 2 part ∷ []) }
      else rule

  -- One part, trimmed; nothing left means no flag.
  abbrev pub apply_part : Bytes → RewriteRule → RewriteRule
  apply_part part rule = elim (trim_back (trim_front part)) [
    | [] ↦ rule
    | c ∷ p ↦ apply_flag (c ∷ p) rule
  ]

  -- The outer loop; `s` stands behind the separators.
  abbrev pub flags_next :
      Bytes → RewriteRule → (Bytes → RewriteRule → Outcome RewriteRule) → Outcome RewriteRule
  flags_next [] rule again = ok rule
  flags_next (c ∷ s) rule again = again (to_comma (c ∷ s)).1 (apply_part (to_comma (c ∷ s)).0 rule)

  unfoldable pub flags_loop : ℕ → Bytes → RewriteRule → Outcome RewriteRule
  unfolding skip_separators to_comma trim_front trim_back apply_flag
  flags_loop zero p rule = out_of_fuel
  flags_loop (suc fuel) p rule = flags_next (skip_separators p) rule (flags_loop fuel)

  -- Every round but the last takes at least one byte.
  unfoldable pub parse_rule_flags : Bytes → RewriteRule → Outcome RewriteRule
  unfolding flags_loop
  parse_rule_flags flags rule = flags_loop (suc (length flags)) flags rule
