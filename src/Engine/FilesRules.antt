-- ===== src/Engine/FilesRules.antt =====
-- htaccess_compile_files_rule, htaccess_files_deny and htaccess_apply_files_deny of
-- src/htaccess_auth.c.
pub mod Denied
use ngx_htaccess.Common.{
  ℕ, Bool, true, false, ◌&&◌, ◌||◌, List, [], ◌∷◌, Option, none, some, ◌==◌, ltb, if◌then◌else◌,
  Bytes, length, drop, Outcome, ok, error, fault, out_of_fuel, ◌>>=◌,
}
use ngx_htaccess.Directives.{FilesRule, Regex, MergedCtx}
use ngx_htaccess.Engine.State.{Result, Regexes, Exec, matched, unmatched, refused}
use ngx_htaccess.Parser.Conds.{byte_at}

abbrev pub files_regex : FilesRule → Regex
files_regex rule = record { pattern = rule.pattern; caseless = true }

-- `ngx_regex_exec(...) >= 0`
abbrev pub is_match : Exec → Bool
is_match (matched captures) = true
is_match unmatched = false
is_match refused = false

-- The URI without its first slash, unless it is no more than that.
abbrev pub files_target : Bytes → Bytes
files_target uri = if ltb 1 (length uri) && byte_at uri 0 == b'/' then drop 1 uri else uri

-- The rule stays in front of what the loop gives for the others.
abbrev pub keep_rule : FilesRule → Outcome (List FilesRule × Bool) → Outcome (List FilesRule × Bool)
keep_rule rule rest = rest >>= λ r. ok (rule ∷ r.0, r.1)

module _ (rx : Regexes) where
  open rx use {compiles, exec}

  abbrev pub compile_into : FilesRule → Option Regex → Option FilesRule
  compile_into rule (some e) = some rule
  compile_into rule none =
      if length rule.pattern == 0
      then some rule
      else if compiles (files_regex rule)
      then some (record rule { regex = some (files_regex rule) })
      else none

  -- `htaccess_compile_files_rule`: the rule with its expression, or none for NGX_ERROR.
  unfoldable pub compile_files_rule : FilesRule → Option FilesRule
  compile_files_rule rule = compile_into rule rule.regex

  -- The call of the expression; that of a rule which has none reads through NULL.
  abbrev pub exec_rule :
      FilesRule
      → Option Regex
      → Bytes
      → List FilesRule
      → Outcome (List FilesRule × Bool)
      → Outcome (List FilesRule × Bool)
  exec_rule rule none target l rest = fault
  exec_rule rule (some e) target l rest =
      if is_match (exec e target) then ok (rule ∷ l, true) else keep_rule rule rest

  abbrev pub by_compiled :
      FilesRule
      → Option FilesRule
      → Bytes
      → List FilesRule
      → Outcome (List FilesRule × Bool)
      → Outcome (List FilesRule × Bool)
  by_compiled rule none target l rest = keep_rule rule rest
  by_compiled rule (some compiled) target l rest = exec_rule compiled compiled.regex target l rest

  -- The loop of `htaccess_files_deny`: the rules with what was compiled, and whether it returns
  -- NGX_HTTP_FORBIDDEN.
  unfoldable pub files_loop : List FilesRule → Bytes → Outcome (List FilesRule × Bool)
  unfolding compile_files_rule
  files_loop [] target = ok ([], false)
  files_loop (rule ∷ l) target =
      let rest = files_loop l target in
      if rule.deny
      then by_compiled rule (compile_files_rule rule) target l rest
      else keep_rule rule rest

  unfoldable pub files_deny : MergedCtx → Bytes → Outcome (MergedCtx × Bool)
  unfolding files_loop
  files_deny m uri =
      files_loop m.files_rules (files_target uri) >>= λ r. ok (record m { files_rules = r.0 }, r.1)

  unfoldable pub apply_files_deny : MergedCtx → Bytes → Outcome (MergedCtx × Result)
  unfolding files_deny
  apply_files_deny m uri =
      files_deny m uri >>= λ r. ok (r.0, (if r.1 then Result.forbidden else Result.declined))
