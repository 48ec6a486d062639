-- ===== src/Engine/Uris.antt =====
-- The URIs of a rule: from htaccess_compile_rule to htaccess_apply_target_uri of
-- src/htaccess_rewrite.c.
pub mod Target
use ngx_htaccess.Common.{
  ℕ, ◌+◌, Bool, true, false, not, ◌&&◌, ◌||◌, List, [], ◌∷◌, ◌++◌, Option, none, some, ◌==◌, leb,
  ltb, if◌then◌else◌, Bytes, codes, length, take, drop, strncmp_eq, Outcome, ok, error, fault,
  out_of_fuel, ◌>>=◌,
}
use ngx_htaccess.Directives.{DirectiveId, Directive, RewriteRule, Regex, DirCtx, MergedCtx}
use ngx_htaccess.Engine.Conds.{Context, match_conditions}
use ngx_htaccess.Engine.Expand.{expand}
use ngx_htaccess.Engine.State.{
  RequestState, Result, Match, Regexes, Exec, matched, unmatched, refused, env_set,
}
use ngx_htaccess.Ngx.{Ngx}
use ngx_htaccess.Parser.Conds.{byte_at}

-- The fields of an `ngx_http_request_t` that the engines write.
pub record Http : Type 0 where
  pub uri : Bytes
  pub args : Bytes
  pub unparsed_uri : Bytes
  pub valid_unparsed_uri : Bool
  pub internal : Bool

-- `htaccess_compile_rule`. The source keeps the expression in the rule, which it visits once in a
-- context that is built anew for each pass.
unfoldable pub compile_rule : Regexes → RewriteRule → Option Regex
compile_rule rx rule =
    let e : Regex = record { pattern = rule.pattern; caseless = rule.nocase } in
    elim rule.regex [ some f ↦ some f | none ↦ if rx.compiles e then some e else none ]

-- A text without the slash that it begins with.
abbrev pub behind_slash : Bytes → Bytes
behind_slash [] = []
behind_slash (c ∷ p) = if c == b'/' then p else c ∷ p

unfoldable pub relative_uri : Bytes → Bytes → Bytes
relative_uri uri prefix =
    if length prefix == 0 || leb (length uri) (length prefix)
    then (if ltb 1 (length uri) && byte_at uri 0 == b'/' then drop 1 uri else uri)
    else behind_slash (drop (length prefix) uri)

-- `len > n && ngx_strncmp(data, prefix, n) == 0`
abbrev pub goes_on_from : Bytes → Bytes → Bool
goes_on_from s prefix = ltb (length prefix) (length s) && strncmp_eq s prefix (length prefix)

abbrev pub is_dash : Bytes → Bool
is_dash s = length s == 1 && byte_at s 0 == b'-'

unfoldable pub apply_substitution : RewriteRule → Bytes → Bytes → Bytes
unfolding strncmp_eq
apply_substitution rule input base =
    let s = rule.substitution in
    if is_dash s
    then input
    else if ltb 0 (length s) && byte_at s 0 == b'/'
    then s
    else if goes_on_from s (codes "http://") || goes_on_from s (codes "https://")
    then s
    else base ++ s

-- `htaccess_apply_target_uri`: the path of a target, by the offset of its question mark.
abbrev pub target_path : Bytes → Option ℕ → Bytes
target_path target none = target
target_path target (some i) = take i target

abbrev pub target_args : Bytes → Option ℕ → Bytes
target_args target none = []
target_args target (some i) = drop (i + 1) target

-- The arguments, with those of the request behind them where the rule has QSA.
abbrev pub with_query : Bool → Bytes → Bytes → Bytes
with_query qsa args query =
    if qsa && ltb 0 (length query)
    then (if ltb 0 (length args) then args ++ (b'&' ∷ query) else query)
    else args

abbrev pub rooted : Bytes → Bytes
rooted [] = []
rooted (c ∷ p) = if c == b'/' then c ∷ p else b'/' ∷ c ∷ p

abbrev pub unparsed : Bytes → Bytes → Bytes
unparsed uri args = if ltb 0 (length args) then uri ++ (b'?' ∷ args) else uri

abbrev pub set_target : Bytes → Bytes → RequestState → Http × RequestState
set_target uri args s = (
  record {
    uri = uri;
    args = args;
    unparsed_uri = unparsed uri args;
    valid_unparsed_uri = false;
    internal = true;
  },
  record s { uri = uri; query_string = args },
)

unfoldable pub apply_target_uri : Ngx → RequestState → Bytes → Bool → Http × RequestState
apply_target_uri ngx s target qsa =
    let mark = ngx.strlchr target b'?' in
    set_target (rooted (target_path target mark))
      (with_query qsa (target_args target mark) s.query_string) s
