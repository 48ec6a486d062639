-- ===== src/Engine/Alias.antt =====
-- src/htaccess_alias.c: the directives Redirect and RedirectMatch.
pub mod Prefix
pub mod First
use ngx_htaccess.Common.{
  ℕ, Bool, true, false, not, ◌||◌, List, [], ◌∷◌, Option, none, some, ◌==◌, ltb, if◌then◌else◌,
  Bytes, length, strncmp_eq,
}
use ngx_htaccess.Directives.{DirectiveId, Directive, AliasRedirect, Regex, DirCtx, MergedCtx}
use ngx_htaccess.Engine.State.{RequestState, Result, Regexes, Exec, matched, unmatched, refused}
use ngx_htaccess.Parser.Conds.{byte_at}

-- `htaccess_alias_match`: NGX_OK with `*out`, NGX_DECLINED or NGX_ERROR.
pub data Aliased : Type 0 where
  redirected : Bytes → Aliased
  passed broken : Aliased

abbrev pub alias_regex : AliasRedirect → Regex
alias_regex alias = record { pattern = alias.from; caseless = false }

module _ (rx : Regexes) where
  open rx use {compiles, exec}

  -- `htaccess_compile_alias`: the regular expression, which stays in the directive.
  unfoldable pub compile_alias : AliasRedirect → Option Regex
  compile_alias alias = elim alias.regex [
    | some e ↦ some e
    | none ↦ if compiles (alias_regex alias) then some (alias_regex alias) else none
  ]

  abbrev pub by_exec : Bytes → Exec → Aliased
  by_exec to (matched captures) = redirected to
  by_exec to unmatched = passed
  by_exec to refused = broken

  -- A pattern, once it is compiled.
  abbrev pub match_compiled : AliasRedirect → Bytes → Option Regex → Aliased × AliasRedirect
  match_compiled alias uri none = (broken, alias)
  match_compiled alias uri (some e) =
      (by_exec alias.to (exec e uri), record alias { regex = some e })

  -- A path, which is a whole part of the URI's beginning.
  unfoldable pub match_path : AliasRedirect → Bytes → Aliased
  unfolding strncmp_eq
  match_path alias uri =
      let n = length alias.from in
      if ltb (length uri) n
      then passed
      else if not (strncmp_eq uri alias.from n)
      then passed
      else if length uri == n || byte_at uri n == b'/' || byte_at uri n == b'?'
      then redirected alias.to
      else passed

  unfoldable pub alias_match : AliasRedirect → Bytes → Bool → Aliased × AliasRedirect
  unfolding compile_alias match_path
  alias_match alias uri true = match_compiled alias uri (compile_alias alias)
  alias_match alias uri false = (match_path alias uri, alias)

  -- The switch of `htaccess_apply_alias`: whether the directive is a redirect, and by a pattern.
  abbrev pub alias_kind : DirectiveId → Option Bool
  alias_kind DirectiveId.redirect = some false
  alias_kind DirectiveId.redirect_permanent = some false
  alias_kind DirectiveId.redirect_temp = some false
  alias_kind DirectiveId.redirect_match = some true
  alias_kind _ = none

  -- NGX_HTTP_MOVED_PERMANENTLY or NGX_HTTP_MOVED_TEMPORARILY
  abbrev pub moved : AliasRedirect → Bytes → RequestState → RequestState
  moved alias out s = record s { uri = out; redirect_code = if alias.permanent then 301 else 302 }

  abbrev pub by_match :
      Directive
      → Aliased × AliasRedirect
      → List Directive
      → List Directive × Option RequestState
      → RequestState
      → List Directive × Option RequestState
  by_match d (redirected out, alias) l rest s =
      (record d { alias = alias } ∷ l, some (moved alias out s))
  by_match d (passed, alias) l rest s = (record d { alias = alias } ∷ rest.0, rest.1)
  by_match d (broken, alias) l rest s = (record d { alias = alias } ∷ rest.0, rest.1)

  abbrev pub by_kind :
      Directive
      → Option Bool
      → List Directive
      → List Directive × Option RequestState
      → RequestState
      → List Directive × Option RequestState
  by_kind d none l rest s = (d ∷ rest.0, rest.1)
  by_kind d (some regex) l rest s = by_match d (alias_match d.alias s.uri regex) l rest s

  -- The inner loop, over the directives of a directory: the state of a redirect, if there is one.
  unfoldable pub alias_directives :
      List Directive → RequestState → List Directive × Option RequestState
  unfolding alias_match
  alias_directives [] s = ([], none)
  alias_directives (d ∷ l) s =
      let rest = alias_directives l s in by_kind d (alias_kind d.id) l rest s

  abbrev pub by_directives :
      DirCtx
      → List Directive × Option RequestState
      → List DirCtx
      → List DirCtx × Option RequestState
      → List DirCtx × Option RequestState
  by_directives dir (ds, some s) l rest = (record dir { directives = ds } ∷ l, some s)
  by_directives dir (ds, none) l rest = (record dir { directives = ds } ∷ rest.0, rest.1)

  -- The outer loop, over the directories.
  unfoldable pub alias_dirs : List DirCtx → RequestState → List DirCtx × Option RequestState
  unfolding alias_directives
  alias_dirs [] s = ([], none)
  alias_dirs (dir ∷ l) s =
      let rest = alias_dirs l s in by_directives dir (alias_directives dir.directives s) l rest

  -- HTACCESS_RESULT_REDIRECT with the new state, or HTACCESS_RESULT_DECLINED.
  abbrev pub alias_result : RequestState → Option RequestState → RequestState × Result
  alias_result s none = (s, Result.declined)
  alias_result s (some t) = (t, Result.redirect)

  unfoldable pub apply_alias : MergedCtx → RequestState → MergedCtx × (RequestState × Result)
  unfolding alias_dirs
  apply_alias m s = let r = alias_dirs m.dirs s in (record m { dirs = r.0 }, alias_result s r.1)
