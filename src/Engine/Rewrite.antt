-- ===== src/Engine/Rewrite.antt =====
-- The rules: htaccess_apply_env_flags and htaccess_apply_rewrite of src/htaccess_rewrite.c.
pub mod Sound
pub mod Agree
pub mod Chains
use ngx_htaccess.Common.{
  ℕ, ◌+◌, Bool, true, false, not, ◌&&◌, ◌||◌, List, [], ◌∷◌, ◌++◌, Option, none, some, ◌==◌, leb,
  ltb, if◌then◌else◌, Bytes, codes, length, take, drop, strncmp_eq, Outcome, ok, error, fault,
  out_of_fuel, ◌>>=◌,
}
use ngx_htaccess.Directives.{DirectiveId, Directive, RewriteRule, Regex, DirCtx, MergedCtx}
use ngx_htaccess.Engine.Conds.{Context, match_conditions}
use ngx_htaccess.Engine.Expand.{expand}
use ngx_htaccess.Engine.State.{
  RequestState, Result, Match, Regexes, Exec, matched, unmatched, refused, env_set,
}
use ngx_htaccess.Ngx.{Ngx}
use ngx_htaccess.Parser.Conds.{byte_at}
use ngx_htaccess.Engine.Uris.{
  Http, compile_rule, behind_slash, relative_uri, goes_on_from, is_dash, apply_substitution,
  target_path, target_args, with_query, rooted, unparsed, set_target, apply_target_uri,
}

-- What the loop over the rules changes.
pub record Rewriting : Type 0 where
  pub http : Http
  pub state : RequestState
  pub chain_active : Bool

-- The loop goes on, or the function returns.
pub data Next : Type 0 where
  onwards : Rewriting → Next
  returns : Result → Rewriting → Next

module _ (cx : Context) where
  open cx use {ngx, rx, request}

  -- A variable whose value has no error is set.
  abbrev pub set_expanded : RequestState → Bytes → Outcome Bytes → Outcome RequestState
  set_expanded s name (ok value) = ok (env_set s name value)
  set_expanded s name error = ok s
  set_expanded s name fault = fault
  set_expanded s name out_of_fuel = out_of_fuel

  abbrev pub set_at : RequestState → Match → Bytes → Option ℕ → Outcome RequestState
  set_at s m text none = ok s
  set_at s m text (some i) =
      set_expanded s (take i text) (expand ngx request s (drop (i + 1) text) (some m))

  -- `htaccess_apply_env_flags`
  unfoldable pub apply_env_flags : List Bytes → Match → RequestState → Outcome RequestState
  unfolding expand env_set
  apply_env_flags [] m s = ok s
  apply_env_flags (text ∷ l) m s =
      set_at s m text (ngx.strlchr text b':') >>= λ t. apply_env_flags l m t

  -- A rule that does not match breaks its chain.
  abbrev pub broken_chain : RewriteRule → Rewriting → Outcome Next
  broken_chain rule w =
      ok (onwards (record w { chain_active = if rule.chain then false else w.chain_active }))

  abbrev pub keep_sub : Bytes → Outcome Bytes → Outcome Bytes
  keep_sub out (ok sub) = ok sub
  keep_sub out error = ok out
  keep_sub out fault = fault
  keep_sub out out_of_fuel = out_of_fuel

  -- The target of a rule: a path of its own, or one below the directory's base.
  unfoldable pub full_target : DirCtx → RewriteRule → Match → RequestState → Bytes → Outcome Bytes
  unfolding apply_substitution expand
  full_target dir rule m s sub =
      let out = apply_substitution rule m.text dir.rewrite_base in
      if ltb 0 (length sub)
        && not (byte_at sub 0 == b'/')
        && not (goes_on_from sub (codes "http://"))
        && not (goes_on_from sub (codes "https://"))
        && has_no_mark (ngx.strlchr sub b'?')
      then keep_sub out (expand ngx request s out (some m))
      else ok sub
    where
      has_no_mark : Option ℕ → Bool
      has_no_mark none = true
      has_no_mark (some i) = false

  -- A redirect, or the new URI of the request.
  unfoldable pub send_target : RewriteRule → Rewriting → Bytes → Next
  unfolding apply_target_uri
  send_target rule w out =
      let t = apply_target_uri ngx w.state out rule.qsa in
      let moved = record w { http = t.0; state = t.1; chain_active = false } in
      if rule.redirect
      then returns Result.redirect (record w {
        state = record (w.state) {
          uri = out;
          redirect_code = if rule.redirect_code == 0 then 302 else rule.redirect_code;
        };
      })
      else if rule.last || rule.end
      then returns Result.done moved
      else onwards moved

  abbrev pub by_target : RewriteRule → Rewriting → Outcome Bytes → Outcome Next
  by_target rule w (ok out) = ok (send_target rule w out)
  by_target rule w error = ok (returns Result.failed w)
  by_target rule w fault = fault
  by_target rule w out_of_fuel = out_of_fuel

  abbrev pub by_sub : DirCtx → RewriteRule → Match → Rewriting → Outcome Bytes → Outcome Next
  by_sub dir rule m w (ok sub) =
      if rule.chain && not (rule.last || rule.end)
      then ok (onwards w)
      else by_target rule w (full_target dir rule m w.state sub)
  by_sub dir rule m w error = ok (returns Result.failed w)
  by_sub dir rule m w fault = fault
  by_sub dir rule m w out_of_fuel = out_of_fuel

  -- Behind the match of a rule, once its variables are set.
  unfoldable pub apply_matched : DirCtx → RewriteRule → Match → Rewriting → Outcome Next
  unfolding full_target send_target expand
  apply_matched dir rule m w =
      if is_dash rule.substitution
      then ok (if rule.last || rule.end then returns Result.declined w else onwards w)
      else by_sub dir rule m w (expand ngx request w.state rule.substitution (some m))

  -- Behind the test of the conditions.
  unfoldable pub apply_exec : DirCtx → RewriteRule → Bytes → Exec → Rewriting → Outcome Next
  unfolding apply_env_flags apply_matched
  apply_exec dir rule rel (matched captures) w =
      let m : Match = record { text = rel; captures = captures } in
      apply_env_flags rule.env_vars m w.state >>= λ t.
      apply_matched dir rule m
        (record w { state = t; chain_active = if rule.chain then true else w.chain_active })
  apply_exec dir rule rel unmatched w = broken_chain rule w
  apply_exec dir rule rel refused w = ok (returns Result.failed w)

  abbrev pub by_conditions : DirCtx → RewriteRule → Regex → Rewriting → Outcome Bool → Outcome Next
  by_conditions dir rule e w (ok true) =
      let rel = relative_uri w.state.uri dir.url_prefix in apply_exec dir rule rel (rx.exec e rel) w
  by_conditions dir rule e w (ok false) = broken_chain rule w
  by_conditions dir rule e w error = error
  by_conditions dir rule e w fault = fault
  by_conditions dir rule e w out_of_fuel = out_of_fuel

  abbrev pub by_regex : DirCtx → RewriteRule → Rewriting → Option Regex → Outcome Next
  by_regex dir rule w none = broken_chain rule w
  by_regex dir rule w (some e) =
      by_conditions dir rule e w (match_conditions (record cx { state = w.state }) rule.conditions)

  -- A round of the inner loop at a rule.
  unfoldable pub apply_rule : DirCtx → RewriteRule → Rewriting → Outcome Next
  unfolding compile_rule relative_uri apply_exec match_conditions
  apply_rule dir rule w =
      if rule.chain_in && not w.chain_active
      then ok (onwards w)
      else by_regex dir rule w (compile_rule rx rule)

  abbrev pub is_rewrite_rule : DirectiveId → Bool
  is_rewrite_rule DirectiveId.rewrite_rule = true
  is_rewrite_rule _ = false

  -- The loop goes on where it did not return.
  abbrev pub continue : Outcome Next → (Rewriting → Outcome Next) → Outcome Next
  continue (ok (onwards v)) k = k v
  continue (ok (returns r v)) k = ok (returns r v)
  continue error k = error
  continue fault k = fault
  continue out_of_fuel k = out_of_fuel

  -- The inner loop.
  unfoldable pub apply_directives : DirCtx → List Directive → Rewriting → Outcome Next
  unfolding apply_rule
  apply_directives dir [] w = ok (onwards w)
  apply_directives dir (d ∷ l) w =
      continue (if is_rewrite_rule d.id then apply_rule dir d.rewrite_rule w else ok (onwards w))
        (λ v. apply_directives dir l v)

  -- The outer loop.
  unfoldable pub apply_dirs : List DirCtx → Rewriting → Outcome Next
  unfolding apply_directives
  apply_dirs [] w = ok (onwards w)
  apply_dirs (dir ∷ l) w =
      continue
        (if dir.rewrite_engine then apply_directives dir dir.directives w else ok (onwards w))
        (λ v. apply_dirs l v)

  abbrev pub rewrite_result : Next → Rewriting × Result
  rewrite_result (onwards v) = (v, Result.declined)
  rewrite_result (returns r v) = (v, r)

  unfoldable pub apply_rewrite : MergedCtx → Http → RequestState → Outcome (Rewriting × Result)
  unfolding apply_dirs
  apply_rewrite m http s =
      apply_dirs m.dirs (record { http = http; state = s; chain_active = false }) >>= λ n.
      ok (rewrite_result n)
