-- ===== src/Engine/Rewrite/Agree.antt =====
-- The state of the rules and the request agree.
use ngx_htaccess.Common.{
  ◌≡◌, ◌∙◌, inl, inr, Bool, true, false, not, ◌&&◌, ◌||◌, List, [], ◌∷◌, Option, none, some,
  if◌then◌else◌, Bytes, Bool-cases, Outcome, ok, error, fault, out_of_fuel, ◌>>=◌,
}
use ngx_htaccess.Directives.{Directive, RewriteRule, Regex, DirCtx, MergedCtx}
use ngx_htaccess.Engine.Conds.Decided.{IsDecided, match_conditions-IsDecided}
use ngx_htaccess.Engine.Conds.{Context, match_conditions}
use ngx_htaccess.Engine.Expand.Total.{expand-IsDone}
use ngx_htaccess.Engine.Expand.{expand}
use ngx_htaccess.Engine.Rewrite.{
  Rewriting, Next, onwards, returns, apply_env_flags, apply_matched, apply_exec, by_conditions,
  by_regex, apply_rule, is_rewrite_rule, apply_directives, apply_dirs, rewrite_result,
  apply_rewrite,
}
use ngx_htaccess.Engine.Uris.{Http, is_dash, relative_uri, compile_rule}
use ngx_htaccess.Engine.State.{RequestState, Result, Match, Exec, matched, unmatched, refused}
use ngx_htaccess.Engine.Rewrite.Sound.{
  Agrees, Promises, Sound, Sound-if, Sound-continue, HasUri, apply_env_flags-HasUri, Sound-by_sub,
}

module _ (cx : Context) where
  open cx use {ngx, rx, request}

  Sound-apply_matched :
      (dir : DirCtx) (rule : RewriteRule) (m : Match) (w : Rewriting)
      → Agrees cx w
      → Sound cx (apply_matched cx dir rule m w)
  unfolding apply_matched
  Sound-apply_matched dir rule m w h = elim (Bool-cases (is_dash rule.substitution)) [
    | inl dash ↦
        rw dash (elim (Bool-cases (rule.last || rule.end)) [
          | inl ends ↦ rw ends h
          | inr goes ↦ rw goes h
        ])
    | inr other ↦ rw other (
        Sound-by_sub cx dir rule m w (expand ngx request w.state rule.substitution (some m))
          (expand-IsDone ngx request w.state rule.substitution (some m)) h)
  ]

  Sound-apply_exec :
      (dir : DirCtx) (rule : RewriteRule) (rel : Bytes) (e : Exec) (w : Rewriting)
      → Agrees cx w
      → Sound cx (apply_exec cx dir rule rel e w)
  unfolding apply_exec
  Sound-apply_exec dir rule rel (matched captures) w h =
      set (apply_env_flags cx rule.env_vars (record { text = rel; captures = captures }) w.state) (
        apply_env_flags-HasUri cx rule.env_vars (record { text = rel; captures = captures })
          w.state)
    where
      set :
          (o : Outcome RequestState)
          → HasUri cx w.state.uri o
          → Sound cx (
              o >>= λ t.
              apply_matched cx dir rule
                (record { text = rel; captures = captures })
                (record w {
                  state = t;
                  chain_active = if rule.chain then true else w.chain_active;
                }))
      set (ok t) e =
          Sound-apply_matched dir rule (record { text = rel; captures = captures }) _ (e ∙ h)
      set error e = e
      set fault e = tt
      set out_of_fuel e = e
  Sound-apply_exec dir rule rel unmatched w h = h
  Sound-apply_exec dir rule rel refused w h = h

  Sound-by_conditions :
      (dir : DirCtx) (rule : RewriteRule) (e : Regex) (w : Rewriting) (o : Outcome Bool)
      → IsDecided o
      → Agrees cx w
      → Sound cx (by_conditions cx dir rule e w o)
  Sound-by_conditions dir rule e w (ok true) d h =
      Sound-apply_exec dir rule (relative_uri w.state.uri dir.url_prefix) _ w h
  Sound-by_conditions dir rule e w (ok false) d h = h
  Sound-by_conditions dir rule e w error d h = d
  Sound-by_conditions dir rule e w fault d h = tt
  Sound-by_conditions dir rule e w out_of_fuel d h = d

  Sound-by_regex :
      (dir : DirCtx) (rule : RewriteRule) (w : Rewriting) (e : Option Regex)
      → Agrees cx w
      → Sound cx (by_regex cx dir rule w e)
  Sound-by_regex dir rule w none h = h
  Sound-by_regex dir rule w (some e) h =
      Sound-by_conditions dir rule e w
        (match_conditions (record cx { state = w.state }) rule.conditions)
        (match_conditions-IsDecided (record cx { state = w.state }) rule.conditions) h

  Sound-apply_rule :
      (dir : DirCtx) (rule : RewriteRule) (w : Rewriting)
      → Agrees cx w
      → Sound cx (apply_rule cx dir rule w)
  unfolding apply_rule
  Sound-apply_rule dir rule w h =
      Sound-if cx (rule.chain_in && not w.chain_active) (ok (onwards w))
        (by_regex cx dir rule w (compile_rule rx rule)) h
        (Sound-by_regex dir rule w (compile_rule rx rule) h)

  Sound-apply_directives :
      (dir : DirCtx) (l : List Directive) (w : Rewriting)
      → Agrees cx w
      → Sound cx (apply_directives cx dir l w)
  unfolding apply_directives
  Sound-apply_directives dir [] w h = h
  Sound-apply_directives dir (d ∷ l) w h =
      Sound-continue cx
        (if is_rewrite_rule cx d.id then apply_rule cx dir d.rewrite_rule w else ok (onwards w))
        (λ v. apply_directives cx dir l v)
        (Sound-if cx (is_rewrite_rule cx d.id) (apply_rule cx dir d.rewrite_rule w) (ok (onwards w))
          (Sound-apply_rule dir d.rewrite_rule w h) h)
        (λ v k. Sound-apply_directives dir l v k)

  Sound-apply_dirs : (l : List DirCtx) (w : Rewriting) → Agrees cx w → Sound cx (apply_dirs cx l w)
  unfolding apply_dirs
  Sound-apply_dirs [] w h = h
  Sound-apply_dirs (dir ∷ l) w h =
      Sound-continue cx
        (if dir.rewrite_engine then apply_directives cx dir dir.directives w else ok (onwards w))
        (λ v. apply_dirs cx l v)
        (Sound-if cx dir.rewrite_engine (apply_directives cx dir dir.directives w) (ok (onwards w))
          (Sound-apply_directives dir dir.directives w h) h)
        (λ v k. Sound-apply_dirs l v k)

  -- What the whole function promises; a fault is a group of a match that was never written.
  abbrev pub PromisesAll : Outcome (Rewriting × Result) → Type 0
  PromisesAll (ok (w, r)) = Promises cx r w
  PromisesAll fault = Unit
  PromisesAll _ = ⊥

  -- Where the state and the request have the same URI, htaccess_apply_rewrite returns, unless it reads
  -- a group of a match that was never written: a redirect has a code that is not 0; with any other
  -- result the state and the request still have the same URI; and a rewrite that is done leaves a URI
  -- without question mark that begins with a slash unless it is empty.
  pub apply_rewrite-PromisesAll :
      (m : MergedCtx) (http : Http) (s : RequestState)
      → s.uri ≡ http.uri
      → PromisesAll (apply_rewrite cx m http s)
  unfolding apply_rewrite
  apply_rewrite-PromisesAll m http s h =
      read (apply_dirs cx m.dirs (record { http = http; state = s; chain_active = false }))
        (Sound-apply_dirs m.dirs (record { http = http; state = s; chain_active = false }) h)
    where
      read : (o : Outcome Next) → Sound cx o → PromisesAll (o >>= λ n. ok (rewrite_result cx n))
      read (ok (onwards v)) k = k
      read (ok (returns t v)) k = k
      read error k = k
      read fault k = tt
      read out_of_fuel k = k
