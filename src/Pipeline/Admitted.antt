-- ===== src/Pipeline/Admitted.antt =====
-- What a pass promises that leaves the loop.
use ngx_htaccess.Common.{
  ℕ, ◌≡◌, ◌≢◌, refl, sym, ◌∙◌, inl, inr, ◌⊎◌, Bool, true, false, List, Option, none, some,
  if◌then◌else◌, Bytes, All, arith, Outcome, ok, error, fault, out_of_fuel, ◌>>=◌,
}
use ngx_htaccess.Directives.{FilesRule, MergedCtx}
use ngx_htaccess.Engine.Alias.{alias_dirs, alias_result, apply_alias}
use ngx_htaccess.Engine.Auth.Decision.{outcome_of, apply_auth-decision}
use ngx_htaccess.Engine.Auth.Kinds.{decision, decision-same}
use ngx_htaccess.Engine.Auth.{Required, granted, unauthorized, refused, undecided, apply_auth}
use ngx_htaccess.Engine.Conds.{Context}
use ngx_htaccess.Engine.FilesRules.Denied.{any_denies, apply_files_deny-any_denies}
use ngx_htaccess.Engine.FilesRules.{files_target}
use ngx_htaccess.Engine.Rewrite.{Rewriting}
use ngx_htaccess.Engine.State.{RequestState, Response, Result}
use ngx_htaccess.Pipeline.Promised.{send_redirect-PassedWell}
use ngx_htaccess.Pipeline.Promised.{IsStatus, rewritten}
use ngx_htaccess.Pipeline.{
  View, Passed, again, returns, leaves, error_uri, by_document, by_auth, by_rewrite, by_alias,
  by_files, run_pass,
}
use ngx_htaccess.Walk.Build.Patterns.{HasPattern, IsPatterned}

module _ (cx : Context) where
  open cx use {ngx, sys, rx, root}

  -- The rules for files and the requirements of the context let the request pass.
  pub record Admits (m : MergedCtx) (v : View) : Type 0 where
    pub no_rule : any_denies rx (files_target v.http.uri) m.files_rules ≡ false
    pub decided : (decision cx m ≡ granted) ⊎ (decision cx m ≡ undecided)

  -- What a pass promises that leaves the loop, or returns.
  abbrev pub LeftWell : MergedCtx → Outcome Passed → Type 0
  LeftWell m (ok (again v)) = Unit
  LeftWell m (ok (returns code v)) = IsStatus code
  LeftWell m (ok (leaves v)) = Admits m v
  LeftWell m _ = Unit

  -- The compiled rules of a context admit the same.
  LeftWell-compiled :
      (m m' : MergedCtx) (o : Outcome Passed)
      → ((other : Bytes) → any_denies rx other m'.files_rules ≡ any_denies rx other m.files_rules)
      → decision cx m' ≡ decision cx m
      → LeftWell m' o
      → LeftWell m o
  LeftWell-compiled m m' (ok (again v)) same d h = tt
  LeftWell-compiled m m' (ok (returns code v)) same d h = h
  LeftWell-compiled m m' (ok (leaves v)) same d h = record {
    no_rule = sym (same (files_target v.http.uri)) ∙ h.no_rule;
    decided = elim h.decided [ inl g ↦ inl (sym d ∙ g) | inr u ↦ inr (sym d ∙ u) ];
  }
  LeftWell-compiled m m' error same d h = tt
  LeftWell-compiled m m' fault same d h = tt
  LeftWell-compiled m m' out_of_fuel same d h = tt

  by_document-LeftWell :
      (m : MergedCtx) (code : ℕ) (v : View) (o : Option Bytes)
      → code ≢ 0
      → LeftWell m (ok (by_document code v o))
  by_document-LeftWell m code v none h = h
  by_document-LeftWell m code v (some uri) h = tt

  -- By whether a rule denies, and by the decision.
  by_auth-LeftWell :
      (v : View) (m m' : MergedCtx) (r : Response) (b : Bool) (q : Required)
      → any_denies rx (files_target v.http.uri) m.files_rules ≡ b
      → decision cx m ≡ q
      → LeftWell m
          (ok (by_auth cx v (m', (if b then (r, Result.forbidden) else outcome_of cx m r q))))
  unfolding by_auth
  by_auth-LeftWell v m m' r true q e d =
      by_document-LeftWell m 403 _ (error_uri m'.error_documents 403) (λ e. omega (arith, e))
  by_auth-LeftWell v m m' r false granted e d = record { no_rule = e; decided = inl d }
  by_auth-LeftWell v m m' r false undecided e d = record { no_rule = e; decided = inr d }
  by_auth-LeftWell v m m' r false unauthorized e d =
      by_document-LeftWell m 401 _ (error_uri m'.error_documents 401) (λ e. omega (arith, e))
  by_auth-LeftWell v m m' r false refused e d =
      by_document-LeftWell m 403 _ (error_uri m'.error_documents 403) (λ e. omega (arith, e))

  authorized-LeftWell :
      (v : View) (m : MergedCtx) (r : Response)
      → IsPatterned m
      → LeftWell m (apply_auth cx m v.http.uri r >>= λ a. ok (by_auth cx v a))
  authorized-LeftWell v m r h =
      let (rules, returned, _, _) = apply_auth-decision cx m v.http.uri r h in
      rw returned (by_auth-LeftWell v m (record m { files_rules = rules }) r _ _ refl refl)

  by_rewrite-LeftWell :
      (m : MergedCtx) (r : Response) (w : Rewriting) (a : Result)
      → IsPatterned m
      → LeftWell m (by_rewrite cx m r (w, a))
  unfolding by_rewrite
  by_rewrite-LeftWell m r w Result.redirect h = send_redirect-PassedWell (rewritten w r)
  by_rewrite-LeftWell m r w Result.done h = tt
  by_rewrite-LeftWell m r w Result.declined h = authorized-LeftWell (rewritten w r) m r h
  by_rewrite-LeftWell m r w Result.forbidden h = authorized-LeftWell (rewritten w r) m r h
  by_rewrite-LeftWell m r w Result.unauthorized h = authorized-LeftWell (rewritten w r) m r h
  by_rewrite-LeftWell m r w Result.failed h = authorized-LeftWell (rewritten w r) m r h

  rewrite-LeftWell :
      (m : MergedCtx) (r : Response) (o : Outcome (Rewriting × Result))
      → IsPatterned m
      → LeftWell m (o >>= λ a. by_rewrite cx m r a)
  rewrite-LeftWell m r (ok (w, a)) h = by_rewrite-LeftWell m r w a h
  rewrite-LeftWell m r error h = tt
  rewrite-LeftWell m r fault h = tt
  rewrite-LeftWell m r out_of_fuel h = tt

  -- Behind the redirects, by the state of one that was taken.
  alias-LeftWell :
      (v : View) (m : MergedCtx) (taken : Option RequestState)
      → IsPatterned m
      → LeftWell m (by_alias cx v (m, alias_result rx v.state taken))
  unfolding by_alias
  alias-LeftWell v m none p = rewrite-LeftWell m v.response _ p
  alias-LeftWell v m (some s) p = send_redirect-PassedWell (record v { state = s })

  apply_alias-LeftWell :
      (v : View) (m : MergedCtx)
      → IsPatterned m
      → LeftWell m (by_alias cx v (apply_alias rx m v.state))
  unfolding apply_alias
  apply_alias-LeftWell v m p =
      let m' = record m { dirs = (alias_dirs rx m.dirs v.state).0 } in
      LeftWell-compiled m m' _ (λ other. refl)
        (decision-same cx m m.files_rules (alias_dirs rx m.dirs v.state).0)
        (alias-LeftWell v m' (alias_dirs rx m.dirs v.state).1 p)

  pub run_pass-LeftWell :
      (first : Bool) (request_uri : Bytes) (m : MergedCtx) (v : View)
      → IsPatterned m
      → LeftWell m (run_pass cx first request_uri m v)
  unfolding run_pass by_files
  run_pass-LeftWell false request_uri m v p = apply_alias-LeftWell v m p
  run_pass-LeftWell true request_uri m v p =
      let (rules, returned, patterned, same) = apply_files_deny-any_denies rx m request_uri p in
      rw returned
        (tested rules patterned same (any_denies rx (files_target request_uri) m.files_rules))
    where
      tested :
          (rules : List FilesRule)
          → All HasPattern rules
          → ((other : Bytes) → any_denies rx other rules ≡ any_denies rx other m.files_rules)
          → (b : Bool)
          → LeftWell m (
              by_files cx v (
                record m { files_rules = rules },
                (if b then Result.forbidden else Result.declined),
              ))
      tested rules patterned same true = λ e. omega (arith, e)
      tested rules patterned same false =
          LeftWell-compiled m (record m { files_rules = rules }) _ same
            (decision-same cx m rules m.dirs)
            (apply_alias-LeftWell v (record m { files_rules = rules }) patterned)
