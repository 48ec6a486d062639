-- ===== src/Pipeline/Served.antt =====
-- Which requests are served, and which are refused at once.
use ngx_htaccess.Common.{
  List, [], ◌++◌, Bool, true, false, if◌then◌else◌, ℕ, zero, suc, ◌≡◌, ◌≢◌, refl, subst, Bytes,
  Outcome, ok, error, fault, out_of_fuel, ◌>>=◌,
}
use ngx_htaccess.Directives.{MergedCtx}
use ngx_htaccess.Engine.Conds.{Context, Code, number, code_declined, code_error}
use ngx_htaccess.Engine.FilesRules.Denied.{any_denies, apply_files_deny-any_denies}
use ngx_htaccess.Engine.FilesRules.{files_target}
use ngx_htaccess.Engine.Uris.{Http}
use ngx_htaccess.Engine.State.{Response}
use ngx_htaccess.Pipeline.Promised.{IsStatus}
use ngx_htaccess.Pipeline.Admitted.{Admits, LeftWell, run_pass-LeftWell}
use ngx_htaccess.Pipeline.{
  start_view, LocConf, View, Passed, again, returns, leaves, walk_conf, by_files, run_pass,
  by_passed, built, passes, execute,
}
use ngx_htaccess.Walk.Build.Patterns.{IsPatterned, Patterned, build_merged_ctx-Patterned}
use ngx_htaccess.Walk.Build.{dangles, Walking, build_merged_ctx}
use ngx_htaccess.Walk.Load.{Worker}

module _ (cx : Context) where
  open cx use {ngx, sys, rx, root}

  denied_lem :
      (m : MergedCtx) (request_uri : Bytes) (v : View)
      → IsPatterned m
      → any_denies rx (files_target request_uri) m.files_rules ≡ true
      → run_pass cx true request_uri m v ≡ ok (returns (number 403) v)
  unfolding run_pass by_files
  denied_lem m request_uri v p h =
      let (rules, returned, _, _) = apply_files_deny-any_denies rx m request_uri p in
      rw (returned, h) refl

  module _ (loc : LocConf) (request_uri : Bytes) where
    -- How passes come to NGX_DECLINED: none is left, the last one admits the request of the view that
    -- it leaves by its context, or the first one begins again and those that follow come to it.
    pub data Declines : ℕ → Bool → Worker → View → Worker → View → Type 0 where
      spent : (first : Bool) (w : Worker) (v : View) → Declines zero first w v w v
      admitted :
          (n : ℕ) (first : Bool) (w : Worker) (v : View) (s : Walking) (u : View)
          → build_merged_ctx ngx sys (walk_conf root loc) v.http.uri w ≡ ok s
          → run_pass cx first request_uri s.context v ≡ ok (leaves u)
          → Admits cx s.context u
          → Declines (suc n) first w v s.worker u
      later :
          (n : ℕ) (first : Bool) (w : Worker) (v : View) (s : Walking) (u : View) (w' : Worker)
          (v' : View)
          → build_merged_ctx ngx sys (walk_conf root loc) v.http.uri w ≡ ok s
          → run_pass cx first request_uri s.context v ≡ ok (again u)
          → Declines n false s.worker u w' v'
          → Declines (suc n) first w v w' v'

    -- A result that is NGX_DECLINED came about so.
    abbrev pub Explained : ℕ → Bool → Worker → View → Outcome (Code × (Worker × View)) → Type 0
    Explained n first w v (ok (code_declined, (w', v'))) = Declines n first w v w' v'
    Explained n first w v _ = Unit

    returned-Explained :
        (n : ℕ) (first : Bool) (w w' : Worker) (v v' : View) (code : Code)
        → IsStatus code
        → Explained n first w v (ok (code, (w', v')))
    returned-Explained n first w w' v v' (number k) h = tt
    returned-Explained n first w w' v v' code_declined h = absurd h
    returned-Explained n first w w' v v' code_error h = tt

    later-Explained :
        (n : ℕ) (first : Bool) (w : Worker) (v : View) (s : Walking) (u : View)
        (o : Outcome (Code × (Worker × View)))
        → build_merged_ctx ngx sys (walk_conf root loc) v.http.uri w ≡ ok s
        → run_pass cx first request_uri s.context v ≡ ok (again u)
        → Explained n false s.worker u o
        → Explained (suc n) first w v o
    later-Explained n first w v s u (ok (code_declined, (w', v'))) e a h =
        Declines.later n first w v s u w' v' e a h
    later-Explained n first w v s u (ok (number k, x)) e a h = tt
    later-Explained n first w v s u (ok (code_error, x)) e a h = tt
    later-Explained n first w v s u error e a h = tt
    later-Explained n first w v s u fault e a h = tt
    later-Explained n first w v s u out_of_fuel e a h = tt

    -- The result of a walk, with what it was the result of.
    built-Explained :
        (n : ℕ) (first : Bool) (w : Worker) (v : View) (held : List ℕ) (o : Outcome Walking)
        (k : Walking → Outcome (Code × (Worker × View)))
        → ((s : Walking) → o ≡ ok s → Explained n first w v (k s))
        → Explained n first w v (built cx loc request_uri held o w v k)
    built-Explained n first w v held (ok s) k h = freed (dangles held s) (h s refl)
      where
        freed :
            (b : Bool)
            → Explained n first w v (k s)
            → Explained n first w v (if b then fault else k s)
        freed true e = tt
        freed false e = e
    built-Explained n first w v held error k h = tt
    built-Explained n first w v held fault k h = tt
    built-Explained n first w v held out_of_fuel k h = tt

    by_passed-Explained :
        (n : ℕ) (first : Bool) (w : Worker) (v : View) (s : Walking) (o : Outcome Passed)
        (k : View → Outcome (Code × (Worker × View)))
        → build_merged_ctx ngx sys (walk_conf root loc) v.http.uri w ≡ ok s
        → run_pass cx first request_uri s.context v ≡ o
        → LeftWell cx s.context o
        → ((u : View) → Explained n false s.worker u (k u))
        → Explained (suc n) first w v (o >>= λ p. by_passed cx loc request_uri s.worker p k)
    by_passed-Explained n first w v s (ok (again u)) k e a h next =
        later-Explained n first w v s u (k u) e a (next u)
    by_passed-Explained n first w v s (ok (returns code u)) k e a h next =
        returned-Explained (suc n) first w s.worker v u code h
    by_passed-Explained n first w v s (ok (leaves u)) k e a h next =
        Declines.admitted n first w v s u e a h
    by_passed-Explained n first w v s error k e a h next = tt
    by_passed-Explained n first w v s fault k e a h next = tt
    by_passed-Explained n first w v s out_of_fuel k e a h next = tt

    passes-Explained :
        (n : ℕ) (first : Bool) (held : List ℕ) (w : Worker) (v : View)
        → Explained n first w v (passes cx loc request_uri n first held w v)
    unfolding passes
    passes-Explained zero first held w v = Declines.spent first w v
    passes-Explained (suc n) first held w v = built-Explained (suc n) first w v held _ _ (λ s e.
        by_passed-Explained n first w v s _ _ e refl
          (run_pass-LeftWell cx first request_uri s.context v (
            subst (Patterned ngx sys (walk_conf root loc)) e
              (build_merged_ctx-Patterned ngx sys (walk_conf root loc) v.http.uri w)))
          (λ u. passes-Explained n false (s.pools ++ held) s.worker u))

  -- A request that htaccess_execute lets nginx go on with (NGX_DECLINED) was either admitted in its
  -- last pass, by the context built for the URI of that pass: none of its rules for files denies the
  -- URI that the rules left, and its requirements are granted or undecided; or each of the
  -- `max_redirects` passes asked for another one, and no pass admitted the last URI.
  pub execute-Declines :
      (loc : LocConf) (w w' : Worker) (http : Http) (r : Response) (v : View)
      → execute cx loc w http r ≡ ok (code_declined, (w', v))
      → Declines loc http.uri loc.max_redirects true w (start_view cx http r) w' v
  unfolding execute
  execute-Declines loc w w' http r v e =
      subst (Explained loc http.uri loc.max_redirects true w (start_view cx http r)) e
        (passes-Explained loc http.uri loc.max_redirects true [] w (start_view cx http r))

  -- A request whose URI a rule for files denies, in the context that is built for it, ends with 403 in
  -- the first pass, before a redirect, a rewrite or an authorisation, and nothing of the request or
  -- its response has changed; at least one pass must be allowed. Only where the walk left directives
  -- in a pool that the cache destroyed is the result a fault.
  pub execute-any_denies :
      (loc : LocConf) (w : Worker) (http : Http) (r : Response) (s : Walking)
      → loc.max_redirects ≢ 0
      → build_merged_ctx ngx sys (walk_conf root loc) http.uri w ≡ ok s
      → any_denies rx (files_target http.uri) s.context.files_rules ≡ true
      → execute cx loc w http r
        ≡ (if dangles [] s then fault else ok (number 403, (s.worker, start_view cx http r)))
  unfolding execute
  execute-any_denies loc w http r s some_left e h = from loc.max_redirects some_left
    where
      denied :
          run_pass cx true http.uri s.context (start_view cx http r)
          ≡ ok (returns (number 403) (start_view cx http r))
      denied =
          denied_lem s.context http.uri (start_view cx http r)
            (subst (Patterned ngx sys (walk_conf root loc)) e
              (build_merged_ctx-Patterned ngx sys (walk_conf root loc) http.uri w))
            h

      from :
          (n : ℕ)
          → n ≢ 0
          → passes cx loc http.uri n true [] w (start_view cx http r)
            ≡ (if dangles [] s then fault else ok (number 403, (s.worker, start_view cx http r)))
      from zero n = absurd (n refl)
      from (suc n) _ = unfold passes in rw (e, denied) refl
