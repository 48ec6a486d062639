-- ===== src/Pipeline/Returns.antt =====
-- A request ends with a result of nginx.
use ngx_htaccess.Common.{
  List, [], ◌++◌, Bool, true, false, if◌then◌else◌, ℕ, zero, suc, Bytes, Outcome, ok, error, fault,
  out_of_fuel, ◌>>=◌,
}
use ngx_htaccess.Directives.{MergedCtx}
use ngx_htaccess.Engine.Conds.{Context, Code, number, code_declined, code_error}
use ngx_htaccess.Engine.Uris.{Http}
use ngx_htaccess.Engine.State.{Response}
use ngx_htaccess.Pipeline.{
  LocConf, View, Passed, again, returns, leaves, walk_conf, run_pass, by_passed, built, passes,
  start_state, execute,
}
use ngx_htaccess.Walk.Build.Levels.{Reads, Reads-build_merged_ctx}
use ngx_htaccess.Walk.Build.Patterns.{IsPatterned, Patterned, build_merged_ctx-Patterned}
use ngx_htaccess.Walk.Build.{Walking, dangles}
use ngx_htaccess.Walk.Load.Views.{IsCoherent}
use ngx_htaccess.Walk.Load.{Worker}
use ngx_htaccess.Pipeline.Promised.{
  uri-resolve_filename, run_pass-PassedWell, Agrees, IsStatus, PassedWell,
}

module _ (cx : Context) where
  open cx use {ngx, sys, rx, root}

  module _ (loc : LocConf) (request_uri : Bytes) where
    -- The function returns with a result of nginx that is not NGX_OK, and a coherent cache.
    abbrev pub Ends : Outcome (Code × (Worker × View)) → Type 0
    Ends (ok (code_declined, (w, v))) = IsCoherent ngx sys w
    Ends (ok (code, (w, v))) = IsStatus code × IsCoherent ngx sys w
    Ends fault = Unit
    Ends _ = ⊥

    returned-Ends :
        (code : Code) (w : Worker) (v : View)
        → IsStatus code
        → IsCoherent ngx sys w
        → Ends (ok (code, (w, v)))
    returned-Ends (number n) w v h c = (h, c)
    returned-Ends code_declined w v h c = c
    returned-Ends code_error w v h c = (h, c)

    by_passed-Ends :
        (w : Worker) (o : Outcome Passed) (k : View → Outcome (Code × (Worker × View)))
        → IsCoherent ngx sys w
        → PassedWell o
        → ((v : View) → Agrees v → Ends (k v))
        → Ends (o >>= λ p. by_passed cx loc request_uri w p k)
    by_passed-Ends w (ok (again v)) k c h next = next v h
    by_passed-Ends w (ok (returns code v)) k c h next = returned-Ends code w v h c
    by_passed-Ends w (ok (leaves v)) k c h next = c
    by_passed-Ends w fault k c h next = tt
    by_passed-Ends w error k c h next = h
    by_passed-Ends w out_of_fuel k c h next = h

    built-Ends :
        (held : List ℕ) (o : Outcome Walking) (n : Outcome MergedCtx) (w : Worker) (v : View)
        (k : Walking → Outcome (Code × (Worker × View)))
        → Reads ngx sys (walk_conf root loc) o n
        → Patterned ngx sys (walk_conf root loc) o
        → ((s : Walking) → IsCoherent ngx sys s.worker → IsPatterned s.context → Ends (k s))
        → Ends (built cx loc request_uri held o w v k)
    built-Ends held (ok s) n w v k h p next = freed (dangles held s) (next s h.1 p)
      where
        freed : (b : Bool) → Ends (k s) → Ends (if b then fault else k s)
        freed true e = tt
        freed false e = e
    built-Ends held error n w v k h p next = absurd h
    built-Ends held fault n w v k h p next = tt
    built-Ends held out_of_fuel n w v k h p next = absurd h

    passes-Ends :
        (n : ℕ) (first : Bool) (held : List ℕ) (w : Worker) (v : View)
        → IsCoherent ngx sys w
        → Agrees v
        → Ends (passes cx loc request_uri n first held w v)
    unfolding passes
    passes-Ends zero first held w v c h = c
    passes-Ends (suc n) first held w v c h =
        built-Ends held _ _ w v _
          (Reads-build_merged_ctx ngx sys (walk_conf root loc) v.http.uri w c)
          (build_merged_ctx-Patterned ngx sys (walk_conf root loc) v.http.uri w)
          (λ s c' p.
            by_passed-Ends s.worker (run_pass cx first request_uri s.context v) _ c'
              (run_pass-PassedWell cx first request_uri s.context v h p)
              (λ u k. passes-Ends n false (s.pools ++ held) s.worker u c' k))

  -- On a worker whose cache is valid and coherent, htaccess_execute returns, unless it reads memory
  -- that was never written, or is left with directives in a pool that the cache destroyed: with
  -- NGX_DECLINED, or with a status that is not 0, never with NGX_OK or NGX_ERROR; and the cache stays
  -- valid and coherent.
  pub execute-Ends :
      (loc : LocConf) (w : Worker) (http : Http) (r : Response)
      → IsCoherent ngx sys w
      → Ends loc http.uri (execute cx loc w http r)
  unfolding execute
  execute-Ends loc w http r c =
      passes-Ends loc http.uri loc.max_redirects true [] w _ c
        (uri-resolve_filename root (start_state http))
