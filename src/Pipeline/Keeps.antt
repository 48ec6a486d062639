-- ===== src/Pipeline/Keeps.antt =====
-- What each load of a file keeps, a request keeps.
use ngx_htaccess.Common.{
  List, [], ◌++◌, true, if◌then◌else◌, ℕ, zero, suc, Bool, false, Bytes, Outcome, ok, error, fault,
  out_of_fuel, ◌>>=◌,
}
use ngx_htaccess.Engine.Conds.{Context, Code}
use ngx_htaccess.Engine.Uris.{Http}
use ngx_htaccess.Engine.State.{Response}
use ngx_htaccess.Pipeline.{
  LocConf, View, Passed, again, returns, leaves, walk_conf, run_pass, by_passed, built, passes,
  execute,
}
use ngx_htaccess.Walk.Build.Keeps.{WalkLeaves, WalkLeaves-build_merged_ctx}
use ngx_htaccess.Walk.Build.{dangles, Walking}
use ngx_htaccess.Walk.Load.Versions.{Leaves}
use ngx_htaccess.Walk.Load.{Worker, load_file}

-- The worker of a request has a property.
abbrev pub PassLeaves : (Worker → Type 0) → Outcome (Code × (Worker × View)) → Type 0
PassLeaves Q (ok (code, (w, v))) = Q w
PassLeaves Q _ = Unit

module _ (cx : Context) (loc : LocConf) (Q : Worker → Type 0)
    (keeps : (enable : Bool) (path : Bytes) (w : Worker)
      → Q w
      → Leaves Q (load_file cx.ngx cx.sys enable path w)) where
  module _ (request_uri : Bytes) where
    PassLeaves-built :
        (held : List ℕ) (o : Outcome Walking) (w : Worker) (v : View)
        (k : Walking → Outcome (Code × (Worker × View)))
        → Q w
        → WalkLeaves Q o
        → ((s : Walking) → Q s.worker → PassLeaves Q (k s))
        → PassLeaves Q (built cx loc request_uri held o w v k)
    PassLeaves-built held (ok s) w v k h q next = freed (dangles held s) (next s q)
      where
        freed : (b : Bool) → PassLeaves Q (k s) → PassLeaves Q (if b then fault else k s)
        freed true e = tt
        freed false e = e
    PassLeaves-built held error w v k h q next = h
    PassLeaves-built held fault w v k h q next = tt
    PassLeaves-built held out_of_fuel w v k h q next = tt

    PassLeaves-by_passed :
        (w : Worker) (o : Outcome Passed) (k : View → Outcome (Code × (Worker × View)))
        → Q w
        → ((v : View) → PassLeaves Q (k v))
        → PassLeaves Q (o >>= λ p. by_passed cx loc request_uri w p k)
    PassLeaves-by_passed w (ok (again v)) k h next = next v
    PassLeaves-by_passed w (ok (returns code v)) k h next = h
    PassLeaves-by_passed w (ok (leaves v)) k h next = h
    PassLeaves-by_passed w error k h next = tt
    PassLeaves-by_passed w fault k h next = tt
    PassLeaves-by_passed w out_of_fuel k h next = tt

    PassLeaves-passes :
        (n : ℕ) (first : Bool) (held : List ℕ) (w : Worker) (v : View)
        → Q w
        → PassLeaves Q (passes cx loc request_uri n first held w v)
    unfolding passes
    PassLeaves-passes zero first held w v h = h
    PassLeaves-passes (suc n) first held w v h =
        PassLeaves-built held _ w v _ h
          (WalkLeaves-build_merged_ctx cx.ngx cx.sys (walk_conf cx.root loc) Q keeps v.http.uri w h)
          (λ s q.
            PassLeaves-by_passed s.worker (run_pass cx first request_uri s.context v) _ q
              (λ u. PassLeaves-passes n false (s.pools ++ held) s.worker u q))

  pub PassLeaves-execute :
      (w : Worker) (http : Http) (r : Response) → Q w → PassLeaves Q (execute cx loc w http r)
  unfolding execute
  PassLeaves-execute w http r h = PassLeaves-passes http.uri loc.max_redirects _ [] w _ h
