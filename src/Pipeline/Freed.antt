-- ===== src/Pipeline/Freed.antt =====
-- Requests that are left with directives in a pool that was destroyed.
use ngx_htaccess.Common.{ℕ, suc, ◌≡◌, Bool, true, false, List, ◌++◌, Bytes, ok}
use ngx_htaccess.Engine.Conds.{Context}
use ngx_htaccess.Pipeline.{LocConf, View, again, walk_conf, run_pass}
use ngx_htaccess.Walk.Build.{Walking, dangles, build_merged_ctx}
use ngx_htaccess.Walk.Load.{Worker}

module _ (cx : Context) (loc : LocConf) (request_uri : Bytes) where
  open cx use {ngx, sys, root}

  -- A walk of the passes destroys a pool that the request holds: that of the first pass, or of one
  -- behind a first pass that asks for another one.
  pub data Frees : ℕ → Bool → List ℕ → Worker → View → Type 0 where
    here :
        (n : ℕ) (first : Bool) (held : List ℕ) (w : Worker) (v : View) (s : Walking)
        → build_merged_ctx ngx sys (walk_conf root loc) v.http.uri w ≡ ok s
        → dangles held s ≡ true
        → Frees (suc n) first held w v
    behind_pass :
        (n : ℕ) (first : Bool) (held : List ℕ) (w : Worker) (v : View) (s : Walking) (u : View)
        → build_merged_ctx ngx sys (walk_conf root loc) v.http.uri w ≡ ok s
        → run_pass cx first request_uri s.context v ≡ ok (again u)
        → Frees n false (s.pools ++ held) s.worker u
        → Frees (suc n) first held w v
