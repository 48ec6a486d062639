-- ===== src/Walk/Build/Keeps.antt =====
-- What each load of a file keeps, the walk keeps.
use ngx_htaccess.Common.{
  ℕ, zero, suc, [], Bool, true, false, ◌==◌, if◌then◌else◌, Bytes, Outcome, ok, error, fault,
  out_of_fuel, ◌>>=◌,
}
use ngx_htaccess.Directives.{DirCtx}
use ngx_htaccess.Ngx.{Ngx}
use ngx_htaccess.Parser.Conds.{byte_at}
use ngx_htaccess.System.{System}
use ngx_htaccess.Walk.Build.{Conf, Walking, add_loaded, visit, visit_at, walk_uri, build_merged_ctx}
use ngx_htaccess.Walk.Load.Versions.{Leaves}
use ngx_htaccess.Walk.Load.{Worker, Loaded, loaded, declined, failed, load_file}

-- The worker of a walk has a property.
abbrev pub WalkLeaves : (Worker → Type 0) → Outcome Walking → Type 0
WalkLeaves Q (ok s) = Q s.worker
WalkLeaves Q _ = Unit

module _ (ngx : Ngx) (sys : System) (conf : Conf) (Q : Worker → Type 0)
    (keeps : (enable : Bool) (path : Bytes) (w : Worker)
      → Q w
      → Leaves Q (load_file ngx sys enable path w)) where
  WalkLeaves->>= :
      (m : Outcome Walking) (f : Walking → Outcome Walking)
      → WalkLeaves Q m
      → ((s : Walking) → Q s.worker → WalkLeaves Q (f s))
      → WalkLeaves Q (m >>= f)
  WalkLeaves->>= (ok s) f h k = k s h
  WalkLeaves->>= error f h k = tt
  WalkLeaves->>= fault f h k = tt
  WalkLeaves->>= out_of_fuel f h k = tt

  WalkLeaves-visit :
      (suffix : Bytes) (dir : DirCtx) (s : Walking)
      → Q s.worker
      → WalkLeaves Q (visit ngx sys conf suffix dir s)
  unfolding visit
  WalkLeaves-visit suffix dir s h =
      loaded_file (load_file ngx sys conf.cache_enable _ s.worker) (keeps _ _ s.worker h)
    where
      loaded_file :
          (o : Outcome (Worker × Loaded))
          → Leaves Q o
          → WalkLeaves Q (o >>= λ r. ok (add_loaded ngx sys conf dir s r))
      loaded_file (ok (w, loaded parsed)) k = k
      loaded_file (ok (w, declined)) k = k
      loaded_file (ok (w, failed)) k = k
      loaded_file error k = tt
      loaded_file fault k = tt
      loaded_file out_of_fuel k = tt

  WalkLeaves-walk_uri :
      (n : ℕ) (uri : Bytes) (i : ℕ) (s : Walking)
      → Q s.worker
      → WalkLeaves Q (walk_uri ngx sys conf n uri i s)
  unfolding walk_uri
  WalkLeaves-walk_uri zero uri i s h = h
  WalkLeaves-walk_uri (suc n) uri i s h =
      WalkLeaves->>= _ (λ t. walk_uri ngx sys conf n uri (suc i) t)
        (either (byte_at uri i == b'/') (visit_at ngx sys conf uri i s) (WalkLeaves-visit _ _ s h))
        (λ t k. WalkLeaves-walk_uri n uri (suc i) t k)
    where
      either :
          (b : Bool) (m : Outcome Walking) → WalkLeaves Q m → WalkLeaves Q (if b then m else ok s)
      either true m k = k
      either false m k = h

  pub WalkLeaves-build_merged_ctx :
      (uri : Bytes) (w : Worker) → Q w → WalkLeaves Q (build_merged_ctx ngx sys conf uri w)
  unfolding build_merged_ctx
  WalkLeaves-build_merged_ctx uri w h =
      WalkLeaves->>= _ _ (WalkLeaves-visit [] _ (record { worker = w; context = _; pools = _ }) h)
        (λ s k. WalkLeaves-walk_uri _ uri 1 s k)
