-- ===== src/Walk/Build/Levels/Usable.antt =====
-- What a walk leaves, where the cache destroys pools while it goes on.
use ngx_htaccess.Common.{◌≡◌, ◌⊎◌, true, false, ℕ, List, Outcome, ok, fault}
use ngx_htaccess.Directives.{MergedCtx}
use ngx_htaccess.Ngx.{Ngx}
use ngx_htaccess.System.{System}
use ngx_htaccess.Walk.Build.{Conf, Walking, dangles}
use ngx_htaccess.Walk.Load.Views.{IsCoherent}

module _ (ngx : Ngx) (sys : System) (conf : Conf) where
  -- A walk that returns leaves a context that points into a destroyed pool, or the context of a
  -- reading with no cache.
  abbrev pub ReadsOrDangles : List ℕ → Outcome Walking → Outcome MergedCtx → Type 0
  ReadsOrDangles held (ok s) n =
      IsCoherent ngx sys s.worker
      × ((dangles held s ≡ true) ⊎ ((dangles held s ≡ false) × (n ≡ ok s.context)))
  ReadsOrDangles held fault n = n ≡ fault
  ReadsOrDangles held _ n = ⊥
