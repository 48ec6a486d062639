-- ===== src/Walk/Build/Lives/Uncached.antt =====
-- Walks with the cache off, and the pools that a request holds.
use ngx_htaccess.Common.{
  ℕ, zero, suc, ◌+◌, ◌≡◌, refl, sym, ap, subst, Bool, true, false, List, [], ◌∷◌, Option, none,
  some, ◌==◌, if◌then◌else◌, Bytes, length, Outcome, ok, error, fault, out_of_fuel, ◌>>=◌,
}
use ngx_htaccess.Directives.{DirCtx, FileInfo, ParsedFile}
use ngx_htaccess.Ngx.{Ngx}
use ngx_htaccess.Parser.Conds.{byte_at}
use ngx_htaccess.Parser.Parse.{Parser, initial, parse_loop, parse}
use ngx_htaccess.System.{System, Contents, unopened, unreadable, content}
use ngx_htaccess.Walk.Build.{
  Conf, Walking, any_destroyed, lends, borrow, add_loaded, visit, visit_at, walk_uri,
  build_merged_ctx,
}
use ngx_htaccess.Walk.Paths.{c_string, join_path}
use ngx_htaccess.Walk.Load.{
  Worker, Loaded, loaded, declined, failed, parse_result, parse_file, store, after_parse,
  load_missed, load_file,
}
use ngx_htaccess.Walk.Build.Lives.{
  IsLive, new_pool-IsLive, drop_pool-IsLive, borrowed-IsLive, tail-IsLive, unborrowed-IsLive,
}

module _ (ngx : Ngx) (sys : System) where
  open sys use {stat, open_file}

  -- A parsed file is in the pool that it was parsed into.
  pool-parse :
      (pool : ℕ) (bytes : Bytes) (f : ParsedFile) → parse ngx pool bytes ≡ ok f → f.pool ≡ pool
  unfolding parse
  pool-parse pool bytes f h = of (parse_loop ngx (suc (length bytes)) bytes initial) h
    where
      of :
          (m : Outcome Parser)
          → (◌>>=◌ {B = ParsedFile} m
              (λ p. ok (record { directives = p.gathered.directives; pool = pool })))
            ≡ ok f
          → f.pool ≡ pool
      of (ok p) h =
          let same : record { directives = p.gathered.directives; pool = pool } ≡ f = cc h in
          sym (ap (λ (g : ParsedFile). g.pool) same)
      of error h = absurd (cc h)
      of fault h = absurd (cc h)
      of out_of_fuel h = absurd (cc h)

  -- What a load without the cache leaves, where the pools of `held` are.
  abbrev pub LeavesLive : List ℕ → Outcome (Worker × Loaded) → Type 0
  LeavesLive held (ok (w, loaded parsed)) = IsLive w (borrow parsed held)
  LeavesLive held (ok (w, declined)) = IsLive w held
  LeavesLive held (ok (w, failed)) = IsLive w held
  LeavesLive held _ = Unit

  LeavesLive-load_file :
      (path : Bytes) (w : Worker) (held : List ℕ)
      → IsLive w held
      → LeavesLive held (load_file ngx sys false path w)
  unfolding load_file load_missed parse_file after_parse store
  LeavesLive-load_file path w held h = by_state (stat path)
    where
      parsed_file :
          (fi : FileInfo) (o : Outcome ParsedFile)
          → ((f : ParsedFile) → o ≡ ok f → f.pool ≡ w.next_pool)
          → LeavesLive held (parse_result o >>= λ r. after_parse ngx sys false path fi w r)
      parsed_file fi (ok f) same =
          let more =
            subst (λ p. IsLive (record w { next_pool = w.next_pool + 1 }) (p ∷ held))
              (sym (same f refl)) (new_pool-IsLive w held h) in
          borrowed-IsLive _ held (lends f.directives) f.pool more (tail-IsLive _ held f.pool more)
      parsed_file fi error same = drop_pool-IsLive w held h
      parsed_file fi fault same = tt
      parsed_file fi out_of_fuel same = tt

      opened :
          (fi : FileInfo) (c : Contents)
          → LeavesLive held (
              elim c [
                | unopened ↦ ok declined
                | unreadable ↦ ok failed
                | content bytes ↦ parse_result (parse ngx w.next_pool bytes)
              ]
              >>= λ r. after_parse ngx sys false path fi w r)
      opened fi unopened = drop_pool-IsLive w held h
      opened fi unreadable = drop_pool-IsLive w held h
      opened fi (content bytes) =
          parsed_file fi (parse ngx w.next_pool bytes) (pool-parse w.next_pool bytes)

      by_state : (info : Option FileInfo) → LeavesLive held (load_missed ngx sys false path w info)
      by_state none = h
      by_state (some fi) = opened fi (open_file path)

module _ (ngx : Ngx) (sys : System) (conf : Conf) (off : conf.cache_enable ≡ false) where
  -- A walk keeps what was held before it alive, and what it holds itself.
  abbrev pub LivesOn : List ℕ → Outcome Walking → Type 0
  LivesOn held (ok s) = IsLive s.worker s.pools × IsLive s.worker held
  LivesOn held _ = Unit

  LivesOn->>= :
      (held : List ℕ) (m : Outcome Walking) (f : Walking → Outcome Walking)
      → LivesOn held m
      → ((s : Walking) → IsLive s.worker s.pools → IsLive s.worker held → LivesOn held (f s))
      → LivesOn held (m >>= f)
  LivesOn->>= held (ok s) f h k = k s h.0 h.1
  LivesOn->>= held error f h k = tt
  LivesOn->>= held fault f h k = tt
  LivesOn->>= held out_of_fuel f h k = tt

  -- Both lists are kept alive by the load that they go through together.
  LivesOn-add_loaded :
      (held : List ℕ) (dir : DirCtx) (s : Walking) (o : Outcome (Worker × Loaded))
      → ((l : List ℕ) → IsLive s.worker l → LeavesLive ngx sys l o)
      → IsLive s.worker s.pools
      → IsLive s.worker held
      → LivesOn held (o >>= λ r. ok (add_loaded ngx sys conf dir s r))
  LivesOn-add_loaded held dir s (ok (w, loaded none)) k p h = (k s.pools p, k held h)
  LivesOn-add_loaded held dir s (ok (w, loaded (some f))) k p h =
      (k s.pools p, unborrowed-IsLive w held (lends f.directives) f.pool (k held h))
  LivesOn-add_loaded held dir s (ok (w, declined)) k p h = (k s.pools p, k held h)
  LivesOn-add_loaded held dir s (ok (w, failed)) k p h = (k s.pools p, k held h)
  LivesOn-add_loaded held dir s error k p h = tt
  LivesOn-add_loaded held dir s fault k p h = tt
  LivesOn-add_loaded held dir s out_of_fuel k p h = tt

  LivesOn-visit :
      (held : List ℕ) (suffix : Bytes) (dir : DirCtx) (s : Walking)
      → IsLive s.worker s.pools
      → IsLive s.worker held
      → LivesOn held (visit ngx sys conf suffix dir s)
  unfolding visit
  LivesOn-visit held suffix dir s p h =
      let path = c_string (join_path conf.root suffix conf.filename) in
      LivesOn-add_loaded held dir s (load_file ngx sys conf.cache_enable path s.worker)
        (λ l k.
          subst (λ b. LeavesLive ngx sys l (load_file ngx sys b path s.worker)) (sym off)
            (LeavesLive-load_file ngx sys path s.worker l k))
        p h

  LivesOn-walk_uri :
      (held : List ℕ) (n : ℕ) (uri : Bytes) (i : ℕ) (s : Walking)
      → IsLive s.worker s.pools
      → IsLive s.worker held
      → LivesOn held (walk_uri ngx sys conf n uri i s)
  unfolding walk_uri
  LivesOn-walk_uri held zero uri i s p h = (p, h)
  LivesOn-walk_uri held (suc n) uri i s p h =
      LivesOn->>= held _ (λ t. walk_uri ngx sys conf n uri (suc i) t)
        (either (byte_at uri i == b'/') (visit_at ngx sys conf uri i s)
          (LivesOn-visit held _ _ s p h))
        (λ t q k. LivesOn-walk_uri held n uri (suc i) t q k)
    where
      either :
          (b : Bool) (m : Outcome Walking) → LivesOn held m → LivesOn held (if b then m else ok s)
      either true m k = k
      either false m k = (p, h)

  pub LivesOn-build_merged_ctx :
      (held : List ℕ) (uri : Bytes) (w : Worker)
      → IsLive w held
      → LivesOn held (build_merged_ctx ngx sys conf uri w)
  unfolding build_merged_ctx any_destroyed
  LivesOn-build_merged_ctx held uri w h =
      LivesOn->>= held _ _
        (LivesOn-visit held [] _ (record { worker = w; context = _; pools = [] })
          (record { destroyed_below = h.destroyed_below; held_below = tt; live = refl }) h)
        (λ s p k. LivesOn-walk_uri held _ uri 1 s p k)
