-- ===== src/Walk/Build/Levels.antt =====
-- The walk over a URI, as one pass over the files of its directories, read with no cache.
pub mod Uncached
pub mod Usable
use ngx_htaccess.Common.{
  ℕ, suc, ◌-◌, ◌≡◌, refl, sym, ap, ◌∙◌, subst, inl, inr, List, [], ◌∷◌, ◌++◌, Option, none, some,
  ◌==◌, if◌then◌else◌, Bytes, Bool-cases, length, take, take-length-append, append-cons,
  get_or-append, drop, arith, Outcome, ok, error, fault, out_of_fuel, ◌>>=◌, IsDone,
}
use ngx_htaccess.Directives.{Directive, DirCtx, MergedCtx}
use ngx_htaccess.Ngx.{Ngx}
use ngx_htaccess.Parser.Conds.{byte_at}
use ngx_htaccess.System.{System}
use ngx_htaccess.Walk.Build.{
  Conf, zero_merged, new_dir, Walking, add_dir, add_loaded, visit, visit_at, walk_uri,
  build_merged_ctx,
}
use ngx_htaccess.Walk.Load.Transparent.{Agrees-load_file}
use ngx_htaccess.Walk.Load.Views.{file_view, file_view-IsDone, IsCoherent, Agrees}
use ngx_htaccess.Walk.Load.{Worker, Loaded, loaded, declined, failed, load_file}
use ngx_htaccess.Walk.Merge.{merge_parsed}
use ngx_htaccess.Walk.Paths.{join_dir, join_path, c_string}
use native.Mathlib.Numerals.{unary_clauses}

module _ (ngx : Ngx) (sys : System) (conf : Conf) where
  -- The directories of a URI behind its first byte, in their order: the path below the root with the
  -- new context of the directory. `before` is the URI up to here.
  pub levels : Bytes → Bytes → List (Bytes × DirCtx)
  levels before [] = []
  levels before (c ∷ l) =
      let rest = levels (before ++ (c ∷ [])) l in
      if c == b'/'
      then (drop 1 before, new_dir (join_dir conf.root (drop 1 before)) before) ∷ rest
      else rest

  -- The document root, and the directories of the URI.
  pub all_levels : Bytes → List (Bytes × DirCtx)
  all_levels [] = ([], new_dir conf.root []) ∷ []
  all_levels (c ∷ uri) = ([], new_dir conf.root []) ∷ levels (c ∷ []) uri

  -- A file that is not there or is refused adds nothing.
  pub add_view : DirCtx → MergedCtx → Outcome (Option (List Directive)) → Outcome MergedCtx
  add_view dir m (ok (some l)) =
      ok (add_dir ngx sys conf dir (some (record { directives = l; pool = 0 })) m)
  add_view dir m (ok none) = ok m
  add_view dir m error = ok m
  add_view dir m fault = fault
  add_view dir m out_of_fuel = out_of_fuel

  pub read_level : Bytes × DirCtx → MergedCtx → Outcome MergedCtx
  read_level (suffix, dir) m =
      add_view dir m (file_view ngx sys (c_string (join_path conf.root suffix conf.filename)))

  pub read_levels : List (Bytes × DirCtx) → MergedCtx → Outcome MergedCtx
  read_levels [] m = ok m
  read_levels (d ∷ l) m = read_level d m >>= λ m'. read_levels l m'

  -- The walk gives the context, or the fault, of a reading with no cache, and keeps the cache coherent.
  abbrev pub Reads : Outcome Walking → Outcome MergedCtx → Type 0
  Reads (ok s) n = (n ≡ ok s.context) × IsCoherent ngx sys s.worker
  Reads fault n = n ≡ fault
  Reads _ n = ⊥

  Reads->>= :
      (m : Outcome Walking) (n : Outcome MergedCtx) (f : Walking → Outcome Walking)
      (g : MergedCtx → Outcome MergedCtx)
      → Reads m n
      → ((s : Walking) → IsCoherent ngx sys s.worker → Reads (f s) (g s.context))
      → Reads (m >>= f) (n >>= g)
  Reads->>= (ok s) n f g h k = rw h.0 (k s h.1)
  Reads->>= fault n f g h k = rw h refl
  Reads->>= error n f g h k = absurd h
  Reads->>= out_of_fuel n f g h k = absurd h

  Reads-add_loaded :
      (dir : DirCtx) (s : Walking) (path : Bytes) (r : Outcome (Worker × Loaded))
      → Agrees ngx sys path r
      → Reads
          (r >>= λ q. ok (add_loaded ngx sys conf dir s q))
          (add_view dir s.context (file_view ngx sys path))
  unfolding add_view add_dir merge_parsed
  Reads-add_loaded dir s path (ok (w, loaded (some f))) h = (rw (← h.0, add_view) refl, h.1)
  Reads-add_loaded dir s path (ok (w, loaded none)) h =
      absurd (subst IsDone (sym h.0) (file_view-IsDone ngx sys path))
  Reads-add_loaded dir s path (ok (w, declined)) h = (rw (← h.0, add_view) refl, h.1)
  Reads-add_loaded dir s path (ok (w, failed)) h = (rw (← h.0, add_view) refl, h.1)
  Reads-add_loaded dir s path fault h = rw (h, add_view) refl
  Reads-add_loaded dir s path error h = absurd h
  Reads-add_loaded dir s path out_of_fuel h = absurd h

  Reads-visit :
      (suffix : Bytes) (dir : DirCtx) (s : Walking)
      → IsCoherent ngx sys s.worker
      → Reads (visit ngx sys conf suffix dir s) (read_level (suffix, dir) s.context)
  unfolding visit read_level
  Reads-visit suffix dir s c =
      let path = c_string (join_path conf.root suffix conf.filename) in
      Reads-add_loaded dir s path (load_file ngx sys conf.cache_enable path s.worker)
        (Agrees-load_file ngx sys conf.cache_enable path s.worker c)

  take_behind_slash : (p l : Bytes) → take (suc (length p) - 1) (p ++ l) ≡ p
  take_behind_slash p l = ap (λ n. take n (p ++ l)) (omega arith) ∙ take-length-append p l

  length-append-one : (p : Bytes) (c : ℕ) → length (p ++ (c ∷ [])) ≡ suc (length p)
  length-append-one [] c = refl
  length-append-one (a ∷ p) c = ap suc (length-append-one p c)

  -- One round of the loop, before rounds that read the rest.
  Reads-visit_if :
      (a : ℕ) (before l : Bytes) (b : ℕ) (s : Walking) (f : Walking → Outcome Walking)
      (rest : List (Bytes × DirCtx))
      → IsCoherent ngx sys s.worker
      → ((t : Walking) → IsCoherent ngx sys t.worker → Reads (f t) (read_levels rest t.context))
      → Reads
          ((if byte_at (before ++ (b ∷ l)) (length before) == b'/'
              then visit_at ngx sys conf (a ∷ (before ++ (b ∷ l))) (suc (length before)) s
              else ok s)
            >>= f)
          (read_levels
            (if b == b'/'
              then (before, new_dir (join_dir conf.root before) (a ∷ before)) ∷ rest
              else rest)
            s.context)
  unfolding read_levels
  Reads-visit_if a before l b s f rest c k = elim (Bool-cases (b == b'/')) [
    | inl slash ↦
        rw
          (
            get_or-append before b l 0,
            slash,
            take_behind_slash before (b ∷ l),
            take-length-append before (b ∷ l),
          )
          (Reads->>= _
            (read_level (before, new_dir (join_dir conf.root before) (a ∷ before)) s.context) f _
            (Reads-visit before (new_dir (join_dir conf.root before) (a ∷ before)) s c) k)
    | inr other ↦ rw (get_or-append before b l 0, other) (k s c)
  ]

  -- The loop from the position behind `a ∷ before` on reads the directories of the rest.
  Reads-walk_uri :
      (a : ℕ) (before l : Bytes) (s : Walking)
      → IsCoherent ngx sys s.worker
      → Reads
          (walk_uri ngx sys conf (length l) (a ∷ (before ++ l)) (suc (length before)) s)
          (read_levels (levels (a ∷ before) l) s.context)
  unfolding walk_uri levels read_levels
  Reads-walk_uri a before [] s c = (refl, c)
  Reads-walk_uri a before (b ∷ l) s c =
      Reads-visit_if a before l b s
        (λ t.
          walk_uri ngx sys conf (length l) (a ∷ (before ++ (b ∷ l))) (suc (suc (length before))) t)
        (levels (a ∷ (before ++ (b ∷ []))) l) c
        (λ t k.
          rw (← append-cons before b l, ← length-append-one before b)
            (Reads-walk_uri a (before ++ (b ∷ [])) l t k))

  -- The values that the walk merges, as they are when it merges them, are those of a reading with no
  -- cache.
  pub Reads-build_merged_ctx :
      (uri : Bytes) (w : Worker)
      → IsCoherent ngx sys w
      → Reads (build_merged_ctx ngx sys conf uri w) (read_levels (all_levels uri) zero_merged)
  unfolding build_merged_ctx walk_uri all_levels read_levels
  Reads-build_merged_ctx [] w c =
      Reads->>= _ (read_level ([], new_dir conf.root []) zero_merged) _ _
        (Reads-visit [] (new_dir conf.root [])
          (record { worker = w; context = zero_merged; pools = [] }) c)
        (λ s k. (refl, k))
  Reads-build_merged_ctx (a ∷ uri) w c =
      Reads->>= _ (read_level ([], new_dir conf.root []) zero_merged) _ _
        (Reads-visit [] (new_dir conf.root [])
          (record { worker = w; context = zero_merged; pools = [] }) c)
        (λ s k. simp unary_clauses (Reads-walk_uri a [] uri s k))
