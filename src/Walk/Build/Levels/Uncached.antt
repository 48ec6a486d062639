-- ===== src/Walk/Build/Levels/Uncached.antt =====
-- The reading with no cache does not ask whether the cache is on.
use ngx_htaccess.Common.{
  ◌≡◌, refl, ap, ◌∙◌, Bool, List, [], ◌∷◌, ◌++◌, Option, none, some, ◌==◌, if◌then◌else◌, Bytes,
  drop, Outcome, ok, error, fault, out_of_fuel, ◌>>=◌,
}
use ngx_htaccess.Directives.{Directive, DirCtx, MergedCtx}
use ngx_htaccess.Ngx.{Ngx}
use ngx_htaccess.System.{System}
use ngx_htaccess.Walk.Build.Levels.{levels, all_levels, add_view, read_level, read_levels}
use ngx_htaccess.Walk.Build.{Conf, new_dir, add_dir}
use ngx_htaccess.Walk.Load.Views.{file_view}
use ngx_htaccess.Walk.Paths.{join_dir, join_path, c_string}

module _ (ngx : Ngx) (sys : System) (conf : Conf) (b : Bool) where
  abbrev with_cache : Conf
  with_cache = record conf { cache_enable = b }

  levels-cache :
      (before l : Bytes) → levels ngx sys with_cache before l ≡ levels ngx sys conf before l
  unfolding levels
  levels-cache before [] = refl
  levels-cache before (c ∷ l) =
      ap
        (λ rest.
          if c == b'/'
          then (drop 1 before, new_dir (join_dir conf.root (drop 1 before)) before) ∷ rest
          else rest)
        (levels-cache (before ++ (c ∷ [])) l)

  all_levels-cache : (uri : Bytes) → all_levels ngx sys with_cache uri ≡ all_levels ngx sys conf uri
  unfolding all_levels
  all_levels-cache [] = refl
  all_levels-cache (c ∷ uri) = ap (◌∷◌ ([], new_dir conf.root [])) (levels-cache (c ∷ []) uri)

  add_view-cache :
      (dir : DirCtx) (m : MergedCtx) (v : Outcome (Option (List Directive)))
      → add_view ngx sys with_cache dir m v ≡ add_view ngx sys conf dir m v
  unfolding add_view add_dir
  add_view-cache dir m (ok (some l)) = refl
  add_view-cache dir m (ok none) = refl
  add_view-cache dir m error = refl
  add_view-cache dir m fault = refl
  add_view-cache dir m out_of_fuel = refl

  read_levels-cache :
      (l : List (Bytes × DirCtx)) (m : MergedCtx)
      → read_levels ngx sys with_cache l m ≡ read_levels ngx sys conf l m
  unfolding read_levels read_level
  read_levels-cache [] m = refl
  read_levels-cache ((suffix, dir) ∷ l) m =
      ap (λ o. o >>= λ m'. read_levels ngx sys with_cache l m')
        (add_view-cache dir m
          (file_view ngx sys (c_string (join_path conf.root suffix conf.filename))))
      ∙ then_rest
          (add_view ngx sys conf dir m
            (file_view ngx sys (c_string (join_path conf.root suffix conf.filename))))
          (λ m'. read_levels-cache l m')
    where
      then_rest :
          (o : Outcome MergedCtx)
          → ((m' : MergedCtx) → read_levels ngx sys with_cache l m' ≡ read_levels ngx sys conf l m')
          → (o >>= λ m'. read_levels ngx sys with_cache l m')
            ≡ (o >>= λ m'. read_levels ngx sys conf l m')
      then_rest (ok m') h = h m'
      then_rest error h = refl
      then_rest fault h = refl
      then_rest out_of_fuel h = refl

  -- The pass over the directories of a URI.
  pub read_uri-cache :
      (uri : Bytes) (m : MergedCtx)
      → read_levels ngx sys
          (record conf { cache_enable = b })
          (all_levels ngx sys (record conf { cache_enable = b }) uri)
          m
        ≡ read_levels ngx sys conf (all_levels ngx sys conf uri) m
  read_uri-cache uri m =
      ap (λ l. read_levels ngx sys with_cache l m) (all_levels-cache uri)
      ∙ read_levels-cache (all_levels ngx sys conf uri) m
