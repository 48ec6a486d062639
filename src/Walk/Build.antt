-- ===== src/Walk/Build.antt =====
-- htaccess_build_merged_ctx: the files of the document root and of each directory of the URI.
pub mod Levels
pub mod Patterns
pub mod Keeps
pub mod Lent
pub mod Lives
use ngx_htaccess.Common.{
  none, some, ◌||◌, true, List, ℕ, zero, suc, ◌-◌, Bool, false, [], ◌∷◌, ◌++◌, Option, ◌==◌,
  if◌then◌else◌, Bytes, codes, length, take, drop, Outcome, ok, ◌>>=◌,
}
use ngx_htaccess.Directives.{DirectiveId, Directive, DirCtx, MergedCtx, ParsedFile}
use ngx_htaccess.Ngx.{Ngx}
use ngx_htaccess.Parser.Conds.{byte_at}
use ngx_htaccess.System.{System}
use ngx_htaccess.Walk.Load.{Worker, Loaded, loaded, declined, failed, load_file}
use ngx_htaccess.Walk.Merge.{merge_parsed}
use ngx_htaccess.Walk.Paths.{join_dir, join_path, c_string}

-- The configuration that the walk reads: `clcf->root`, `conf->filename` and `conf->cache_enable`.
pub record Conf : Type 0 where
  pub root : Bytes
  pub filename : Bytes
  pub cache_enable : Bool

-- What `ngx_memzero` leaves in the context.
abbrev pub zero_merged : MergedCtx
zero_merged = record {
  dirs = [];
  auth_type = [];
  auth_name = [];
  auth_user_file = [];
  requires = [];
  order = [];
  allows = [];
  denies = [];
  headers = [];
  expires_active = false;
  expires_by_type = [];
  expires_default = [];
  error_documents = [];
  options = false;
  directory_index = [];
  files_rules = [];
}

abbrev pub new_dir : Bytes → Bytes → DirCtx
new_dir dir_path url_prefix = record {
  dir_path = dir_path;
  url_prefix = url_prefix;
  rewrite_base = codes "/";
  rewrite_engine = false;
  directives = [];
}

-- The state of the walk. `pools` is no field of the source: it records the pools of the parsed files
-- that the context points into, for the merge copies no text, no conditions and no variables.
pub record Walking : Type 0 where
  pub worker : Worker
  pub context : MergedCtx
  pub pools : List ℕ

-- Whether a pool is among some.
unfoldable pub is_in : ℕ → List ℕ → Bool
is_in pool [] = false
is_in pool (p ∷ l) = pool == p || is_in pool l

-- Whether one of the pools is among those that were destroyed.
unfoldable pub any_destroyed : List ℕ → List ℕ → Bool
unfolding is_in
any_destroyed [] destroyed = false
any_destroyed (p ∷ l) destroyed = is_in p destroyed || any_destroyed l destroyed

-- What the request holds behind a walk, the context and what earlier walks left (`held`), points into
-- a pool that was destroyed.
unfoldable pub dangles : List ℕ → Walking → Bool
unfolding any_destroyed
dangles held s = any_destroyed (s.pools ++ held) s.worker.cache.destroyed

-- Whether merging a directive copies a pointer, and not only a flag: `ngx_str_t`, the arrays of a rule.
abbrev pub copies_pointer : DirectiveId → Bool
copies_pointer DirectiveId.rewrite_engine = false
copies_pointer DirectiveId.rewrite_cond = false
copies_pointer DirectiveId.expires_active = false
copies_pointer DirectiveId.options = false
copies_pointer _ = true

unfoldable pub lends : List Directive → Bool
lends [] = false
lends (d ∷ l) = copies_pointer d.id || lends l

-- The pointers that are copied lead into the pool of the file.
abbrev pub borrow : Option ParsedFile → List ℕ → List ℕ
borrow none pools = pools
borrow (some f) pools = if lends f.directives then f.pool ∷ pools else pools

module _ (ngx : Ngx) (sys : System) (conf : Conf) where
  -- A loaded file becomes a directory of the context and is merged into it.
  unfoldable pub add_dir : DirCtx → Option ParsedFile → MergedCtx → MergedCtx
  add_dir dir parsed m =
      let g = merge_parsed ngx parsed (record { merged = m; dir = dir }) in
      record (g.merged) { dirs = g.merged.dirs ++ (g.dir ∷ []) }

  -- `rc == NGX_OK`, or the directory is passed over.
  abbrev pub add_loaded : DirCtx → Walking → Worker × Loaded → Walking
  add_loaded dir s (w, loaded parsed) = record {
    worker = w;
    context = add_dir dir parsed s.context;
    pools = borrow parsed s.pools;
  }
  add_loaded dir s (w, declined) = record s { worker = w }
  add_loaded dir s (w, failed) = record s { worker = w }

  -- The file of one directory, by the suffix of its path below the root.
  unfoldable pub visit : Bytes → DirCtx → Walking → Outcome Walking
  unfolding add_dir
  visit suffix dir s =
      load_file ngx sys conf.cache_enable (c_string (join_path conf.root suffix conf.filename))
        s.worker
      >>= λ r. ok (add_loaded dir s r)

  -- The directory that ends at position `i` of the URI.
  abbrev pub visit_at : Bytes → ℕ → Walking → Outcome Walking
  visit_at uri i s =
      let suffix = take (i - 1) (drop 1 uri) in
      visit suffix (new_dir (join_dir conf.root suffix) (take i uri)) s

  -- The loop over the URI from position `i` on, with the rounds that are left.
  unfoldable pub walk_uri : ℕ → Bytes → ℕ → Walking → Outcome Walking
  unfolding visit
  walk_uri zero uri i s = ok s
  walk_uri (suc n) uri i s =
      (if byte_at uri i == b'/' then visit_at uri i s else ok s) >>= λ t. walk_uri n uri (suc i) t

  unfoldable pub build_merged_ctx : Bytes → Worker → Outcome Walking
  unfolding walk_uri visit
  build_merged_ctx uri w =
      visit [] (new_dir conf.root []) (record { worker = w; context = zero_merged; pools = [] })
      >>= λ s. walk_uri (length uri - 1) uri 1 s
