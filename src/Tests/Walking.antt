-- ===== src/Tests/Walking.antt =====
-- The walk at a concrete file system.
use ngx_htaccess.Common.{
  ◌≡◌, refl, ◌+◌, ◌≤◌, arith, List, [], ◌∷◌, none, some, true, false, Bytes, codes, length, Outcome,
  ok, if◌then◌else◌, same_bytes, memcmp_eq, ◌>>=◌, map, Bool,
}
use ngx_htaccess.Cache.{Entry, cache_lookup, cache_store, make_room, cache_evict}
use ngx_htaccess.Directives.{Directive, DirectiveId, DirCtx, zero_directive, zero_rule}
use ngx_htaccess.Parser.Parse.{parse}
use ngx_htaccess.System.{System, unopened, content}
use ngx_htaccess.Tests.Nginx.{nginx, casecmp, atoi}
use ngx_htaccess.Walk.Build.{Conf, Walking, lends, is_in, any_destroyed, dangles, build_merged_ctx}
use ngx_htaccess.Walk.Chains.OnePass.{chained, mark_rewrite_chains-chained}
use ngx_htaccess.Walk.Chains.{mark_rewrite_chains}
use ngx_htaccess.Walk.Load.Transparent.{Agrees-load_file}
use ngx_htaccess.Walk.Load.Views.{IsCoherent, IsTrue, Agrees, file_view, open_view, parse_view}
use ngx_htaccess.Walk.Load.{Worker, load_file}
use ngx_htaccess.Walk.Paths.{join_path, join_room, join_path-le-join_room, c_string}
use ngx_htaccess.Walk.Merge.{merge_parsed}

abbrev pub root_path : Bytes
root_path = codes "/w/.htaccess"

abbrev pub blog_path : Bytes
blog_path = codes "/w/blog/.htaccess"

-- Both files were last changed at time 1; nothing else is there.
abbrev pub sys : System
sys = record {
  stat = λ path.
      if same_bytes path root_path
      then some (record { mtime = 1; size = 10; is_dir = false; is_link = false })
      else if same_bytes path blog_path
      then some (record { mtime = 1; size = 10; is_dir = false; is_link = false })
      else none;
  open_file = λ path.
      if same_bytes path root_path
      then content (codes "RewriteBase /w\n")
      else if same_bytes path blog_path
      then content (codes "RewriteBase /blog\n")
      else unopened;
  crypt = λ _ _. none;
  has_memory = λ _. true;
}

abbrev engine_on : Directive
engine_on = record (zero_directive DirectiveId.rewrite_engine) { flag = true }

abbrev base_set : Directive
base_set = record (zero_directive DirectiveId.rewrite_base) { str = codes "/w" }

-- The entry of the root's file agrees with the file; that of the blog's file is out of date.
abbrev root_entry : Entry
root_entry = record {
  path = root_path;
  mtime = 1;
  size = 10;
  absent = false;
  parsed = some (record { directives = base_set ∷ []; pool = 7 });
}

abbrev blog_entry : Entry
blog_entry = record {
  path = blog_path;
  mtime = 0;
  size = 10;
  absent = false;
  parsed = some (record { directives = []; pool = 8 });
}

abbrev pub worker : Worker
worker = record {
  cache = record { lru = blog_entry ∷ root_entry ∷ []; count = 2; max_entries = 4; destroyed = [] };
  next_pool = 9;
}

root_entry-IsTrue : IsTrue nginx sys root_entry
unfolding parse casecmp atoi file_view open_view parse_view memcmp_eq
root_entry-IsTrue fresh = refl

blog_entry-IsTrue : IsTrue nginx sys blog_entry
unfolding memcmp_eq
blog_entry-IsTrue fresh = absurd (omega (arith, fresh.1))

pub worker-IsCoherent : IsCoherent nginx sys worker
worker-IsCoherent = record {
  valid = record { positive = omega arith; counted = refl; bounded = omega arith };
  truth = (blog_entry-IsTrue, (root_entry-IsTrue, tt));
}

Agrees-load_file_example : Agrees nginx sys root_path (load_file nginx sys true root_path worker)
Agrees-load_file_example = Agrees-load_file nginx sys true root_path worker worker-IsCoherent

abbrev conf : Conf
conf = record { root = codes "/w"; filename = codes ".htaccess"; cache_enable = true }

abbrev bases : Outcome Walking → Outcome (List Bytes)
bases m = m >>= λ s. ok (map (λ (d : DirCtx). d.rewrite_base) s.context.dirs)

-- Each file sets its own base.
bases_run :
    bases (build_merged_ctx nginx sys conf (codes "/blog/x") worker)
    ≡ ok (codes "/w" ∷ codes "/blog" ∷ [])
unfolding build_merged_ctx load_file parse casecmp atoi cache_lookup cache_store join_path c_string
    make_room cache_evict merge_parsed
bases_run = refl

abbrev chain_rule : Directive
chain_rule = record (zero_directive DirectiveId.rewrite_rule) {
  rewrite_rule = record zero_rule { chain = true };
}

abbrev dangling : Outcome Walking → Outcome Bool
dangling m = m >>= λ s. ok (dangles [] s)

-- The entry of the blog's file is out of date: when it is found, the last entry is evicted, which
-- is that of the root's file, merged before.
dangling_run : dangling (build_merged_ctx nginx sys conf (codes "/blog/x") worker) ≡ ok true
unfolding build_merged_ctx lends dangles any_destroyed is_in load_file parse casecmp atoi
    cache_lookup cache_store join_path c_string make_room cache_evict merge_parsed
dangling_run = refl

-- Where only the root's file is asked for, its entry stays.
kept_run : dangling (build_merged_ctx nginx sys conf (codes "/x") worker) ≡ ok false
unfolding build_merged_ctx lends dangles any_destroyed is_in load_file parse casecmp atoi
    cache_lookup cache_store join_path c_string make_room cache_evict merge_parsed
kept_run = refl

mark_rewrite_chains-chained_example :
    mark_rewrite_chains (chain_rule ∷ engine_on ∷ chain_rule ∷ [])
    ≡ chained false (chain_rule ∷ engine_on ∷ chain_rule ∷ [])
mark_rewrite_chains-chained_example =
    mark_rewrite_chains-chained (chain_rule ∷ engine_on ∷ chain_rule ∷ [])

join_path-le-join_room_example :
    length (join_path (codes "/w") (codes "blog") (codes ".htaccess")) + 1
    ≤ join_room (codes "/w") (codes "blog") (codes ".htaccess")
join_path-le-join_room_example =
    join_path-le-join_room (codes "/w") (codes "blog") (codes ".htaccess")
