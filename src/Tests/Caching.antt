-- ===== src/Tests/Caching.antt =====
-- The cache at concrete paths.
use ngx_htaccess.Common.{
  ◌≡◌, refl, ℕ, ◌++◌, arith, List, [], ◌∷◌, Option, none, some, true, false, Bytes, codes,
  if◌then◌else◌, take,
}
use ngx_htaccess.Directives.{FileInfo, ParsedFile}
use ngx_htaccess.Cache.Find.{Unlinks}
use ngx_htaccess.Cache.Invariant.{IsValid, cache_init-IsValid, cache_lookup-IsValid}
use ngx_htaccess.Cache.Lookup.{
  IsFresh, cache_lookup-IsFresh, cache_lookup-cache_store, cache_lookup_stale,
}
use ngx_htaccess.Cache.Room.{cache_store-lru}
use ngx_htaccess.Cache.{
  Entry, Cache, cache_init, cache_lookup, cache_store, unlink_path, unlink_last, decrement, release,
  cache_evict, make_room,
}

abbrev parsed_in : ℕ → ParsedFile
parsed_in pool = record { directives = []; pool = pool }

abbrev entry : Bytes → ℕ → ℕ → Entry
entry path mtime pool = record {
  path = path;
  mtime = mtime;
  size = 10;
  absent = false;
  parsed = some (parsed_in pool);
}

abbrev root : Entry
root = entry (codes "/w/.htaccess") 1 7

abbrev blog : Entry
blog = entry (codes "/w/blog/.htaccess") 2 8

-- Both files are there, last changed at time 1.
abbrev stat : Bytes → Option FileInfo
stat path = some (record { mtime = 1; size = 10; is_dir = false; is_link = false })

abbrev two : Cache
two = record { lru = blog ∷ root ∷ []; count = 2; max_entries = 2; destroyed = [] }

two-IsValid : IsValid two
two-IsValid = record { positive = omega arith; counted = refl; bounded = omega arith }

-- The entry of the blog is out of date: it stays, and the root's pool is destroyed.
stale_run :
    (cache_lookup stat two blog.path true).0
    ≡ record { lru = blog ∷ []; count = 1; max_entries = 2; destroyed = 7 ∷ [] }
unfolding cache_lookup cache_evict
stale_run = refl

store_run :
    cache_store true root two
    ≡ some (record { lru = root ∷ blog ∷ []; count = 2; max_entries = 2; destroyed = 7 ∷ [] }, true)
unfolding cache_store make_room cache_evict
store_run = refl

cache_init-IsValid_example : IsValid (cache_init 0)
cache_init-IsValid_example = cache_init-IsValid 0

cache_lookup-IsValid_example : IsValid (cache_lookup stat two root.path true).0
cache_lookup-IsValid_example = cache_lookup-IsValid stat two root.path true two-IsValid

cache_store-lru_example :
    (c' : Cache) × (cache_store true root two ≡ some (c', true))
    × IsValid c'
    × (c'.lru ≡ (if true then root ∷ [] else []) ++ take 1 (blog ∷ root ∷ []))
cache_store-lru_example = cache_store-lru true root two two-IsValid

root_found : (cache_lookup stat two root.path true).1 ≡ some root
unfolding cache_lookup
root_found = refl

cache_lookup-IsFresh_example :
    IsFresh root (stat root.path)
    × ((rest : List Entry) × Unlinks root.path two.lru root rest
        × ((cache_lookup stat two root.path true).0 ≡ record two { lru = root ∷ rest }))
cache_lookup-IsFresh_example = cache_lookup-IsFresh stat two root.path true root_found

cache_lookup-cache_store_example :
    (c' : Cache) × (cache_store true root two ≡ some (c', true))
    × (cache_lookup stat c' root.path true ≡ (c', (if true then some root else none)))
cache_lookup-cache_store_example =
    cache_lookup-cache_store stat root two true two-IsValid (refl, refl, refl)

blog_found : unlink_path blog.path two.lru ≡ some (blog, root ∷ [])
unfolding unlink_path
blog_found = refl

blog_stale : ¬ IsFresh blog (stat blog.path)
blog_stale (a, m, s) = absurd (omega arith)

cache_lookup_stale_example : cache_lookup stat two blog.path true ≡ (
  record two {
    lru = blog ∷ take 0 (root ∷ []);
    count = decrement 2;
    destroyed = release (unlink_last root []).1 [];
  },
  none,
)
cache_lookup_stale_example =
    cache_lookup_stale stat two blog.path blog root [] blog_found blog_stale
