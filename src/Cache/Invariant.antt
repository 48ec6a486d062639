-- ===== src/Cache/Invariant.antt =====
-- The invariant of the cache: the counter is the length of the queue and within the limit. Every
-- operation keeps it, and the loop of `htaccess_cache_store` ends.
use ngx_htaccess.Common.{
  ℕ, ◌-◌, ◌≤◌, ◌<◌, ◌≡◌, refl, ap, Bool, true, false, List, [], ◌∷◌, Option, none, some, arith,
  Bytes, length, length-append,
}
use ngx_htaccess.Directives.{FileInfo}
use ngx_htaccess.Cache.Find.{IsUnlinked, unlink_path-IsUnlinked}
use ngx_htaccess.Cache.{
  answer, to_head, Entry, Cache, cache_init, unlink_last, cache_evict, unlink_path, cache_find,
  check_entry, cache_lookup,
}

pub record IsValid (c : Cache) : Type 0 where
  pub positive : 0 < c.max_entries
  pub counted : c.count ≡ length c.lru
  pub bounded : c.count ≤ c.max_entries

-- `htaccess_cache_init` builds a valid empty cache, with the default limit in place of 0.
pub cache_init-IsValid : (max_entries : ℕ) → IsValid (cache_init max_entries)
unfolding cache_init
cache_init-IsValid max_entries = ground arith

pub length-unlink_last : (e : Entry) (l : List Entry) → length (unlink_last e l).0 ≡ length l
unfolding unlink_last
length-unlink_last e [] = refl
length-unlink_last e (f ∷ l) = omega (arith, length-unlink_last f l)

-- An eviction takes one from the counter, and keeps a valid cache valid.
pub evict_from-IsValid :
    (c : Cache) (l : List Entry)
    → c.lru ≡ l
    → IsValid c
    → IsValid (cache_evict c)
      × ((cache_evict c).count ≡ c.count - 1)
      × ((cache_evict c).max_entries ≡ c.max_entries)
unfolding cache_evict
evict_from-IsValid c [] q v = ground arith
evict_from-IsValid c (e ∷ l) q v = ground (arith, length-unlink_last e l)

pub cache_evict-IsValid : (c : Cache) → IsValid c → IsValid (cache_evict c)
cache_evict-IsValid c v = (evict_from-IsValid c c.lru refl v).0

to_head-IsValid :
    (c : Cache) (path : Bytes) (r : Option (Entry × List Entry))
    → IsUnlinked path c.lru r
    → IsValid c
    → IsValid (to_head c r).0
to_head-IsValid c path none u v = v
to_head-IsValid c path (some (e, rest)) u v = record {
  positive = v.positive;
  counted = omega (
    arith,
    ap length u.splits,
    ap length u.others,
    length-append u.before (e ∷ u.behind),
    length-append u.before u.behind,
  );
  bounded = v.bounded;
}

-- A search reorders the queue at most.
pub cache_find-IsValid : (c : Cache) (path : Bytes) → IsValid c → IsValid (cache_find c path).0
unfolding cache_find
cache_find-IsValid c path v =
    to_head-IsValid c path (unlink_path path c.lru) (unlink_path-IsUnlinked path c.lru) v

check_entry-IsValid :
    (c : Cache) (e : Entry) (info : Option FileInfo) → IsValid c → IsValid (check_entry c e info).0
unfolding check_entry
check_entry-IsValid c e none v = ground (arith, cache_evict-IsValid c v)
check_entry-IsValid c e (some fi) v = ground (arith, cache_evict-IsValid c v)

-- A lookup keeps the cache valid, whatever it finds and whatever has become of the file.
pub cache_lookup-IsValid :
    (stat : Bytes → Option FileInfo) (c : Cache) (path : Bytes) (enable : Bool)
    → IsValid c
    → IsValid (cache_lookup stat c path enable).0
unfolding cache_lookup
cache_lookup-IsValid stat c path false v = v
cache_lookup-IsValid stat c path true v =
    answer-IsValid (cache_find c path) (cache_find-IsValid c path v)
  where
    answer-IsValid : (r : Cache × Option Entry) → IsValid r.0 → IsValid (answer (stat path) r).0
    answer-IsValid (c', none) w = w
    answer-IsValid (c', some e) w = check_entry-IsValid c' e (stat path) w
