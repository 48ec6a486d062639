-- ===== src/Cache.antt =====
-- src/htaccess_cache.c: the cache of parsed files, least recently used last.
pub mod Find
pub mod Keeps
pub mod Invariant
pub mod Room
pub mod Lookup
use mathlib.Core.Option
use ngx_htaccess.Common.{
  ℕ, zero, suc, ◌+◌, ◌-◌, ◌^◌, Bool, true, false, ◌&&◌, List, [], ◌∷◌, ◌++◌, Option, none, some,
  ◌==◌, leb, if◌then◌else◌, Bytes, same_bytes, memcmp_eq,
}
use ngx_htaccess.Directives.{ParsedFile, FileInfo}

-- `htaccess_cache_entry_t`
pub record Entry : Type 0 where
  pub path : Bytes
  pub mtime : ℕ
  pub size : ℕ
  pub absent : Bool
  pub parsed : Option ParsedFile

-- `htaccess_cache_t`. The queue `lru` is a list, its head first. `destroyed` is no field of the
-- source: it records the pools that `ngx_destroy_pool` was called on, the latest first.
pub record Cache : Type 0 where
  pub lru : List Entry
  pub count : ℕ
  pub max_entries : ℕ
  pub destroyed : List ℕ

-- HTACCESS_CACHE_MAX_DEFAULT
abbrev pub cache_max_default : ℕ
cache_max_default = 1024

unfoldable pub cache_init : ℕ → Cache
cache_init max_entries = record {
  lru = [];
  count = 0;
  max_entries = if max_entries == 0 then cache_max_default else max_entries;
  destroyed = [];
}

-- `count--` on an `ngx_uint_t` of 64 bits.
abbrev pub decrement : ℕ → ℕ
decrement n = if n == 0 then 2 ^ 64 - 1 else n - 1

-- The pool of an entry that holds a parsed file.
abbrev pub release : Entry → List ℕ → List ℕ
release e destroyed = elim e.parsed [ none ↦ destroyed | some f ↦ f.pool ∷ destroyed ]

-- The last entry of a queue that is not empty, and the queue without it.
unfoldable pub unlink_last : Entry → List Entry → List Entry × Entry
unlink_last e [] = ([], e)
unlink_last e (f ∷ l) = let (rest, last) = unlink_last f l in (e ∷ rest, last)

abbrev pub evict_from : Cache → List Entry → Cache
evict_from c [] = c
evict_from c (e ∷ l) = record c {
  lru = (unlink_last e l).0;
  count = decrement c.count;
  destroyed = release (unlink_last e l).1 c.destroyed;
}

-- `htaccess_cache_evict`
unfoldable pub cache_evict : Cache → Cache
unfolding unlink_last
cache_evict c = evict_from c c.lru

-- What was taken out behind `f`.
abbrev pub behind : Entry → Option (Entry × List Entry) → Option (Entry × List Entry)
behind f none = none
behind f (some (e, rest)) = some (e, f ∷ rest)

-- The loop of `htaccess_cache_find`: the first entry with the path, and the others in order.
unfoldable pub unlink_path : Bytes → List Entry → Option (Entry × List Entry)
unfolding memcmp_eq
unlink_path path [] = none
unlink_path path (e ∷ l) =
    let later = behind e (unlink_path path l) in
    if same_bytes e.path path then some (e, l) else later

-- The entry that was taken out goes to the head.
abbrev pub to_head : Cache → Option (Entry × List Entry) → Cache × Option Entry
to_head c none = (c, none)
to_head c (some (e, rest)) = (record c { lru = e ∷ rest }, some e)

-- `htaccess_cache_find`: the entry, now at the head of the queue.
unfoldable pub cache_find : Cache → Bytes → Cache × Option Entry
unfolding unlink_path
cache_find c path = to_head c (unlink_path path c.lru)

-- What `htaccess_cache_lookup` does with the entry that it found and the file's state.
unfoldable pub check_entry : Cache → Entry → Option FileInfo → Cache × Option Entry
check_entry c e none = if e.absent then (c, some e) else (cache_evict c, none)
check_entry c e (some fi) =
    if e.absent
    then (cache_evict c, none)
    else if e.mtime == fi.mtime && e.size == fi.size
    then (c, some e)
    else (cache_evict c, none)

-- `htaccess_cache_lookup` behind its call of `htaccess_cache_find`.
abbrev pub answer : Option FileInfo → Cache × Option Entry → Cache × Option Entry
answer info (c, none) = (c, none)
answer info (c, some e) = check_entry c e info

-- `htaccess_cache_lookup`. `stat` is `ngx_file_info`, with `none` for NGX_FILE_ERROR.
unfoldable pub cache_lookup :
    (Bytes → Option FileInfo) → Cache → Bytes → Bool → Cache × Option Entry
unfolding cache_find check_entry
cache_lookup stat c path false = (c, none)
cache_lookup stat c path true = answer (stat path) (cache_find c path)

-- The loop `while (cache->count >= cache->max_entries)` of `htaccess_cache_store`, on fuel; `none`
-- means that the fuel ran out.
unfoldable pub make_room : ℕ → Cache → Option Cache
make_room zero c = none
make_room (suc fuel) c =
    let rest = make_room fuel (cache_evict c) in if leb c.max_entries c.count then rest else some c

-- The new entry, at the head.
abbrev pub insert_head : Entry → Cache → Cache
insert_head e c = record c { lru = e ∷ c.lru; count = c.count + 1 }

-- `htaccess_cache_store`. `allocated` says whether `ngx_alloc` gave memory for the entry; the
-- Boolean of the result is NGX_OK. Each round of the loop takes one from `count`.
unfoldable pub cache_store : Bool → Entry → Cache → Option (Cache × Bool)
cache_store allocated e c =
    Option.map (λ c'. if allocated then (insert_head e c', true) else (c', false))
      (make_room (suc c.count) c)
