-- ===== src/Cache/Lookup.antt =====
-- What `htaccess_cache_lookup` answers: an entry that agrees with the file; and what it does to the
-- queue where the entry that it found does not agree.
use ngx_htaccess.Common.{
  ◌-◌, ◌≡◌, refl, inl, inr, Bool, true, false, List, ◌∷◌, Option, none, some, arith, ◌==◌,
  Bool-cases, if◌then◌else◌, Bytes, length, memcmp_eq_iff, take, ◌∙◌, ◌&&◌,
}
use ngx_htaccess.Directives.{FileInfo}
use ngx_htaccess.Cache.Find.{Unlinks, IsUnlinked, unlink_path-IsUnlinked}
use ngx_htaccess.Cache.Invariant.{IsValid}
use ngx_htaccess.Cache.Room.{cache_store-lru, unlink_last-take}
use ngx_htaccess.Cache.{
  Entry, Cache, unlink_last, cache_evict, unlink_path, check_entry, cache_lookup, decrement,
  release, answer, to_head, cache_store,
}

-- The entry says of the file what the file system says.
abbrev pub IsFresh : Entry → Option FileInfo → Type 0
IsFresh e none = e.absent ≡ true
IsFresh e (some fi) = (e.absent ≡ false) × (e.mtime ≡ fi.mtime) × (e.size ≡ fi.size)

check_entry-IsFresh :
    (c : Cache) (e : Entry) (info : Option FileInfo) {f : Entry}
    → (check_entry c e info).1 ≡ some f
    → (f ≡ e) × IsFresh e info × ((check_entry c e info).0 ≡ c)
unfolding check_entry
check_entry-IsFresh c e none h = ground arith
check_entry-IsFresh c e (some fi) h = ground arith

-- An entry that agrees with the file is answered, and the cache stays.
check_entry_of_fresh :
    (c : Cache) (e : Entry) (info : Option FileInfo)
    → IsFresh e info
    → check_entry c e info ≡ (c, some e)
unfolding check_entry
check_entry_of_fresh c e none h = ground arith
check_entry_of_fresh c e (some fi) h = ground arith

-- One that does not costs the last entry of the queue its place.
check_entry_stale :
    (c : Cache) (e : Entry) (info : Option FileInfo)
    → ¬ IsFresh e info
    → check_entry c e info ≡ (cache_evict c, none)
unfolding check_entry
check_entry_stale c e none h = ground arith
check_entry_stale c e (some fi) h = elim (Bool-cases e.absent) [
  | inl gone ↦ rw gone
  | inr there ↦ rw there (elim (Bool-cases (e.mtime == fi.mtime && e.size == fi.size)) [
    | inl same ↦ absurd (h (ground arith))
    | inr other ↦ rw other
  ])
]

-- The answer of a lookup, over what its search found.
answer-IsFresh :
    (info : Option FileInfo) (c : Cache) (path : Bytes) (r : Option (Entry × List Entry))
    → IsUnlinked path c.lru r
    → {e : Entry} → (answer info (to_head c r)).1 ≡ some e
    → IsFresh e info
      × ((rest : List Entry) × Unlinks path c.lru e rest
          × ((answer info (to_head c r)).0 ≡ record c { lru = e ∷ rest }))
answer-IsFresh info c path none u h = cc
answer-IsFresh info c path (some (f, rest)) u h =
    let (same, fresh, kept) = check_entry-IsFresh (record c { lru = f ∷ rest }) f info h in
    rw same (fresh, (rest, u, kept))

-- A lookup answers only with the first entry of the path in the queue, only if that entry agrees
-- with the file (no file for an absent entry; the same time and size otherwise), and then it only
-- moves the entry to the head: the others keep their order, and no pool is destroyed.
pub cache_lookup-IsFresh :
    (stat : Bytes → Option FileInfo) (c : Cache) (path : Bytes) (enable : Bool) {e : Entry}
    → (cache_lookup stat c path enable).1 ≡ some e
    → IsFresh e (stat path)
      × ((rest : List Entry) × Unlinks path c.lru e rest
          × ((cache_lookup stat c path enable).0 ≡ record c { lru = e ∷ rest }))
unfolding cache_lookup
cache_lookup-IsFresh stat c path false h = cc
cache_lookup-IsFresh stat c path true h =
    answer-IsFresh (stat path) c path (unlink_path path c.lru) (unlink_path-IsUnlinked path c.lru) h

unlink_path_head : (e : Entry) (l : List Entry) → unlink_path e.path (e ∷ l) ≡ some (e, l)
unfolding unlink_path
unlink_path_head e l = rw ((memcmp_eq_iff e.path e.path).1 refl)

-- What was stored last is what the next lookup of the path answers, as long as the file stays as it
-- was; with the cache off there is no answer.
pub cache_lookup-cache_store :
    (stat : Bytes → Option FileInfo) (e : Entry) (c : Cache) (enable : Bool)
    → IsValid c
    → IsFresh e (stat e.path)
    → (c' : Cache) × (cache_store true e c ≡ some (c', true))
      × (cache_lookup stat c' e.path enable ≡ (c', (if enable then some e else none)))
unfolding cache_lookup
cache_lookup-cache_store stat e c enable v fresh =
    let (c', stored, w, queue) = cache_store-lru true e c v in (c', stored, again c' queue enable)
  where
    again :
        (c' : Cache)
        → c'.lru ≡ e ∷ take (c.max_entries - 1) c.lru
        → (enable : Bool)
        → cache_lookup stat c' e.path enable ≡ (c', (if enable then some e else none))
    again c' q false = refl
    again c' q true = rw (
      q,
      cache_lookup,
      unlink_path_head e (take (c.max_entries - 1) c.lru),
      check_entry_of_fresh _ e (stat e.path) fresh,
    )

-- Where the entry that is found does not agree with the file and `f ∷ l` are the others, the lookup
-- answers nothing, and the entry stays, at the head of the queue: it is the last of the others that
-- is dropped, and its pool that is destroyed.
pub cache_lookup_stale :
    (stat : Bytes → Option FileInfo) (c : Cache) (path : Bytes) (e f : Entry) (l : List Entry)
    → unlink_path path c.lru ≡ some (e, f ∷ l)
    → ¬ IsFresh e (stat path)
    → cache_lookup stat c path true ≡ (
      record c {
        lru = e ∷ take (length l) (f ∷ l);
        count = decrement c.count;
        destroyed = release (unlink_last f l).1 c.destroyed;
      },
      none,
    )
unfolding cache_lookup
cache_lookup_stale stat c path e f l found stale =
    rw (found, cache_lookup)
      (check_entry_stale (record c { lru = e ∷ f ∷ l }) e (stat path) stale ∙ evicted)
  where
    evicted :
        ◌≡◌ {A = Cache × Option Entry}
          (cache_evict (record c { lru = e ∷ f ∷ l }), none)
          (
            record c {
              lru = e ∷ take (length l) (f ∷ l);
              count = decrement c.count;
              destroyed = release (unlink_last f l).1 c.destroyed;
            },
            none,
          )
    evicted = unfold cache_evict in rw (← unlink_last-take f l)
