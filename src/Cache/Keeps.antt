-- ===== src/Cache/Keeps.antt =====
-- What all entries of the queue satisfy, the operations of the cache keep.
use ngx_htaccess.Cache.Find.{Unlinks, IsUnlinked, unlink_path-IsUnlinked}
use ngx_htaccess.Cache.Invariant.{IsValid}
use ngx_htaccess.Cache.Room.{cache_store-lru, unlink_last-take}
use ngx_htaccess.Cache.{
  Cache, Entry, unlink_last, cache_evict, unlink_path, to_head, check_entry, answer, cache_lookup,
  cache_store,
}
use ngx_htaccess.Common.{
  ℕ, zero, suc, ◌-◌, ◌≡◌, refl, Bool, true, false, List, [], ◌∷◌, ◌++◌, Option, none, some,
  if◌then◌else◌, ◌==◌, ◌&&◌, Bytes, take, length, All,
}
use ngx_htaccess.Directives.{FileInfo}

module _ {κ} (P : Entry → Type κ) where
  All-split :
      (before behind : List Entry) (e : Entry)
      → All P (before ++ (e ∷ behind))
      → P e × All P (before ++ behind)
  All-split [] behind e h = h
  All-split (f ∷ before) behind e h =
      let (here, rest) = All-split before behind e h.1 in (here, (h.0, rest))

  All-take : (n : ℕ) (l : List Entry) → All P l → All P (take n l)
  All-take zero l h = tt
  All-take (suc n) [] h = tt
  All-take (suc n) (e ∷ l) h = (h.0, All-take n l h.1)

  All-unlink_last : (e : Entry) (l : List Entry) → P e → All P l → All P (unlink_last e l).0
  All-unlink_last e l h k = rw unlink_last-take (All-take (length l) (e ∷ l) (h, k))

  All-cache_evict : (c : Cache) (l : List Entry) → c.lru ≡ l → All P l → All P (cache_evict c).lru
  unfolding cache_evict
  All-cache_evict c [] q h = rw (q, cache_evict) tt
  All-cache_evict c (e ∷ l) q h = rw (q, cache_evict) (All-unlink_last e l h.0 h.1)

  All-if :
      (b : Bool) (r s : Cache × Option Entry)
      → All P r.0.lru
      → All P s.0.lru
      → All P (if b then r else s).0.lru
  All-if true r s h k = h
  All-if false r s h k = k

  All-check_entry :
      (c : Cache) (e : Entry) (info : Option FileInfo)
      → All P c.lru
      → All P (check_entry c e info).0.lru
  unfolding check_entry
  All-check_entry c e none h =
      All-if e.absent (c, some e) (cache_evict c, none) h (All-cache_evict c c.lru refl h)
  All-check_entry c e (some fi) h =
      All-if e.absent (cache_evict c, none) _ evicted
        (All-if (e.mtime == fi.mtime && e.size == fi.size) (c, some e) (cache_evict c, none) h
          evicted)
    where
      evicted : All P (cache_evict c).lru
      evicted = All-cache_evict c c.lru refl h

  All-answer :
      (info : Option FileInfo) (c : Cache) (path : Bytes) (r : Option (Entry × List Entry))
      → IsUnlinked path c.lru r
      → All P c.lru
      → All P (answer info (to_head c r)).0.lru
  All-answer info c path none u h = h
  All-answer info c path (some (e, rest)) u h =
      All-check_entry (record c { lru = e ∷ rest }) e info
        (rw u.others (All-split u.before u.behind e (rw u.splits at h)))

  -- A lookup brings no new entry into the queue.
  pub All-cache_lookup :
      (stat : Bytes → Option FileInfo) (c : Cache) (path : Bytes)
      → All P c.lru
      → All P (cache_lookup stat c path true).0.lru
  unfolding cache_lookup
  All-cache_lookup stat c path h =
      All-answer (stat path) c path (unlink_path path c.lru) (unlink_path-IsUnlinked path c.lru) h

  -- What was found in the queue satisfies what all of it satisfies.
  pub All-Unlinks :
      (path : Bytes) (c : Cache) (e : Entry) (rest : List Entry)
      → Unlinks path c.lru e rest
      → All P c.lru
      → P e
  All-Unlinks path c e rest u h = (All-split u.before u.behind e (rw u.splits at h)).0

  -- A store brings in the new entry only.
  pub All-cache_store :
      (allocated : Bool) (e : Entry) (c : Cache)
      → IsValid c
      → P e
      → All P c.lru
      → (c' : Cache) × (cache_store allocated e c ≡ some (c', allocated))
        × IsValid c'
        × All P c'.lru
  All-cache_store true e c v p h =
      let (c', stored, w, q) = cache_store-lru true e c v in
      (c', stored, w, rw q (p, All-take (c.max_entries - 1) c.lru h))
  All-cache_store false e c v p h =
      let (c', stored, w, q) = cache_store-lru false e c v in
      (c', stored, w, rw q (All-take (c.max_entries - 1) c.lru h))
