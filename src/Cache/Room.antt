-- ===== src/Cache/Room.antt =====
-- The loop of `htaccess_cache_store` that makes room: it ends, and drops the least recent entry of
-- a full cache.
use ngx_htaccess.Common.{
  ℕ, zero, suc, ◌-◌, ◌<◌, ◌≡◌, refl, sym, ◌∙◌, ap, inl, inr, Bool, true, false, List, [], ◌∷◌, ◌++◌,
  some, arith, leb, Bool-cases, if◌then◌else◌, length, take, take_of_length-le, leb→le,
}
use ngx_htaccess.Cache.Invariant.{IsValid, evict_from-IsValid}
use ngx_htaccess.Cache.{Entry, Cache, unlink_last, cache_evict, make_room, insert_head, cache_store}

pub unlink_last-take : (e : Entry) (l : List Entry) → (unlink_last e l).0 ≡ take (length l) (e ∷ l)
unfolding unlink_last
unlink_last-take e [] = refl
unlink_last-take e (f ∷ l) = rw (unlink_last-take f l)

lru-cache_evict :
    (c : Cache) (l : List Entry) → c.lru ≡ l → (cache_evict c).lru ≡ take (length c.lru - 1) c.lru
unfolding cache_evict
lru-cache_evict c [] q = rw (q, cache_evict)
lru-cache_evict c (e ∷ l) q =
    rw (q, cache_evict) (unlink_last-take e l ∙ ap (λ (n : ℕ). take n (e ∷ l)) (omega arith))

-- There is room in `r`, which is `c` cut to one entry less than the limit.
pub record HasRoom (c r : Cache) : Type 0 where
  pub valid : IsValid r
  pub room : r.count < r.max_entries
  pub limit : r.max_entries ≡ c.max_entries
  pub kept : r.lru ≡ take (c.max_entries - 1) c.lru

make_room_again :
    (fuel : ℕ) (c : Cache) → 0 < fuel → c.count < c.max_entries → make_room fuel c ≡ some c
unfolding make_room
make_room_again zero c h k = absurd (omega arith)
make_room_again (suc fuel) c h k = ground arith

-- On a valid cache the loop ends after one eviction at most.
pub make_room_lem :
    (c : Cache) → IsValid c → (r : Cache) × (make_room (suc c.count) c ≡ some r) × HasRoom c r
unfolding make_room
make_room_lem c v = elim (Bool-cases (leb c.max_entries c.count)) [
  | inl full ↦
      let (w, less, same) = evict_from-IsValid c c.lru refl v in
      let le = leb→le c.max_entries c.count full in
      (
        cache_evict c,
        rw full (make_room_again c.count (cache_evict c) (omega arith) (omega arith)),
        record {
          valid = w;
          room = omega arith;
          limit = same;
          kept = lru-cache_evict c c.lru refl ∙ ap (λ (n : ℕ). take n c.lru) (omega arith);
        },
      )
  | inr room ↦ (
    c,
    rw room,
    record {
      valid = v;
      room = ground arith;
      limit = refl;
      kept = sym (take_of_length-le (c.max_entries - 1) c.lru (ground arith));
    },
  )
]

-- `htaccess_cache_store` always returns, and leaves the cache valid, also where no memory is left
-- for the new entry. The queue then holds the most recent entries that leave one place free, with
-- the new entry in front of them if there was memory for it.
pub cache_store-lru :
    (allocated : Bool) (e : Entry) (c : Cache)
    → IsValid c
    → (c' : Cache) × (cache_store allocated e c ≡ some (c', allocated))
      × IsValid c'
      × (c'.lru ≡ (if allocated then e ∷ [] else []) ++ take (c.max_entries - 1) c.lru)
unfolding cache_store
cache_store-lru true e c v =
    let (r, made, h) = make_room_lem c v in
    (insert_head e r, rw made, omega arith, ap (◌∷◌ e) h.kept)
cache_store-lru false e c v = let (r, made, h) = make_room_lem c v in (r, rw made, h.valid, h.kept)
