-- ===== src/Walk/Build/Lives.antt =====
-- Which pools are destroyed while a request holds what is in them.
pub mod Uncached
use ngx_htaccess.Common.{
  ℕ, ◌+◌, ◌<◌, ◌≡◌, refl, ◌∙◌, Bool, true, false, ◌||◌, List, [], ◌∷◌, ◌++◌, ◌==◌, if◌then◌else◌,
  All, All-append, arith,
}
use ngx_htaccess.Walk.Build.{Walking, is_in, any_destroyed, dangles}
use ngx_htaccess.Walk.Load.{Worker, drop_pool}

abbrev pub IsBelow : ℕ → List ℕ → Type 0
IsBelow n l = All (λ p. p < n) l

-- Pools are numbered in their order, and of those that are held none was destroyed.
pub record IsLive (w : Worker) (held : List ℕ) : Type 0 where
  pub destroyed_below : IsBelow w.next_pool w.cache.destroyed
  pub held_below : IsBelow w.next_pool held
  pub live : any_destroyed held w.cache.destroyed ≡ false

IsBelow-suc : (n : ℕ) (l : List ℕ) → IsBelow n l → IsBelow (n + 1) l
IsBelow-suc n [] h = tt
IsBelow-suc n (p ∷ l) h = (omega (arith, h.0), IsBelow-suc n l h.1)

is_in_new : (n : ℕ) (l : List ℕ) → IsBelow n l → is_in n l ≡ false
unfolding is_in
is_in_new n [] h = refl
is_in_new n (p ∷ l) h =
    let other : (n == p) ≡ false = ground (arith, h.0) in rw (other, is_in_new n l h.1) refl

any_destroyed-drop :
    (n : ℕ) (held l : List ℕ) → IsBelow n held → any_destroyed held (n ∷ l) ≡ any_destroyed held l
unfolding any_destroyed is_in
any_destroyed-drop n [] l h = refl
any_destroyed-drop n (p ∷ held) l h =
    let other : (p == n) ≡ false = ground (arith, h.0) in
    rw (other, any_destroyed-drop n held l h.1) refl

or_false : (x y z : Bool) → (x || y) ≡ false → (y ≡ false → z ≡ false) → (x || z) ≡ false
or_false true y z h k = absurd (cc h)
or_false false y z h k = k h

any_destroyed-append :
    (a b l : List ℕ)
    → any_destroyed a l ≡ false
    → any_destroyed b l ≡ false
    → any_destroyed (a ++ b) l ≡ false
unfolding any_destroyed
any_destroyed-append [] b l h k = k
any_destroyed-append (p ∷ a) b l h k =
    or_false (is_in p l) (any_destroyed a l) _ h (λ rest. any_destroyed-append a b l rest k)

IsLive-append : (w : Worker) (a b : List ℕ) → IsLive w a → IsLive w b → IsLive w (a ++ b)
IsLive-append w a b h k = record {
  destroyed_below = h.destroyed_below;
  held_below = All-append (λ p. p < w.next_pool) a b h.held_below k.held_below;
  live = any_destroyed-append a b w.cache.destroyed h.live k.live;
}

-- The pool of a refused file is a new one.
pub drop_pool-IsLive : (w : Worker) (held : List ℕ) → IsLive w held → IsLive (drop_pool w) held
drop_pool-IsLive w held h = record {
  destroyed_below = (omega arith, IsBelow-suc w.next_pool w.cache.destroyed h.destroyed_below);
  held_below = IsBelow-suc w.next_pool held h.held_below;
  live = any_destroyed-drop w.next_pool held w.cache.destroyed h.held_below ∙ h.live;
}

-- The pool of a parsed file is a new one too, and is held.
pub new_pool-IsLive :
    (w : Worker) (held : List ℕ)
    → IsLive w held
    → IsLive (record w { next_pool = w.next_pool + 1 }) (w.next_pool ∷ held)
unfolding any_destroyed
new_pool-IsLive w held h = record {
  destroyed_below = IsBelow-suc w.next_pool w.cache.destroyed h.destroyed_below;
  held_below = (omega arith, IsBelow-suc w.next_pool held h.held_below);
  live = rw (is_in_new w.next_pool w.cache.destroyed h.destroyed_below) h.live;
}

-- A pool more, or the same.
pub borrowed-IsLive :
    (w : Worker) (held : List ℕ) (b : Bool) (p : ℕ)
    → IsLive w (p ∷ held)
    → IsLive w held
    → IsLive w (if b then p ∷ held else held)
borrowed-IsLive w held true p more less = more
borrowed-IsLive w held false p more less = less

pub tail-IsLive : (w : Worker) (held : List ℕ) (p : ℕ) → IsLive w (p ∷ held) → IsLive w held
unfolding any_destroyed
tail-IsLive w held p h = record {
  destroyed_below = h.destroyed_below;
  held_below = h.held_below.1;
  live = later (is_in p w.cache.destroyed) (any_destroyed held w.cache.destroyed) h.live;
}
  where
    later : (x y : Bool) → (x || y) ≡ false → y ≡ false
    later true y e = absurd (cc e)
    later false y e = e

pub unborrowed-IsLive :
    (w : Worker) (held : List ℕ) (b : Bool) (p : ℕ)
    → IsLive w (if b then p ∷ held else held)
    → IsLive w held
unborrowed-IsLive w held true p h = tail-IsLive w held p h
unborrowed-IsLive w held false p h = h

-- What is held behind a walk, alive, does not dangle.
pub dangles-IsLive :
    (held : List ℕ) (s : Walking)
    → IsLive s.worker s.pools
    → IsLive s.worker held
    → (dangles held s ≡ false) × IsLive s.worker (s.pools ++ held)
unfolding dangles
dangles-IsLive held s p h = let both = IsLive-append s.worker s.pools held p h in (both.live, both)
