-- ===== src/Parser/Parse/Arrays.antt =====
-- The arrays `enabled` and `files_match` of htaccess_parse, read as stacks.
use native.Mathlib.Numerals.{add-one}
use ngx_htaccess.Common.{
  lt→ltb, ℕ, zero, suc, ◌+◌, ◌-◌, ◌<◌, ◌≡◌, refl, ap, Bool, true, false, ◌&&◌, List, [], ◌∷◌, arith,
  ltb, if◌then◌else◌, Bytes, length, get_or, set, get_or-set_self, get_or-set_ne,
}
use ngx_htaccess.Parser.Parse.Nested.{innermost, pop, push}

-- The slots of the array up to a depth, the last first.
unfoldable pub stack_of : List Bytes → ℕ → List Bytes
stack_of slots zero = get_or slots 0 [] ∷ []
stack_of slots (suc d) = get_or slots (suc d) [] ∷ stack_of slots d

-- Every slot up to a depth holds true.
unfoldable pub all_on : List Bool → ℕ → Bool
all_on slots zero = get_or slots 0 false
all_on slots (suc d) = get_or slots (suc d) false && all_on slots d

stack_of-set :
    (l : List Bytes) (d k : ℕ) (v : Bytes) → d < k → stack_of (set l k v) d ≡ stack_of l d
unfolding stack_of
stack_of-set l zero k v h = rw (get_or-set_ne l k 0 v [] (omega arith))
stack_of-set l (suc d) k v h =
    rw (get_or-set_ne l k (suc d) v [] (omega arith), stack_of-set l d k v (omega arith))

all_on-set : (l : List Bool) (d k : ℕ) (v : Bool) → d < k → all_on (set l k v) d ≡ all_on l d
unfolding all_on
all_on-set l zero k v h = rw (get_or-set_ne l k 0 v false (omega arith))
all_on-set l (suc d) k v h =
    rw (get_or-set_ne l k (suc d) v false (omega arith), all_on-set l d k v (omega arith))

pub length-stack_of : (l : List Bytes) (d : ℕ) → length (stack_of l d) ≡ suc d
unfolding stack_of
length-stack_of l zero = refl
length-stack_of l (suc d) = ap suc (length-stack_of l d)

pub all_on_here : (l : List Bool) (d : ℕ) → all_on l d ≡ true → get_or l d false ≡ true
unfolding all_on
all_on_here l zero h = h
all_on_here l (suc d) h = ground arith

pub innermost-stack_of : (l : List Bytes) (d : ℕ) → innermost (stack_of l d) ≡ get_or l d []
unfolding stack_of
innermost-stack_of l zero = refl
innermost-stack_of l (suc d) = refl

pub le_not_ltb : (d : ℕ) → ltb d 15 ≡ false → ltb (suc d) 16 ≡ false
le_not_ltb d h = ground arith

-- Closing and opening a block, on the arrays and on the stack.
abbrev pub closed : ℕ → ℕ
closed d = if ltb 0 d then d - 1 else d

pub stack_of-closed : (l : List Bytes) (d : ℕ) → stack_of l (closed d) ≡ pop (stack_of l d)
unfolding stack_of
stack_of-closed l zero = refl
stack_of-closed l (suc zero) = refl
stack_of-closed l (suc (suc d)) =
    let e : suc (suc d) - 1 ≡ suc d = omega arith in rw (e, lt→ltb 0 (suc (suc d)) (omega arith))

pub all_on-closed : (l : List Bool) (d : ℕ) → all_on l d ≡ true → all_on l (closed d) ≡ true
unfolding all_on
all_on-closed l zero h = h
all_on-closed l (suc d) h = let e : suc d - 1 ≡ d = omega arith in rw e (ground arith)

pub stack_of_opened :
    (l : List Bytes) (d : ℕ) (v : Bytes)
    → d < 15
    → length l ≡ 16
    → stack_of (set l (d + 1) v) (d + 1) ≡ push v (stack_of l d)
unfolding stack_of
stack_of_opened l d v h e = rw add-one (
    rw (
      get_or-set_self l (suc d) v [] (omega arith),
      stack_of-set l d (suc d) v (omega arith),
      length-stack_of l d,
      lt→ltb (suc d) 16 (omega arith),
    ))

pub all_on_opened :
    (l : List Bool) (d : ℕ) (v : Bool)
    → d < 15
    → length l ≡ 16
    → v ≡ true
    → all_on l d ≡ true
    → all_on (set l (d + 1) v) (d + 1) ≡ true
unfolding all_on
all_on_opened l d v h e k on = rw add-one (
    rw (
      get_or-set_self l (suc d) v false (omega arith),
      all_on-set l d (suc d) v (omega arith),
      k,
      on,
    ))
