-- ===== src/Engine/Expand/Total.antt =====
-- htaccess_expand ends, and stays within its buffer.
use ngx_htaccess.Common.{
  ℕ, zero, suc, ◌+◌, ◌-◌, ◌≡◌, ◌<◌, ◌≤◌, refl, inl, inr, ◌⊎◌, ◌&&◌, [], ◌∷◌, Option, none, some,
  ◌==◌, leb, ltb, Bytes, Bool-cases, length, length-append, length-drop, take, drop, get_elem?,
  arith, Outcome, ok, error, fault, out_of_fuel, ◌>>=◌, IsDone,
}
use ngx_htaccess.Engine.Expand.{
  expand_room, expand_copy, group, between, copy_group, copy_value, variable, expand_named,
  expand_next, expand_loop, expand,
}
use ngx_htaccess.Engine.State.{RequestState, Request, Match}
use ngx_htaccess.Ngx.{Ngx}

-- A round leaves at most `n` bytes of the template and stays within the room.
abbrev Fits : ℕ → ℕ → Outcome (Bytes × Bytes) → Type 0
Fits room n (ok (p, o)) = (length p ≤ n) × (length o ≤ room)
Fits room n out_of_fuel = ⊥
Fits room n _ = Unit

abbrev FitsRoom : ℕ → Outcome Bytes → Type 0
FitsRoom room (ok o) = length o ≤ room
FitsRoom room out_of_fuel = ⊥
FitsRoom room _ = Unit

Fits-then :
    (room n : ℕ) (m : Outcome Bytes) (q : Bytes)
    → FitsRoom room m
    → length q ≤ n
    → Fits room n (m >>= λ o. ok (q, o))
Fits-then room n (ok o) q h k = (k, h)
Fits-then room n error q h k = tt
Fits-then room n fault q h k = tt
Fits-then room n out_of_fuel q h k = h

expand_copy-FitsRoom : (room : ℕ) (out s : Bytes) → FitsRoom room (expand_copy room out s)
expand_copy-FitsRoom room out s = elim (Bool-cases (ltb room (length out + length s))) [
  | inl over ↦ rw over tt
  | inr fits ↦ rw fits (ground (arith, length-append out s))
]

copy_value-FitsRoom :
    (room : ℕ) (out s : Bytes) → length out ≤ room → FitsRoom room (copy_value room out s)
copy_value-FitsRoom room out [] h = h
copy_value-FitsRoom room out (c ∷ s) h = expand_copy-FitsRoom room out (c ∷ s)

Fits-copy_group :
    (room n : ℕ) (out q : Bytes) (g : Outcome (Option Bytes))
    → IsDone g
    → length out ≤ room
    → length q ≤ n
    → Fits room n (g >>= λ s. copy_group room out s >>= λ o. ok (q, o))
Fits-copy_group room n out q (ok none) d h k = (k, h)
Fits-copy_group room n out q (ok (some s)) d h k =
    Fits-then room n (expand_copy room out s) q (expand_copy-FitsRoom room out s) k
Fits-copy_group room n out q error d h k = tt
Fits-copy_group room n out q fault d h k = tt
Fits-copy_group room n out q out_of_fuel d h k = d

between-IsDone : (text : Bytes) (pair : Option (Option (ℕ × ℕ))) → IsDone (between text pair)
between-IsDone text none = tt
between-IsDone text (some none) = tt
between-IsDone text (some (some (first, last))) = tt

group-IsDone : (match : Option Match) (n : ℕ) → IsDone (group match n)
unfolding group
group-IsDone none n = tt
group-IsDone (some m) n = between-IsDone m.text (get_elem? m.captures n)

module _ (ngx : Ngx) (r : Request) (state : RequestState) (match : Option Match) (room : ℕ) where
  expand_named-Fits :
      (n : ℕ) (p out : Bytes) (i : Option ℕ)
      → length out ≤ room
      → length p ≤ n
      → Fits room n (expand_named ngx r state match room p out i)
  expand_named-Fits n p out none h k = tt
  expand_named-Fits n p out (some i) h k =
      Fits-then room n (copy_value room out (variable ngx r state (take i p))) (drop (i + 1) p)
        (copy_value-FitsRoom room out (variable ngx r state (take i p)) h)
        (omega (arith, length-drop (i + 1) p))

  copied-Fits :
      (n : ℕ) (out s q : Bytes)
      → length q ≤ n
      → Fits room n (expand_copy room out s >>= λ o. ok (q, o))
  copied-Fits n out s q k =
      Fits-then room n (expand_copy room out s) q (expand_copy-FitsRoom room out s) k

  expand_next-Fits :
      (c : ℕ) (p out : Bytes)
      → length out ≤ room
      → Fits room (length p) (expand_next ngx r state match room c p out)
  unfolding expand_next
  expand_next-Fits c [] out h = copied-Fits 0 out (c ∷ []) [] (omega arith)
  expand_next-Fits c (d ∷ p) out h = elim (Bool-cases (c == b'\\')) [
    | inl escapes ↦ rw escapes (copied-Fits (suc (length p)) out (d ∷ []) p (omega arith))
    | inr other ↦ elim (Bool-cases (c == b'$' && leb b'0' d && leb d b'9')) [
      | inl digit ↦
          rw (other, digit)
            (Fits-copy_group room (suc (length p)) out p (group match (d - b'0'))
              (group-IsDone match (d - b'0')) h (omega arith))
      | inr no_digit ↦ elim (Bool-cases (c == b'%' && d == b'{')) [
        | inl named ↦
            rw (other, no_digit, named)
              (expand_named-Fits (suc (length p)) p out (ngx.strlchr p b'}') h (omega arith))
        | inr plain ↦
            rw (other, no_digit, plain)
              (copied-Fits (suc (length p)) out (c ∷ []) (d ∷ p) (omega arith))
      ]
    ]
  ]

  expand_loop-FitsRoom :
      (fuel : ℕ) (p out : Bytes)
      → length out ≤ room
      → length p < fuel
      → FitsRoom room (expand_loop ngx r state match room fuel p out)
  unfolding expand_loop
  expand_loop-FitsRoom zero p out h k = absurd (omega arith)
  expand_loop-FitsRoom (suc fuel) [] out h k = h
  expand_loop-FitsRoom (suc fuel) (c ∷ p) out h k =
      rounds (expand_next ngx r state match room c p out) (expand_next-Fits c p out h)
        (λ q o e f. expand_loop-FitsRoom fuel q o f (omega arith))
    where
      rounds :
          (m : Outcome (Bytes × Bytes))
          → Fits room (length p) m
          → ((q o : Bytes)
              → length q ≤ length p
              → length o ≤ room
              → FitsRoom room (expand_loop ngx r state match room fuel q o))
          → FitsRoom room (m >>= λ q. expand_loop ngx r state match room fuel q.0 q.1)
      rounds (ok (q, o)) f next = next q o f.0 f.1
      rounds error f next = tt
      rounds fault f next = tt
      rounds out_of_fuel f next = f

-- htaccess_expand ends on every template: with a text that fits in the buffer it allocates, with an
-- error, or at a group of the match that was never written.
pub expand_total :
    (ngx : Ngx) (r : Request) (state : RequestState) (tpl : Bytes) (match : Option Match)
    → ((out : Bytes) × (expand ngx r state tpl match ≡ ok out) × (length out ≤ expand_room tpl))
      ⊎ (expand ngx r state tpl match ≡ error)
      ⊎ (expand ngx r state tpl match ≡ fault)
unfolding expand
expand_total ngx r state tpl match =
    by_outcome (expand_loop ngx r state match (expand_room tpl) (suc (length tpl)) tpl []) (
      expand_loop-FitsRoom ngx r state match (expand_room tpl) (suc (length tpl)) tpl []
        (omega arith) (omega arith))
  where
    by_outcome :
        (m : Outcome Bytes)
        → FitsRoom (expand_room tpl) m
        → ((out : Bytes) × (m ≡ ok out) × (length out ≤ expand_room tpl))
          ⊎ (m ≡ error)
          ⊎ (m ≡ fault)
    by_outcome (ok o) h = inl (o, refl, h)
    by_outcome error h = inr (inl refl)
    by_outcome fault h = inr (inr refl)
    by_outcome out_of_fuel h = absurd h

pub expand-IsDone :
    (ngx : Ngx) (r : Request) (state : RequestState) (tpl : Bytes) (match : Option Match)
    → IsDone (expand ngx r state tpl match)
expand-IsDone ngx r state tpl match = elim (expand_total ngx r state tpl match) [
  | inl (out, written, fits) ↦ rw written tt
  | inr (inl failed) ↦ rw failed tt
  | inr (inr unwritten) ↦ rw unwritten tt
]
