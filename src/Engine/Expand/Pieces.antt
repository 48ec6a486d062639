-- ===== src/Engine/Expand/Pieces.antt =====
-- A template as a list of pieces.
use ngx_htaccess.Common.{
  ℕ, zero, suc, ◌+◌, ◌-◌, ◌≡◌, ◌≢◌, ◌<◌, ◌≤◌, refl, ap, ◌∙◌, inl, inr, List, [], ◌∷◌, ◌++◌, Option,
  none, some, ◌==◌, le→leb, ltb, Bytes, Bool-cases, length, length-append, take-length-append,
  append-cons, drop_behind-append, All, arith, Outcome, ok, error, fault, out_of_fuel, ◌>>=◌,
}
use ngx_htaccess.Engine.Expand.{
  expand_room, expand_copy, group, copy_group, copy_value, or_empty, variable, expand_named,
  expand_next, expand_loop, expand,
}
use ngx_htaccess.Engine.State.{RequestState, Request, Match}
use ngx_htaccess.Ngx.{Ngx, index_of-append}

-- A byte that stands for itself, one behind a backslash, a group of the match, or a variable.
pub data Piece : Type 0 where
  plain escaped group_ref : ℕ → Piece
  variable_ref : Bytes → Piece

pub print_piece : Piece → Bytes
print_piece (plain c) = c ∷ []
print_piece (escaped c) = b'\\' ∷ c ∷ []
print_piece (group_ref n) = b'$' ∷ (b'0' + n) ∷ []
print_piece (variable_ref name) = b'%' ∷ b'{' ∷ (name ++ (b'}' ∷ []))

pub print_pieces : List Piece → Bytes
print_pieces [] = []
print_pieces (x ∷ l) = print_piece x ++ print_pieces l

-- A byte that stands for itself begins no other piece, a group has one digit, and the name of a
-- variable ends at its brace.
abbrev pub IsPrintable : Piece → Type 0
IsPrintable (plain c) = (c ≢ b'\\') × (c ≢ b'$') × (c ≢ b'%')
IsPrintable (escaped c) = Unit
IsPrintable (group_ref n) = n < 10
IsPrintable (variable_ref name) = All (λ c. c ≢ b'}') name

copy_empty : (room : ℕ) (out : Bytes) → length out ≤ room → ok out ≡ expand_copy room out []
copy_empty room out h = elim (Bool-cases (ltb room (length out + 0))) [
  | inl over ↦ absurd (ground arith)
  | inr fits ↦ rw fits (ap ok (append_nil out))
]
  where
    append_nil : (out : Bytes) → out ≡ out ++ []
    append_nil [] = refl
    append_nil (c ∷ out) = ap (◌∷◌ c) (append_nil out)

copy_value_lem :
    (room : ℕ) (out s : Bytes) → length out ≤ room → copy_value room out s ≡ expand_copy room out s
copy_value_lem room out [] h = copy_empty room out h
copy_value_lem room out (c ∷ s) h = refl

copy_group_lem :
    (room : ℕ) (out : Bytes) (s : Option Bytes)
    → length out ≤ room
    → copy_group room out s ≡ expand_copy room out (or_empty s)
copy_group_lem room out none h = copy_empty room out h
copy_group_lem room out (some s) h = refl

bind_pair :
    {B : Type 0} (m : Outcome Bytes) (q : Bytes) (f : Bytes × Bytes → Outcome B)
    → m >>= (λ o. ok (q, o)) >>= f ≡ m >>= λ o. f (q, o)
bind_pair (ok a) q f = refl
bind_pair error q f = refl
bind_pair fault q f = refl
bind_pair out_of_fuel q f = refl

module _ (ngx : Ngx) (r : Request) (state : RequestState) (match : Option Match) where
  -- The text of a piece; a group that was never written is a fault.
  pub piece_text : Piece → Outcome Bytes
  piece_text (plain c) = ok (c ∷ [])
  piece_text (escaped c) = ok (c ∷ [])
  piece_text (group_ref n) = group match n >>= λ s. ok (or_empty s)
  piece_text (variable_ref name) = ok (variable ngx r state name)

  -- The texts of the pieces in turn, as long as they fit.
  pub fill_pieces : ℕ → List Piece → Bytes → Outcome Bytes
  fill_pieces room [] out = ok out
  fill_pieces room (x ∷ l) out =
      piece_text x >>= λ s. expand_copy room out s >>= λ o. fill_pieces room l o

  next-plain :
      (room c : ℕ) (q out : Bytes)
      → IsPrintable (plain c)
      → expand_next ngx r state match room c q out
        ≡ expand_copy room out (c ∷ []) >>= λ o. ok (q, o)
  unfolding expand_next
  next-plain room c [] out h = refl
  next-plain room c (d ∷ q) out (h, k, l) = elim (Bool-cases (c == b'\\')) [
    | inl same ↦ absurd (h (ground arith))
    | inr other ↦ elim (Bool-cases (c == b'$')) [
      | inl same ↦ absurd (k (ground arith))
      | inr no_group ↦ elim (Bool-cases (c == b'%')) [
        | inl same ↦ absurd (l (ground arith))
        | inr no_variable ↦ rw (other, no_group, no_variable) refl
      ]
    ]
  ]

  next-group :
      (room n : ℕ) (q out : Bytes)
      → n < 10
      → length out ≤ room
      → expand_next ngx r state match room b'$' ((b'0' + n) ∷ q) out
        ≡ group match n >>= λ s. expand_copy room out (or_empty s) >>= λ o. ok (q, o)
  unfolding expand_next
  next-group room n q out h k =
      rw (le→leb b'0' (b'0' + n) (omega arith), le→leb (b'0' + n) b'9' (omega arith), digit)
        (copied (group match n))
    where
      digit : b'0' + n - b'0' ≡ n
      digit = omega arith

      copied :
          (g : Outcome (Option Bytes))
          → ◌>>=◌ {B = Bytes × Bytes} g (λ s. copy_group room out s >>= λ o. ok (q, o))
            ≡ g >>= λ s. expand_copy room out (or_empty s) >>= λ o. ok (q, o)
      copied (ok s) = ap (λ m. m >>= λ o. ok (q, o)) (copy_group_lem room out s k)
      copied error = refl
      copied fault = refl
      copied out_of_fuel = refl

  next-variable :
      (room : ℕ) (name q out : Bytes)
      → All (λ c. c ≢ b'}') name
      → length out ≤ room
      → expand_next ngx r state match room b'%' (b'{' ∷ (name ++ (b'}' ∷ q))) out
        ≡ expand_copy room out (variable ngx r state name) >>= λ o. ok (q, o)
  unfolding expand_next
  next-variable room name q out h k =
      ap (expand_named ngx r state match room (name ++ (b'}' ∷ q)) out)
        (ngx.strlchr_lem (name ++ (b'}' ∷ q)) b'}' ∙ index_of-append name q b'}' h)
      ∙ rw (take-length-append name (b'}' ∷ q), drop_behind-append name q b'}')
          (ap (λ m. m >>= λ o. ok (q, o)) (copy_value_lem room out (variable ngx r state name) k))

  -- One round reads one piece.
  next-piece :
      (room : ℕ) (x : Piece) (q out : Bytes)
      → IsPrintable x
      → length out ≤ room
      → (fuel : ℕ)
      → expand_loop ngx r state match room (suc fuel) (print_piece x ++ q) out
        ≡ piece_text x >>= λ s.
            expand_copy room out s >>= λ o. expand_loop ngx r state match room fuel q o
  unfolding expand_loop print_piece piece_text
  next-piece room (plain c) q out h k fuel =
      rw (next-plain room c q out h) (bind_pair (expand_copy room out (c ∷ [])) q _)
  next-piece room (escaped c) q out h k fuel = bind_pair (expand_copy room out (c ∷ [])) q _
  next-piece room (group_ref n) q out h k fuel =
      ap (λ m. m >>= λ p. expand_loop ngx r state match room fuel p.0 p.1)
        (next-group room n q out h k)
      ∙ copied (group match n)
    where
      copied :
          (g : Outcome (Option Bytes))
          → ◌>>=◌ {A = Bytes × Bytes} {B = Bytes}
              (g >>= λ s. expand_copy room out (or_empty s) >>= λ o. ok (q, o))
              (λ p. expand_loop ngx r state match room fuel p.0 p.1)
            ≡ g >>= (λ s. ok (or_empty s)) >>= λ s.
                expand_copy room out s >>= λ o. expand_loop ngx r state match room fuel q o
      copied (ok s) = bind_pair (expand_copy room out (or_empty s)) q _
      copied error = refl
      copied fault = refl
      copied out_of_fuel = refl
  next-piece room (variable_ref name) q out h k fuel = rw (append-cons name b'}' q) (
      ap (λ m. m >>= λ p. expand_loop ngx r state match room fuel p.0 p.1)
        (next-variable room name q out h k)
      ∙ bind_pair (expand_copy room out (variable ngx r state name)) q _)

  -- A copy that fits stays within the room.
  expand_copy-room :
      (room : ℕ) (out s : Bytes) {o : Bytes} → expand_copy room out s ≡ ok o → length o ≤ room
  expand_copy-room room out s h = elim (Bool-cases (ltb room (length out + length s))) [
    | inl over ↦ absurd (cc (over, h))
    | inr fits ↦ ground (arith, length-append out s)
  ]

  >>=-cong :
      {A B : Type 0} (m : Outcome A) (f g : A → Outcome B)
      → ((a : A) → m ≡ ok a → f a ≡ g a)
      → m >>= f ≡ m >>= g
  >>=-cong (ok a) f g h = h a refl
  >>=-cong error f g h = refl
  >>=-cong fault f g h = refl
  >>=-cong out_of_fuel f g h = refl

  length-print_piece : (x : Piece) → 0 < length (print_piece x)
  unfolding print_piece
  length-print_piece (plain c) = omega arith
  length-print_piece (escaped c) = omega arith
  length-print_piece (group_ref n) = omega arith
  length-print_piece (variable_ref name) = omega arith

  loop-fill_pieces :
      (room : ℕ) (l : List Piece) (out : Bytes) (fuel : ℕ)
      → All IsPrintable l
      → length out ≤ room
      → length (print_pieces l) < fuel
      → expand_loop ngx r state match room fuel (print_pieces l) out ≡ fill_pieces room l out
  unfolding print_pieces fill_pieces expand_loop
  loop-fill_pieces room l out zero h k e = absurd (omega arith)
  loop-fill_pieces room [] out (suc fuel) h k e = refl
  loop-fill_pieces room (x ∷ l) out (suc fuel) h k e =
      next-piece room x (print_pieces l) out h.0 k fuel
      ∙ >>=-cong (piece_text x) _ _ (λ s _. >>=-cong (expand_copy room out s) _ _ (λ o copied.
        loop-fill_pieces room l o fuel h.1 (expand_copy-room room out s copied)
          (omega (arith, length-append (print_piece x) (print_pieces l), length-print_piece x))))

  -- Where a template is made of bytes that stand for themselves, bytes behind a backslash, groups of
  -- one digit and variables, htaccess_expand writes their texts in turn, and has an error exactly
  -- where the next text does not fit and a fault where a group was never written.
  pub expand-print_pieces :
      (l : List Piece)
      → All IsPrintable l
      → expand ngx r state (print_pieces l) match ≡ fill_pieces (expand_room (print_pieces l)) l []
  unfolding expand
  expand-print_pieces l h =
      loop-fill_pieces (expand_room (print_pieces l)) l [] (suc (length (print_pieces l))) h
        (omega arith) (omega arith)
