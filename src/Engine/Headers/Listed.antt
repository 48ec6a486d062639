-- ===== src/Engine/Headers/Listed.antt =====
-- The headers of a response.
use ngx_htaccess.Common.{
  ◌≤◌, ◌&&◌, leb, ltb, leb→le, length, take, same_bytes, memcmp_eq, strncmp_eq, arith, ◌≡◌, refl,
  sym, ap, ◌∙◌, inl, inr, Bool, true, false, Bool-cases, List, [], ◌∷◌, ◌++◌, map, if◌then◌else◌,
  Bytes, codes, append-cons,
}
use mathlib.Core.List.{append-nil, append_assoc}
use ngx_htaccess.Directives.{Header, MergedCtx}
use ngx_htaccess.Engine.Conds.{Context}
use ngx_htaccess.Engine.Auth.Kinds.{begins, begins_lem}
use ngx_htaccess.Walk.Paths.{c_string}
use ngx_htaccess.Engine.Headers.{is_set, set_headers, is_type, set_expires, apply_headers}
use ngx_htaccess.Engine.State.{Response, push_header}

-- The directives that pass a test.
pub kept : (Header → Bool) → List Header → List Header
kept test [] = []
kept test (h ∷ l) = let rest = kept test l in if test h then h ∷ rest else rest

-- The header lines behind those that are there.
abbrev pub with_headers : Response → List (Bytes × Bytes) → Response
with_headers r l = record r { headers = r.headers ++ l }

abbrev pub set_line : Header → Bytes × Bytes
set_line h = (h.name, h.value)

abbrev pub expires_line : Header → Bytes × Bytes
expires_line h = (codes "Expires", h.value)

abbrev pub has_bytes : Bytes → Bool
has_bytes [] = false
has_bytes (c ∷ p) = true

-- The action begins with `set`, in any case of its letters, and there is a name.
abbrev pub sets : Header → Bool
sets h = has_bytes h.name && begins (codes "set") h.action

-- The type of a response begins with the name, up to a NUL, which has bytes.
abbrev pub is_for : Bytes → Header → Bool
is_for content_type h =
    has_bytes h.name
    && (leb (length h.name) (length content_type)
        && same_bytes (c_string (take (length h.name) content_type)) (c_string h.name))

has_bytes_lem : (p : Bytes) → ltb 0 (length p) ≡ has_bytes p
has_bytes_lem [] = refl
has_bytes_lem (c ∷ p) = ground arith

strncmp_eq-take :
    (a b : Bytes)
    → length b ≤ length a
    → strncmp_eq a b (length b) ≡ same_bytes (c_string (take (length b) a)) (c_string b)
unfolding strncmp_eq c_string memcmp_eq
strncmp_eq-take a [] h = refl
strncmp_eq-take [] (y ∷ b) h = absurd (omega arith)
strncmp_eq-take (x ∷ a) (y ∷ b) h = ground (arith, strncmp_eq-take a b (omega arith))

-- The test of a type, which asks for bytes of the type too.
is_type_lem :
    (type name : Bytes)
    → (ltb 0 (length type)
        && (ltb 0 (length name)
            && (leb (length name) (length type) && strncmp_eq type name (length name))))
      ≡ (has_bytes name
          && (leb (length name) (length type)
              && same_bytes (c_string (take (length name) type)) (c_string name)))
is_type_lem [] [] = refl
is_type_lem [] (y ∷ name) = ground arith
is_type_lem (x ∷ type) [] = ground arith
is_type_lem (x ∷ type) (y ∷ name) =
    elim (Bool-cases (leb (length (y ∷ name)) (length (x ∷ type)))) [
      | inl fits ↦
          let some_type : ltb 0 (length (x ∷ type)) ≡ true = ground arith in
          let some_name : ltb 0 (length (y ∷ name)) ≡ true = ground arith in
          rw (some_type, some_name, fits, strncmp_eq-take (x ∷ type) (y ∷ name) (leb→le _ _ fits))
            refl
      | inr long ↦
          let some_type : ltb 0 (length (x ∷ type)) ≡ true = ground arith in
          let some_name : ltb 0 (length (y ∷ name)) ≡ true = ground arith in
          rw (some_type, some_name, long) refl
    ]

kept_same :
    (f g : Header → Bool) (l : List Header) → ((h : Header) → f h ≡ g h) → kept f l ≡ kept g l
unfolding kept
kept_same f g [] same = refl
kept_same f g (h ∷ l) same = rw (same h, kept_same f g l same) refl

module _ (cx : Context) where
  no_headers : (r : Response) → r ≡ with_headers r []
  no_headers r = ap (λ l. record r { headers = l }) (sym (append-nil r.headers))

  -- One more line, and the others behind it.
  pushed :
      (test : Header → Bool) (line : Header → Bytes × Bytes) (h : Header) (l : List Header)
      (r : Response)
      → with_headers
          (if test h then push_header (line h).0 (line h).1 r else r)
          (map line (kept test l))
        ≡ with_headers r (map line (kept test (h ∷ l)))
  unfolding kept
  pushed test line h l r = elim (Bool-cases (test h)) [
    | inl on ↦ rw on (
        ap (λ k. record r { headers = k })
          (append-cons r.headers (line h) (map line (kept test l))))
    | inr off ↦ rw off refl
  ]

  set_headers-kept :
      (l : List Header) (r : Response)
      → set_headers cx l r ≡ with_headers r (map set_line (kept (is_set cx) l))
  unfolding set_headers
  set_headers-kept [] r = unfold kept in no_headers r
  set_headers-kept (h ∷ l) r = set_headers-kept l _ ∙ pushed (is_set cx) set_line h l r

  -- The line for the type changes nothing of the type.
  content_type-push :
      (b : Bool) (key value : Bytes) (r : Response)
      → (if b then push_header key value r else r).content_type ≡ r.content_type
  content_type-push true key value r = refl
  content_type-push false key value r = refl

  set_expires-kept :
      (l : List Header) (r : Response)
      → set_expires cx l r ≡ with_headers r (map expires_line (kept (is_type cx r.content_type) l))
  unfolding set_expires
  set_expires-kept [] r = unfold kept in no_headers r
  set_expires-kept (h ∷ l) r =
      let b = is_type cx r.content_type h in
      let s : Response = if b then push_header (codes "Expires") h.value r else r in
      set_expires-kept l s
      ∙ ap (λ t. with_headers s (map expires_line (kept (is_type cx t) l)))
          (content_type-push b (codes "Expires") h.value r)
      ∙ pushed (is_type cx r.content_type) expires_line h l r

  -- Both loops, with the tests of the code.
  apply_headers-tests :
      (m : MergedCtx) (r : Response)
      → apply_headers cx m r
        ≡ with_headers r (
            map set_line (kept (is_set cx) m.headers)
            ++ (if m.expires_active
                then map expires_line (kept (is_type cx r.content_type) m.expires_by_type)
                else []))
  unfolding apply_headers
  apply_headers-tests m r = elim (Bool-cases m.expires_active) [
    | inl active ↦
        rw (active, set_headers-kept m.headers r)
          (set_expires-kept m.expires_by_type
              (with_headers r (map set_line (kept (is_set cx) m.headers)))
            ∙ ap (λ l. record r { headers = l })
                (append_assoc r.headers (map set_line (kept (is_set cx) m.headers)) _))
    | inr off ↦
        rw (off, append-nil (map set_line (kept (is_set cx) m.headers)))
          (set_headers-kept m.headers r)
  ]

  is_set-sets : (h : Header) → is_set cx h ≡ sets h
  is_set-sets h =
      rw (has_bytes_lem h.name, begins_lem cx.ngx (codes "set") h.action (ground arith) refl) refl

  is_type-is_for : (type : Bytes) (h : Header) → is_type cx type h ≡ is_for type h
  is_type-is_for type h = is_type_lem type h.name

  -- htaccess_apply_headers adds lines behind those of the response and changes nothing else: one for
  -- each directive whose action begins with `set` and which has a name, in their order, also where
  -- there is a line of that name; then, where expiry is active, one for each name that is not empty
  -- and that the type of the response begins with. All other actions add nothing.
  pub apply_headers-kept :
      (m : MergedCtx) (r : Response)
      → apply_headers cx m r
        ≡ with_headers r (
            map set_line (kept sets m.headers)
            ++ (if m.expires_active
                then map expires_line (kept (is_for r.content_type) m.expires_by_type)
                else []))
  apply_headers-kept m r =
      apply_headers-tests m r
      ∙ rw
          (
            kept_same (is_set cx) sets m.headers is_set-sets,
            kept_same (is_type cx r.content_type) (is_for r.content_type) m.expires_by_type
                (is_type-is_for r.content_type),
          )
          refl
