-- ===== src/Engine/Alias/Prefix.antt =====
-- Which URIs a Redirect with a path takes.
use ngx_htaccess.Common.{
  ℕ, ◌≡◌, ◌≢◌, ◌↔◌, ◌⊎◌, inl, inr, refl, Bool, true, false, not, ◌&&◌, ◌||◌, [], ◌∷◌, ◌++◌, ◌==◌,
  ltb, if◌then◌else◌, Bytes, length, length-append, strncmp_eq, All, arith, get_or-append, subst,
}
use ngx_htaccess.Directives.{AliasRedirect}
use ngx_htaccess.Engine.Alias.{redirected, passed, match_path}
use ngx_htaccess.Engine.State.{Regexes}
use ngx_htaccess.Parser.Conds.{byte_at}

-- What may follow the path: nothing, a slash or a query.
abbrev pub IsBoundary : Bytes → Type 0
IsBoundary [] = Unit
IsBoundary (c ∷ rest) = (c ≡ b'/') ⊎ (c ≡ b'?')

strncmp_head :
    (x y : ℕ) (b : Bool) → y ≢ 0 → (x == y && (x == 0 || b)) ≡ true → (x ≡ y) × (b ≡ true)
strncmp_head x y b h e = ground arith

strncmp_eq_split :
    (s p : Bytes)
    → All (λ c. c ≢ 0) p
    → strncmp_eq s p (length p) ≡ true
    → (rest : Bytes) × (s ≡ p ++ rest)
unfolding strncmp_eq
strncmp_eq_split s [] h e = (s, refl)
strncmp_eq_split [] (y ∷ p) h e = absurd (cc e)
strncmp_eq_split (x ∷ s) (y ∷ p) h e =
    let (same, later) = strncmp_head x y (strncmp_eq s p (length p)) h.0 e in
    let (rest, split) = strncmp_eq_split s p h.1 later in (rest, cc (same, split))

strncmp_eq-append : (p rest : Bytes) → strncmp_eq (p ++ rest) p (length p) ≡ true
unfolding strncmp_eq
strncmp_eq-append [] rest = refl
strncmp_eq-append (y ∷ p) rest = ground (arith, strncmp_eq-append p rest)

-- The last test of a path, on a URI and the length of the path.
abbrev ends_part : Bytes → ℕ → Bool
ends_part uri n = length uri == n || byte_at uri n == b'/' || byte_at uri n == b'?'

ends_part_whole : (p rest : Bytes) → IsBoundary rest → ends_part (p ++ rest) (length p) ≡ true
ends_part_whole p [] h = ground (arith, length-append p [])
ends_part_whole p (c ∷ rest) (inl slash) = rw (get_or-append p c rest 0, slash) (ground arith)
ends_part_whole p (c ∷ rest) (inr query) = rw (get_or-append p c rest 0, query) (ground arith)

ends_part_split : (p rest : Bytes) → ends_part (p ++ rest) (length p) ≡ true → IsBoundary rest
ends_part_split p [] h = tt
ends_part_split p (c ∷ rest) h =
    by_byte (rw (get_or-append p c rest 0) at h) (omega (arith, length-append p (c ∷ rest)))
  where
    by_byte :
        (length (p ++ (c ∷ rest)) == length p || c == b'/' || c == b'?') ≡ true
        → length (p ++ (c ∷ rest)) ≢ length p
        → (c ≡ b'/') ⊎ (c ≡ b'?')
    by_byte h ne = ground arith

taken_tests :
    (a b c : Bool) (to : Bytes)
    → (if a then passed else if not b then passed else if c then redirected to else passed)
      ≡ redirected to
    → (b ≡ true) × (c ≡ true)
taken_tests true b c to h = absurd (cc h)
taken_tests false false c to h = absurd (cc h)
taken_tests false true false to h = absurd (cc h)
taken_tests false true true to h = (refl, refl)

taken_of_tests :
    (a b c : Bool) (to : Bytes)
    → a ≡ false
    → b ≡ true
    → c ≡ true
    → (if a then passed else if not b then passed else if c then redirected to else passed)
      ≡ redirected to
taken_of_tests a b c to h k l = rw (h, k, l) refl

module _ (rx : Regexes) (alias : AliasRedirect) where
  match_path_whole :
      (rest : Bytes)
      → IsBoundary rest
      → match_path rx alias (alias.from ++ rest) ≡ redirected alias.to
  unfolding match_path
  match_path_whole rest h =
      taken_of_tests (ltb (length (alias.from ++ rest)) (length alias.from)) _ _ alias.to
        (ground (arith, length-append alias.from rest)) (strncmp_eq-append alias.from rest)
        (ends_part_whole alias.from rest h)

  match_path_split :
      (uri : Bytes)
      → All (λ c. c ≢ 0) alias.from
      → match_path rx alias uri ≡ redirected alias.to
      → (rest : Bytes) × (uri ≡ alias.from ++ rest) × IsBoundary rest
  unfolding match_path
  match_path_split uri h e =
      let (same, ends) = taken_tests (ltb (length uri) (length alias.from)) _ _ alias.to e in
      let (rest, split) = strncmp_eq_split uri alias.from h same in
      (
        rest,
        split,
        ends_part_split alias.from rest
            (subst (λ u. ends_part u (length alias.from) ≡ true) split ends),
      )

  -- Where its path has no NUL, a Redirect takes exactly the URIs that are the path, or begin with it
  -- and go on with a slash or a question mark; it gives its target as it is.
  pub match_path_iff :
      (uri : Bytes)
      → All (λ c. c ≢ 0) alias.from
      → (match_path rx alias uri ≡ redirected alias.to)
        ↔ ((rest : Bytes) × (uri ≡ alias.from ++ rest) × IsBoundary rest)
  match_path_iff uri h =
      (match_path_split uri h, λ split. rw (split.1) (match_path_whole split.0 split.2))
