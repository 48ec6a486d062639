-- ===== src/Ngx.antt =====
-- The functions of nginx that the module calls on text. They are no code of this repository: the
-- model takes them as a parameter, with what the sources rely on as laws.
use ngx_htaccess.Common.{
  ℕ, suc, ◌+◌, ◌≤◌, ◌≡◌, ◌≢◌, Bool, ◌&&◌, [], ◌∷◌, map, Option, none, some, ◌==◌, leb,
  if◌then◌else◌, Bytes, length, take, All, same_bytes, ◌++◌, refl, inl, inr, Bool-cases, arith,
}
use mathlib.Core.Option

-- An ASCII letter in lower case.
abbrev pub lower : ℕ → ℕ
lower c = if leb b'A' c && leb c b'Z' then c + 32 else c

-- The position of the first `c` in a text.
abbrev pub index_of : Bytes → ℕ → Option ℕ
index_of [] c = none
index_of (x ∷ p) c = if x == c then some 0 else Option.map suc (index_of p c)

pub index_of-append :
    (name q : Bytes) (c : ℕ)
    → All (λ d. d ≢ c) name
    → index_of (name ++ (c ∷ q)) c ≡ some (length name)
index_of-append [] q c h = ground arith
index_of-append (d ∷ name) q c h = rw (index_of-append name q c h.1) (elim (Bool-cases (d == c)) [
  | inl same ↦ absurd (h.0 (ground arith))
  | inr other ↦ rw other refl
])

pub record Ngx : Type 0 where
  -- `ngx_strncasecmp(a, b, n) == 0`
  pub strncasecmp_eq : Bytes → Bytes → ℕ → Bool
  -- `ngx_strlchr(p, last, c)` as an offset from `p`, or none for NULL.
  pub strlchr : Bytes → ℕ → Option ℕ
  -- `ngx_atoi(p, n)`, or none for NGX_ERROR.
  pub atoi : Bytes → Option ℕ
  -- `ngx_snprintf` of a text that it formats, into a buffer of so many bytes.
  pub snprintf : ℕ → Bytes → Bytes
  -- The comparison goes up to the length of a text without NUL, and ignores the case of letters.
  pub strncasecmp_eq_lem :
      (s t : Bytes)
      → length t ≤ length s
      → All (λ c. c ≢ 0) t
      → strncasecmp_eq s t (length t) ≡ same_bytes (map lower (take (length t) s)) (map lower t)
  -- The search finds the first occurrence.
  pub strlchr_lem : (s : Bytes) (c : ℕ) → strlchr s c ≡ index_of s c
  -- What does not fit in the buffer is left out.
  pub snprintf_lem : (n : ℕ) (s : Bytes) → snprintf n s ≡ take n s
