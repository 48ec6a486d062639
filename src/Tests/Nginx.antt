-- ===== src/Tests/Nginx.antt =====
-- Functions that meet the laws of `Ngx`.
use ngx_htaccess.Common.{
  take, ℕ, zero, suc, ◌+◌, ◌-◌, ◌*◌, ◌≤◌, ◌≡◌, ◌≢◌, refl, Bool, true, false, ◌&&◌, ◌||◌, [], ◌∷◌,
  map, Option, none, some, arith, ◌==◌, leb, if◌then◌else◌, Bytes, length, take, All, same_bytes,
  memcmp_eq,
}
use ngx_htaccess.Ngx.{Ngx, lower, index_of}

unfoldable pub casecmp : Bytes → Bytes → ℕ → Bool
casecmp a b zero = true
casecmp (x ∷ a) (y ∷ b) (suc n) = lower x == lower y && (x == 0 || casecmp a b n)
casecmp a b (suc n) = false

lower_nonzero : (x y : ℕ) → y ≢ 0 → lower x ≡ lower y → (x == 0) ≡ false
lower_nonzero x y h e = ground arith

pub casecmp_lem :
    (s t : Bytes)
    → length t ≤ length s
    → All (λ c. c ≢ 0) t
    → casecmp s t (length t) ≡ same_bytes (map lower (take (length t) s)) (map lower t)
unfolding casecmp memcmp_eq
casecmp_lem s [] h k = refl
casecmp_lem [] (y ∷ t) h k = absurd (omega arith)
casecmp_lem (x ∷ s) (y ∷ t) h k = ground (arith, casecmp_lem s t (omega arith) k.1)

unfoldable pub decimal : ℕ → Bytes → Option ℕ
decimal n [] = some n
decimal n (c ∷ p) =
    let rest = decimal (10 * n + (c - b'0')) p in if leb b'0' c && leb c b'9' then rest else none

unfoldable pub atoi : Bytes → Option ℕ
unfolding decimal
atoi [] = none
atoi (c ∷ p) = decimal 0 (c ∷ p)

abbrev pub nginx : Ngx
nginx = record {
  strncasecmp_eq = casecmp;
  strlchr = index_of;
  atoi = atoi;
  snprintf = take;
  strncasecmp_eq_lem = casecmp_lem;
  strlchr_lem = λ s c. refl;
  snprintf_lem = λ n s. refl;
}
