-- ===== src/Common/Memory.antt =====
-- The comparisons of the C library that the sources use through `ngx_memcmp` and `ngx_strncmp`.
use Prim.Native.Nat.{ℕ, zero, suc}
use mathlib.Core.Path.{◌≡◌, refl}
use mathlib.Core.Logic.{◌↔◌}
use mathlib.Core.Bool.{Bool, true, false, ◌&&◌, ◌||◌}
use mathlib.Core.List.{[], ◌∷◌}
use native.Mathlib.Omega.{arith}
use ngx_htaccess.Common.Tests.{◌==◌}
use ngx_htaccess.Common.Lists.{Bytes, length}

-- `memcmp(a, b, n) == 0`. A read behind the end of a text counts as a difference.
unfoldable pub memcmp_eq : Bytes → Bytes → ℕ → Bool
memcmp_eq a b zero = true
memcmp_eq (x ∷ a) (y ∷ b) (suc n) = x == y && memcmp_eq a b n
memcmp_eq a b (suc n) = false

-- `strncmp(a, b, n) == 0`: it stops at a NUL that both hold.
unfoldable pub strncmp_eq : Bytes → Bytes → ℕ → Bool
strncmp_eq a b zero = true
strncmp_eq (x ∷ a) (y ∷ b) (suc n) = x == y && (x == 0 || strncmp_eq a b n)
strncmp_eq a b (suc n) = false

-- The test `a.len == b.len && ngx_memcmp(a.data, b.data, b.len) == 0`.
abbrev pub same_bytes : Bytes → Bytes → Bool
same_bytes a b = length a == length b && memcmp_eq a b (length b)

pub memcmp_eq_iff : (a b : Bytes) → (same_bytes a b ≡ true) ↔ (a ≡ b)
unfolding memcmp_eq
memcmp_eq_iff [] [] = (λ _. refl, λ _. refl)
memcmp_eq_iff [] (y ∷ b) = ground arith
memcmp_eq_iff (x ∷ a) [] = ground arith
memcmp_eq_iff (x ∷ a) (y ∷ b) = ground (arith, memcmp_eq_iff a b)
