-- ===== src/Parser/Flags/Total.antt =====
-- htaccess_parse_rule_flags always returns.
use ngx_htaccess.Common.{
  ℕ, zero, suc, ◌≤◌, ◌<◌, ◌≡◌, refl, inl, inr, [], ◌∷◌, arith, ◌==◌, Bool-cases, Bytes, length, ok,
}
use ngx_htaccess.Directives.{RewriteRule}
use ngx_htaccess.Ngx.{Ngx}
use ngx_htaccess.Parser.Flags.{skip_separators, to_comma, flags_next, flags_loop, parse_rule_flags}

length-to_comma : (p : Bytes) → length (to_comma p).1 ≤ length p
unfolding to_comma
length-to_comma [] = omega arith
length-to_comma (c ∷ p) = ground (arith, length-to_comma p)

-- A part that begins here leaves fewer bytes than there were.
abbrev Advances : Bytes → Bytes → Type 0
Advances [] p = Unit
Advances (c ∷ s) p = length (to_comma (c ∷ s)).1 < length p

Advances-weaken : (s p : Bytes) (c : ℕ) → Advances s p → Advances s (c ∷ p)
Advances-weaken [] p c h = tt
Advances-weaken (d ∷ s) p c h = omega arith

skip_separators-Advances : (p : Bytes) → Advances (skip_separators p) p
unfolding skip_separators to_comma
skip_separators-Advances [] = tt
skip_separators-Advances (c ∷ p) = elim (Bool-cases (c == b',')) [
  | inl comma ↦ rw comma (Advances-weaken (skip_separators p) p c (skip_separators-Advances p))
  | inr other ↦ elim (Bool-cases (c == b' ')) [
    | inl blank ↦
        rw (other, blank) (Advances-weaken (skip_separators p) p c (skip_separators-Advances p))
    | inr part ↦ rw (other, part, to_comma) (ground (arith, length-to_comma p))
  ]
]

module _ (ngx : Ngx) where
  flags_loop_total :
      (fuel : ℕ) (p : Bytes) (rule : RewriteRule)
      → length p < fuel
      → (r : RewriteRule) × (flags_loop ngx fuel p rule ≡ ok r)
  unfolding flags_loop
  flags_loop_total zero p rule h = absurd (omega arith)
  flags_loop_total (suc fuel) p rule h =
      next (skip_separators p) (skip_separators-Advances p) (λ q r k. flags_loop_total fuel q r k)
    where
      next :
          (s : Bytes)
          → Advances s p
          → ((q : Bytes) (r : RewriteRule)
              → length q < fuel
              → (r' : RewriteRule) × (flags_loop ngx fuel q r ≡ ok r'))
          → (r : RewriteRule) × (flags_next ngx s rule (flags_loop ngx fuel) ≡ ok r)
      next [] a again = (rule, refl)
      next (c ∷ s) a again = again _ _ (omega arith)

  -- Whatever text stands in place of the flags, the loop over its parts ends.
  pub parse_rule_flags_total :
      (flags : Bytes) (rule : RewriteRule)
      → (r : RewriteRule) × (parse_rule_flags ngx flags rule ≡ ok r)
  unfolding parse_rule_flags
  parse_rule_flags_total flags rule = flags_loop_total (suc (length flags)) flags rule (omega arith)
