-- ===== src/Engine/Passwords/Total.antt =====
-- The loop over a password file ends.
use ngx_htaccess.Common.{
  ℕ, zero, suc, ◌+◌, ◌-◌, ◌≤◌, ◌<◌, ◌≡◌, refl, inl, inr, Bool-cases, [], ◌∷◌, Option, none, some,
  Bytes, length, length-drop, drop, arith, Outcome, ok,
}
use ngx_htaccess.Engine.Passwords.{
  Checked, accepted, rejected, broken, Verdict, accept, reject, pass_on, is_line_end,
  skip_line_ends, line_end, by_verdict, behind_line, by_colon, password_loop, check_contents,
  check_htpasswd,
}
use ngx_htaccess.Ngx.{Ngx}
use ngx_htaccess.System.{System, Contents, unopened, unreadable, content}

length-skip_line_ends : (p : Bytes) → length (skip_line_ends p) ≤ length p
unfolding skip_line_ends
length-skip_line_ends [] = omega arith
length-skip_line_ends (c ∷ p) = elim (Bool-cases (is_line_end c)) [
  | inl yes_end ↦ rw yes_end (omega (arith, length-skip_line_ends p))
  | inr other ↦ rw other (omega arith)
]

-- The code gave a result.
abbrev Gives : Outcome Checked → Type 0
Gives m = (r : Checked) × (m ≡ ok r)

module _ (ngx : Ngx) (sys : System) (c_text : Bytes → Bytes) (user pass : Bytes) where
  length-behind_line : (p : Bytes) → length (behind_line ngx sys c_text user pass p) ≤ length p
  length-behind_line p = omega (
    arith,
    length-skip_line_ends (drop (line_end p (ngx.strlchr p 10)) p),
    length-drop (line_end p (ngx.strlchr p 10)) p,
  )

  by_verdict-Gives :
      (v : Verdict) (m : Outcome Checked)
      → Gives m
      → Gives (by_verdict ngx sys c_text user pass v m)
  by_verdict-Gives accept m h = (accepted, refl)
  by_verdict-Gives reject m h = (rejected, refl)
  by_verdict-Gives pass_on m h = h

  by_colon-Gives :
      (p : Bytes) (i : Option ℕ) (k : Bytes → Outcome Checked)
      → ((q : Bytes) → length q ≤ length p - 1 → Gives (k q))
      → Gives (by_colon ngx sys c_text user pass p i k)
  by_colon-Gives p none k h = (rejected, refl)
  by_colon-Gives p (some i) k h = by_verdict-Gives _ _ (
      h (behind_line ngx sys c_text user pass (drop (i + 1) p))
        (omega (arith, length-behind_line (drop (i + 1) p), length-drop (i + 1) p)))

  password_loop-Gives :
      (fuel : ℕ) (p : Bytes)
      → length p < fuel
      → Gives (password_loop ngx sys c_text user pass fuel p)
  unfolding password_loop
  password_loop-Gives zero p h = absurd (omega arith)
  password_loop-Gives (suc fuel) [] h = (rejected, refl)
  password_loop-Gives (suc fuel) (c ∷ p) h =
      by_colon-Gives (c ∷ p) (ngx.strlchr (c ∷ p) b':')
        (λ q. password_loop ngx sys c_text user pass fuel q)
        (λ q e. password_loop-Gives fuel q (omega arith))

  -- htaccess_check_htpasswd returns with a result, whatever the file holds.
  pub check_htpasswd_total :
      (file : Bytes) → (r : Checked) × (check_htpasswd ngx sys c_text user pass file ≡ ok r)
  unfolding check_htpasswd
  check_htpasswd_total file = gives (sys.open_file (c_text file))
    where
      gives : (c : Contents) → Gives (check_contents ngx sys c_text user pass c)
      gives unopened = (rejected, refl)
      gives unreadable = (broken, refl)
      gives (content bytes) = password_loop-Gives (suc (length bytes)) bytes (omega arith)
