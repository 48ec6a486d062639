-- ===== src/Engine/Passwords/Entries.antt =====
-- A password file as a list of lines.
use ngx_htaccess.Common.{
  Option, ℕ, zero, suc, ◌<◌, ◌≡◌, ◌≢◌, refl, ap, ◌∙◌, Bool, true, false, List, [], ◌∷◌, ◌++◌,
  if◌then◌else◌, Bytes, length, length-append, take-length-append, drop-length-append,
  drop_behind-append, All, arith, ok,
}
use ngx_htaccess.Engine.Passwords.{
  Checked, rejected, Verdict, accept, reject, pass_on, same_text, is_line_end, cons_trimmed,
  trim_line_ends, skip_line_ends, verify, line_verdict, by_verdict, behind_line, by_colon,
  password_loop, check_htpasswd,
}
use ngx_htaccess.Engine.Passwords.Answers.{
  equal_text, line_answer, answer_or, result_of, same_text-equal_text, verify-line_answer,
}
use ngx_htaccess.Ngx.{Ngx, index_of-append}
use ngx_htaccess.System.{System, content}

-- A user with the text of the password.
pub record UserLine : Type 0 where
  pub name : Bytes
  pub secret : Bytes

unfoldable pub print_line_to : UserLine → Bytes → Bytes
print_line_to e rest = e.name ++ (b':' ∷ (e.secret ++ (10 ∷ rest)))

unfoldable pub print_lines : List UserLine → Bytes
print_lines [] = []
print_lines (e ∷ l) = print_line_to e (print_lines l)

-- A byte that ends no line.
abbrev pub IsInner : ℕ → Type 0
IsInner c = (c ≢ 10) × (c ≢ 13)

-- A name has no colon, and neither text has a line end.
abbrev pub IsLine : UserLine → Type 0
IsLine e = All (λ c. c ≢ b':') e.name × All IsInner e.name × All IsInner e.secret

inner_test : (c : ℕ) → IsInner c → is_line_end c ≡ false
inner_test c h = ground arith

no_newline : (p : Bytes) → All IsInner p → All (λ c. c ≢ 10) p
no_newline [] h = tt
no_newline (c ∷ p) h = ((h.0).0, no_newline p h.1)

trim_line_ends-IsInner : (p : Bytes) → All IsInner p → trim_line_ends p ≡ p
unfolding trim_line_ends
trim_line_ends-IsInner [] h = refl
trim_line_ends-IsInner (c ∷ p) h = rw (trim_line_ends-IsInner p h.1) (cons p)
  where
    cons : (p : Bytes) → cons_trimmed c p ≡ c ∷ p
    cons [] = rw (inner_test c h.0) refl
    cons (d ∷ p) = refl

skip-print_lines :
    (l : List UserLine) → All IsLine l → skip_line_ends (print_lines l) ≡ print_lines l
unfolding skip_line_ends print_lines print_line_to
skip-print_lines [] h = refl
skip-print_lines (e ∷ l) h = at_name e.name (h.0).1 (e.secret ++ (10 ∷ print_lines l))
  where
    at_name :
        (name : Bytes)
        → All IsInner name
        → (q : Bytes) → skip_line_ends (name ++ (b':' ∷ q)) ≡ name ++ (b':' ∷ q)
    at_name [] k q = refl
    at_name (c ∷ name) k q = rw (inner_test c k.0) refl

module _ (ngx : Ngx) (sys : System) (c_text : Bytes → Bytes) (user pass : Bytes) where
  -- The first line of the user that decides.
  pub check_lines : List UserLine → Checked
  check_lines [] = rejected
  check_lines (e ∷ l) =
      if equal_text e.name user
      then answer_or (line_answer sys pass e.secret (c_text (e.secret ++ (10 ∷ print_lines l))))
          (check_lines l)
      else check_lines l

  verdict_of_line :
      (e : UserLine) (rest : Bytes)
      → IsLine e
      → line_verdict ngx sys c_text user pass e.name (e.secret ++ (10 ∷ rest)) ≡ (
          if same_text e.name user
          then verify ngx sys c_text user pass e.secret (c_text (e.secret ++ (10 ∷ rest)))
          else pass_on)
  unfolding line_verdict
  verdict_of_line e rest h =
      rw
        (
          ngx.strlchr_lem (e.secret ++ (10 ∷ rest)) 10
              ∙ index_of-append e.secret rest 10 (no_newline e.secret h.2),
          take-length-append e.secret (10 ∷ rest),
          trim_line_ends-IsInner e.secret h.2,
        )
        refl

  behind_line_of :
      (e : UserLine) (l : List UserLine)
      → IsLine e
      → All IsLine l
      → behind_line ngx sys c_text user pass (e.secret ++ (10 ∷ print_lines l)) ≡ print_lines l
  behind_line_of e l h k =
      rw
        (
          ngx.strlchr_lem (e.secret ++ (10 ∷ print_lines l)) 10
              ∙ index_of-append e.secret (print_lines l) 10 (no_newline e.secret h.2),
          drop-length-append e.secret (10 ∷ print_lines l),
        )
        (newline (print_lines l) ∙ skip-print_lines l k)
    where
      newline : (p : Bytes) → skip_line_ends (10 ∷ p) ≡ skip_line_ends p
      newline p = unfold skip_line_ends in refl

  loop_at :
      (fuel : ℕ) (name q : Bytes)
      → password_loop ngx sys c_text user pass (suc fuel) (name ++ (b':' ∷ q))
        ≡ by_colon ngx sys c_text user pass
            (name ++ (b':' ∷ q))
            (ngx.strlchr (name ++ (b':' ∷ q)) b':')
            (λ p. password_loop ngx sys c_text user pass fuel p)
  unfolding password_loop
  loop_at fuel [] q = refl
  loop_at fuel (c ∷ name) q = refl

  -- A round reads a line.
  loop_line :
      (fuel : ℕ) (e : UserLine) (l : List UserLine)
      → IsLine e
      → All IsLine l
      → password_loop ngx sys c_text user pass (suc fuel) (print_line_to e (print_lines l))
        ≡ by_verdict ngx sys c_text user pass
            (line_verdict ngx sys c_text user pass e.name (e.secret ++ (10 ∷ print_lines l)))
            (password_loop ngx sys c_text user pass fuel (print_lines l))
  unfolding print_line_to
  loop_line fuel e l h k =
      let q = e.secret ++ (10 ∷ print_lines l) in
      loop_at fuel e.name q
      ∙ ap
          (λ i.
            by_colon ngx sys c_text user pass (e.name ++ (b':' ∷ q)) i
              (λ p. password_loop ngx sys c_text user pass fuel p))
          (ngx.strlchr_lem (e.name ++ (b':' ∷ q)) b':' ∙ index_of-append e.name q b':' h.0)
      ∙ rw
          (
            take-length-append e.name (b':' ∷ q),
            drop_behind-append e.name q b':',
            behind_line_of e l h k,
          )
          refl

  by_verdict-result_of :
      (v : Verdict) (r : Checked)
      → by_verdict ngx sys c_text user pass v (ok r) ≡ ok (result_of v r)
  by_verdict-result_of accept r = refl
  by_verdict-result_of reject r = refl
  by_verdict-result_of pass_on r = refl

  by_user :
      (b : Bool) (v : Verdict) (a : Option Checked) (r : Checked)
      → result_of v r ≡ answer_or a r
      → by_verdict ngx sys c_text user pass (if b then v else pass_on) (ok r)
        ≡ ok (if b then answer_or a r else r)
  by_user true v a r h = by_verdict-result_of v r ∙ ap ok h
  by_user false v a r h = refl

  length-print_lines :
      (e : UserLine) (l : List UserLine)
      → length (print_lines l) < length (print_line_to e (print_lines l))
  unfolding print_line_to
  length-print_lines e l = omega (
    arith,
    length-append e.name (b':' ∷ (e.secret ++ (10 ∷ print_lines l))),
    length-append e.secret (10 ∷ print_lines l),
  )

  loop-check_lines :
      (fuel : ℕ) (l : List UserLine)
      → All IsLine l
      → length (print_lines l) < fuel
      → password_loop ngx sys c_text user pass fuel (print_lines l) ≡ ok (check_lines l)
  unfolding print_lines check_lines password_loop
  loop-check_lines zero l h k = absurd (omega arith)
  loop-check_lines (suc fuel) [] h k = refl
  loop-check_lines (suc fuel) (e ∷ l) h k =
      loop_line fuel e l h.0 h.1
      ∙ rw
          (
            loop-check_lines fuel l h.1 (omega (arith, length-print_lines e l)),
            verdict_of_line e (print_lines l) h.0,
            same_text-equal_text e.name user,
          )
          (by_user (equal_text e.name user) _
            (line_answer sys pass e.secret (c_text (e.secret ++ (10 ∷ print_lines l))))
            (check_lines l)
            (verify-line_answer ngx sys c_text user pass e.secret
              (c_text (e.secret ++ (10 ∷ print_lines l))) (check_lines l)))

  -- Where a password file is made of lines `name:secret`, htaccess_check_htpasswd gives what the first
  -- line of the user says that decides. A secret that begins with a dollar sign refuses a password of
  -- 256 bytes or more. Any secret accepts a password that is the secret itself, and one that begins
  -- with a dollar sign also where `crypt` gives it for the password, with what stands in the file
  -- from the secret on as its setting. Texts are compared up to a NUL. Where no line decides, the
  -- password is rejected.
  pub check_htpasswd-check_lines :
      (file : Bytes) (l : List UserLine)
      → All IsLine l
      → sys.open_file (c_text file) ≡ content (print_lines l)
      → check_htpasswd ngx sys c_text user pass file ≡ ok (check_lines l)
  unfolding check_htpasswd
  check_htpasswd-check_lines file l h q =
      rw q (loop-check_lines (suc (length (print_lines l))) l h (omega arith))
