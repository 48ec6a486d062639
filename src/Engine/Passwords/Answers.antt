-- ===== src/Engine/Passwords/Answers.antt =====
-- What a line of a password file says of a password.
use ngx_htaccess.Common.{
  ◌≡◌, refl, inl, inr, Bool, true, false, Bool-cases, ◌&&◌, ◌||◌, [], ◌∷◌, Option, none, some, ◌==◌,
  leb, ltb, if◌then◌else◌, Bytes, length, same_bytes, memcmp_eq, strncmp_eq, arith,
}
use ngx_htaccess.Engine.Passwords.{
  Checked, accepted, rejected, Verdict, accept, reject, pass_on, same_text, is_hash, verify,
}
use ngx_htaccess.Ngx.{Ngx}
use ngx_htaccess.System.{System}
use ngx_htaccess.Walk.Paths.{c_string}

-- Texts of one length that are the same up to a NUL.
abbrev pub equal_text : Bytes → Bytes → Bool
equal_text a b = length a == length b && same_bytes (c_string a) (c_string b)

-- A hash begins with a dollar sign.
abbrev pub is_hashed : Bytes → Bool
is_hashed [] = false
is_hashed (c ∷ p) = c == b'$'

-- `crypt` gives the hash itself.
abbrev pub is_confirmed : Option Bytes → Bytes → Bool
is_confirmed none secret = false
is_confirmed (some hash) secret = equal_text hash secret

-- A hash refuses a password of 256 bytes and more. Any text accepts a password that is the text
-- itself, and a hash also one that `crypt` confirms. Other lines say nothing.
pub line_answer : System → Bytes → Bytes → Bytes → Option Checked
line_answer sys pass secret setting =
    if is_hashed secret && leb 256 (length pass)
    then some rejected
    else if equal_text secret pass
        || (is_hashed secret && is_confirmed (sys.crypt (c_string pass) setting) secret)
    then some accepted
    else none

abbrev pub answer_or : Option Checked → Checked → Checked
answer_or none later = later
answer_or (some r) later = r

abbrev pub result_of : Verdict → Checked → Checked
result_of accept later = accepted
result_of reject later = rejected
result_of pass_on later = later

strncmp_eq-c_string :
    (a b : Bytes)
    → length a ≡ length b
    → strncmp_eq a b (length b) ≡ same_bytes (c_string a) (c_string b)
unfolding strncmp_eq c_string memcmp_eq
strncmp_eq-c_string [] [] h = refl
strncmp_eq-c_string [] (y ∷ b) h = absurd (omega arith)
strncmp_eq-c_string (x ∷ a) [] h = absurd (omega arith)
strncmp_eq-c_string (x ∷ a) (y ∷ b) h = ground (arith, strncmp_eq-c_string a b (omega arith))

pub same_text-equal_text : (a b : Bytes) → same_text a b ≡ equal_text a b
same_text-equal_text a b = elim (Bool-cases (length a == length b)) [
  | inl same ↦
      let fits : length a ≡ length b = ground arith in rw (same, strncmp_eq-c_string a b fits) refl
  | inr other ↦ rw other refl
]

is_hash-is_confirmed :
    (o : Option Bytes) (secret : Bytes) → is_hash o secret ≡ is_confirmed o secret
is_hash-is_confirmed none secret = refl
is_hash-is_confirmed (some hash) secret = same_text-equal_text hash secret

-- The order of the tests, by what each of them says.
by_tests :
    (hashed long confirmed same : Bool) (later : Checked)
    → result_of
        (if hashed
          then (if long
              then reject
              else if confirmed
              then accept
              else (if same then accept else pass_on))
          else (if same then accept else pass_on))
        later
      ≡ answer_or
          (if hashed && long
            then some rejected
            else if same || (hashed && confirmed)
            then some accepted
            else none)
          later
by_tests true true confirmed same later = refl
by_tests true false true true later = refl
by_tests true false true false later = refl
by_tests true false false true later = refl
by_tests true false false false later = refl
by_tests false long confirmed true later = refl
by_tests false long confirmed false later = refl

module _ (ngx : Ngx) (sys : System) (c_text : Bytes → Bytes) (user pass : Bytes) where
  pub verify-line_answer :
      (secret setting : Bytes) (later : Checked)
      → result_of (verify ngx sys c_text user pass secret setting) later
        ≡ answer_or (line_answer sys pass secret setting) later
  unfolding verify line_answer
  verify-line_answer [] setting later =
      rw (same_text-equal_text [] pass) (by_tests false false false (equal_text [] pass) later)
  verify-line_answer (c ∷ secret) setting later =
      let there : ltb 0 (length (c ∷ secret)) ≡ true = ground arith in
      rw
        (
          there,
          is_hash-is_confirmed (sys.crypt (c_string pass) setting) (c ∷ secret),
          same_text-equal_text (c ∷ secret) pass,
        )
        (by_tests (c == b'$') (leb 256 (length pass))
          (is_confirmed (sys.crypt (c_string pass) setting) (c ∷ secret))
          (equal_text (c ∷ secret) pass) later)
