-- ===== src/Engine/Passwords.antt =====
-- htaccess_check_htpasswd of src/htaccess_auth.c: a user's line in a password file.
pub mod Answers
pub mod Entries
pub mod Total
use ngx_htaccess.Common.{
  ℕ, zero, suc, ◌+◌, Bool, true, false, ◌&&◌, ◌||◌, List, [], ◌∷◌, Option, none, some, ◌==◌, ltb,
  leb, if◌then◌else◌, Bytes, length, take, drop, strncmp_eq, Outcome, ok, out_of_fuel,
}
use ngx_htaccess.Ngx.{Ngx}
use ngx_htaccess.Parser.Conds.{byte_at}
use ngx_htaccess.System.{System, Contents, unopened, unreadable, content}
use ngx_htaccess.Walk.Paths.{c_string}

-- NGX_OK, NGX_DECLINED or NGX_ERROR.
pub data Checked : Type 0 where
  accepted rejected broken : Checked

-- What a line of the user says: the function returns, or the loop goes on.
pub data Verdict : Type 0 where
  accept reject pass_on : Verdict

-- `len == len && ngx_strncmp(...) == 0`
abbrev pub same_text : Bytes → Bytes → Bool
same_text a b = length a == length b && strncmp_eq a b (length b)

abbrev pub is_line_end : ℕ → Bool
is_line_end c = c == 10 || c == 13

abbrev pub cons_trimmed : ℕ → Bytes → Bytes
cons_trimmed c [] = if is_line_end c then [] else c ∷ []
cons_trimmed c (d ∷ p) = c ∷ d ∷ p

-- The loop that shortens the password by the line ends behind it.
unfoldable pub trim_line_ends : Bytes → Bytes
trim_line_ends [] = []
trim_line_ends (c ∷ p) = cons_trimmed c (trim_line_ends p)

-- The loop that goes over the line ends behind a line.
unfoldable pub skip_line_ends : Bytes → Bytes
skip_line_ends [] = []
skip_line_ends (c ∷ p) = let rest = skip_line_ends p in if is_line_end c then rest else c ∷ p

-- Whether `crypt` gave the text of the file.
abbrev pub is_hash : Option Bytes → Bytes → Bool
is_hash none pw = false
is_hash (some crypted) pw = same_text crypted pw

-- The offset of the end of a line, or the length of the last one.
abbrev pub line_end : Bytes → Option ℕ → ℕ
line_end p none = length p
line_end p (some j) = j

-- `c_text` is the C string that begins with a text that the code does not end with a NUL.
module _ (ngx : Ngx) (sys : System) (c_text : Bytes → Bytes) (user pass : Bytes) where
  -- The password of a line of the user; `setting` is the C string at the password.
  abbrev pub plain_verdict : Bytes → Verdict
  plain_verdict pw = if same_text pw pass then accept else pass_on

  unfoldable pub verify : Bytes → Bytes → Verdict
  unfolding strncmp_eq
  verify pw setting =
      if ltb 0 (length pw) && byte_at pw 0 == b'$'
      then (if leb 256 (length pass)
          then reject
          else if is_hash (sys.crypt (c_string pass) setting) pw
          then accept
          else plain_verdict pw)
      else plain_verdict pw

  -- The verdict on a line: its user, and the rest of the file from its password on.
  unfoldable pub line_verdict : Bytes → Bytes → Verdict
  unfolding verify trim_line_ends
  line_verdict u p =
      if same_text u user
      then verify (trim_line_ends (take (line_end p (ngx.strlchr p 10)) p)) (c_text p)
      else pass_on

  abbrev pub by_verdict : Verdict → Outcome Checked → Outcome Checked
  by_verdict accept rest = ok accepted
  by_verdict reject rest = ok rejected
  by_verdict pass_on rest = rest

  -- The lines behind the one whose password begins `p`.
  abbrev pub behind_line : Bytes → Bytes
  behind_line p = skip_line_ends (drop (line_end p (ngx.strlchr p 10)) p)

  -- A round of the loop at a text, by the offset of its first colon, before the rounds that follow.
  abbrev pub by_colon : Bytes → Option ℕ → (Bytes → Outcome Checked) → Outcome Checked
  by_colon p none k = ok rejected
  by_colon p (some i) k =
      by_verdict (line_verdict (take i p) (drop (i + 1) p)) (k (behind_line (drop (i + 1) p)))

  unfoldable pub password_loop : ℕ → Bytes → Outcome Checked
  unfolding line_verdict skip_line_ends
  password_loop zero p = out_of_fuel
  password_loop (suc fuel) [] = ok rejected
  password_loop (suc fuel) (c ∷ p) =
      by_colon (c ∷ p) (ngx.strlchr (c ∷ p) b':') (λ q. password_loop fuel q)

  abbrev pub check_contents : Contents → Outcome Checked
  check_contents unopened = ok rejected
  check_contents unreadable = ok broken
  check_contents (content bytes) = password_loop (suc (length bytes)) bytes

  -- `htaccess_check_htpasswd`, of the file whose name the text begins.
  unfoldable pub check_htpasswd : Bytes → Outcome Checked
  unfolding password_loop
  check_htpasswd file = check_contents (sys.open_file (c_text file))
