-- ===== src/Engine/Auth/Kinds.antt =====
-- What the requirements of a request decide.
use ngx_htaccess.Common.{
  ◌≡◌, ◌≢◌, refl, ap, ◌∙◌, inl, inr, Bool, true, false, Bool-cases, not, ◌&&◌, ◌||◌, List, [], ◌∷◌,
  map, Option, none, some, ◌==◌, leb, ltb, leb→le, if◌then◌else◌, Bytes, codes, length, take, All,
  arith, same_bytes, ok,
}
use ngx_htaccess.Directives.{DirCtx, MergedCtx, FilesRule}
use ngx_htaccess.Engine.Auth.{
  Required, granted, unauthorized, refused, undecided, has_all, is_nil, by_password, require_user,
  require_loop, by_order, require_satisfied,
}
use ngx_htaccess.Engine.Conds.{Context}
use ngx_htaccess.Engine.Passwords.Total.{check_htpasswd_total}
use ngx_htaccess.Engine.Passwords.{Checked, accepted, rejected, broken, check_htpasswd}
use ngx_htaccess.Ngx.{Ngx, lower}

-- The requirements that decide.
pub data Kind : Type 0 where
  all_granted all_denied valid_user : Kind

-- A text begins with a word in lower case, whatever the case of its letters.
abbrev pub begins : Bytes → Bytes → Bool
begins word t = leb (length word) (length t) && same_bytes (map lower (take (length word) t)) word

-- What a requirement is: the word for a valid user wants a byte behind it.
abbrev pub kind_of : Bytes → Option Kind
kind_of t =
    if begins (codes "all granted") t
    then some all_granted
    else if begins (codes "all denied") t
    then some all_denied
    else if ltb 10 (length t) && begins (codes "valid-user") t
    then some valid_user
    else none

abbrev pub or_next : Option Kind → Option Kind → Option Kind
or_next (some k) later = some k
or_next none later = later

-- The first requirement that decides.
pub first_kind : List Bytes → Option Kind
first_kind [] = none
first_kind (t ∷ l) = or_next (kind_of t) (first_kind l)

pub begins_lem :
    (ngx : Ngx) (word t : Bytes)
    → All (λ c. c ≢ 0) word
    → map lower word ≡ word
    → (leb (length word) (length t) && ngx.strncasecmp_eq t word (length word)) ≡ begins word t
begins_lem ngx word t h low = elim (Bool-cases (leb (length word) (length t))) [
  | inl fits ↦
      rw (fits, ngx.strncasecmp_eq_lem t word (leb→le (length word) (length t) fits) h, low) refl
  | inr short ↦ rw short refl
]

module _ (cx : Context) where
  open cx use {ngx, sys, rx, c_text, request}

  -- What the password file says of the request's user.
  unfoldable pub password_of : MergedCtx → Checked
  password_of m =
      (check_htpasswd_total ngx sys c_text request.user request.passwd m.auth_user_file).0

  abbrev pub grants : Checked → Required
  grants accepted = granted
  grants _ = unauthorized

  -- A valid user has a name, a password file is named, and it accepts the password.
  unfoldable pub user_decision : MergedCtx → Required
  user_decision m =
      if length request.user == 0 || length m.auth_user_file == 0
      then unauthorized
      else grants (password_of m)

  -- `Order deny...` refuses where all are denied and not all are allowed.
  unfoldable pub order_decision : MergedCtx → Required
  order_decision m =
      if begins (codes "deny") m.order && (has_all m.denies && not (has_all m.allows))
      then refused
      else undecided

  abbrev pub by_kind : MergedCtx → Option Kind → Required
  by_kind m (some all_granted) = granted
  by_kind m (some all_denied) = refused
  by_kind m (some valid_user) = user_decision m
  by_kind m none = order_decision m

  -- Without a requirement nothing is decided; the order counts only where none decides.
  unfoldable pub decision : MergedCtx → Required
  decision m = if is_nil m.requires then undecided else by_kind m (first_kind m.requires)

  require_user-decision : (m : MergedCtx) → require_user cx m ≡ ok (user_decision m)
  unfolding require_user user_decision password_of
  require_user-decision m = elim (Bool-cases (length request.user == 0)) [
    | inl nobody ↦ rw nobody refl
    | inr somebody ↦ elim (Bool-cases (length m.auth_user_file == 0)) [
      | inl no_file ↦ rw (somebody, no_file) refl
      | inr file ↦ rw (somebody, file) (ap (by_password cx) (checked.1) ∙ granting checked.0)
    ]
  ]
    where
      checked :
          (r : Checked) × (check_htpasswd ngx sys c_text request.user request.passwd
              m.auth_user_file
            ≡ ok r)
      checked = check_htpasswd_total ngx sys c_text request.user request.passwd m.auth_user_file

      granting : (r : Checked) → by_password cx (ok r) ≡ ok (grants r)
      granting accepted = refl
      granting rejected = refl
      granting broken = refl

  by_order-decision : (m : MergedCtx) → by_order cx m ≡ order_decision m
  unfolding by_order order_decision
  by_order-decision m =
      rw (begins_lem ngx (codes "deny") m.order (ground arith) refl)
        (cases (begins (codes "deny") m.order))
    where
      cases :
          (b : Bool)
          → (if b
              then (if has_all m.denies && not (has_all m.allows) then refused else undecided)
              else undecided)
            ≡ (if b && (has_all m.denies && not (has_all m.allows)) then refused else undecided)
      cases true = refl
      cases false = refl

  -- The word for a valid user, of ten bytes, in a text of at least eleven.
  valid_user_lem :
      (t : Bytes)
      → (leb 11 (length t) && ngx.strncasecmp_eq t (codes "valid-user") 10)
        ≡ (ltb 10 (length t) && begins (codes "valid-user") t)
  valid_user_lem t = elim (Bool-cases (leb 11 (length t))) [
    | inl long ↦
        let longer : ltb 10 (length t) ≡ true = ground arith in
        let enough : leb 10 (length t) ≡ true = ground arith in
        rw (long, longer, ← begins_lem ngx (codes "valid-user") t (ground arith) refl, enough) refl
    | inr short ↦ let shorter : ltb 10 (length t) ≡ false = ground arith in rw (short, shorter) refl
  ]

  abbrev pub kind_or : MergedCtx → Option Kind → Required → Required
  kind_or m (some k) after = by_kind m (some k)
  kind_or m none after = after

  require_loop-first_kind :
      (m : MergedCtx) (l : List Bytes) (after : Required)
      → require_loop cx m l (ok after) ≡ ok (kind_or m (first_kind l) after)
  unfolding require_loop first_kind
  require_loop-first_kind m [] after = refl
  require_loop-first_kind m (t ∷ l) after =
      rw
        (
          begins_lem ngx (codes "all granted") t (ground arith) refl,
          begins_lem ngx (codes "all denied") t (ground arith) refl,
          valid_user_lem t,
          require_user-decision m,
          require_loop-first_kind m l after,
        )
        (cases (begins (codes "all granted") t) (begins (codes "all denied") t)
          (ltb 10 (length t) && begins (codes "valid-user") t))
    where
      cases :
          (a b c : Bool)
          → (if a
              then ok granted
              else if b
              then ok refused
              else if c
              then ok (user_decision m)
              else ok (kind_or m (first_kind l) after))
            ≡ ok (
                kind_or m
                  (or_next
                    (if a
                      then some all_granted
                      else if b
                      then some all_denied
                      else if c
                      then some valid_user
                      else none)
                    (first_kind l))
                  after)
      cases true b c = refl
      cases false true c = refl
      cases false false true = refl
      cases false false false = refl

  pub require_satisfied-decision : (m : MergedCtx) → require_satisfied cx m ≡ ok (decision m)
  unfolding require_satisfied decision
  require_satisfied-decision m = elim (Bool-cases (is_nil m.requires)) [
    | inl empty ↦ rw empty refl
    | inr some_there ↦
        rw (some_there, require_loop-first_kind m m.requires (by_order cx m), by_order-decision m)
          (ap ok (same (first_kind m.requires)))
  ]
    where
      same : (k : Option Kind) → kind_or m k (order_decision m) ≡ by_kind m k
      same (some k) = refl
      same none = refl

  -- The decision looks neither at the rules for files nor at the directories.
  pub decision-same :
      (m : MergedCtx) (rules : List FilesRule) (dirs : List DirCtx)
      → decision (record m { files_rules = rules; dirs = dirs }) ≡ decision m
  unfolding decision user_decision order_decision password_of
  decision-same m rules dirs = refl
