-- ===== src/Engine/Auth.antt =====
-- htaccess_require_satisfied and htaccess_apply_auth of src/htaccess_auth.c.
pub mod Kinds
pub mod Decision
pub mod Challenge
use ngx_htaccess.Common.{
  ℕ, ◌+◌, Bool, true, false, not, ◌&&◌, ◌||◌, List, [], ◌∷◌, ◌++◌, Option, none, some, ◌==◌, leb,
  if◌then◌else◌, Bytes, codes, length, strncmp_eq, Outcome, ok, error, fault, out_of_fuel, ◌>>=◌,
}
use ngx_htaccess.Directives.{MergedCtx}
use ngx_htaccess.Engine.Conds.{Context}
use ngx_htaccess.Engine.FilesRules.{files_deny}
use ngx_htaccess.Engine.Passwords.{Checked, accepted, rejected, broken, check_htpasswd}
use ngx_htaccess.Engine.State.{Response, push_header, Result}

-- NGX_OK, NGX_HTTP_UNAUTHORIZED, NGX_HTTP_FORBIDDEN or NGX_DECLINED.
pub data Required : Type 0 where
  granted unauthorized refused undecided : Required

-- `len == 3 && ngx_strncmp(data, "all", 3) == 0`
unfoldable pub is_all : Bytes → Bool
unfolding strncmp_eq
is_all t = length t == 3 && strncmp_eq t (codes "all") 3

-- The loops that set `denied` and `allowed`.
unfoldable pub has_all : List Bytes → Bool
unfolding is_all
has_all [] = false
has_all (t ∷ l) = is_all t || has_all l

-- `sizeof("...") - 1` and `ngx_snprintf` of the realm: its buffer has seven bytes more than the name.
abbrev pub realm_text : Bytes → Bytes
realm_text name = codes "Basic realm=\"" ++ (name ++ codes "\"")

abbrev pub is_nil : List Bytes → Bool
is_nil [] = true
is_nil (t ∷ l) = false

-- Nothing in the context asks for authorisation.
abbrev pub asks_nothing : MergedCtx → Bool
asks_nothing m =
    length m.auth_type == 0 && (is_nil m.requires && (is_nil m.allows && is_nil m.denies))

module _ (cx : Context) where
  open cx use {ngx, sys, rx, c_text, request}

  abbrev pub by_password : Outcome Checked → Outcome Required
  by_password (ok accepted) = ok granted
  by_password (ok rejected) = ok unauthorized
  by_password (ok broken) = ok unauthorized
  by_password error = error
  by_password fault = fault
  by_password out_of_fuel = out_of_fuel

  -- The case of a valid user.
  unfoldable pub require_user : MergedCtx → Outcome Required
  unfolding check_htpasswd
  require_user m =
      if length request.user == 0
      then ok unauthorized
      else if length m.auth_user_file == 0
      then ok unauthorized
      else by_password (check_htpasswd ngx sys c_text request.user request.passwd m.auth_user_file)

  -- The loop over the requirements, before what follows it.
  unfoldable pub require_loop : MergedCtx → List Bytes → Outcome Required → Outcome Required
  unfolding require_user
  require_loop m [] after = after
  require_loop m (t ∷ l) after =
      let rest = require_loop m l after in
      if leb 11 (length t) && ngx.strncasecmp_eq t (codes "all granted") 11
      then ok granted
      else if leb 10 (length t) && ngx.strncasecmp_eq t (codes "all denied") 10
      then ok refused
      else if leb 11 (length t) && ngx.strncasecmp_eq t (codes "valid-user") 10
      then require_user m
      else rest

  -- `Order`, `Deny` and `Allow`.
  unfoldable pub by_order : MergedCtx → Required
  unfolding has_all
  by_order m =
      if leb 4 (length m.order) && ngx.strncasecmp_eq m.order (codes "deny") 4
      then (if has_all m.denies && not (has_all m.allows) then refused else undecided)
      else undecided

  unfoldable pub require_satisfied : MergedCtx → Outcome Required
  unfolding require_loop by_order
  require_satisfied m =
      if is_nil m.requires then ok undecided else require_loop m m.requires (ok (by_order m))

  -- The header of an unauthorized request.
  unfoldable pub challenge : MergedCtx → Response → Response
  challenge m r =
      let value = ngx.snprintf (length m.auth_name + 7) (realm_text m.auth_name) in
      if length m.auth_name == 0
      then r
      else record (push_header (codes "WWW-Authenticate") value r) { www_authenticate = some value }

  abbrev pub by_required : MergedCtx → Response → Required → Response × Result
  by_required m r granted = (r, Result.declined)
  by_required m r unauthorized = (challenge m r, Result.unauthorized)
  by_required m r refused = (r, Result.forbidden)
  by_required m r undecided = (r, Result.declined)

  abbrev pub by_files : Response → MergedCtx × Bool → Outcome (MergedCtx × (Response × Result))
  by_files r (m, true) = ok (m, (r, Result.forbidden))
  by_files r (m, false) =
      if asks_nothing m
      then ok (m, (r, Result.declined))
      else require_satisfied m >>= λ q. ok (m, by_required m r q)

  -- `htaccess_apply_auth`, of a request with the URI.
  unfoldable pub apply_auth :
      MergedCtx → Bytes → Response → Outcome (MergedCtx × (Response × Result))
  unfolding files_deny require_satisfied challenge
  apply_auth m uri r = files_deny rx m uri >>= λ f. by_files r f
