-- ===== src/Tests/Guarding.antt =====
-- Authorisation and headers at concrete requests.
use ngx_htaccess.Common.{
  ◌≡◌, refl, arith, true, false, List, [], ◌∷◌, ◌++◌, map, none, some, if◌then◌else◌, Bytes, codes,
  length, All, same_bytes, memcmp_eq, ok,
}
use ngx_htaccess.Directives.{Header, FilesRule, MergedCtx}
use ngx_htaccess.Engine.Auth.Challenge.{challenge_cut}
use ngx_htaccess.Engine.Auth.Decision.{outcome_of, apply_auth-decision}
use ngx_htaccess.Engine.Auth.Kinds.{decision}
use ngx_htaccess.Engine.Auth.{undecided, realm_text, challenge, require_satisfied, apply_auth}
use ngx_htaccess.Engine.Conds.{Context}
use ngx_htaccess.Engine.FilesRules.Denied.{any_denies, apply_files_deny-any_denies}
use ngx_htaccess.Engine.FilesRules.{files_target, apply_files_deny}
use ngx_htaccess.Engine.Headers.Listed.{
  with_headers, set_line, expires_line, kept, sets, is_for, apply_headers-kept,
}
use ngx_htaccess.Engine.Headers.{apply_headers}
use ngx_htaccess.Engine.Passwords.Entries.{
  UserLine, print_lines, print_line_to, check_lines, check_htpasswd-check_lines,
}
use ngx_htaccess.Engine.Passwords.Total.{check_htpasswd_total}
use ngx_htaccess.Engine.Passwords.{Checked, accepted, check_htpasswd}
use ngx_htaccess.Engine.State.{Response, Result, Regexes, matched, unmatched}
use ngx_htaccess.System.{System, content}
use ngx_htaccess.Tests.Engines.{context_of}
use ngx_htaccess.Tests.Nginx.{nginx, casecmp}
use ngx_htaccess.Walk.Build.Patterns.{HasPattern}
use ngx_htaccess.Walk.Build.{zero_merged}
use ngx_htaccess.Walk.Paths.{c_string}

abbrev pub response : Response
response = record {
  headers = [];
  www_authenticate = none;
  location = none;
  status = 0;
  content_length = none;
  content_type = codes "text/css";
}

-- An expression that matches the text `a.inc` only.
abbrev pub inc_regexes : Regexes
inc_regexes = record {
  compiles = λ _. true;
  exec = λ _ t. if same_bytes t (codes "a.inc") then matched (some (0, 5) ∷ []) else unmatched;
}

abbrev inc_rule : FilesRule
inc_rule = record { pattern = codes "\\.inc$"; deny = true; regex = none }

abbrev inc_context : MergedCtx
inc_context = record zero_merged { files_rules = inc_rule ∷ [] }

inc_context_patterned : All HasPattern inc_context.files_rules
inc_context_patterned = ground arith

apply_files_deny_run :
    (apply_files_deny inc_regexes inc_context (codes "/a.inc")
      ≡ ok (
        record inc_context {
          files_rules =
              record inc_rule {
                regex = some (record { pattern = codes "\\.inc$"; caseless = true });
              }
              ∷ [];
        },
        Result.forbidden,
      ))
unfolding apply_files_deny memcmp_eq
apply_files_deny_run = refl

apply_files_deny-any_denies_example :
    (rules : List FilesRule) × (apply_files_deny inc_regexes inc_context (codes "/a.inc")
      ≡ ok (
        record inc_context { files_rules = rules },
        (if any_denies inc_regexes (files_target (codes "/a.inc")) inc_context.files_rules
            then Result.forbidden
            else Result.declined),
      ))
    × All HasPattern rules
    × ((other : Bytes)
        → any_denies inc_regexes other rules ≡ any_denies inc_regexes other inc_context.files_rules)
apply_files_deny-any_denies_example =
    apply_files_deny-any_denies inc_regexes inc_context (codes "/a.inc") inc_context_patterned

-- A file that holds a password and a hash, and a `crypt` that knows the password of the hash.
abbrev users : List UserLine
users =
    record { name = codes "bob"; secret = codes "x" }
    ∷ record { name = codes "ann"; secret = codes "$1$h" }
    ∷ []

abbrev users_sys : System
users_sys = record {
  stat = λ _. none;
  open_file = λ _. content (print_lines users);
  crypt =
      λ password setting. if same_bytes password (codes "pw") then some (codes "$1$h") else none;
  has_memory = λ _. true;
}

check_htpasswd-check_lines_example :
    check_htpasswd nginx users_sys (λ s. s) (codes "ann") (codes "pw") (codes "/w/users")
    ≡ ok (check_lines nginx users_sys (λ s. s) (codes "ann") (codes "pw") users)
check_htpasswd-check_lines_example =
    check_htpasswd-check_lines nginx users_sys (λ s. s) (codes "ann") (codes "pw")
      (codes "/w/users") users (ground arith) refl

check_htpasswd_total_example :
    (r : Checked) × (check_htpasswd nginx users_sys
        (λ s. s)
        (codes "ann")
        (codes "pw")
        (codes "/w/users")
      ≡ ok r)
check_htpasswd_total_example =
    check_htpasswd_total nginx users_sys (λ s. s) (codes "ann") (codes "pw") (codes "/w/users")

-- The password, and also the hash itself, are accepted.
password_run :
    check_htpasswd nginx users_sys (λ s. s) (codes "ann") (codes "pw") (codes "/w/users")
    ≡ ok accepted
unfolding check_htpasswd print_lines print_line_to memcmp_eq c_string
password_run = refl

hash_run :
    check_htpasswd nginx users_sys (λ s. s) (codes "ann") (codes "$1$h") (codes "/w/users")
    ≡ ok accepted
unfolding check_htpasswd print_lines print_line_to memcmp_eq c_string
hash_run = refl

abbrev users_context : Context
users_context = record context_of { sys = users_sys; rx = inc_regexes }

abbrev guarded : MergedCtx
guarded = record inc_context {
  auth_name = codes "Members";
  auth_user_file = codes "/w/users";
  requires = codes "valid-user" ∷ [];
  order = codes "deny,allow";
  denies = codes "from" ∷ [];
}

-- The word for a valid user has no byte behind it, and `from` is not `all`.
require_run : require_satisfied users_context guarded ≡ ok undecided
unfolding require_satisfied casecmp
require_run = refl

apply_auth-decision_example :
    (rules : List FilesRule) × (apply_auth users_context guarded (codes "/a") response
      ≡ ok (
        record guarded { files_rules = rules },
        (if any_denies inc_regexes (files_target (codes "/a")) guarded.files_rules
            then (response, Result.forbidden)
            else outcome_of users_context guarded response (decision users_context guarded)),
      ))
    × All HasPattern rules
    × ((other : Bytes)
        → any_denies inc_regexes other rules ≡ any_denies inc_regexes other guarded.files_rules)
apply_auth-decision_example =
    apply_auth-decision users_context guarded (codes "/a") response inc_context_patterned

challenge_cut_example :
    (value cut : Bytes) × (challenge users_context guarded response ≡ record response {
      headers = response.headers ++ ((codes "WWW-Authenticate", value) ∷ []);
      www_authenticate = some value;
    })
    × (value ++ cut ≡ realm_text guarded.auth_name)
    × (length cut ≡ 7)
challenge_cut_example = challenge_cut users_context guarded response b'M' (codes "embers") refl

-- The name of the realm is gone.
challenge_run :
    (challenge users_context guarded response).www_authenticate ≡ some (codes "Basic realm=\"M")
unfolding challenge
challenge_run = refl

abbrev header : Header
header = record {
  action = codes "unset";
  name = codes "X-A";
  value = codes "1";
  target = [];
  always = false;
}

abbrev headers_context : MergedCtx
headers_context = record zero_merged {
  headers = header ∷ record header { action = codes "Set" } ∷ [];
  expires_active = true;
  expires_by_type = record header { name = codes "text/"; value = codes "A60" } ∷ [];
}

apply_headers-kept_example :
    apply_headers users_context headers_context response
    ≡ with_headers response (
        map set_line (kept sets headers_context.headers)
        ++ (if headers_context.expires_active
            then map expires_line
                (kept (is_for response.content_type) headers_context.expires_by_type)
            else []))
apply_headers-kept_example = apply_headers-kept users_context headers_context response

headers_run :
    (apply_headers users_context headers_context response).headers
    ≡ (codes "X-A", codes "1") ∷ (codes "Expires", codes "A60") ∷ []
unfolding apply_headers casecmp memcmp_eq
headers_run = refl
