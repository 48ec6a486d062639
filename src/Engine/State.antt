-- ===== src/Engine/State.antt =====
-- The state of a request, and its environment (the first functions of src/htaccess_rewrite.c).
pub mod Env
use ngx_htaccess.Common.{
  ℕ, Bool, ◌&&◌, List, [], ◌∷◌, ◌++◌, Option, none, some, ◌==◌, if◌then◌else◌, Bytes, length,
  strncmp_eq,
}
use ngx_htaccess.Directives.{Regex}

-- `htaccess_env_var_t`
pub record EnvVar : Type 0 where
  pub name : Bytes
  pub value : Bytes

-- `htaccess_request_state_t`
pub record RequestState : Type 0 where
  pub uri : Bytes
  pub filename : Bytes
  pub query_string : Bytes
  pub env : List EnvVar
  pub redirect_code : ℕ

-- `htaccess_result_t`
pub data Result : Type 0 where
  declined done redirect forbidden unauthorized failed : Result

-- What the engines read of an `ngx_http_request_t`: the header lines in the order of their list, the
-- server's name, and the user and password that nginx took from the request.
pub record Request : Type 0 where
  pub headers : List (Bytes × Bytes)
  pub server : Bytes
  pub user : Bytes
  pub passwd : Bytes

-- The fields of `headers_out` that the engines write or read. The two pointers into the list are the
-- values that they point to, and none for NULL.
pub record Response : Type 0 where
  pub headers : List (Bytes × Bytes)
  pub www_authenticate : Option Bytes
  pub location : Option Bytes
  pub status : ℕ
  pub content_length : Option ℕ
  pub content_type : Bytes

-- `ngx_list_push` on the headers, with the key and the value.
abbrev pub push_header : Bytes → Bytes → Response → Response
push_header key value r = record r { headers = r.headers ++ ((key, value) ∷ []) }

-- A match of a regular expression: the text, and the pairs of `captures` that were written, each with
-- the offsets of a group, or none where the first of them is negative.
pub record Match : Type 0 where
  pub text : Bytes
  pub captures : List (Option (ℕ × ℕ))

-- `ngx_regex_exec`: the pairs that it wrote, NGX_REGEX_NO_MATCHED, or another negative result.
pub data Exec : Type 0 where
  matched : List (Option (ℕ × ℕ)) → Exec
  unmatched refused : Exec

-- The regular expressions of nginx, as a parameter: whether a pattern compiles, and what a compiled
-- one gives on a text.
pub record Regexes : Type 0 where
  pub compiles : Regex → Bool
  pub exec : Regex → Bytes → Exec

abbrev pub is_named : EnvVar → Bytes → Bool
is_named v name = length v.name == length name && strncmp_eq v.name name (length name)

-- The loop of `htaccess_env_get`.
unfoldable pub find_var : List EnvVar → Bytes → Option Bytes
unfolding strncmp_eq
find_var [] name = none
find_var (v ∷ l) name =
    let later = find_var l name in if is_named v name then some v.value else later

unfoldable pub env_get : RequestState → Bytes → Option Bytes
unfolding find_var
env_get state name = find_var state.env name

unfoldable pub env_set : RequestState → Bytes → Bytes → RequestState
env_set state name value = record state {
  env = state.env ++ (record { name = name; value = value } ∷ []);
}
