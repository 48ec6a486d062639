-- ===== src/Pipeline.antt =====
-- src/htaccess_execute.c: the passes of a request over the engines.
pub mod Promised
pub mod Returns
pub mod Room
pub mod Admitted
pub mod Served
pub mod Freed
pub mod Cached
pub mod Keeps
use ngx_htaccess.Common.{
  ℕ, zero, suc, ◌+◌, ◌-◌, Bool, true, false, not, ◌&&◌, List, [], ◌∷◌, ◌++◌, Option, none, some,
  ◌==◌, ltb, if◌then◌else◌, Bytes, codes, length, drop, Outcome, ok, error, fault, out_of_fuel,
  ◌>>=◌,
}
use ngx_htaccess.Directives.{ErrorDocument, MergedCtx}
use ngx_htaccess.Engine.Alias.{apply_alias}
use ngx_htaccess.Engine.Auth.{apply_auth}
use ngx_htaccess.Engine.Conds.{Context, Code, number, code_declined, code_error}
use ngx_htaccess.Engine.FilesRules.{apply_files_deny}
use ngx_htaccess.Engine.Headers.{apply_headers}
use ngx_htaccess.Engine.Rewrite.{Rewriting, apply_rewrite}
use ngx_htaccess.Engine.Uris.{Http, unparsed}
use ngx_htaccess.Engine.State.{RequestState, Response, push_header, Result}
use ngx_htaccess.Parser.Conds.{byte_at}
use ngx_htaccess.Walk.Build.{dangles, Conf, Walking, build_merged_ctx}
use ngx_htaccess.Walk.Load.{Worker}
use ngx_htaccess.Walk.Paths.{slash_behind}

-- The configuration of a location, merged.
pub record LocConf : Type 0 where
  pub enable : Bool
  pub filename : Bytes
  pub cache_enable : Bool
  pub max_redirects : ℕ

-- What a pass changes but for the cache: the request, its response, and the state of the engines.
pub record View : Type 0 where
  pub http : Http
  pub response : Response
  pub state : RequestState

-- How a pass ends: the loop goes on, the function returns, or the loop is left by `break`.
pub data Passed : Type 0 where
  again : View → Passed
  returns : Code → View → Passed
  leaves : View → Passed

abbrev pub walk_conf : Bytes → LocConf → Conf
walk_conf root loc = record {
  root = root;
  filename = loc.filename;
  cache_enable = loc.cache_enable;
}

-- The URI without its first byte, behind the root and a slash.
abbrev pub file_below : Bytes → Bytes → Bytes
file_below root uri = root ++ (slash_behind root ++ (if ltb 1 (length uri) then drop 1 uri else []))

-- `len`, the bytes allocated for it.
abbrev pub file_room : Bytes → Bytes → ℕ
file_room root uri = length root + length uri + 1

unfoldable pub resolve_filename : Bytes → RequestState → RequestState
resolve_filename root s =
    if length root == 0
    then record s { filename = [] }
    else record s { filename = file_below root s.uri }

-- A location that begins with no slash and no `h` gets a slash.
abbrev pub location_of : Bytes → Bytes
location_of uri =
    if ltb 0 (length uri) && (not (byte_at uri 0 == b'/') && not (byte_at uri 0 == b'h'))
    then b'/' ∷ uri
    else uri

abbrev pub status_of : RequestState → ℕ
status_of s = if s.redirect_code == 0 then 302 else s.redirect_code

abbrev pub redirected_response : RequestState → Response → Response
redirected_response s r = record (push_header (codes "Location") (location_of s.uri) r) {
  location = some (location_of s.uri);
  status = status_of s;
  content_length = some 0;
}

unfoldable pub send_redirect : View → Passed
send_redirect v =
    returns (number (status_of v.state))
      (record v { response = redirected_response v.state v.response })

-- The request takes the URI of the state; the arguments stay.
unfoldable pub apply_uri : RequestState → Http → Http
apply_uri s http = record http {
  uri = s.uri;
  unparsed_uri = unparsed s.uri http.args;
  valid_unparsed_uri = false;
  internal = true;
}

unfoldable pub error_uri : List ErrorDocument → ℕ → Option Bytes
error_uri [] code = none
error_uri (d ∷ l) code =
    let later = error_uri l code in if d.code == code then some d.uri else later

-- A refused request goes on with the document for its status, if there is one.
abbrev pub by_document : ℕ → View → Option Bytes → Passed
by_document code v none = returns (number code) v
by_document code v (some uri) =
    let s = record (v.state) { uri = uri } in
    again (record v { http = apply_uri s v.http; state = s })

-- What `ngx_memzero` and the first lines of `htaccess_execute` leave.
abbrev pub start_state : Http → RequestState
start_state http = record {
  uri = http.uri;
  filename = [];
  query_string = http.args;
  env = [];
  redirect_code = 0;
}

module _ (cx : Context) where
  open cx use {ngx, sys, rx, root}

  -- Behind the authorisation.
  unfoldable pub by_auth : View → MergedCtx × (Response × Result) → Passed
  unfolding apply_uri error_uri
  by_auth v (m, (r, Result.unauthorized)) =
      by_document 401 (record v { response = r }) (error_uri m.error_documents 401)
  by_auth v (m, (r, Result.forbidden)) =
      by_document 403 (record v { response = r }) (error_uri m.error_documents 403)
  by_auth v (m, (r, _)) = leaves (record v { response = apply_headers cx m r })

  -- Behind the rules.
  unfoldable pub by_rewrite : MergedCtx → Response → Rewriting × Result → Outcome Passed
  unfolding send_redirect apply_uri resolve_filename apply_auth by_auth
  by_rewrite m r (w, Result.redirect) =
      ok (send_redirect (record { http = w.http; response = r; state = w.state }))
  by_rewrite m r (w, Result.done) = ok (
      again (record {
        http = apply_uri w.state w.http;
        response = r;
        state = resolve_filename root w.state;
      }))
  by_rewrite m r (w, _) = apply_auth cx m w.http.uri r >>= λ a.
      ok (by_auth (record { http = w.http; response = r; state = w.state }) a)

  -- Behind the redirects.
  unfoldable pub by_alias : View → MergedCtx × (RequestState × Result) → Outcome Passed
  unfolding send_redirect apply_rewrite by_rewrite
  by_alias v (m, (s, Result.redirect)) = ok (send_redirect (record v { state = s }))
  by_alias v (m, (s, _)) =
      apply_rewrite (record cx { state = s }) m v.http s >>= λ r. by_rewrite m v.response r

  -- Behind the rules for files of the first pass.
  unfoldable pub by_files : View → MergedCtx × Result → Outcome Passed
  unfolding apply_alias by_alias
  by_files v (m, Result.forbidden) = ok (returns (number 403) v)
  by_files v (m, _) = by_alias v (apply_alias rx m v.state)

  -- A pass over the merged context; the first one tests the URI of the request.
  unfoldable pub run_pass : Bool → Bytes → MergedCtx → View → Outcome Passed
  unfolding apply_files_deny by_files apply_alias by_alias
  run_pass true request_uri m v = apply_files_deny rx m request_uri >>= λ f. by_files v f
  run_pass false request_uri m v = by_alias v (apply_alias rx m v.state)

  -- The loop of the passes, with those that are left.
  module _ (loc : LocConf) (request_uri : Bytes) where
    abbrev pub by_passed :
        Worker
        → Passed
        → (View → Outcome (Code × (Worker × View)))
        → Outcome (Code × (Worker × View))
    by_passed w (again v) k = k v
    by_passed w (returns code v) k = ok (code, (w, v))
    by_passed w (leaves v) k = ok (code_declined, (w, v))

    -- A result of the walk that is not NGX_OK; a context that points into a destroyed pool is a
    -- fault. `held` are the pools that earlier walks of the request left it pointing into.
    abbrev pub built :
        List ℕ
        → Outcome Walking
        → Worker
        → View
        → (Walking → Outcome (Code × (Worker × View)))
        → Outcome (Code × (Worker × View))
    built held (ok s) w v k = if dangles held s then fault else k s
    built held error w v k = ok (code_error, (w, v))
    built held fault w v k = fault
    built held out_of_fuel w v k = out_of_fuel

    unfoldable pub passes : ℕ → Bool → List ℕ → Worker → View → Outcome (Code × (Worker × View))
    unfolding build_merged_ctx dangles run_pass
    passes zero first held w v = ok (code_declined, (w, v))
    passes (suc n) first held w v =
        built held (build_merged_ctx ngx sys (walk_conf root loc) v.http.uri w) w v (λ s.
          run_pass first request_uri s.context v >>= λ p.
          by_passed s.worker p (λ u. passes n false (s.pools ++ held) s.worker u))

  -- The view that a request begins with.
  abbrev pub start_view : Http → Response → View
  start_view http r = record {
    http = http;
    response = r;
    state = resolve_filename root (start_state http);
  }

  unfoldable pub execute : LocConf → Worker → Http → Response → Outcome (Code × (Worker × View))
  unfolding passes resolve_filename
  execute loc w http r = passes loc http.uri loc.max_redirects true [] w (start_view http r)
