-- ===== src/Pipeline/Promised.antt =====
-- What a pass promises.
use ngx_htaccess.Common.{
  ℕ, ◌≡◌, ◌≢◌, refl, inl, inr, Bool, Bool-cases, true, false, List, Option, none, some, ◌==◌,
  if◌then◌else◌, Bytes, length, All, arith, Outcome, ok, error, fault, out_of_fuel, ◌>>=◌,
}
use ngx_htaccess.Directives.{FilesRule, MergedCtx}
use ngx_htaccess.Engine.Alias.{alias_dirs, alias_result, apply_alias}
use ngx_htaccess.Engine.Auth.Decision.{apply_auth-decision}
use ngx_htaccess.Engine.Auth.{apply_auth}
use ngx_htaccess.Engine.Conds.{Context, Code, number}
use ngx_htaccess.Engine.FilesRules.Denied.{any_denies, apply_files_deny-any_denies}
use ngx_htaccess.Engine.FilesRules.{files_target}
use ngx_htaccess.Engine.Rewrite.Agree.{PromisesAll, apply_rewrite-PromisesAll}
use ngx_htaccess.Engine.Rewrite.{Rewriting}
use ngx_htaccess.Engine.State.{RequestState, Response, Result}
use ngx_htaccess.Pipeline.{
  View, Passed, again, returns, leaves, resolve_filename, send_redirect, apply_uri, error_uri,
  by_document, by_auth, by_rewrite, by_alias, by_files, run_pass,
}
use ngx_htaccess.Walk.Build.Patterns.{IsPatterned, HasPattern}

-- The state of the engines has the URI of the request.
abbrev pub Agrees : View → Type 0
Agrees v = v.state.uri ≡ v.http.uri

-- A status is not NGX_OK.
abbrev pub IsStatus : Code → Type 0
IsStatus (number n) = n ≢ 0
IsStatus _ = ⊥

-- What a pass promises; a fault is memory that was never written.
abbrev pub PassedWell : Outcome Passed → Type 0
PassedWell (ok (again v)) = Agrees v
PassedWell (ok (returns code v)) = IsStatus code
PassedWell (ok (leaves v)) = Unit
PassedWell fault = Unit
PassedWell _ = ⊥

pub send_redirect-PassedWell : (v : View) → PassedWell (ok (send_redirect v))
unfolding send_redirect
send_redirect-PassedWell v = λ e. ground arith

by_document-PassedWell :
    (code : ℕ) (v : View) (o : Option Bytes) → code ≢ 0 → PassedWell (ok (by_document code v o))
unfolding apply_uri
by_document-PassedWell code v none h = h
by_document-PassedWell code v (some uri) h = refl

pub uri-resolve_filename : (root : Bytes) (s : RequestState) → (resolve_filename root s).uri ≡ s.uri
unfolding resolve_filename
uri-resolve_filename root s = elim (Bool-cases (length root == 0)) [
  | inl no_root ↦ rw no_root refl
  | inr some_root ↦ rw some_root refl
]

-- What follows the rules sees the request and the state that they leave.
abbrev pub rewritten : Rewriting → Response → View
rewritten w r = record { http = w.http; response = r; state = w.state }

module _ (cx : Context) where
  open cx use {ngx, sys, rx, root}

  by_auth-PassedWell :
      (v : View) (m : MergedCtx) (r : Response) (a : Result)
      → PassedWell (ok (by_auth cx v (m, (r, a))))
  unfolding by_auth
  by_auth-PassedWell v m r Result.unauthorized =
      by_document-PassedWell 401 _ (error_uri m.error_documents 401) (λ e. omega (arith, e))
  by_auth-PassedWell v m r Result.forbidden =
      by_document-PassedWell 403 _ (error_uri m.error_documents 403) (λ e. omega (arith, e))
  by_auth-PassedWell v m r Result.declined = tt
  by_auth-PassedWell v m r Result.done = tt
  by_auth-PassedWell v m r Result.redirect = tt
  by_auth-PassedWell v m r Result.failed = tt

  -- The authorisation returns, so the rest of the pass does.
  authorized-PassedWell :
      (v : View) (m : MergedCtx) (uri : Bytes) (r : Response)
      → IsPatterned m
      → PassedWell (apply_auth cx m uri r >>= λ a. ok (by_auth cx v a))
  authorized-PassedWell v m uri r h =
      let (rules, returned, _, _) = apply_auth-decision cx m uri r h in
      rw returned (by_auth-PassedWell v (record m { files_rules = rules }) _ _)

  by_rewrite-PassedWell :
      (m : MergedCtx) (r : Response) (w : Rewriting) (a : Result)
      → IsPatterned m
      → PassedWell (by_rewrite cx m r (w, a))
  unfolding by_rewrite apply_uri resolve_filename
  by_rewrite-PassedWell m r w Result.redirect h =
      send_redirect-PassedWell (record { http = w.http; response = r; state = w.state })
  by_rewrite-PassedWell m r w Result.done h = uri-resolve_filename root w.state
  by_rewrite-PassedWell m r w Result.declined h =
      authorized-PassedWell (rewritten w r) m w.http.uri r h
  by_rewrite-PassedWell m r w Result.forbidden h =
      authorized-PassedWell (rewritten w r) m w.http.uri r h
  by_rewrite-PassedWell m r w Result.unauthorized h =
      authorized-PassedWell (rewritten w r) m w.http.uri r h
  by_rewrite-PassedWell m r w Result.failed h =
      authorized-PassedWell (rewritten w r) m w.http.uri r h

  rewrite-PassedWell :
      (m : MergedCtx) (r : Response) (s : RequestState) (o : Outcome (Rewriting × Result))
      → IsPatterned m
      → PromisesAll (record cx { state = s }) o
      → PassedWell (o >>= λ a. by_rewrite cx m r a)
  rewrite-PassedWell m r s (ok (w, a)) h p = by_rewrite-PassedWell m r w a h
  rewrite-PassedWell m r s error h p = p
  rewrite-PassedWell m r s fault h p = tt
  rewrite-PassedWell m r s out_of_fuel h p = p

  -- Behind the redirects, by the state of one that was taken.
  alias-PassedWell :
      (v : View) (m : MergedCtx) (taken : Option RequestState)
      → Agrees v
      → IsPatterned m
      → PassedWell (by_alias cx v (m, alias_result rx v.state taken))
  unfolding by_alias
  alias-PassedWell v m none h p =
      rewrite-PassedWell m v.response v.state _ p
        (apply_rewrite-PromisesAll (record cx { state = v.state }) m v.http v.state h)
  alias-PassedWell v m (some s) h p = send_redirect-PassedWell (record v { state = s })

  apply_alias-PassedWell :
      (v : View) (m : MergedCtx)
      → Agrees v
      → IsPatterned m
      → PassedWell (by_alias cx v (apply_alias rx m v.state))
  unfolding apply_alias
  apply_alias-PassedWell v m h p =
      alias-PassedWell v (record m { dirs = (alias_dirs rx m.dirs v.state).0 })
        (alias_dirs rx m.dirs v.state).1 h p

  pub run_pass-PassedWell :
      (first : Bool) (request_uri : Bytes) (m : MergedCtx) (v : View)
      → Agrees v
      → IsPatterned m
      → PassedWell (run_pass cx first request_uri m v)
  unfolding run_pass by_files
  run_pass-PassedWell false request_uri m v h p = apply_alias-PassedWell v m h p
  run_pass-PassedWell true request_uri m v h p =
      let (rules, returned, patterned, _) = apply_files_deny-any_denies rx m request_uri p in
      rw returned (tested rules patterned (any_denies rx (files_target request_uri) m.files_rules))
    where
      tested :
          (rules : List FilesRule)
          → All HasPattern rules
          → (b : Bool)
          → PassedWell (
              by_files cx v (
                record m { files_rules = rules },
                (if b then Result.forbidden else Result.declined),
              ))
      tested rules patterned true = λ e. omega (arith, e)
      tested rules patterned false =
          apply_alias-PassedWell v (record m { files_rules = rules }) h patterned
