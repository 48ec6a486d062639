-- ===== src/Engine/Headers.antt =====
-- src/htaccess_headers.c: response headers, and listings of directories.
pub mod Listed
use ngx_htaccess.Common.{
  ℕ, ◌+◌, ◌-◌, Bool, true, false, ◌&&◌, List, [], ◌∷◌, ◌++◌, Option, none, some, ◌==◌, leb, ltb,
  if◌then◌else◌, Bytes, codes, length, strncmp_eq,
}
use ngx_htaccess.Directives.{Header, MergedCtx, FileInfo}
use ngx_htaccess.Engine.Conds.{Context, is_dir}
use ngx_htaccess.Engine.State.{Response, push_header, Result}
use ngx_htaccess.Parser.Conds.{byte_at}

module _ (cx : Context) where
  open cx use {ngx, sys, root, c_text}

  -- The tests of a header that is set.
  abbrev pub is_set : Header → Bool
  is_set h =
      ltb 0 (length h.name)
      && (leb 3 (length h.action) && ngx.strncasecmp_eq h.action (codes "set") 3)

  unfoldable pub set_headers : List Header → Response → Response
  set_headers [] r = r
  set_headers (h ∷ l) r = set_headers l (if is_set h then push_header h.name h.value r else r)

  -- The type of the response begins with that of the directive.
  abbrev pub is_type : Bytes → Header → Bool
  is_type content_type h =
      ltb 0 (length content_type)
      && (ltb 0 (length h.name)
          && (leb (length h.name) (length content_type)
              && strncmp_eq content_type h.name (length h.name)))

  unfoldable pub set_expires : List Header → Response → Response
  unfolding strncmp_eq
  set_expires [] r = r
  set_expires (h ∷ l) r =
      set_expires l
        (if is_type r.content_type h then push_header (codes "Expires") h.value r else r)

  -- `htaccess_apply_headers`, which always declines.
  unfoldable pub apply_headers : MergedCtx → Response → Response
  unfolding set_headers set_expires
  apply_headers m r =
      let s = set_headers m.headers r in
      if m.expires_active then set_expires m.expires_by_type s else s

  -- The name that `htaccess_apply_options` asks for; the code does not end it with a NUL.
  abbrev pub listed_name : Bytes → Bytes
  listed_name uri = ngx.snprintf (length root + length uri + 1) (root ++ uri)

  unfoldable pub apply_options : MergedCtx → Bytes → Result
  apply_options m uri =
      if m.options && (ltb 1 (length uri) && byte_at uri (length uri - 1) == b'/')
      then (if is_dir (sys.stat (c_text (listed_name uri)))
          then Result.forbidden
          else Result.declined)
      else Result.declined
