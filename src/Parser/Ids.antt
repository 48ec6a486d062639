-- ===== src/Parser/Ids.antt =====
-- htaccess_directive_id: the directive that a name stands for.
use ngx_htaccess.Common.{
  ◌&&◌, List, [], ◌∷◌, Option, none, some, ◌==◌, if◌then◌else◌, Bytes, codes, length,
}
use ngx_htaccess.Directives.{DirectiveId}
use ngx_htaccess.Ngx.{Ngx}

-- The static table `map`.
abbrev pub directive_names : List (Bytes × DirectiveId)
directive_names =
    (codes "RewriteEngine", DirectiveId.rewrite_engine)
    ∷ (codes "RewriteBase", DirectiveId.rewrite_base)
    ∷ (codes "RewriteCond", DirectiveId.rewrite_cond)
    ∷ (codes "RewriteRule", DirectiveId.rewrite_rule)
    ∷ (codes "Redirect", DirectiveId.redirect)
    ∷ (codes "RedirectMatch", DirectiveId.redirect_match)
    ∷ (codes "RedirectPermanent", DirectiveId.redirect_permanent)
    ∷ (codes "RedirectTemp", DirectiveId.redirect_temp)
    ∷ (codes "AuthType", DirectiveId.auth_type)
    ∷ (codes "AuthName", DirectiveId.auth_name)
    ∷ (codes "AuthUserFile", DirectiveId.auth_user_file)
    ∷ (codes "Require", DirectiveId.require)
    ∷ (codes "Order", DirectiveId.order)
    ∷ (codes "Allow", DirectiveId.allow)
    ∷ (codes "Deny", DirectiveId.deny)
    ∷ (codes "Header", DirectiveId.header)
    ∷ (codes "ExpiresActive", DirectiveId.expires_active)
    ∷ (codes "ExpiresByType", DirectiveId.expires_by_type)
    ∷ (codes "ExpiresDefault", DirectiveId.expires_default)
    ∷ (codes "ErrorDocument", DirectiveId.error_document)
    ∷ (codes "Options", DirectiveId.options)
    ∷ (codes "DirectoryIndex", DirectiveId.directory_index)
    ∷ []

module _ (ngx : Ngx) where
  open ngx use {strncasecmp_eq}

  -- The loop over the table; none is the result -1.
  unfoldable pub find_name : List (Bytes × DirectiveId) → Bytes → Option DirectiveId
  find_name [] name = none
  find_name ((word, id) ∷ rest) name =
      if length name == length word && strncasecmp_eq name word (length name)
      then some id
      else find_name rest name

  unfoldable pub directive_id : Bytes → Option DirectiveId
  unfolding find_name
  directive_id name = find_name directive_names name
