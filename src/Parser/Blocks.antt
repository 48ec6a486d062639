-- ===== src/Parser/Blocks.antt =====
-- htaccess_block_enabled and htaccess_parse_files_match: the blocks `<...>`.
use ngx_htaccess.Common.{
  ◌-◌, Bool, true, not, ◌&&◌, ◌||◌, [], ◌∷◌, ◌==◌, leb, ltb, if◌then◌else◌, Bytes, codes, length,
  take, drop,
}
use ngx_htaccess.Lexer.{skip_space}
use ngx_htaccess.Ngx.{Ngx}
use ngx_htaccess.Parser.Conds.{byte_at}

-- `while (p < last && *p != '"') p++`: the bytes passed over.
unfoldable pub to_quote : Bytes → Bytes
to_quote [] = []
to_quote (c ∷ p) = let rest = to_quote p in if c == b'"' then [] else c ∷ rest

-- The pattern between the quotes, or up to the end of the block where no second quote stands.
abbrev pub quoted_pattern : Bytes → Bytes
quoted_pattern [] = []
quoted_pattern (c ∷ p) = if c == b'"' then to_quote p else []

module _ (ngx : Ngx) where
  open ngx use {strncasecmp_eq}

  -- The chain of tests on the module of an `IfModule` block.
  unfoldable pub module_enabled : Bytes → Bool → Bool
  module_enabled p in_rewrite =
      if leb 14 (length p) && strncasecmp_eq p (codes "mod_rewrite.c") 13
      then in_rewrite
      else if leb 12 (length p) && strncasecmp_eq p (codes "mod_alias.c") 11
      then true
      else if leb 11 (length p) && strncasecmp_eq p (codes "mod_auth") 8
      then true
      else if leb 14 (length p) && strncasecmp_eq p (codes "mod_headers.c") 13
      then true
      else if leb 14 (length p) && strncasecmp_eq p (codes "mod_expires.c") 13
      then true
      else true

  unfoldable pub block_enabled : Bytes → Bool → Bool → Bool
  unfolding module_enabled
  block_enabled block in_rewrite in_files =
      if ltb (length block) 2 || not (byte_at block 0 == b'<')
      then true
      else if strncasecmp_eq (drop 1 block) (codes "IfModule") 8
      then module_enabled (skip_space (drop 9 block)) in_rewrite
      else if strncasecmp_eq (drop 1 block) (codes "Files") 5
          || strncasecmp_eq (drop 1 block) (codes "FilesMatch") 10
      then in_files
      else true

  -- `last` is the closing `>`.
  unfoldable pub parse_files_match : Bytes → Bytes
  unfolding to_quote skip_space
  parse_files_match block =
      if ltb (length block) 12
      then []
      else if not (strncasecmp_eq (drop 1 block) (codes "FilesMatch") 10)
      then []
      else quoted_pattern (skip_space (drop 10 (take (length block - 2) (drop 1 block))))
