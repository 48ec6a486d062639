-- ===== src/Directives.antt =====
-- src/htaccess_directives.h: the data that the parts of the module share. An `ngx_array_t` is the
-- list of its items, and a NULL array the empty list: the sources create an array only to push to
-- it at once. An `ngx_flag_t` or an `ngx_uint_t` that holds 0 or 1 is a Bool.
use ngx_htaccess.Common.{ℕ, Bool, false, List, [], Option, none, Bytes}

-- `htaccess_directive_id_t`
pub data DirectiveId : Type 0 where
  rewrite_engine rewrite_base rewrite_cond rewrite_rule : DirectiveId
  redirect redirect_match redirect_permanent redirect_temp : DirectiveId
  auth_type auth_name auth_user_file require order allow deny : DirectiveId
  header expires_active expires_by_type expires_default : DirectiveId
  error_document options directory_index : DirectiveId

-- `htaccess_cond_test_t`
pub data CondTest : Type 0 where
  filename uri query_string http env fspath other : CondTest

-- `htaccess_cond_op_t`
pub data CondOp : Type 0 where
  eq ne lt gt le ge regex nregex : CondOp
  file notfile dir notdir symlink notsymlink exists notexists : CondOp

-- `htaccess_rewrite_cond_t`
pub record RewriteCond : Type 0 where
  pub test : CondTest
  pub name : Bytes
  pub op : CondOp
  pub value : Bytes
  pub or_next : Bool

-- An `ngx_regex_t` stands for what it was compiled from: the pattern, and whether the option
-- NGX_REGEX_CASELESS was set.
pub record Regex : Type 0 where
  pub pattern : Bytes
  pub caseless : Bool

-- `htaccess_rewrite_rule_t`. `env_vars` holds the texts behind `E=`.
pub record RewriteRule : Type 0 where
  pub pattern : Bytes
  pub substitution : Bytes
  pub last : Bool
  pub end : Bool
  pub nocase : Bool
  pub redirect : Bool
  pub redirect_code : ℕ
  pub chain : Bool
  pub chain_in : Bool
  pub qsa : Bool
  pub env_vars : List Bytes
  pub conditions : List RewriteCond
  pub regex : Option Regex
  pub regex_nc : Bool

-- `htaccess_alias_redirect_t`
pub record AliasRedirect : Type 0 where
  pub from : Bytes
  pub to : Bytes
  pub permanent : Bool
  pub regex : Option Regex

-- `htaccess_header_t`
pub record Header : Type 0 where
  pub action : Bytes
  pub name : Bytes
  pub value : Bytes
  pub target : Bytes
  pub always : Bool

-- `htaccess_files_rule_t`
pub record FilesRule : Type 0 where
  pub pattern : Bytes
  pub deny : Bool
  pub regex : Option Regex

-- `htaccess_error_document_t`
pub record ErrorDocument : Type 0 where
  pub code : ℕ
  pub uri : Bytes

-- `htaccess_directive_t`. The union `u` is the record of its members: each reader reads the member
-- that the directive's id wrote.
pub record Directive : Type 0 where
  pub id : DirectiveId
  pub files_match : Bytes
  pub flag : Bool
  pub str : Bytes
  pub rewrite_rule : RewriteRule
  pub alias : AliasRedirect
  pub header : Header
  pub error_doc : ErrorDocument

-- What `ngx_memzero` leaves in each of them.
abbrev pub zero_cond : RewriteCond
zero_cond = record { test = filename; name = []; op = eq; value = []; or_next = false }

abbrev pub zero_rule : RewriteRule
zero_rule = record {
  pattern = [];
  substitution = [];
  last = false;
  end = false;
  nocase = false;
  redirect = false;
  redirect_code = 0;
  chain = false;
  chain_in = false;
  qsa = false;
  env_vars = [];
  conditions = [];
  regex = none;
  regex_nc = false;
}

abbrev pub zero_header : Header
zero_header = record { action = []; name = []; value = []; target = []; always = false }

abbrev pub zero_directive : DirectiveId → Directive
zero_directive id = record {
  id = id;
  files_match = [];
  flag = false;
  str = [];
  rewrite_rule = zero_rule;
  alias = record { from = []; to = []; permanent = false; regex = none };
  header = zero_header;
  error_doc = record { code = 0; uri = [] };
}

-- `htaccess_dir_ctx_t`
pub record DirCtx : Type 0 where
  pub dir_path : Bytes
  pub url_prefix : Bytes
  pub rewrite_base : Bytes
  pub rewrite_engine : Bool
  pub directives : List Directive

-- `htaccess_merged_ctx_t`. `options` is its bit 1, the only one that the code sets.
pub record MergedCtx : Type 0 where
  pub dirs : List DirCtx
  pub auth_type : Bytes
  pub auth_name : Bytes
  pub auth_user_file : Bytes
  pub requires : List Bytes
  pub order : Bytes
  pub allows : List Bytes
  pub denies : List Bytes
  pub headers : List Header
  pub expires_active : Bool
  pub expires_by_type : List Header
  pub expires_default : Bytes
  pub error_documents : List ErrorDocument
  pub options : Bool
  pub directory_index : Bytes
  pub files_rules : List FilesRule

-- `htaccess_parsed_file_t`. Pools are numbered.
pub record ParsedFile : Type 0 where
  pub directives : List Directive
  pub pool : ℕ

-- What the sources read of an `ngx_file_info_t`.
pub record FileInfo : Type 0 where
  pub mtime : ℕ
  pub size : ℕ
  pub is_dir : Bool
  pub is_link : Bool
