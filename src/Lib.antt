-- ===== src/Lib.antt =====
-- Verification of ngx_http_htaccess_module, the nginx module that reads Apache `.htaccess` files.
--
-- A request goes through src/htaccess_execute.c, which loads the `.htaccess` files of the
-- directories of the URI (src/htaccess_walk.c, through the cache of src/htaccess_cache.c), each
-- parsed once (src/htaccess_parser.c over src/htaccess_lexer.c) into the data of
-- src/htaccess_directives.h, and hands the merged directives to the engines. Modelled here:
--
-- - Directives: the data of src/htaccess_directives.h, a record for a struct and a data type for an
--   enumeration, constructors and fields under their names.
-- - Lexer: src/htaccess_lexer.c. A pair of pointers is the list of the bytes between them.
-- - Parser: src/htaccess_parser.c; Parser.Ids is htaccess_directive_id, Parser.Conds
--   htaccess_parse_rewrite_cond, Parser.Flags htaccess_parse_rule_flags, Parser.Push
--   htaccess_push_directive and htaccess_join_args, Parser.Blocks htaccess_block_enabled and
--   htaccess_parse_files_match, Parser.Parse htaccess_parse.
-- - Cache: src/htaccess_cache.c. The queue is a list, its head first.
-- - Walk: src/htaccess_walk.c; Walk.Load is htaccess_load_file with the parser's
--   htaccess_parse_file, Walk.Chains htaccess_mark_rewrite_chains, Walk.Merge
--   htaccess_merge_directive and htaccess_merge_parsed, Walk.Paths htaccess_join_path, Walk.Build
--   htaccess_build_merged_ctx.
-- - Engine: Engine.State is the request's state, with htaccess_env_get and htaccess_env_set of
--   src/htaccess_rewrite.c, the response, and the parameter for nginx's regular expressions;
--   Engine.Expand is src/htaccess_vars.c, Engine.Alias src/htaccess_alias.c; Engine.Conds the tests
--   of conditions, Engine.Uris the URIs of a rule and Engine.Rewrite the rules of
--   src/htaccess_rewrite.c; Engine.FilesRules, Engine.Passwords and Engine.Auth are
--   src/htaccess_auth.c, and Engine.Headers is src/htaccess_headers.c.
-- - Pipeline: src/htaccess_execute.c, the passes of a request over the engines.
-- - Configuration: src/ngx_http_htaccess_module.c, the directives of nginx's configuration, the
--   settings in nested blocks, the start of a worker and the handler; Configuration.Life is the
--   sequences of requests of a worker.
-- - System: the state of the file system during a request, as a parameter.
-- - Ngx: the functions of nginx on text that the sources call, as a parameter with laws.
-- - Common: shared names; Tests: runs at concrete inputs.
--
-- A fallible function returns an Outcome: a value, an error (NGX_ERROR or NULL), a fault (the use
-- of memory that was never written, or that is freed, undefined in C), or that a loop's fuel ran out. The loops over a
-- line, over the lines of a file and of a password file, over the flags of a rule and over a
-- template have one round more than there are bytes, and each round but the last takes a byte; the
-- loop that makes room in the cache has one round more than the counter says. The loop of the
-- passes of a request counts the passes that are left. An `ngx_array_t` is a list, and NULL the
-- empty one.
--
-- The pool of a parsed file is a number, and the cache records the numbers of the pools that it
-- destroyed. htaccess_merge_directive copies no text, no condition and no E= value, but pointers to
-- them, so a walk records the pools of the files that it has merged more than flags of
-- (Walk.Build.borrow; Walk.Build.Lent is about the other files). A request that goes into a pass while
-- one of these pools, or of those of its earlier walks, is destroyed (Walk.Build.dangles) is a fault
-- in the model; the source reads the freed memory at the first such text that the pass comes to, and
-- may come to none. Pipeline.Freed is which requests these are, and Walk.Build.Lives is about the
-- pools that stay.
--
-- Where the code hands a text without a final NUL to a function that reads a C string, what that
-- function reads is a parameter (c_text).
--
-- Not modelled: allocations from a pool are assumed to succeed (that of a cache entry is not). The
-- files stay as they are during a request; between the requests of a worker they may change. The
-- tables that register the module with nginx, and in which blocks a directive may stand, are data for
-- nginx; its slots and merging macros are a parameter with laws. The scripts that build, package and
-- test are no part of the program.
pub mod Common
pub mod Lexer
pub mod Directives
pub mod Cache
pub mod Ngx
pub mod Parser
pub mod System
pub mod Walk
mod Tests
pub mod Engine
pub mod Pipeline
pub mod Configuration
