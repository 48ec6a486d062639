-- ===== src/Parser.antt =====
-- src/htaccess_parser.c: from the bytes of a file to its directives.
pub mod Ids
pub mod Conds
pub mod Flags
pub mod Push
pub mod Blocks
pub mod Parse
