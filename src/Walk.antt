-- ===== src/Walk.antt =====
-- src/htaccess_walk.c and htaccess_parse_file: the files of the directories of a URI, loaded through
-- the cache and merged.
pub mod Chains
pub mod Merge
pub mod Paths
pub mod Load
pub mod Build
