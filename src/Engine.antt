-- ===== src/Engine.antt =====
-- The engines that run over the merged directives.
pub mod State
pub mod Expand
pub mod Alias
pub mod Conds
pub mod Uris
pub mod Rewrite
pub mod FilesRules
pub mod Passwords
pub mod Auth
pub mod Headers
