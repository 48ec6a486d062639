-- ===== src/Tests.antt =====
-- Runs of the definitions at concrete inputs, and the theorems applied to them.
mod Nginx
mod Lexing
mod Caching
mod Parsing
mod Walking
mod Engines
mod Chaining
mod Guarding
mod Requests
mod Configuring
