-- ===== src/Auth.antt =====
-- auth.go: which operations a client may do.
-- Children: Auth/Rules (rules and operations), Auth/Lookup (the names of a user ID, cached),
-- Auth/Request (an HTTP request), and the proofs: Auth/Grants and Auth/Decisions.
pub mod Rules
pub mod Lookup
pub mod Request
pub mod Grants
pub mod Decisions
