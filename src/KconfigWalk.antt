-- ===== src/KconfigWalk.antt =====
-- The expressions of src/autokernel/kconfig_walk.py: the rewriting of `depends on X if Y`.
pub mod Lexer
pub mod Expr
pub mod Rewrite
pub mod Reading
pub mod Printing
pub mod RoundTrip
pub mod Meaning
pub mod Total
mod Tests
