-- ===== src/Disp.antt =====
-- src/c/dispfilter.c: the display filter, which is matched against the parsed fields of a packet.
pub mod Node
pub mod Token
pub mod Literal
pub mod Lexer
pub mod Parser
pub mod Eval
pub mod Compile
mod Tests
