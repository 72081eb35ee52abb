-- ===== src/Cap.antt =====
-- src/c/capfilter.c: the compiler of capture filters to classic BPF.
pub mod Node
pub mod Token
pub mod Lexer
pub mod Parser
pub mod Insn
pub mod Codegen
pub mod Bpf
pub mod Matches
pub mod Correct
pub mod Compile
mod Tests
