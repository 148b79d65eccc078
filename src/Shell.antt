-- ===== src/Shell.antt =====
-- pset4: the shell's tokenizer and command-line parsers (helpers.cc, sh61.hh) and run_line (sh61.cc).
-- The command line is a block of memory; tokenizers and parsers hold pointers into it.
pub mod Tokenizer
pub mod Words
pub mod Parser
mod Tests
