-- ===== src/FileParse.antt =====
-- go-vs-php-file-parse/parser.go: a parser of log files, and the generator of its input.
pub mod Split
pub mod Atoi
pub mod Parser
pub mod Generator
mod Tests
