-- ===== src/CommandLine.antt =====
-- cmd/ghsecretman/main.go: the commands, what they write and the codes that they exit with.
pub mod Frame
pub mod Commands
pub mod Dispatch
pub mod Refusals
pub mod Codes
pub mod EndToEnd
