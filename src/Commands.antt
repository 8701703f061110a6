-- ===== src/Commands.antt =====
-- internal/commands/commands.go: the allowlisted commands and their execution.
pub mod Arguments
pub mod Names
pub mod Params
pub mod Run
pub mod Allowed
pub mod Dispatch
pub mod Supported
pub mod Unanswered
pub mod Envelope
pub mod Numbers
mod Examples
