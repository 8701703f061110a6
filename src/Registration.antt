-- ===== src/Registration.antt =====
-- internal/registration/client.go and internal/auth/token.go: the client of the control plane.
pub mod Payload
pub mod Retry
pub mod Client
pub mod Runs
pub mod Requests
pub mod Tokens
mod Examples
