-- ===== src/Holmes.antt =====
-- internal/holmesprovider: the control plane's registry of agents and tools, and the provider that
-- sends a tool call to the agents.
pub mod Types
pub mod Tools
pub mod Shapes
pub mod Contract
pub mod Declared
pub mod Registry
pub mod Provider
pub mod Iteration
pub mod Members
pub mod Changes
pub mod Directory
pub mod Resolved
pub mod Targets
pub mod Schedules
pub mod Outcome
pub mod Catalogue
mod Examples
