-- ===== src/Kube.antt =====
-- internal/kubernetes/client.go: the read-only client of the Kubernetes API.
pub mod Api
pub mod InCluster
pub mod Maps
pub mod Health
pub mod Queries
pub mod Usage
pub mod Counts
pub mod Failing
pub mod Restarts
pub mod Totals
mod Examples
