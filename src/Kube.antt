-- ===== src/Kube.antt =====
-- scheduler/internal/k8sclient: sandboxes as Kubernetes pods, projects as headless services.
pub mod Api
pub mod Spec
pub mod Client
pub mod Events
pub mod Interface
pub mod Selection
pub mod Readiness
pub mod Services
pub mod Setup
pub mod Stopping
pub mod Waiting
pub mod Delivered
