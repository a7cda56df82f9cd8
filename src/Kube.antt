-- ===== src/Kube.antt =====
-- pkg/kube: pods and their containers.
pub mod Types
pub mod Members
pub mod Capabilities
pub mod Validate
pub mod Files
pub mod Filter
pub mod Container
pub mod Pod
pub mod Oci
