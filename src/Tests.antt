-- ===== src/Tests.antt =====
-- The theorems at concrete inputs: an image, a pod with its containers, and a host that plays the OCI
-- engine.
pub mod World
pub mod Index
pub mod Images
pub mod Containers
pub mod Pods
pub mod Settings
pub mod Oci
pub mod Server
pub mod Runtime
pub mod Device
pub mod Daemon
pub mod Streaming
