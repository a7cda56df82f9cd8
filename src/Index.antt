-- ===== src/Index.antt =====
-- pkg/index: pods, containers and images by any prefix of their IDs that no other shares.
pub mod Containers
pub mod Pods
pub mod Images
