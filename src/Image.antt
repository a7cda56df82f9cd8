-- ===== src/Image.antt =====
-- pkg/image: references to images (reference.go) and images on the host (image.go).
pub mod Reference
pub mod Info
pub mod Pull
