-- ===== src/Images.antt =====
-- The removal of metadata from an image: `sanitizeVisionInput` of src/services/inputGuard.ts.
pub mod Bytes
pub mod Png
pub mod Jpeg
pub mod Sanitize
