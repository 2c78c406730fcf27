-- ===== src/Upload.antt =====
-- src/api/upload.c: chunk bitmaps, chunk geometry, the job state machine and the engine.
pub mod Bitmap
pub mod Geometry
pub mod Job
