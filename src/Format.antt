-- ===== src/Format.antt =====
-- src/format and the calendar of src/util/platform.c: times and sizes as text.
pub mod Calendar
pub mod Time
pub mod Relative
pub mod Size
