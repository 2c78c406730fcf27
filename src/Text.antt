-- ===== src/Text.antt =====
-- src/util and src/format: functions on text, of which no component keeps a state.
pub mod Token
pub mod Utf8
pub mod Buffer
pub mod Filename
pub mod Escape
