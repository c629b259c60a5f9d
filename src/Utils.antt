-- ===== src/Utils.antt =====
-- src/Utils: the byte-level helpers that the parser and the responses use.
pub mod StringUtils
pub mod Conversions
