-- ===== src/Text.antt =====
-- kernel/lang: text as it is stored, and how wide it is.
pub mod Utf8
