-- ===== src/Locale.antt =====
-- internal/locale: the choice of a plural form.
pub mod Plural
