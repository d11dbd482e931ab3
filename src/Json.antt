-- ===== src/Json.antt =====
-- json/: the parts of the JSON reader and writer.
pub mod Unicode
