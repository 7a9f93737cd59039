-- ===== src/Json.antt =====
-- What the program uses of encoding/json: the text of a value, and reading it back.
pub mod Utf8
pub mod Strings
pub mod Values
pub mod Structs
