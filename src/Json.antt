-- ===== src/Json.antt =====
-- What the program uses of encoding/json: the decoder's grammar, and the encoding of strings.
pub mod Value
pub mod Strings
pub mod Numbers
pub mod Parse
pub mod Print
pub mod Decode
