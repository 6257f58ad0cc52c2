-- ===== src/Text.antt =====
-- What the program uses of Go's `strings`, `strconv` and `fmt` packages, over byte lists.
pub mod Index
pub mod Lower
pub mod Utf8
pub mod Trim
pub mod Decimal
pub mod Split
