-- ===== src/Text.antt =====
-- Go strings and byte slices, and what the program uses of `strings`, `strconv` and `bytes`.
pub mod Bytes
pub mod Table
pub mod Trim
pub mod Records
pub mod Split
pub mod ParseInt
pub mod Decimal
pub mod Utf8
pub mod Numeral
