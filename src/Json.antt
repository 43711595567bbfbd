-- ===== src/Json.antt =====
-- What the program uses of `encoding/json`: decoded values, and the encoder.
pub mod Value
pub mod Quote
pub mod Encode
pub mod Unquote
pub mod Strings
pub mod Number
pub mod Tree
pub mod Parse
mod Looks
pub mod RoundTrip
pub mod Members
mod Shrinks
mod Fuel
pub mod Decode
pub mod Integers
