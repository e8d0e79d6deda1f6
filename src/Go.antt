-- ===== src/Go.antt =====
-- What the program uses of the Go language and its standard library.
pub mod Text
pub mod Strings
pub mod Hex
pub mod Sha
pub mod Strconv
pub mod Env
pub mod Sort
pub mod Json
pub mod Time
pub mod Library
pub mod Base64
