-- ===== src/Go.antt =====
-- What the program uses of Go's standard library: strconv, encoding/hex, encoding/binary.
pub mod Strconv
pub mod Words
pub mod Hex
