-- ===== src/Terminal.antt =====
-- internal/panel/normalize.go: snapshots of terminals as lines. Texts are valid UTF-8, so
-- strings.ToValidUTF8 changes nothing, and the code's tests of bytes are tests of code points: a
-- byte above 0x7f is a part of a code point above 0x7f, and 0xc2 0x9c is U+009C.
pub mod Sequences
pub mod Lines
mod Kept
mod Printable
mod Normalized
pub mod Width
mod Enough
mod Examples
