-- ===== src/Split.antt =====
-- internal/panel/split.go: pages of terminal output as Markdown, and messages cut to the limit of
-- the chat service. Texts are valid UTF-8, so strings.ToValidUTF8 changes nothing; numbers are
-- natural, 0 where Go's is negative, and `none` is Go's nil.
pub mod Labels
pub mod Page
pub mod Plain
mod Rendered
mod Pieces
mod Whole
mod Markdown
mod Bytes
mod Limits
mod Total
mod Examples
