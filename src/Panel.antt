-- ===== src/Panel.antt =====
-- internal/panel/buffer.go: the paged cache of a terminal. The methods are in the children.
pub mod Buffer
pub mod Anchor
pub mod Pages
pub mod Reading
mod Examples
