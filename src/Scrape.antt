-- ===== src/Scrape.antt =====
-- src/actions/scrape.rs: the text helpers of the conversion from HTML to markdown.
pub mod Spaces
pub mod Newlines
pub mod Dom
pub mod Plain
pub mod Links
