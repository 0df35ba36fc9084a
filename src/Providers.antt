-- ===== src/Providers.antt =====
-- src/providers/: the search backends.
pub mod Kind
pub mod Types
pub mod Call
pub mod Bing
pub mod Bocha
pub mod Duckduckgo
pub mod Exa
pub mod Google
pub mod Searxng
pub mod Tavily
pub mod Zhipu
pub mod Dispatch
