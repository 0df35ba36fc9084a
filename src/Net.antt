-- ===== src/Net.antt =====
-- What the program asks of the world outside: the `url` crate, DNS, and the HTTP client. The
-- crate's URLs are an abstract type with the operations that src/ calls; every effect is a query,
-- and whatever the world answers is open, at each query anew.
mod Types
mod Tasks
pub mod Logic
pub mod Concurrent
pub use Types.*
unfoldable pub use Tasks.*
