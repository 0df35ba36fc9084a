-- ===== src/Crates.antt =====
-- What the actions of src/actions/ and the backends of src/providers/ use of other crates, beside
-- those of Net: functions that are not in src/. `spawn_blocking` runs a function on another thread
-- and fails where that panics, and `spawn_blocking_eq` is what it promises; `parse_document` and
-- `select_main` are `scraper`'s, `element_html` what it writes of an element, `hrefs` the links of
-- a document, `result_nodes` DuckDuckGo's results; `xml_events` reads with `quick_xml`; `base64`
-- encodes; `score_text` is `as_f64` and the `{:.2}` of `format!`. `collapse_whitespace` is in src/,
-- in one version for each target (Scrape.Spaces): none is a panic of the SSE2 version.
use mcp_web_search.Sitemap.{Event}
use mcp_web_search.Json.{Value}
use mcp_web_search.Providers.Duckduckgo.{ResultNode}
use mcp_web_search.Scrape.Dom.{Node, Nodes}
use mcp_web_search.Base.{none, some, lit, err, ok, ◌≡◌, ℕ, List, Option, Result, Text}

pub record Crates : Type 1 where
  pub spawn_blocking : {A : Type 0} → (Text → A) → Text → Result Text A
  pub spawn_blocking_eq :
      {A : Type 0} (f : Text → A) (x : Text) (a : A) → spawn_blocking f x ≡ ok a → a ≡ f x
  pub parse_document : Text → Nodes
  pub select_main : Nodes → Option Node
  pub element_html : Node → Text
  pub hrefs : Nodes → List Text
  pub result_nodes : Text → List ResultNode
  pub score_text : Value → Option Text
  pub xml_events : Text → List Event
  pub base64 : Text → Text
  pub to_lowercase : Text → Text
  pub canonical_reason : ℕ → Option Text
  pub collapse_whitespace : Text → Option Text

-- What `spawn_blocking` returns of a function that may panic: that is a failure of the thread. With
-- the `panic = "abort"` of the release profile the process ends there and answers nothing.
abbrev pub awaited : {A : Type 0} → Result Text (Option A) → Result Text A
awaited (err e) = err e
awaited (ok none) = err (lit "panic")
awaited (ok (some a)) = ok a
