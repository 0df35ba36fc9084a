-- ===== src/Lib.antt =====
-- mcp-web-search: an MCP server that offers web search, page fetching and scraping as tools,
-- over stdio or HTTP. A request comes in as a line (src/server.rs) or as an HTTP body
-- (src/http.rs), is dispatched to a method, and a tool call to an action of src/actions/, which
-- reaches the network through the client (src/client.rs) behind the SSRF guard
-- (src/validation.rs). What tools there are (src/tools.rs) and which are exposed is fixed at
-- the start by the command line (src/lib.rs, src/config.rs).
--
-- Parts:
--   Base        shared names; texts as lists of UTF-8 bytes with the `str` functions that src/ calls
--               (trim, strip_prefix, from_utf8_lossy), `Result`, lists measured by native numbers
--   Errors      src/errors.rs: WebSearchError, error_code, error_data and its Display
--   Json        serde_json's Value as data, with `get`, the `as_…` accessors and `value[k] = v`
--   Protocol    src/protocol.rs: request, response and the three constructors of a response
--   Tools       src/tools.rs and src/tools.json: registry, gate and the payload of tools/list
--   Args        src/lib.rs: the command line as clap hands it over; enabled_categories
--   Config      src/config.rs: the configuration, from_args and the defaults
--   Net         what the program asks of the world: the `url` crate as a record of operations
--               (UrlLib), DNS, building a client and sending a request as queries (Query), and
--               programs as trees of queries (Io) whose answers are open. Net.Logic has the
--               predicates: Runs P Q (every query meets P, every result Q, for all answers) and
--               SendsAtMost n
--   Validation  src/validation.rs: guard_ipv4, guard_ipv6, check_addrs, validate_url and its
--               blocking twin. Validation.Vetted has Vets P Q, which is Runs P Q along the answers
--               that bring no domain outside `IsCleared`: a set of domains, left open, that is a field
--               of UrlLib which no code uses. An answer of DNS with one address at least that all pass
--               the guard puts its domain into it. As a theorem holds for every such set, it holds
--               for that of the domains that the run itself has so far looked up with this outcome
--   Client      src/client.rs: fetch_page with its redirects, client_for and build_pinned_client,
--               read_capped
--   Float       f64 as the limiter and the configuration use it: binary64 with its rounding
--   Ratelimit   src/ratelimit.rs: TokenBucket
--   Actions     src/actions/mod.rs: the arguments of a tool call, and the shape of its result
--   Server      src/server.rs: Lines (read_line_capped), Parsing (parse_request, token_matches),
--               Handlers (the methods; the twelve actions are the interface Actions, which Toolbox
--               fills), Dispatch (deadline and response), Stdio (run_stdio)
--   Http        src/http.rs: handle_rpc, handle_health, the decisions of create_http_server
--   Scrape      src/actions/scrape.rs: Spaces (collapse_whitespace in its three versions), Newlines
--               (cleanup_md), Dom (the walk of the document to markdown), Plain (html_to_text),
--               Links (collect_links)
--   Crates      the functions of other crates that the actions and backends use, as a record
--   Providers   Kind (SearchProvider of src/config.rs), and src/providers/: Types, Call (what the
--               backends share), a module per backend, Dispatch (`search` of mod.rs)
--   Sitemap     src/actions/map.rs: parse_sitemap_fast over the events of an XML reader; Reading and
--               Fetched: web_sitemap of src/actions/fetch.rs with its own reader
--   Fetching    the tools web_fetch, web_fetch_text (src/actions/scrape.rs) and web_fetch_headers
--               (src/actions/fetch.rs); Reach (check_one_link) and Links (web_check_links)
--   Scraping    web_scrape of src/actions/scrape.rs: its formats, the body that is moved into its last
--               use and the document that is parsed where a format needs it
--   Extracting  src/actions/extract.rs: web_extract
--   Mapping     src/actions/map.rs: web_map with its candidates
--   Searching   src/actions/search.rs: web_search and web_search_scrape
--   Browsing    src/browser.rs and src/actions/browser.rs: acquire_page, browser_scrape and
--               browser_screenshot; Tracking follows what a call holds along a run, Pool is the
--               semaphore with any number of calls, as a relation of steps
--   Guarded     the queries that the server may put: those of a client that passed the guard, calls
--               of the configured backend, and steps of the browser
--   Toolbox     the twelve tools together as the Actions of the server
--   Tests       small worlds, and the theorems at concrete inputs
--
-- State: the token bucket is passed from call to call; stdio carries the rest of its stream;
-- web_map passes its candidates from URL to URL, web_scrape the body from format to format, and
-- Browsing.Tabs the open tab from query to query; the network, the browser and the clock have
-- no state here, each query is answered anew, so that a theorem holds whatever other calls do
-- meanwhile. Concurrency enters where the code has it: the bucket's mutex makes each call one
-- step, a deadline may pass at every wait (with_timeout), and the tasks of one call
-- (FuturesUnordered, buffer_unordered, buffered) are polled in the order of a schedule, a list
-- of numbers that every theorem leaves open (Net.Concurrent): each number picks a task, which
-- goes on up to its next answer, and when the schedule ends the rest is run in turn.
--
-- Numbers: usize and u64 have 64 bits; `saturating_add` of read_capped is cut off at usize_max.
-- Durations are in milliseconds, the times of the limiter in nanoseconds, and its tokens and
-- its rate are f64 (Float), multiples of 2⁻¹⁰⁷⁴ with rounding to the nearest, infinity and NaN.
-- IPv4 octets and IPv6 segments carry their bounds as hypotheses where they matter.
--
-- Fuel: fetch_from counts the rounds of `0..=max_redirects`. serve (run_stdio) has a unit for
-- every byte and run of the stream, and each line read takes one at least; run_stdio never runs
-- out. The loops of Scrape over texts have the length of the text, and each round takes a byte
-- at least; head_from (web_fetch_headers) counts rounds as fetch_from does. `excess` of Float
-- halves a number as often as it has bits above 53, with the number itself as fuel.
--
-- Parameters: UrlLib (crate `url`), Serde (serde_json on the messages), Subtle (crate `subtle`,
-- with its comparison as a law), Actions (the functions of src/actions/, in Server and Http),
-- Crates (scraper with the tree of a document, quick_xml with the events of a text, base64,
-- tokio's spawn_blocking with what it returns as a law, str::to_lowercase, the names of HTTP
-- status codes, the number of a score as text; and `collapse_whitespace`, which is in src/ in
-- one version for each target, three in Scrape.Spaces, and none where it panics), the crate's
-- version and the instructions text, reading a file, and the number of processors.
--
-- Not modelled: start-up (src/main.rs), TLS files (src/tls.rs), logging, the capacities of
-- buffers, the switches with which Chrome is launched, pauses (tokio::time::sleep), and the
-- message of a panic of a thread. A panic in a function that another thread runs is modelled as
-- a failure of that thread, as with unwinding, and one on the task of a call of the browser as
-- a query `panic` that has no answer; with the `panic = "abort"` of the release profile both
-- end the process. The semaphores that bound how many links or pages are fetched at once are no
-- state: the runs with a bound are some of the schedules. What a page that is open in the
-- browser asks of the network by itself, redirects included, is the browser's.
pub mod Base
pub mod Errors
pub mod Json
pub mod Protocol
pub mod Tools
pub mod Args
pub mod Providers
pub mod Config
pub mod Net
pub mod Validation
pub mod Client
pub mod Float
pub mod Ratelimit
pub mod Actions
pub mod Guarded
pub mod Mapping
pub mod Scraping
pub mod Browsing
pub mod Searching
pub mod Server
pub mod Http
pub mod Toolbox
pub mod Scrape
pub mod Crates
pub mod Extracting
pub mod Fetching
pub mod Sitemap
pub mod Tests
