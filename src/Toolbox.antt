-- ===== src/Toolbox.antt =====
-- The twelve tools together: the functions of src/actions/ that `handle_tools_call` of
-- src/server.rs runs. `schedule` is the order in which the tasks of one call are polled.
pub mod Contents
pub mod Guards
pub mod Sessions
use mcp_web_search.Searching.{web_search, web_search_scrape}
use mcp_web_search.Scraping.{web_scrape}
use mcp_web_search.Mapping.{web_map}
use mcp_web_search.Extracting.{web_extract}
use mcp_web_search.Fetching.{web_fetch, web_fetch_text, web_fetch_headers}
use mcp_web_search.Fetching.Links.{web_check_links}
use mcp_web_search.Sitemap.Fetched.{web_sitemap}
use mcp_web_search.Browsing.{browser_scrape, browser_screenshot}
use mcp_web_search.Server.Handlers.{Actions}
use mcp_web_search.Base.{ℕ, List}
use mcp_web_search.Config.{Config}
use mcp_web_search.Crates.{Crates}
use mcp_web_search.Net.{UrlLib}

module _ (U : UrlLib) (C : Crates) (config : Config) (schedule : List ℕ) where
  abbrev pub toolbox : Actions U
  toolbox = record {
    web_search = web_search U C config;
    web_scrape = web_scrape U C config;
    web_map = web_map U C config schedule;
    web_extract = web_extract U C config schedule;
    web_fetch = web_fetch U config C.spawn_blocking C.parse_document C.collapse_whitespace;
    web_fetch_text =
        web_fetch_text U config C.spawn_blocking C.parse_document C.collapse_whitespace;
    web_fetch_headers = web_fetch_headers U config C.canonical_reason;
    web_search_scrape = web_search_scrape U C config schedule;
    web_sitemap = web_sitemap U C config;
    web_check_links = web_check_links U C config schedule;
    browser_scrape = browser_scrape U C config;
    browser_screenshot = browser_screenshot U C config;
  }
