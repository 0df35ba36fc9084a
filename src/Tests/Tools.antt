-- ===== src/Tests/Tools.antt =====
-- The tools and the backends at concrete calls.
use mcp_web_search.Scrape.Dom.Depth.{Panics}
use mcp_web_search.Validation.Vetted.{Vets}
use mcp_web_search.Actions.{get_str_arg}
use mcp_web_search.Validation.{check_host_async, parse_and_check_scheme_host, validate_url}
use mcp_web_search.Net.{lookup_host, bind}
use mcp_web_search.Browsing.Limits.{IsBrowserCall, Reachable_bounds}
use mcp_web_search.Browsing.Pool.{
  go_on, fresh, total, leave, begin, new_pool, step, open_tab, held, Pool,
}
use mcp_web_search.Toolbox.{toolbox}
use mcp_web_search.Server.Handlers.{handle_tools_call}
use mcp_web_search.Toolbox.Contents.{handle_tools_call-IsCallResult, IsCallResult}
use mcp_web_search.Actions.Content.{Returns}
use mcp_web_search.Scraping.Moves.{sections-shown_section}
use mcp_web_search.Scraping.Turns.{each, shown_section}
use mcp_web_search.Searching.Runs.{web_search_scrape-IsGuarded}
use mcp_web_search.Extracting.{web_extract}
use mcp_web_search.Mapping.{web_map}
use mcp_web_search.Server.Lines.{bytes}
use mcp_web_search.Searching.{web_search_scrape}
use mcp_web_search.Extracting.Sections.{web_extract-IsExtract, IsExtract}
use mcp_web_search.Mapping.Listing.{web_map-IsMap, IsMap}
use mcp_web_search.Toolbox.Sessions.{handle_rpc-IsGuarded, run_stdio-IsGuarded, tools}
use mcp_web_search.Sitemap.{characters}
use mcp_web_search.Providers.Kind.{tavily, bing}
use mcp_web_search.Browsing.{browser_scrape, browser_screenshot}
use mcp_web_search.Http.{handle_rpc}
use mcp_web_search.Server.Stdio.{run_stdio}
use mcp_web_search.Sitemap.Locs.{Part, loc, events_of, outside}
use mcp_web_search.Sitemap.Reading.{read_sitemap-urls, read_sitemap}
use mcp_web_search.Providers.Dispatch.{search_provider}
use mcp_web_search.Providers.Dispatch.Calls.{search_provider-IsCallTo}
use mcp_web_search.Providers.Dispatch.Asks.{IsWithin, endpoint_of, IsCallTo}
use mcp_web_search.Tests.Fixtures.{collapse, subtle, page_url, crates, config, urls}
use mcp_web_search.Client.Safety.{IsSafe}
use mcp_web_search.Guarded.{IsGuarded}
use mcp_web_search.Protocol.{JsonRpcRequest}
use mcp_web_search.Json.{as_str, get_field, get, number, null, array, str, object, Value}
use mcp_web_search.Providers.Dispatch.Keys.{search_provider-requires_api_key, is_refused}
use mcp_web_search.Providers.Types.{SearchRequest}
use mcp_web_search.Scraping.{sections}
use mcp_web_search.Browsing.Tabs.{browser_screenshot-Tracks, ShotEnd}
use mcp_web_search.Browsing.Tracking.{Slot, Tracks}
use mcp_web_search.Net.Logic.{SendsAtMost, OnOk, Runs}
use mcp_web_search.Server.Parsing.{Serde}
use mcp_web_search.Scraping.{checked_formats, checked_format}
use mcp_web_search.Base.{
  err, inl, inr, ◌≤◌, ◌+◌, text_eq, trim, refl, unwrap_or, true, none, ◌≡◌, some, [], ◌∷◌, ℕ, ok,
  lit, List, Text, Option,
}

-- The arguments of a call: a URL, a list of URLs and a query.
abbrev args : Option Value
args = some (
    object (
      (lit "url", str page_url)
      ∷ (lit "urls", array (str page_url ∷ str (lit "https://example.com/two") ∷ []))
      ∷ (lit "query", str (lit "path types"))
      ∷ []))

abbrev calling : Text → JsonRpcRequest
calling name = record {
  jsonrpc = lit "2.0";
  method = lit "tools/call";
  params = some (object ((lit "name", str name) ∷ (lit "arguments", unwrap_or args null) ∷ []));
  id = some (number 3);
}

abbrev scraping_serde : Serde
scraping_serde = record {
  from_str = λ _. ok (calling (lit "browser_scrape"));
  from_slice = λ _. ok (calling (lit "web_map"));
  to_writer = λ _. ok (lit "{}");
}

abbrev schedule : List ℕ
schedule = 1 ∷ 0 ∷ 1 ∷ []

run_stdio-IsGuarded_example :
    Vets
      (IsGuarded urls config)
      (λ _. Unit {0})
      (run_stdio urls
        (tools urls crates config schedule)
        config
        (lit "1")
        []
        scraping_serde
        (bytes (lit "{}\n") ∷ []))
run_stdio-IsGuarded_example =
    run_stdio-IsGuarded urls crates config schedule (lit "1") [] scraping_serde
      (bytes (lit "{}\n") ∷ [])

handle_rpc-IsGuarded_example :
    Vets
      (IsGuarded urls config)
      (λ _. Unit {0})
      (handle_rpc urls
        (tools urls crates config schedule)
        config
        (lit "1")
        []
        subtle
        scraping_serde
        0
        none
        (some (lit "Bearer secret"))
        (lit "{}")).0
handle_rpc-IsGuarded_example =
    handle_rpc-IsGuarded urls crates config schedule (lit "1") [] subtle scraping_serde 0 none
      (some (lit "Bearer secret")) (lit "{}")

handle_tools_call-IsCallResult_example :
    Returns {U = urls} (IsCallResult urls crates config schedule) (
      handle_tools_call urls
        (toolbox urls crates config schedule)
        config
        (calling (lit "browser_scrape")))
handle_tools_call-IsCallResult_example =
    handle_tools_call-IsCallResult urls crates config schedule (calling (lit "browser_scrape"))

web_map-IsMap_example :
    Vets
      (IsSafe urls config)
      (OnOk (IsMap urls crates config args))
      (web_map urls crates config schedule args)
web_map-IsMap_example = web_map-IsMap urls crates config schedule args

web_extract-IsExtract_example :
    Vets
      (IsSafe urls config)
      (OnOk (IsExtract urls crates config args))
      (web_extract urls crates config schedule args)
    × SendsAtMost 600 (web_extract urls crates config schedule args)
web_extract-IsExtract_example = web_extract-IsExtract urls crates config schedule args

web_search_scrape-IsGuarded_example :
    Vets
      (IsGuarded urls config)
      (OnOk (λ _. Unit {0}))
      (web_search_scrape urls crates config schedule args)
    × SendsAtMost 61 (web_search_scrape urls crates config schedule args)
web_search_scrape-IsGuarded_example = web_search_scrape-IsGuarded urls crates config schedule args

browser_screenshot-Tracks_example :
    Tracks {U = urls}
      (ShotEnd urls crates config)
      (browser_screenshot urls crates config args)
      Slot.outside
browser_screenshot-Tracks_example = browser_screenshot-Tracks urls crates config args

-- Two formats of a page, the second of which is parsed.
abbrev formats : List Text
formats = lit "rawHtml" ∷ lit "markdown" ∷ []

sections-shown_section_example :
    (sections urls crates true formats page_url (lit "<p>hello</p>")
      ≡ each (shown_section urls crates page_url true (lit "<p>hello</p>")) formats)
    × (sections urls crates true formats page_url (lit "<p>hello</p>") ≡ none → Panics collapse)
unfolding checked_formats checked_format text_eq lit
sections-shown_section_example =
    sections-shown_section urls crates true page_url (lit "<p>hello</p>") formats refl

-- A search with a limit of two and without a key.
abbrev searching : SearchRequest
searching = record {
  query = lit "path types";
  limit = 2;
  language = lit "en";
  categories = lit "general";
  time_range = [];
  safe_search = 1;
  engines = [];
  timeout_ms = 10_000;
  api_key = [];
  api_url = some (lit "https://search.example.com");
}

search_provider-IsCallTo_example :
    Runs
      (IsCallTo (endpoint_of bing (some (lit "https://search.example.com"))))
      (OnOk (IsWithin 2))
      (search_provider urls crates bing searching)
    × SendsAtMost 1 (search_provider urls crates bing searching)
search_provider-IsCallTo_example = search_provider-IsCallTo urls crates bing searching

search_provider-requires_api_key_example :
    is_refused (search_provider urls crates tavily searching) ≡ true
unfolding trim lit
search_provider-requires_api_key_example =
    search_provider-requires_api_key urls crates searching (lit "https://search.example.com") refl
      refl refl tavily

-- A page with a text, two locations and an empty location.
abbrev pages : List Part
pages =
    outside (characters (some (lit "\n")))
    ∷ loc (some (lit "https://example.com/one") ∷ [])
    ∷ loc (some [] ∷ [])
    ∷ loc (some (lit "https://example.com/two") ∷ [])
    ∷ []

read_sitemap-urls_example : read_sitemap 1 (events_of pages) ≡ lit "https://example.com/one" ∷ []
unfolding lit
read_sitemap-urls_example = read_sitemap-urls 1 pages (tt, tt)

-- A pool of one page with a call; another begins, puts its first query and is cut off.
abbrev one_call : Pool urls
one_call = record {
  available = 1;
  calls = record { rest = browser_screenshot urls crates config args; slot = Slot.outside } ∷ [];
}

abbrev two_calls : Pool urls
two_calls = record {
  available = 1;
  calls =
      record { rest = browser_scrape urls crates config args; slot = Slot.outside }
      ∷ one_call.calls;
}

Reachable_bounds_example :
    (one_call.available + total held one_call.calls ≡ 1) × (total open_tab one_call.calls ≤ 1)
unfolding browser_scrape bind validate_url parse_and_check_scheme_host check_host_async get_str_arg
    lit text_eq get get_field as_str
Reachable_bounds_example = Reachable_bounds urls crates config 1 one_call (
    step _ one_call
      (step two_calls _
        (step one_call two_calls
          (step (new_pool (IsBrowserCall urls crates config) 1) one_call fresh
            (begin 1 [] (browser_screenshot urls crates config args) (args, inr refl)))
          (begin 1 one_call.calls (browser_scrape urls crates config args) (args, inl refl)))
        (go_on 1 1 [] one_call.calls (lookup_host (lit "example.com") 0) _ Slot.outside (err [])
          refl))
      (leave 1 [] one_call.calls _ Slot.outside))
