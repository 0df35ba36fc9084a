-- ===== src/Toolbox/Contents.antt =====
-- The results of the twelve tools, and of a call of them through `handle_tools_call` of
-- src/server.rs.
use mcp_web_search.Sitemap.Reading.{read_sitemap}
use mcp_web_search.Browsing.Pictures.{browser_screenshot-IsContent, browser_scrape-IsContent}
use mcp_web_search.Actions.{text_content}
use mcp_web_search.Tools.{is_tool_available}
use mcp_web_search.Protocol.{JsonRpcRequest}
use mcp_web_search.Fetching.Shapes.{
  web_fetch_headers-IsContent, web_fetch_text-IsContent, web_fetch-IsContent,
}
use mcp_web_search.Toolbox.{toolbox}
use mcp_web_search.Server.Handlers.Every.{handler_of-Every, OfHandler, Every}
use mcp_web_search.Server.Handlers.{
  handler_of, tool_error, handle_tools_call, call_named, finished, perform, Actions,
}
use mcp_web_search.Providers.Types.{SearchResult}
use mcp_web_search.Sitemap.Fetched.{sitemap_text, sitemap_limit, read_page, web_sitemap}
use mcp_web_search.Client.{FetchedPage}
use mcp_web_search.Net.Logic.{Runs-bind, Runs-if, OnOk}
use mcp_web_search.Json.{
  null, arr, str, float, negative, number, get_field-set_field, obj, bool, assign, get, Value,
}
use mcp_web_search.Actions.Content.{
  Returns-bind, Returns->>=, text_content-IsContent, HasBlocks, Returns, IsContent,
}
use mcp_web_search.Errors.{to_string, provider_error, WebSearchError, WsResult}
use mcp_web_search.Fetching.Links.{web_check_links}
use mcp_web_search.Extracting.{web_extract}
use mcp_web_search.Mapping.{listing, web_map}
use mcp_web_search.Scraping.{joined_sections, web_scrape}
use mcp_web_search.Searching.{scraped_results, web_search_scrape, web_search}
use mcp_web_search.Base.{
  arith, text_eq_refl, map_err, ◌++◌, try, refl, inl, true, false, none, trim, [], and_then,
  text_eq, ◌≡◌, some, ok, is_empty, ◌∷◌, lit, err, if◌then◌else◌, Result, Option, Bool, Text, ℕ,
  List,
}
use mcp_web_search.Config.{Config}
use mcp_web_search.Crates.{Crates}
use mcp_web_search.Net.{pure, Task, UrlLib}

module _ (U : UrlLib) (C : Crates) (config : Config) (schedule : List ℕ) where
  listing-IsContent : (urls : List Text) → IsContent (listing U C config urls)
  listing-IsContent [] = text_content-IsContent _
  listing-IsContent (url ∷ urls) = text_content-IsContent _

  said_nothing :
      (b : Bool) (text : Text) (m : Task U Value)
      → Returns IsContent m
      → Returns IsContent (if b then pure (ok (text_content text)) else m)
  said_nothing true text m h = text_content-IsContent text
  said_nothing false text m h = h

  web_search-IsContent : (args : Option Value) → Returns IsContent (web_search U C config args)
  unfolding web_search
  web_search-IsContent args = Returns->>= IsContent _ _ λ query.
      said_nothing (is_empty (trim query)) (lit "No search query provided.") _
        (Returns->>= IsContent _ _ (λ resp. text_content-IsContent _))

  scraped_results-IsContent :
      (args : Option Value) (results : List SearchResult)
      → Returns IsContent (scraped_results U C config schedule args results)
  scraped_results-IsContent args [] = text_content-IsContent _
  scraped_results-IsContent args (r ∷ rs) =
      Returns-bind IsContent _ _ (λ sections. text_content-IsContent _)

  web_search_scrape-IsContent :
      (args : Option Value) → Returns IsContent (web_search_scrape U C config schedule args)
  unfolding web_search_scrape
  web_search_scrape-IsContent args = Returns->>= IsContent _ _ λ query.
      said_nothing (is_empty (trim query)) (lit "No search query provided.") _
        (Returns->>= IsContent _ _ (λ resp. scraped_results-IsContent args resp.results))

  joined_sections-IsContent :
      (r : Result Text (Option (List Text))) → OnOk IsContent (joined_sections U C r)
  joined_sections-IsContent (err e) = tt
  joined_sections-IsContent (ok none) = tt
  joined_sections-IsContent (ok (some texts)) = text_content-IsContent _

  web_scrape-IsContent : (args : Option Value) → Returns IsContent (web_scrape U C config args)
  unfolding web_scrape
  web_scrape-IsContent args = Returns->>= IsContent _ _ λ url.
      Returns->>= IsContent _ _
        λ checked. Returns->>= IsContent _ _ λ page. joined_sections-IsContent _

  web_map-IsContent : (args : Option Value) → Returns IsContent (web_map U C config schedule args)
  unfolding web_map
  web_map-IsContent args = Returns->>= IsContent _ _ λ raw. Returns->>= IsContent _ _ λ start.
      Returns-bind IsContent _ _ λ st.
        Returns-bind IsContent _ _ λ both. Returns-bind IsContent _ _ λ out. listing-IsContent _

  web_extract-IsContent :
      (args : Option Value) → Returns IsContent (web_extract U C config schedule args)
  unfolding web_extract
  web_extract-IsContent args =
      Returns->>= IsContent _ _
        λ urls. Returns-bind IsContent _ _ (λ sections. text_content-IsContent _)

  web_check_links-IsContent :
      (args : Option Value) → Returns IsContent (web_check_links U C config schedule args)
  unfolding web_check_links
  web_check_links-IsContent args =
      Returns->>= IsContent _ _
        λ urls. Returns-bind IsContent _ _ (λ lines. text_content-IsContent _)

  sitemap_text-IsContent :
      (f : Text → WebSearchError) (r : Result Text Text)
      → OnOk IsContent (try (map_err f r) (λ text. ok (text_content text)))
  sitemap_text-IsContent f (ok text) = text_content-IsContent text
  sitemap_text-IsContent f (err e) = tt

  read_page-IsContent :
      (limit : ℕ) (r : WsResult (FetchedPage U)) → OnOk IsContent (read_page U C config limit r)
  read_page-IsContent limit (err e) = text_content-IsContent _
  read_page-IsContent limit (ok page) =
      sitemap_text-IsContent (λ e. provider_error (lit "sitemap parse task failed: " ++ e))
        (C.spawn_blocking (λ body. sitemap_text (read_sitemap limit (C.xml_events body))) page.body)

  web_sitemap-IsContent : (args : Option Value) → Returns IsContent (web_sitemap U C config args)
  unfolding web_sitemap
  web_sitemap-IsContent args = Returns->>= IsContent _ _ λ raw. Returns->>= IsContent _ _ λ start.
      Returns->>= IsContent _ _
        λ url. Returns-bind IsContent _ _ (read_page-IsContent (sitemap_limit U C config args))

  abbrev tools : Actions U
  tools = toolbox U C config schedule

  abbrev ReturnsContent : (Option Value → Task U Value) → Type 0
  ReturnsContent action = (args : Option Value) → Returns IsContent (action args)

  tools-IsContent : Every U tools ReturnsContent
  tools-IsContent = record {
    search = web_search-IsContent;
    scrape = web_scrape-IsContent;
    map_site = web_map-IsContent;
    extract = web_extract-IsContent;
    fetch = web_fetch-IsContent U config C.spawn_blocking C.parse_document C.collapse_whitespace;
    fetch_text =
        web_fetch_text-IsContent U config C.spawn_blocking C.parse_document C.collapse_whitespace;
    fetch_headers = web_fetch_headers-IsContent U config C.canonical_reason;
    search_scrape = web_search_scrape-IsContent;
    sitemap = web_sitemap-IsContent;
    check_links = web_check_links-IsContent;
    browse = browser_scrape-IsContent U C config;
    screen = browser_screenshot-IsContent U C config;
  }

  performed :
      (name : Text) (args : Option Value) (o : Option (Option Value → Task U Value))
      → OfHandler U ReturnsContent o
      → Returns IsContent (perform U tools name args o)
  unfolding perform
  performed name args none h = tt
  performed name args (some action) h = h args

  -- The result of a call: blocks, and whether it is an error.
  abbrev pub IsCallResult : Value → Type 0
  IsCallResult v = HasBlocks v × ((flag : Bool) × (get v (lit "isError") ≡ some (bool flag)))

  other_name : text_eq (lit "isError") (lit "content") ≡ false
  unfolding lit text_eq
  other_name = refl

  marked : (v : Value) → IsContent v → IsCallResult (assign v (lit "isError") (bool false))
  unfolding get assign
  marked (obj fs) ((b, bs, e, blocks), plain) = (
    (
      b,
      bs,
      rw (get_field-set_field (lit "content") (lit "isError") (bool false) fs, other_name) e,
      blocks,
    ),
    (
      false,
      rw
          (
            get_field-set_field (lit "isError") (lit "isError") (bool false) fs,
            text_eq_refl (lit "isError"),
          )
          refl,
    ),
  )
  marked null ((b, bs, e, blocks), plain) = ground (arith, e)
  marked (bool x) ((b, bs, e, blocks), plain) = ground (arith, e)
  marked (number n) ((b, bs, e, blocks), plain) = ground (arith, e)
  marked (negative n) ((b, bs, e, blocks), plain) = ground (arith, e)
  marked (float n) ((b, bs, e, blocks), plain) = ground (arith, e)
  marked (str s) ((b, bs, e, blocks), plain) = ground (arith, e)
  marked (arr vs) ((b, bs, e, blocks), plain) = ground (arith, e)

  tool_error-IsCallResult : (message : Text) → IsCallResult (tool_error message)
  unfolding tool_error get lit text_eq
  tool_error-IsCallResult message = ((_, [], refl, (inl (message, refl, refl), tt)), (true, refl))

  finished-IsCallResult :
      (r : WsResult Value) → OnOk IsContent r → OnOk IsCallResult (finished U tools r)
  unfolding finished
  finished-IsCallResult (ok v) h = rw (h.0.2, h.1) (marked v h)
  finished-IsCallResult (err e) h = tool_error-IsCallResult (to_string e)

  call_named-IsCallResult :
      (args : Option Value) (name : Text)
      → Returns IsCallResult (call_named U tools config args name)
  unfolding call_named
  call_named-IsCallResult args name =
      Runs-if (λ _. Unit {0}) (OnOk IsCallResult)
        (is_tool_available name config.server.enabled_categories) _ _
        (λ _.
          Runs-bind (λ _. Unit {0}) (OnOk IsContent) (OnOk IsCallResult)
            (perform U tools name args (handler_of U tools name)) _
            (performed name args (handler_of U tools name)
              (handler_of-Every U ReturnsContent tools tools-IsContent name))
            finished-IsCallResult)
        (λ _. tt)

  -- Whatever the network, the backends and the browser answer, a result that a call of one of the
  -- twelve tools is answered with has a `content` of one block at least, each a text or a picture
  -- with its data, and an `isError` that is a truth value.
  pub handle_tools_call-IsCallResult :
      (req : JsonRpcRequest) → Returns IsCallResult (handle_tools_call U tools config req)
  unfolding handle_tools_call
  handle_tools_call-IsCallResult req =
      Returns->>= IsCallResult _ _
        λ name. call_named-IsCallResult (and_then req.params (λ p. get p (lit "arguments"))) name
