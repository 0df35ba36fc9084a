-- ===== src/Server/Handlers/Every.antt =====
-- What holds of each of the twelve actions holds of the one that `handle_tools_call` of
-- src/server.rs finds by name.
use mcp_web_search.Json.{Value}
use mcp_web_search.Base.{lit, false, text_eq, true, Text, if◌then◌else◌, none, Bool, some, Option}
use mcp_web_search.Server.Handlers.{handler_of, Actions}
use mcp_web_search.Net.{Task, UrlLib}

pub record Every (U : UrlLib) (A : Actions U) (P : (Option Value → Task U Value) → Type 0)
    : Type 0 where
  pub search : P A.web_search
  pub scrape : P A.web_scrape
  pub map_site : P A.web_map
  pub extract : P A.web_extract
  pub fetch : P A.web_fetch
  pub fetch_text : P A.web_fetch_text
  pub fetch_headers : P A.web_fetch_headers
  pub search_scrape : P A.web_search_scrape
  pub sitemap : P A.web_sitemap
  pub check_links : P A.web_check_links
  pub browse : P A.browser_scrape
  pub screen : P A.browser_screenshot

module _ (U : UrlLib) (P : (Option Value → Task U Value) → Type 0) where
  abbrev pub OfHandler : Option (Option Value → Task U Value) → Type 0
  OfHandler none = Unit
  OfHandler (some action) = P action

  handler_if :
      (b : Bool) (action : Option Value → Task U Value) (o : Option (Option Value → Task U Value))
      → P action
      → OfHandler o
      → OfHandler (if b then some action else o)
  handler_if true action o h k = h
  handler_if false action o h k = k

  pub handler_of-Every :
      (A : Actions U) → Every U A P → (name : Text) → OfHandler (handler_of U A name)
  unfolding handler_of
  handler_of-Every A h name = handler_if (text_eq (lit "web_search") name) _ _ h.search (
      handler_if (text_eq (lit "web_scrape") name) _ _ h.scrape (
        handler_if (text_eq (lit "web_map") name) _ _ h.map_site (
          handler_if (text_eq (lit "web_extract") name) _ _ h.extract (
            handler_if (text_eq (lit "web_fetch") name) _ _ h.fetch (
              handler_if (text_eq (lit "web_fetch_text") name) _ _ h.fetch_text (
                handler_if (text_eq (lit "web_fetch_headers") name) _ _ h.fetch_headers (
                  handler_if (text_eq (lit "web_search_scrape") name) _ _ h.search_scrape (
                    handler_if (text_eq (lit "web_sitemap") name) _ _ h.sitemap (
                      handler_if (text_eq (lit "web_check_links") name) _ _ h.check_links (
                        handler_if (text_eq (lit "browser_scrape") name) _ _ h.browse (
                          handler_if (text_eq (lit "browser_screenshot") name) _ _ h.screen
                            tt)))))))))))
