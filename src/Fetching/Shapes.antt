-- ===== src/Fetching/Shapes.antt =====
-- The results of the tools that fetch one page: src/actions/scrape.rs and src/actions/fetch.rs.
use mcp_web_search.Validation.{validate_url}
use mcp_web_search.Actions.{get_str_arg}
use mcp_web_search.Client.{fetch_page, location_of, client_for}
use mcp_web_search.Json.{Value}
use mcp_web_search.Scrape.Dom.{Nodes}
use mcp_web_search.Net.Logic.{Runs-if, OnOk}
use mcp_web_search.Fetching.{
  head_request, head_started, web_fetch_text, web_fetch, web_fetch_headers, head_from, after_head,
  headers_of, parsed, shown,
}
use mcp_web_search.Config.{Config}
use mcp_web_search.Actions.Content.{Returns->>=, Returns, text_content-IsContent, IsContent}
use mcp_web_search.Net.{pure, Task, Response, UrlLib}
use mcp_web_search.Base.{zero, ◌+◌, lit, suc, ok, err, Option, ℕ, Result, Text}

shown-IsContent : (text : Text) → IsContent (shown text)
shown-IsContent text = text_content-IsContent _

module _ (U : UrlLib) (config : Config) where
  parsed-IsContent : (r : Result Text Text) → OnOk IsContent (parsed r)
  parsed-IsContent (err e) = tt
  parsed-IsContent (ok text) = shown-IsContent text

  module _ (spawn_blocking : (Text → Option Text) → Text → Result Text (Option Text))
      (parse_document : Text → Nodes) (collapse_whitespace : Text → Option Text)
      (args : Option Value) where
    pub web_fetch-IsContent :
        Returns IsContent
          (web_fetch U config spawn_blocking parse_document collapse_whitespace args)
    unfolding web_fetch
    web_fetch-IsContent =
        Returns->>= IsContent (pure (get_str_arg args (lit "url"))) _
          λ url. Returns->>= IsContent (fetch_page U config url) _ λ page. parsed-IsContent _

    pub web_fetch_text-IsContent :
        Returns IsContent
          (web_fetch_text U config spawn_blocking parse_document collapse_whitespace args)
    unfolding web_fetch_text
    web_fetch_text-IsContent =
        Returns->>= IsContent (pure (get_str_arg args (lit "url"))) _
          λ url. Returns->>= IsContent (fetch_page U config url) _ λ page. parsed-IsContent _

  module _ (canonical_reason : ℕ → Option Text) where
    headers_of-IsContent :
        (url : U.Url) (resp : Response) → IsContent (headers_of U config canonical_reason url resp)
    unfolding headers_of
    headers_of-IsContent url resp = text_content-IsContent _

    after_head-IsContent :
        (hop : ℕ) (again : U.Url → Task U Value) (url : U.Url) (resp : Response)
        → ((next : U.Url) → Returns IsContent (again next))
        → Returns IsContent (after_head U config canonical_reason hop again url resp)
    unfolding after_head
    after_head-IsContent hop again url resp h =
        Runs-if (λ _. Unit {0}) (OnOk IsContent) resp.is_redirection _ _
          (λ _.
            Returns->>= IsContent (pure (location_of U config hop url resp.location)) _
              λ raw. Returns->>= IsContent (validate_url U raw config.allow_private_hosts) again h)
          (λ _. headers_of-IsContent url resp)

    head_from-IsContent :
        (start : Text) (rounds hop : ℕ) (url : U.Url)
        → Returns IsContent (head_from U config canonical_reason start rounds hop url)
    unfolding head_from
    head_from-IsContent start zero hop url = tt
    head_from-IsContent start (suc rounds) hop url =
        Returns->>= IsContent (client_for U config url) _ λ client.
          Returns->>= IsContent (head_request U config client url) _
            λ resp. after_head-IsContent hop _ url resp (head_from-IsContent start rounds (hop + 1))

    pub web_fetch_headers-IsContent :
        (args : Option Value) → Returns IsContent (web_fetch_headers U config canonical_reason args)
    unfolding web_fetch_headers head_started
    web_fetch_headers-IsContent args =
        Returns->>= IsContent (pure (get_str_arg args (lit "url"))) _ λ start.
          Returns->>= IsContent (validate_url U start config.allow_private_hosts) _
            (head_from-IsContent start (config.max_redirects + 1) 0)
