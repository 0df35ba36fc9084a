-- ===== src/Providers/Dispatch/Keys.antt =====
-- Which backends of src/providers/ insist on an API key, against `requires_api_key` of
-- src/config.rs.
use mcp_web_search.Providers.Kind.{duckduckgo, searxng, requires_api_key, SearchProvider}
use mcp_web_search.Providers.Call.{call_api, call_json}
use mcp_web_search.Providers.Duckduckgo.{search_duckduckgo}
use mcp_web_search.Providers.Searxng.{search_searxng}
use mcp_web_search.Providers.Google.{search_google}
use mcp_web_search.Providers.Zhipu.{search_zhipu}
use mcp_web_search.Providers.Tavily.{search_tavily}
use mcp_web_search.Providers.Exa.{search_exa}
use mcp_web_search.Providers.Bocha.{search_bocha}
use mcp_web_search.Providers.Bing.{search_bing}
use mcp_web_search.Providers.Dispatch.{search_provider}
use mcp_web_search.Errors.{config_error}
use mcp_web_search.Providers.Types.{SearchRequest}
use mcp_web_search.Base.{refl, some, false, ◌≡◌, true, trim, is_empty, err, Text, Bool}
use mcp_web_search.Crates.{Crates}
use mcp_web_search.Net.{bind, ask, ret, Task, UrlLib}

-- Ends at once with an error of the configuration.
abbrev pub is_refused : {U : UrlLib} {A : Type 0} → Task U A → Bool
is_refused (ret (err (config_error m))) = true
is_refused (ret r) = false
is_refused (ask q k) = false

module _ (U : UrlLib) (C : Crates) (req : SearchRequest) (cx : Text)
    (given : is_empty (trim req.query) ≡ false) (unkeyed : is_empty req.api_key ≡ true)
    (located : req.api_url ≡ some cx) where
  -- A search with a query that is not blank, with an API URL and with no key is refused before
  -- anything is asked of the network exactly by the backends that are said to require a key.
  pub search_provider-requires_api_key :
      (kind : SearchProvider) → is_refused (search_provider U C kind req) ≡ requires_api_key kind
  unfolding search_provider search_bing search_bocha search_exa search_tavily search_zhipu
      search_google search_searxng search_duckduckgo call_json call_api bind
  search_provider-requires_api_key searxng = rw (given, located) refl
  search_provider-requires_api_key duckduckgo = rw given refl
  search_provider-requires_api_key kind = rw (given, unkeyed) refl
