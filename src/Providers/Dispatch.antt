-- ===== src/Providers/Dispatch.antt =====
-- src/providers/mod.rs: the backend that is configured.
use mcp_web_search.Providers.Bocha.{search_bocha}
use mcp_web_search.Providers.Exa.{search_exa}
use mcp_web_search.Providers.Zhipu.{search_zhipu}
use mcp_web_search.Providers.Google.{search_google}
use mcp_web_search.Providers.Tavily.{search_tavily}
use mcp_web_search.Providers.Bing.{search_bing}
use mcp_web_search.Providers.Duckduckgo.{search_duckduckgo}
use mcp_web_search.Providers.Searxng.{search_searxng}
use mcp_web_search.Providers.Types.{SearchResponse, SearchRequest}
use mcp_web_search.Providers.Kind.{
  bocha, exa, zhipu, google, tavily, bing, duckduckgo, searxng, SearchProvider,
}
use mcp_web_search.Crates.{Crates}
use mcp_web_search.Net.{Task, UrlLib}
pub mod Asks
pub mod Calls
pub mod Keys

module _ (U : UrlLib) (C : Crates) where
  unfoldable pub search_provider : SearchProvider → SearchRequest → Task U SearchResponse
  search_provider searxng req = search_searxng U req
  search_provider duckduckgo req = search_duckduckgo U C.spawn_blocking C.result_nodes req
  search_provider bing req = search_bing U req
  search_provider tavily req = search_tavily C.score_text U req
  search_provider google req = search_google U req
  search_provider zhipu req = search_zhipu U req
  search_provider exa req = search_exa U req
  search_provider bocha req = search_bocha U req
