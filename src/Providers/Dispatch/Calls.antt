-- ===== src/Providers/Dispatch/Calls.antt =====
-- What the backends of src/providers/ ask of the network, and how many results they return.
use mcp_web_search.Providers.Dispatch.Asks.{
  listed-Asks, checked-Asks, course-Asks, call_api-Asks, ok_or-Asks, call_json-Asks, endpoint_of,
  results_from-IsWithin, pure-Asks, IsCallTo, IsWithin, Asks,
}
use mcp_web_search.Providers.Zhipu.{search_zhipu}
use mcp_web_search.Providers.Tavily.{search_tavily}
use mcp_web_search.Providers.Exa.{search_exa}
use mcp_web_search.Providers.Bocha.{search_bocha}
use mcp_web_search.Providers.Searxng.{search_searxng}
use mcp_web_search.Providers.Google.{search_google}
use mcp_web_search.Providers.Bing.{search_bing}
use mcp_web_search.Providers.Dispatch.{search_provider}
use mcp_web_search.Crates.{Crates}
use mcp_web_search.Net.Logic.{SendsAtMost, OnOk, Runs}
use mcp_web_search.Providers.Duckduckgo.{search_duckduckgo, node_result, ResultNode, results_from}
use mcp_web_search.Providers.Call.{status_ok, key_given, query_given, parsed_json}
use mcp_web_search.Providers.Types.{SearchResult, SearchRequest}
use mcp_web_search.Base.{err, Result, lit, ok, refl, ◌≡◌, [], unwrap_or, List, Text, ℕ}
use mcp_web_search.Providers.Kind.{
  bocha, exa, zhipu, google, tavily, bing, duckduckgo, searxng, SearchProvider,
}
use mcp_web_search.Net.{UrlLib}
use mcp_web_search.Providers.Searxng
use mcp_web_search.Providers.Duckduckgo
use mcp_web_search.Providers.Bing
use mcp_web_search.Providers.Tavily
use mcp_web_search.Providers.Google
use mcp_web_search.Providers.Zhipu
use mcp_web_search.Providers.Exa
use mcp_web_search.Providers.Bocha

module _ (U : UrlLib) where
  search_google-Asks :
      (req : SearchRequest) → Asks U Google.endpoint 1 req.limit (search_google U req)
  unfolding search_google
  search_google-Asks req = pure-Asks U Google.endpoint 1 req.limit (query_given req) _ λ _.
      pure-Asks U Google.endpoint 1 req.limit (key_given (lit "Google") req) _ λ _.
        pure-Asks U Google.endpoint 1 req.limit (Google.cse_given req) _ λ cx.
          call_json-Asks U (lit "Google") req.limit (Google.request req cx) _
            λ body. checked-Asks U Google.endpoint _ _ req.limit Google.result

  search_searxng-Asks :
      (req : SearchRequest)
      → Asks U (Searxng.endpoint (unwrap_or req.api_url [])) 1 req.limit (search_searxng U req)
  unfolding search_searxng
  search_searxng-Asks req =
      let url = Searxng.endpoint (unwrap_or req.api_url []) in
      pure-Asks U url 1 req.limit (query_given req) _ λ _.
        ok_or-Asks U Searxng.endpoint 1 req.limit req.api_url _ _ λ base.
          call_api-Asks U (lit "SearXNG") req.limit (Searxng.request req base) _ λ resp.
            pure-Asks U (Searxng.endpoint base) 0 req.limit (status_ok (lit "SearXNG") resp) _ λ _.
              pure-Asks U (Searxng.endpoint base) 0 req.limit (parsed_json (lit "SearXNG") resp) _
                λ body. checked-Asks U (Searxng.endpoint base) _ _ req.limit Searxng.result

  module _ (C : Crates) where
    parsed_at :
        (limit : ℕ) (html : Text) (r : Result Text (List SearchResult))
        → ((rs : List SearchResult)
            → r ≡ ok rs
            → rs ≡ Duckduckgo.parse_results U C.spawn_blocking C.result_nodes limit html)
        → OnOk (IsWithin limit) (Duckduckgo.parsed r)
    unfolding Duckduckgo.parse_results
    parsed_at limit html (err e) h = tt
    parsed_at limit html (ok rs) h =
        rw (h rs refl) (results_from-IsWithin U limit (C.result_nodes html))

    parsed-IsWithin :
        (limit : ℕ) (html : Text)
        → OnOk (IsWithin limit) (
            Duckduckgo.parsed (
              C.spawn_blocking
                (Duckduckgo.parse_results U C.spawn_blocking C.result_nodes limit)
                html))
    parsed-IsWithin limit html = parsed_at limit html _ (λ rs e. C.spawn_blocking_eq _ html rs e)

    search_duckduckgo-Asks :
        (req : SearchRequest)
        → Asks U Duckduckgo.endpoint 1 req.limit
            (search_duckduckgo U C.spawn_blocking C.result_nodes req)
    unfolding search_duckduckgo
    search_duckduckgo-Asks req =
        pure-Asks U Duckduckgo.endpoint 1 req.limit (query_given req) _ λ _.
          call_api-Asks U (lit "DuckDuckGo") req.limit (Duckduckgo.request req) _ λ resp.
            pure-Asks U Duckduckgo.endpoint 0 req.limit (status_ok (lit "DuckDuckGo") resp) _ λ _.
              pure-Asks U Duckduckgo.endpoint 0 req.limit (Duckduckgo.read_text resp) _
                λ html. (parsed-IsWithin req.limit html, tt)

module _ (U : UrlLib) (C : Crates) where
  -- Whatever the network answers, a backend asks nothing but its own API, with one request at most,
  -- and returns at most as many results as were asked for.
  pub search_provider-IsCallTo :
      (kind : SearchProvider) (req : SearchRequest)
      → Runs
          (IsCallTo (endpoint_of kind req.api_url))
          (OnOk (IsWithin req.limit))
          (search_provider U C kind req)
        × SendsAtMost 1 (search_provider U C kind req)
  unfolding search_provider search_bing search_bocha search_exa search_tavily search_zhipu
  search_provider-IsCallTo searxng req = search_searxng-Asks U req
  search_provider-IsCallTo duckduckgo req = search_duckduckgo-Asks U C req
  search_provider-IsCallTo google req = search_google-Asks U req
  search_provider-IsCallTo bing req =
      course-Asks U (lit "Bing") req (Bing.request req) _
        (λ body. listed-Asks U Bing.endpoint _ req.limit Bing.result)
  search_provider-IsCallTo tavily req =
      course-Asks U (lit "Tavily") req (Tavily.request req) _
        (λ body. listed-Asks U Tavily.endpoint _ req.limit (Tavily.result C.score_text))
  search_provider-IsCallTo bocha req =
      course-Asks U (lit "Bocha") req (Bocha.request req) _
        (λ body. listed-Asks U Bocha.endpoint _ req.limit Bocha.result)
  search_provider-IsCallTo exa req =
      course-Asks U (lit "Exa") req (Exa.request req) _
        (λ body. checked-Asks U Exa.endpoint _ _ req.limit Exa.result)
  search_provider-IsCallTo zhipu req =
      course-Asks U (lit "Zhipu") req (Zhipu.request req) _
        (λ body. checked-Asks U Zhipu.endpoint _ _ req.limit Zhipu.result)
