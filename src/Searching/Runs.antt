-- ===== src/Searching/Runs.antt =====
-- The requests of src/actions/search.rs.
use mcp_web_search.Validation.Vetted.{
  Runs-Vets, Vets->>=, Vets-bind, Vets-pure, Vets-if, Vets-mono, Vets,
}
use mcp_web_search.Net.Concurrent.Each.{for_each-sends, for_each-Covers}
use mcp_web_search.Net.Concurrent.{for_each}
use mcp_web_search.Net.Concurrent.Laws.{Covers}
use mcp_web_search.Client.Bounds.{fetch_page-sends}
use mcp_web_search.Client.Safety.{fetch_page-IsSafe, IsFetched}
use mcp_web_search.Actions.{get_str_arg}
use mcp_web_search.Client.{fetch_page, FetchedPage}
use mcp_web_search.Errors.{WsResult}
use mcp_web_search.Providers.Dispatch.{search_provider}
use mcp_web_search.Searching.{
  scrape_limit, search_scraped, scraped_results, scraped, web_search_scrape, scrape_request,
  scrape_result, web_search, search_request, searched,
}
use mcp_web_search.Providers.Dispatch.Calls.{search_provider-IsCallTo}
use mcp_web_search.Providers.Dispatch.Asks.{endpoint_of, IsCallTo, IsWithin}
use mcp_web_search.Guarded.{Vets-IsGuarded, IsCallTo-IsGuarded, IsGuarded}
use mcp_web_search.Net.Logic.{
  SendsAtMost-bind, SendsAtMost-pure, SendsAtMost-weaken, SendsAtMost->>=, SendsAtMost-if,
  SendsAtMost, OnOk,
}
use mcp_web_search.Json.{Value}
use mcp_web_search.Base.{
  [], length-take, min, err, take, ◌∷◌, ok, lit, arith, ◌*◌, length, ◌+◌, ◌≤◌, ℕ, List, refl, subst,
  trim, is_empty, Text, ◌≡◌, Option,
}
use mcp_web_search.Providers.Types.{SearchResult, SearchRequest}
use mcp_web_search.Config.{Config}
use mcp_web_search.Crates.{Crates}
use mcp_web_search.Net.{UrlLib}

module _ (U : UrlLib) (C : Crates) (config : Config) where
  -- A search for the configured backend.
  search_provider-IsGuarded :
      (req : SearchRequest)
      → req.api_url ≡ config.api_url
      → Vets
          (IsGuarded U config)
          (OnOk (IsWithin req.limit))
          (search_provider U C config.provider req)
  search_provider-IsGuarded req e =
      Vets-mono (IsCallTo (endpoint_of config.provider config.api_url)) (IsGuarded U config)
        (OnOk (IsWithin req.limit)) (OnOk (IsWithin req.limit))
        (search_provider U C config.provider req) (IsCallTo-IsGuarded U config) (λ r h. h)
        (subst
          (λ o.
            Vets (IsCallTo (endpoint_of config.provider o)) (OnOk (IsWithin req.limit))
              (search_provider U C config.provider req))
          e
          (Runs-Vets (IsCallTo (endpoint_of config.provider req.api_url))
            (OnOk (IsWithin req.limit)) (search_provider U C config.provider req)
            (search_provider-IsCallTo U C config.provider req).0))

  searched-IsGuarded :
      (args : Option Value) (query : Text)
      → Vets (IsGuarded U config) (OnOk (λ _. Unit {0})) (searched U C config args query)
  unfolding search_request
  searched-IsGuarded args query =
      Vets-if (IsGuarded U config) (OnOk (λ _. Unit {0})) (is_empty (trim query)) _ _ (λ _. tt)
        λ _.
          Vets->>= (IsGuarded U config) (IsWithin (search_request args config query).limit)
            (λ _. Unit {0}) (search_provider U C config.provider (search_request args config query))
            _ (search_provider-IsGuarded (search_request args config query) refl) (λ resp _. tt)

  searched-sends :
      (args : Option Value) (query : Text) → SendsAtMost 1 (searched U C config args query)
  searched-sends args query = SendsAtMost-if 1 (is_empty (trim query)) _ _ tt (
      SendsAtMost->>= 1 0 1 (search_provider U C config.provider (search_request args config query))
        _ (omega arith)
        (search_provider-IsCallTo U C config.provider (search_request args config query)).1
        (λ _. tt))

  -- Whatever the network answers, `web_search` sends one request at most, to the API of the
  -- configured backend.
  pub web_search-IsGuarded :
      (args : Option Value)
      → Vets (IsGuarded U config) (OnOk (λ _. Unit {0})) (web_search U C config args)
        × SendsAtMost 1 (web_search U C config args)
  unfolding web_search
  web_search-IsGuarded args = (
    Vets-pure (IsGuarded U config) (λ _. Unit {0}) (get_str_arg args (lit "query")) _
        (searched-IsGuarded args),
    SendsAtMost-pure 1 (get_str_arg args (lit "query")) _ (searched-sends args),
  )

  scraped-Vets :
      (r : WsResult (FetchedPage U))
      → Vets (IsGuarded U config) (λ _. Unit {0}) (scraped U C config r)
  scraped-Vets (ok page) = tt
  scraped-Vets (err e) = tt

  scrape_result-IsGuarded :
      (r : SearchResult) → Vets (IsGuarded U config) (λ _. Unit {0}) (scrape_result U C config r)
  unfolding scrape_result
  scrape_result-IsGuarded r =
      Vets-bind (IsGuarded U config) (OnOk (IsFetched U config)) (λ _. Unit {0})
        (fetch_page U config r.url) _
        (Vets-IsGuarded U config _ (fetch_page U config r.url) (fetch_page-IsSafe U config r.url))
        (λ page _. scraped-Vets page)

  scraped-sends : (r : WsResult (FetchedPage U)) → SendsAtMost 0 (scraped U C config r)
  scraped-sends (ok page) = tt
  scraped-sends (err e) = tt

  scrape_result-sends :
      (r : SearchResult) → SendsAtMost (config.max_redirects + 1) (scrape_result U C config r)
  unfolding scrape_result
  scrape_result-sends r =
      SendsAtMost-weaken (config.max_redirects + 1 + 0) (config.max_redirects + 1) _ (omega arith) (
        SendsAtMost-bind (config.max_redirects + 1) 0 (fetch_page U config r.url) _
          (fetch_page-sends U config r.url) scraped-sends)

  scraped_results-IsGuarded :
      (schedule : List ℕ) (args : Option Value) (rs : List SearchResult)
      → Vets
          (IsGuarded U config)
          (OnOk (λ _. Unit {0}))
          (scraped_results U C config schedule args rs)
  scraped_results-IsGuarded schedule args [] = tt
  scraped_results-IsGuarded schedule args (r ∷ rs) =
      let n = min (length (r ∷ rs)) (scrape_limit args) in
      Vets-bind (IsGuarded U config) (Covers (λ _ _. Unit {0}) (take n (r ∷ rs)))
        (OnOk (λ _. Unit {0})) (for_each schedule (scrape_result U C config) (take n (r ∷ rs))) _
        (for_each-Covers (IsGuarded U config) (λ _ _. Unit {0}) schedule (scrape_result U C config)
          scrape_result-IsGuarded (take n (r ∷ rs)))
        (λ _ _. tt)

  taken_bound :
      (args : Option Value) (rs : List SearchResult)
      → length (take (min (length rs) (scrape_limit args)) rs) ≤ 10
  taken_bound args rs = omega (arith, length-take (min (length rs) (scrape_limit args)) rs)

  scraped_results-sends :
      (schedule : List ℕ) (args : Option Value) (rs : List SearchResult)
      → SendsAtMost (10 * (config.max_redirects + 1)) (scraped_results U C config schedule args rs)
  scraped_results-sends schedule args [] = tt
  scraped_results-sends schedule args (r ∷ rs) =
      let some_results = take (min (length (r ∷ rs)) (scrape_limit args)) (r ∷ rs) in
      SendsAtMost-weaken (length some_results * (config.max_redirects + 1) + 0)
        (10 * (config.max_redirects + 1)) _ (grind (arith, taken_bound args (r ∷ rs)))
        (SendsAtMost-bind (length some_results * (config.max_redirects + 1)) 0
          (for_each schedule (scrape_result U C config) some_results) _
          (for_each-sends schedule (config.max_redirects + 1) (scrape_result U C config)
            scrape_result-sends some_results)
          (λ _. tt))

  search_scraped-IsGuarded :
      (schedule : List ℕ) (args : Option Value) (query : Text)
      → Vets
          (IsGuarded U config)
          (OnOk (λ _. Unit {0}))
          (search_scraped U C config schedule args query)
  unfolding scrape_request
  search_scraped-IsGuarded schedule args query =
      Vets-if (IsGuarded U config) (OnOk (λ _. Unit {0})) (is_empty (trim query)) _ _ (λ _. tt)
        λ _.
          Vets->>= (IsGuarded U config) (IsWithin (scrape_request args config query).limit)
            (λ _. Unit {0}) (search_provider U C config.provider (scrape_request args config query))
            _ (search_provider-IsGuarded (scrape_request args config query) refl)
            (λ resp _. scraped_results-IsGuarded schedule args resp.results)

  search_scraped-sends :
      (schedule : List ℕ) (args : Option Value) (query : Text)
      → SendsAtMost
          (1 + 10 * (config.max_redirects + 1))
          (search_scraped U C config schedule args query)
  search_scraped-sends schedule args query =
      SendsAtMost-if (1 + 10 * (config.max_redirects + 1)) (is_empty (trim query)) _ _ tt (
        SendsAtMost->>= 1 (10 * (config.max_redirects + 1)) (1 + 10 * (config.max_redirects + 1))
          (search_provider U C config.provider (scrape_request args config query)) _ refl
          (search_provider-IsCallTo U C config.provider (scrape_request args config query)).1
          (λ resp. scraped_results-sends schedule args resp.results))

  -- Whatever the network answers and in whatever order the pages are polled, `web_search_scrape`
  -- sends at most `1 + 10 * (max_redirects + 1)` requests, to the API of the configured backend or
  -- as safe as those of `fetch_page`.
  pub web_search_scrape-IsGuarded :
      (schedule : List ℕ) (args : Option Value)
      → Vets
          (IsGuarded U config)
          (OnOk (λ _. Unit {0}))
          (web_search_scrape U C config schedule args)
        × SendsAtMost
            (1 + 10 * (config.max_redirects + 1))
            (web_search_scrape U C config schedule args)
  unfolding web_search_scrape
  web_search_scrape-IsGuarded schedule args = (
    Vets-pure (IsGuarded U config) (λ _. Unit {0}) (get_str_arg args (lit "query")) _
        (search_scraped-IsGuarded schedule args),
    SendsAtMost-pure (1 + 10 * (config.max_redirects + 1)) (get_str_arg args (lit "query")) _
        (search_scraped-sends schedule args),
  )

-- A search asks for 1 to 100 results, and with scraping for 1 to 20, and its level of safe search
-- is one of 0, 1 and 2.
pub search_request_bounds :
    (args : Option Value) (config : Config) (query : Text)
    → (1 ≤ (search_request args config query).limit)
      × ((search_request args config query).limit ≤ 100)
      × ((search_request args config query).safe_search ≤ 2)
      × (1 ≤ (scrape_request args config query).limit)
      × ((scrape_request args config query).limit ≤ 20)
      × ((scrape_request args config query).safe_search ≤ 2)
unfolding search_request scrape_request
search_request_bounds args config query =
    (omega arith, omega arith, omega arith, omega arith, omega arith, omega arith)
