-- ===== src/Scraping/Requests.antt =====
-- The requests of `web_scrape` of src/actions/scrape.rs.
use mcp_web_search.Validation.Vetted.{Vets->>=, Vets-pure, Vets}
use mcp_web_search.Client.Bounds.{fetch_page-sends}
use mcp_web_search.Client.{fetch_page}
use mcp_web_search.Actions.{get_str_arg}
use mcp_web_search.Client.Safety.{fetch_page-IsSafe, IsFetched, IsSafe}
use mcp_web_search.Net.Logic.{SendsAtMost->>=, SendsAtMost-pure, OnOk-Unit, SendsAtMost, OnOk}
use mcp_web_search.Json.{Value}
use mcp_web_search.Base.{arith, lit, ◌+◌, Option}
use mcp_web_search.Scraping.{joined_sections, scrape_formats, checked_formats, web_scrape}
use mcp_web_search.Config.{Config}
use mcp_web_search.Crates.{Crates}
use mcp_web_search.Net.{UrlLib}

module _ (U : UrlLib) (C : Crates) (config : Config) where
  -- Whatever the network answers, `web_scrape` sends at most `max_redirects + 1` requests, each as
  -- safe as those of `fetch_page`.
  pub web_scrape-IsSafe :
      (args : Option Value)
      → Vets (IsSafe U config) (OnOk (λ _. Unit {0})) (web_scrape U C config args)
        × SendsAtMost (config.max_redirects + 1) (web_scrape U C config args)
  unfolding web_scrape
  web_scrape-IsSafe args = (
    Vets-pure (IsSafe U config) (λ _. Unit {0}) (get_str_arg args (lit "url")) _
        λ url.
          Vets-pure (IsSafe U config) (λ _. Unit {0}) (checked_formats (scrape_formats U C args)) _
            λ _.
              Vets->>= (IsSafe U config) (IsFetched U config) (λ _. Unit {0})
                (fetch_page U config url) _ (fetch_page-IsSafe U config url)
                (λ page _. OnOk-Unit (joined_sections U C _)),
    SendsAtMost-pure (config.max_redirects + 1) (get_str_arg args (lit "url")) _ λ url.
        SendsAtMost-pure (config.max_redirects + 1) (checked_formats (scrape_formats U C args)) _
          λ _.
            SendsAtMost->>= (config.max_redirects + 1) 0 (config.max_redirects + 1)
              (fetch_page U config url) _ (omega arith) (fetch_page-sends U config url) (λ _. tt),
  )
