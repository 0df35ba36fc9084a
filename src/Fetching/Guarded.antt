-- ===== src/Fetching/Guarded.antt =====
-- The requests of the tools that fetch one page, in src/actions/.
use mcp_web_search.Validation.Vetted.{Vets-if, Vets->>=, Vets}
use mcp_web_search.Client.{fetch_page, client_for, location_of}
use mcp_web_search.Validation.{validate_url}
use mcp_web_search.Validation.Laws.{IsTarget}
use mcp_web_search.Actions.{get_str_arg}
use mcp_web_search.Net.Logic.{OnOk-Unit, OnOk, SendsAtMost, SendsAtMost-if, SendsAtMost->>=}
use mcp_web_search.Json.{Value}
use mcp_web_search.Scrape.Dom.{Nodes}
use mcp_web_search.Base.{lit, zero, suc, ℕ, ◌+◌, arith, Option, Result, Text}
use mcp_web_search.Config.{Config}
use mcp_web_search.Net.{ret, UrlLib, Client, Response, Task}
use mcp_web_search.Client.Safety.{
  IsSafe, IsFetched, IsClientFor, fetch_page-IsSafe, client_for-IsClientFor, validate_url-IsSafe,
}
use mcp_web_search.Client.Bounds.{client_for-sends, validate_url-sends}
use mcp_web_search.Fetching.{
  web_fetch, web_fetch_text, web_fetch_headers, head_from, head_started, head_request, after_head,
  head_received, parsed,
}

module _ (U : UrlLib) (config : Config) where
  module _ (spawn_blocking : (Text → Option Text) → Text → Result Text (Option Text))
      (parse_document : Text → Nodes) (collapse_whitespace : Text → Option Text) where
    -- Whatever the network answers, the requests of `web_fetch` and of `web_fetch_text` are as safe
    -- as those of `fetch_page`.
    pub web_fetch-IsSafe :
        (args : Option Value)
        → Vets
            (IsSafe U config)
            (OnOk (λ _. Unit {0}))
            (web_fetch U config spawn_blocking parse_document collapse_whitespace args)
          × Vets
              (IsSafe U config)
              (OnOk (λ _. Unit {0}))
              (web_fetch_text U config spawn_blocking parse_document collapse_whitespace args)
    unfolding web_fetch web_fetch_text
    web_fetch-IsSafe args = (
      Vets->>= (IsSafe U config) (λ _. Unit {0}) (λ _. Unit {0})
          (ret (get_str_arg args (lit "url"))) _ (OnOk-Unit (get_str_arg args (lit "url")))
          λ url _.
            Vets->>= (IsSafe U config) (IsFetched U config) (λ _. Unit {0})
              (fetch_page U config url) _ (fetch_page-IsSafe U config url)
              λ page _. OnOk-Unit (parsed _),
      Vets->>= (IsSafe U config) (λ _. Unit {0}) (λ _. Unit {0})
          (ret (get_str_arg args (lit "url"))) _ (OnOk-Unit (get_str_arg args (lit "url")))
          λ url _.
            Vets->>= (IsSafe U config) (IsFetched U config) (λ _. Unit {0})
              (fetch_page U config url) _ (fetch_page-IsSafe U config url)
              λ page _. OnOk-Unit (parsed _),
    )

  module _ (canonical_reason : ℕ → Option Text) where
    head_request-IsSafe :
        (client : Client) (url : U.Url)
        → IsTarget U config.allow_private_hosts url
        → IsClientFor U config (U.host url) client
        → Vets (IsSafe U config) (OnOk (λ _. Unit {0})) (head_request U config client url)
    unfolding head_request
    head_request-IsSafe client url t c =
        ((t, c), λ reply _. OnOk-Unit (head_received U config url reply))

    after_head-IsSafe :
        (hop : ℕ) (again : U.Url → Task U Value) (url : U.Url) (resp : Response)
        → ((next : U.Url)
            → IsTarget U config.allow_private_hosts next
            → Vets (IsSafe U config) (OnOk (λ _. Unit {0})) (again next))
        → Vets
            (IsSafe U config)
            (OnOk (λ _. Unit {0}))
            (after_head U config canonical_reason hop again url resp)
    unfolding after_head
    after_head-IsSafe hop again url resp h =
        Vets-if (IsSafe U config) (OnOk (λ _. Unit {0})) resp.is_redirection _ _
          (λ _.
            Vets->>= (IsSafe U config) (λ _. Unit {0}) (λ _. Unit {0})
              (ret (location_of U config hop url resp.location)) _
              (OnOk-Unit (location_of U config hop url resp.location))
              λ raw _.
                Vets->>= (IsSafe U config) (IsTarget U config.allow_private_hosts) (λ _. Unit {0})
                  (validate_url U raw config.allow_private_hosts) again
                  (validate_url-IsSafe U config raw) h)
          (λ _. tt)

    head_from-IsSafe :
        (start : Text) (rounds hop : ℕ) (url : U.Url)
        → IsTarget U config.allow_private_hosts url
        → Vets
            (IsSafe U config)
            (OnOk (λ _. Unit {0}))
            (head_from U config canonical_reason start rounds hop url)
    unfolding head_from
    head_from-IsSafe start zero hop url t = tt
    head_from-IsSafe start (suc rounds) hop url t =
        Vets->>= (IsSafe U config) (IsClientFor U config (U.host url)) (λ _. Unit {0})
          (client_for U config url) _ (client_for-IsClientFor U config url)
          λ client c.
            Vets->>= (IsSafe U config) (λ _. Unit {0}) (λ _. Unit {0})
              (head_request U config client url) _ (head_request-IsSafe client url t c)
              λ resp _.
                after_head-IsSafe hop (head_from U config canonical_reason start rounds (hop + 1))
                  url resp (head_from-IsSafe start rounds (hop + 1))

    after_head-sends :
        (n hop : ℕ) (again : U.Url → Task U Value) (url : U.Url) (resp : Response)
        → ((next : U.Url) → SendsAtMost n (again next))
        → SendsAtMost n (after_head U config canonical_reason hop again url resp)
    unfolding after_head
    after_head-sends n hop again url resp h =
        SendsAtMost-if n resp.is_redirection _ _
          (SendsAtMost->>= 0 n n (ret (location_of U config hop url resp.location)) _ (omega arith)
            tt
            λ raw.
              SendsAtMost->>= 0 n n (validate_url U raw config.allow_private_hosts) again
                (omega arith) (validate_url-sends U raw config.allow_private_hosts) h)
          tt

    head_request-sends :
        (client : Client) (url : U.Url) → SendsAtMost 1 (head_request U config client url)
    unfolding head_request
    head_request-sends client url = (omega arith, λ _. tt)

    head_from-sends :
        (start : Text) (rounds hop : ℕ) (url : U.Url)
        → SendsAtMost rounds (head_from U config canonical_reason start rounds hop url)
    unfolding head_from
    head_from-sends start zero hop url = tt
    head_from-sends start (suc rounds) hop url =
        SendsAtMost->>= 0 (suc rounds) (suc rounds) (client_for U config url) _ (omega arith)
          (client_for-sends U config url)
          λ client.
            SendsAtMost->>= 1 rounds (suc rounds) (head_request U config client url) _ (omega arith)
              (head_request-sends client url)
              λ resp.
                after_head-sends rounds hop
                  (head_from U config canonical_reason start rounds (hop + 1)) url resp
                  (head_from-sends start rounds (hop + 1))

    head_started-sends :
        (start : Text)
        → SendsAtMost (config.max_redirects + 1) (head_started U config canonical_reason start)
    unfolding head_started
    head_started-sends start =
        SendsAtMost->>= 0 (config.max_redirects + 1) (config.max_redirects + 1)
          (validate_url U start config.allow_private_hosts) _ (omega arith)
          (validate_url-sends U start config.allow_private_hosts)
          (head_from-sends start (config.max_redirects + 1) 0)

    head_started-IsSafe :
        (start : Text)
        → Vets
            (IsSafe U config)
            (OnOk (λ _. Unit {0}))
            (head_started U config canonical_reason start)
    unfolding head_started
    head_started-IsSafe start =
        Vets->>= (IsSafe U config) (IsTarget U config.allow_private_hosts) (λ _. Unit {0})
          (validate_url U start config.allow_private_hosts) _ (validate_url-IsSafe U config start)
          (head_from-IsSafe start (config.max_redirects + 1) 0)

    -- Whatever the network answers, `web_fetch_headers` sends at most `max_redirects + 1` requests,
    -- each as safe as those of `fetch_page`, after a redirect too.
    pub web_fetch_headers-IsSafe :
        (args : Option Value)
        → Vets
            (IsSafe U config)
            (OnOk (λ _. Unit {0}))
            (web_fetch_headers U config canonical_reason args)
          × SendsAtMost
              (config.max_redirects + 1)
              (web_fetch_headers U config canonical_reason args)
    unfolding web_fetch_headers
    web_fetch_headers-IsSafe args = (
      Vets->>= (IsSafe U config) (λ _. Unit {0}) (λ _. Unit {0})
          (ret (get_str_arg args (lit "url"))) _ (OnOk-Unit (get_str_arg args (lit "url")))
          λ start _. head_started-IsSafe start,
      SendsAtMost->>= 0 (config.max_redirects + 1) (config.max_redirects + 1)
          (ret (get_str_arg args (lit "url"))) _ (omega arith) tt head_started-sends,
    )
