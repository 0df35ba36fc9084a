-- ===== src/Sitemap/Fetched.antt =====
-- `web_sitemap` of src/actions/fetch.rs.
use mcp_web_search.Validation.Vetted.{Vets-bind, Vets->>=, Vets-pure, Vets}
use mcp_web_search.Client.Bounds.{fetch_page-sends, validate_url-sends}
use mcp_web_search.Validation.Laws.{IsTarget}
use mcp_web_search.Sitemap.Reading.{read_sitemap}
use mcp_web_search.Validation.{validate_url}
use mcp_web_search.Actions.{get_str_arg, text_content, get_opt_usize}
use mcp_web_search.Client.Safety.{fetch_page-IsSafe, IsFetched, validate_url-IsSafe, IsSafe}
use mcp_web_search.Net.Logic.{
  SendsAtMost-bind, SendsAtMost-weaken, SendsAtMost->>=, SendsAtMost-pure, OnOk-Unit, SendsAtMost,
  OnOk,
}
use mcp_web_search.Client.{fetch_page, FetchedPage}
use mcp_web_search.Json.{Value}
use mcp_web_search.Errors.{provider_error, to_string, http_error, WsResult}
use mcp_web_search.Config.{Config}
use mcp_web_search.Crates.{Crates}
use mcp_web_search.Net.{ret, bind, pure, ◌>>=◌, Task, UrlLib}
use mcp_web_search.Base.{
  arith, ◌+◌, ◌++◌, ok, unwrap_or, err, min, map_err, [], try, join, ℕ, Option, ◌∷◌, lit, Text,
  List,
}

abbrev pub sitemap_text : List Text → Text
sitemap_text [] = lit "No URLs found in sitemap"
sitemap_text (url ∷ urls) = join (lit "\n") (url ∷ urls)

module _ (U : UrlLib) (C : Crates) (config : Config) where
  -- The URL of the sitemap, from the origin of the start.
  abbrev pub sitemap_url : U.Url → WsResult U.Url
  sitemap_url start =
      try (map_err (λ _. http_error (lit "invalid origin URL")) (U.parse (U.origin start)))
        (λ origin.
          map_err (λ _. http_error (lit "invalid sitemap URL"))
            (U.join origin (lit "/sitemap.xml")))

  abbrev pub sitemap_limit : Option Value → ℕ
  sitemap_limit args =
      min (unwrap_or (get_opt_usize args (lit "limit")) config.server.max_map_urls)
        config.server.max_map_urls

  abbrev pub read_page : ℕ → WsResult (FetchedPage U) → WsResult Value
  read_page limit (err e) = ok (text_content (lit "Failed to fetch sitemap: " ++ to_string e))
  read_page limit (ok page) =
      try
        (map_err (λ e. provider_error (lit "sitemap parse task failed: " ++ e))
          (C.spawn_blocking (λ body. sitemap_text (read_sitemap limit (C.xml_events body)))
            page.body))
        (λ text. ok (text_content text))

  unfoldable pub web_sitemap : Option Value → Task U Value
  web_sitemap args = do
    raw ← pure (get_str_arg args (lit "url"))
    start ← validate_url U raw config.allow_private_hosts
    url ← pure (sitemap_url start)
    bind (fetch_page U config (U.as_str url)) (λ r. ret (read_page (sitemap_limit args) r))

  -- Whatever the network answers, `web_sitemap` sends at most `max_redirects + 1` requests, each as
  -- safe as those of `fetch_page`.
  pub web_sitemap-IsSafe :
      (args : Option Value)
      → Vets (IsSafe U config) (OnOk (λ _. Unit {0})) (web_sitemap args)
        × SendsAtMost (config.max_redirects + 1) (web_sitemap args)
  unfolding web_sitemap
  web_sitemap-IsSafe args = (
    Vets-pure (IsSafe U config) (λ _. Unit {0}) (get_str_arg args (lit "url")) _
        λ raw.
          Vets->>= (IsSafe U config) (IsTarget U config.allow_private_hosts) (λ _. Unit {0})
            (validate_url U raw config.allow_private_hosts) _ (validate_url-IsSafe U config raw)
            λ start _.
              Vets-pure (IsSafe U config) (λ _. Unit {0}) (sitemap_url start) _
                λ url.
                  Vets-bind (IsSafe U config) (OnOk (IsFetched U config)) (OnOk (λ _. Unit {0}))
                    (fetch_page U config (U.as_str url)) _
                    (fetch_page-IsSafe U config (U.as_str url))
                    λ r _. OnOk-Unit (read_page (sitemap_limit args) r),
    SendsAtMost-pure (config.max_redirects + 1) (get_str_arg args (lit "url")) _ λ raw.
        SendsAtMost->>= 0 (config.max_redirects + 1) (config.max_redirects + 1)
          (validate_url U raw config.allow_private_hosts) _ (omega arith)
          (validate_url-sends U raw config.allow_private_hosts)
          λ start. SendsAtMost-pure (config.max_redirects + 1) (sitemap_url start) _ λ url.
            SendsAtMost-weaken (config.max_redirects + 1 + 0) (config.max_redirects + 1) _
              (omega arith)
              (SendsAtMost-bind (config.max_redirects + 1) 0 (fetch_page U config (U.as_str url)) _
                (fetch_page-sends U config (U.as_str url)) (λ _. tt)),
  )
