-- ===== src/Fetching/Links.antt =====
-- `web_check_links` of src/actions/fetch.rs.
use mcp_web_search.Validation.Vetted.{Vets-bind, Vets}
use mcp_web_search.Net.Concurrent.Each.{for_each-sends, for_each-Covers}
use mcp_web_search.Actions.{text_content}
use mcp_web_search.Net.Concurrent.Laws.{Covers}
use mcp_web_search.Fetching.Reach.{check_one_link-IsSafe, IsAbout, check_one_link}
use mcp_web_search.Net.Concurrent.{for_each}
use mcp_web_search.Client.Safety.{IsSafe}
use mcp_web_search.Actions.Urls.{urls_given-bound, urls_given}
use mcp_web_search.Net.Logic.{SendsAtMost-bind, SendsAtMost-weaken, SendsAtMost, OnOk}
use mcp_web_search.Errors.{WsResult}
use mcp_web_search.Json.{Value}
use mcp_web_search.Base.{
  arith, ◌+◌, ◌*◌, refl, err, lit, join, ◌<◌, ◌≤◌, ok, length, ◌≡◌, Text, ℕ, Option, List,
}
use mcp_web_search.Config.{Config}
use mcp_web_search.Crates.{Crates}
use mcp_web_search.Net.{ret, pure, ◌>>=◌, Task, bind, UrlLib}

module _ (U : UrlLib) (C : Crates) (config : Config) where
  unfoldable pub web_check_links : List ℕ → Option Value → Task U Value
  web_check_links schedule args = do
    urls ← pure (urls_given args config.server.max_extract_urls)
    bind (for_each schedule (check_one_link U config C.canonical_reason) urls)
        (λ lines. ret (ok (text_content (join (lit "\n") lines))))

  -- A result: one line for each of the URLs, in some order.
  abbrev pub IsReport : Option Value → Value → Type 0
  IsReport args v =
      (urls : List Text) × (lines : List Text) × (urls_given args config.server.max_extract_urls
        ≡ ok urls)
      × Covers (IsAbout U config C.canonical_reason) urls lines
      × (v ≡ text_content (join (lit "\n") lines))

  lines-IsReport :
      (schedule : List ℕ) (args : Option Value) (r : WsResult (List Text))
      → urls_given args config.server.max_extract_urls ≡ r
      → Vets (IsSafe U config) (OnOk (IsReport args)) (
          pure r >>= λ urls.
          bind
            (for_each schedule (check_one_link U config C.canonical_reason) urls)
            (λ lines. ret (ok (text_content (join (lit "\n") lines)))))
  unfolding bind
  lines-IsReport schedule args (err e) given = tt
  lines-IsReport schedule args (ok urls) given =
      Vets-bind (IsSafe U config) (Covers (IsAbout U config C.canonical_reason) urls)
        (OnOk (IsReport args)) (for_each schedule (check_one_link U config C.canonical_reason) urls)
        _
        (for_each-Covers (IsSafe U config) (IsAbout U config C.canonical_reason) schedule
          (check_one_link U config C.canonical_reason)
          (λ url. (check_one_link-IsSafe U config C.canonical_reason url).0) urls)
        (λ lines covers. (urls, lines, given, covers, refl))

  lines-sends :
      (schedule : List ℕ) (r : WsResult (List Text))
      → OnOk (λ urls. (length urls ≤ config.server.max_extract_urls) × (0 < length urls)) r
      → SendsAtMost config.server.max_extract_urls (
          pure r >>= λ urls.
          bind
            (for_each schedule (check_one_link U config C.canonical_reason) urls)
            (λ lines. ret (ok (text_content (join (lit "\n") lines)))))
  unfolding bind
  lines-sends schedule (err e) b = tt
  lines-sends schedule (ok urls) b =
      SendsAtMost-weaken (length urls * 1 + 0) config.server.max_extract_urls _ (grind arith) (
        SendsAtMost-bind (length urls * 1) 0
          (for_each schedule (check_one_link U config C.canonical_reason) urls) _
          (for_each-sends schedule 1 (check_one_link U config C.canonical_reason)
            (λ url. (check_one_link-IsSafe U config C.canonical_reason url).1) urls)
          (λ _. tt))

  -- Whatever the network answers and in whatever order the links are polled, `web_check_links`
  -- returns one line for each of its URLs and sends at most one request for each of at most
  -- `max_extract_urls` URLs, as safe as those of `fetch_page`.
  pub web_check_links-IsReport :
      (schedule : List ℕ) (args : Option Value)
      → Vets (IsSafe U config) (OnOk (IsReport args)) (web_check_links schedule args)
        × SendsAtMost config.server.max_extract_urls (web_check_links schedule args)
  unfolding web_check_links
  web_check_links-IsReport schedule args = (
    lines-IsReport schedule args (urls_given args config.server.max_extract_urls) refl,
    lines-sends schedule (urls_given args config.server.max_extract_urls)
        (urls_given-bound args config.server.max_extract_urls),
  )
