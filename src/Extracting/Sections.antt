-- ===== src/Extracting/Sections.antt =====
-- What `web_extract` of src/actions/extract.rs asks and returns.
use mcp_web_search.Validation.Vetted.{Vets-bind, Vets}
use mcp_web_search.Net.Concurrent.Each.{for_each-sends, for_each-Covers}
use mcp_web_search.Net.Concurrent.{for_each}
use mcp_web_search.Actions.Urls.{urls_given-bound}
use mcp_web_search.Actions.{text_content}
use mcp_web_search.Net.Concurrent.Laws.{Covers}
use mcp_web_search.Client.Bounds.{fetch_page-sends}
use mcp_web_search.Client.Safety.{fetch_page-IsSafe, IsFetched, IsSafe}
use mcp_web_search.Client.{fetch_page, FetchedPage}
use mcp_web_search.Net.Logic.{SendsAtMost-bind, SendsAtMost-weaken, SendsAtMost, OnOk}
use mcp_web_search.Errors.{to_string, WsResult}
use mcp_web_search.Config.{Config}
use mcp_web_search.Json.{Value}
use mcp_web_search.Crates.{awaited, Crates}
use mcp_web_search.Net.{ret, ◌>>=◌, pure, bind, UrlLib}
use mcp_web_search.Extracting.{
  separator, web_extract, converted, main_markdown, extracted, failed_section, extract_url,
  content_section, urls_given,
}
use mcp_web_search.Base.{
  join, ◌*◌, ◌<◌, List, refl, inl, arith, ok, inr, err, ◌≤◌, ◌+◌, length, ℕ, ◌⊎◌, Option, ◌≡◌, Text,
}

-- A section about `url`.
abbrev pub IsSection : Text → Text → Type 0
IsSection url section =
    ((md : Text) × (section ≡ content_section url md))
    ⊎ ((e : Text) × (section ≡ failed_section url e))

module _ (U : UrlLib) (C : Crates) (config : Config) where
  extracted-IsSection :
      (url : Text) (r : WsResult (FetchedPage U))
      → Vets (IsSafe U config) (IsSection url) (extracted U C config url r)
  extracted-IsSection url (err e) = inr (to_string e, refl)
  extracted-IsSection url (ok page) =
      elim (awaited (C.spawn_blocking (main_markdown U C config) page.body))
        as (λ r. IsSection url (converted url r)) [ ok md ↦ inl (md, refl) | err e ↦ inr (_, refl) ]

  extract_url-IsSection :
      (url : Text) → Vets (IsSafe U config) (IsSection url) (extract_url U C config url)
  unfolding extract_url
  extract_url-IsSection url =
      Vets-bind (IsSafe U config) (OnOk (IsFetched U config)) (IsSection url)
        (fetch_page U config url) _ (fetch_page-IsSafe U config url)
        (λ r _. extracted-IsSection url r)

  extracted-sends :
      (url : Text) (r : WsResult (FetchedPage U)) → SendsAtMost 0 (extracted U C config url r)
  extracted-sends url (err e) = tt
  extracted-sends url (ok page) = tt

  extract_url-sends :
      (url : Text) → SendsAtMost (config.max_redirects + 1) (extract_url U C config url)
  unfolding extract_url
  extract_url-sends url =
      SendsAtMost-weaken (config.max_redirects + 1 + 0) (config.max_redirects + 1) _ (omega arith) (
        SendsAtMost-bind (config.max_redirects + 1) 0 (fetch_page U config url) _
          (fetch_page-sends U config url) (extracted-sends url))

  -- A result of `web_extract`: one section for each of the URLs, in some order, joined.
  abbrev pub IsExtract : Option Value → Value → Type 0
  IsExtract args v =
      (urls : List Text) × (sections : List Text) × (urls_given args config.server.max_extract_urls
        ≡ ok urls)
      × Covers IsSection urls sections
      × (v ≡ text_content (join separator sections))

  -- The run after the list of URLs was read.
  sections-IsExtract :
      (schedule : List ℕ) (args : Option Value) (r : WsResult (List Text))
      → urls_given args config.server.max_extract_urls ≡ r
      → Vets (IsSafe U config) (OnOk (IsExtract args)) (
          pure r >>= λ urls.
          bind
            (for_each schedule (extract_url U C config) urls)
            (λ sections. ret (ok (text_content (join separator sections)))))
  unfolding bind
  sections-IsExtract schedule args (err e) given = tt
  sections-IsExtract schedule args (ok urls) given =
      Vets-bind (IsSafe U config) (Covers IsSection urls) (OnOk (IsExtract args))
        (for_each schedule (extract_url U C config) urls) _
        (for_each-Covers (IsSafe U config) IsSection schedule (extract_url U C config)
          extract_url-IsSection urls)
        (λ sections covers. (urls, sections, given, covers, refl))

  sections-sends :
      (schedule : List ℕ) (r : WsResult (List Text))
      → OnOk (λ urls. (length urls ≤ config.server.max_extract_urls) × (0 < length urls)) r
      → SendsAtMost (config.server.max_extract_urls * (config.max_redirects + 1)) (
          pure r >>= λ urls.
          bind
            (for_each schedule (extract_url U C config) urls)
            (λ sections. ret (ok (text_content (join separator sections)))))
  unfolding bind
  sections-sends schedule (err e) b = tt
  sections-sends schedule (ok urls) b =
      SendsAtMost-weaken (length urls * (config.max_redirects + 1) + 0)
        (config.server.max_extract_urls * (config.max_redirects + 1)) _ (grind arith)
        (SendsAtMost-bind (length urls * (config.max_redirects + 1)) 0
          (for_each schedule (extract_url U C config) urls) _
          (for_each-sends schedule (config.max_redirects + 1) (extract_url U C config)
            extract_url-sends urls)
          (λ _. tt))

  -- Whatever the network answers and in whatever order the pages are polled, `web_extract` returns
  -- one section for each of its URLs, of its content or of a failure, in some order; it sends at most `max_redirects + 1` requests for each of at most `max_extract_urls` URLs,
  -- all as safe as those of `fetch_page`.
  pub web_extract-IsExtract :
      (schedule : List ℕ) (args : Option Value)
      → Vets (IsSafe U config) (OnOk (IsExtract args)) (web_extract U C config schedule args)
        × SendsAtMost
            (config.server.max_extract_urls * (config.max_redirects + 1))
            (web_extract U C config schedule args)
  unfolding web_extract
  web_extract-IsExtract schedule args = (
    sections-IsExtract schedule args (urls_given args config.server.max_extract_urls) refl,
    sections-sends schedule (urls_given args config.server.max_extract_urls)
        (urls_given-bound args config.server.max_extract_urls),
  )
