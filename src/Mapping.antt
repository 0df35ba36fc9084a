-- ===== src/Mapping.antt =====
-- `web_map` of src/actions/map.rs.
pub mod Candidates
pub mod Listing
use mcp_web_search.Net.Concurrent.{tasks_for, buffered}
use mcp_web_search.Validation.{validate_url}
use mcp_web_search.Scrape.Links.{contains, collect_links}
use mcp_web_search.Sitemap.{parse_sitemap_fast}
use mcp_web_search.Actions.{get_opt_usize, get_opt_str, get_str_arg, get_opt_bool, text_content}
use mcp_web_search.Client.{fetch_page, FetchedPage}
use mcp_web_search.Json.{Value}
use mcp_web_search.Errors.{WsResult}
use mcp_web_search.Config.{Config}
use mcp_web_search.Crates.{Crates}
use mcp_web_search.Net.{pure, ◌>>=◌, Task, bind, ret, Io, UrlLib}
use mcp_web_search.Base.{
  min, somes, and_then, false, join, lit, not, ◌++◌, unwrap_or, ok, length, none, ◌&&◌, [], leb,
  some, true, err, ℕ, ◌||◌, reverse, ◌∷◌, if◌then◌else◌, Result, Option, text_eq, starts_with, Bool,
  Text, List,
}

-- `candidates`, each with whether it needs a DNS check, and `seen`.
pub record Found : Type 0 where
  pub candidates : List (Text × Bool)
  pub seen : List Text

unfoldable pub ends_with : Text → Text → Bool
ends_with suffix s = starts_with (reverse suffix) (reverse s)

-- `str::contains`
unfoldable pub has_text : Text → Text → Bool
has_text f [] = starts_with f []
has_text f (b ∷ bs) = starts_with f (b ∷ bs) || has_text f bs

unfoldable pub host_allowed_host : Text → Text → Bool → Bool
host_allowed_host host base_host include_subdomains =
    text_eq host base_host || include_subdomains && ends_with ((0x2E ∷ []) ++ base_host) host

-- The pages and the filters of a call.
pub record Scope : Type 0 where
  pub base_host : Text
  pub include_subdomains : Bool
  pub search : Option Text
  pub limit : ℕ

module _ (U : UrlLib) (C : Crates) where
  abbrev pub host_of : Result Text U.Url → Option Text
  host_of (err e) = none
  host_of (ok url) = U.host_str url

  abbrev pub matches : Option Text → Text → Bool
  matches none url = true
  matches (some f) url = has_text f (C.to_lowercase url)

  -- The end of the closure `consider`, for a URL with this host.
  abbrev pub admitted : Scope → Text → Found → Option Text → Found
  admitted scope url st none = st
  admitted scope url st (some host) =
      if host_allowed_host host scope.base_host scope.include_subdomains
        && matches scope.search url
        && not (contains url st.seen)
      then record {
        candidates = st.candidates ++ ((url, not (text_eq host scope.base_host)) ∷ []);
        seen = url ∷ st.seen;
      }
      else st

  unfoldable pub consider : Scope → Text → Found → Found
  consider scope url st =
      if leb scope.limit (length st.candidates)
      then st
      else admitted scope url st (host_of (U.parse url))

  unfoldable pub consider_all : Scope → List Text → Found → Found
  consider_all scope [] st = st
  consider_all scope (url ∷ more) st = consider_all scope more (consider scope url st)

  module _ (config : Config) where
    -- What a page that was fetched adds; a failure adds nothing.
    abbrev pub from_sitemap : Scope → Found → WsResult (FetchedPage U) → Io U Found
    from_sitemap scope st (err e) = ret st
    from_sitemap scope st (ok page) =
        ret (consider_all scope (parse_sitemap_fast (C.xml_events page.body)) st)

    abbrev pub from_links : Scope → Found → WsResult (FetchedPage U) → Io U Found
    from_links scope st (err e) = ret st
    from_links scope st (ok page) = ret (
        consider_all scope (collect_links U page.final_url (C.hrefs (C.parse_document page.body)))
          st)

    abbrev pub sitemap_at : Scope → Found → Result Text U.Url → Io U Found
    sitemap_at scope st (err e) = ret st
    sitemap_at scope st (ok origin) =
        bind (fetch_page U config (U.as_str origin)) (from_sitemap scope st)

    -- The two passes, unless the arguments leave them out.
    abbrev pub sitemap_pass : Bool → U.Url → Scope → Found → Io U Found
    sitemap_pass ignore_sitemap start scope st =
        if ignore_sitemap then ret st else sitemap_at scope st (U.join start (lit "/sitemap.xml"))

    abbrev pub links_pass : Bool → U.Url → Scope → Found → Io U Found
    links_pass sitemap_only start scope st =
        if sitemap_only
        then ret st
        else bind (fetch_page U config (U.as_str start)) (from_links scope st)

    -- The check of one candidate.
    abbrev pub kept : Text → WsResult U.Url → Io U (Option Text)
    kept url (ok _) = ret (some url)
    kept url (err e) = ret none

    unfoldable pub check_candidate : Text × Bool → Io U (Option Text)
    check_candidate (url, needs_dns) =
        if needs_dns
        then bind (validate_url U url config.allow_private_hosts) (kept url)
        else ret (some url)

    abbrev pub listing : List Text → Value
    listing [] = text_content (lit "No URLs discovered.")
    listing (url ∷ urls) = text_content (join (lit "\n") (url ∷ urls))

    abbrev pub scope_of : Option Value → U.Url → Scope
    scope_of args start = record {
      base_host = unwrap_or (U.host_str start) [];
      include_subdomains = unwrap_or (get_opt_bool args (lit "includeSubdomains")) false;
      search = and_then (get_opt_str args (lit "search")) (λ s. some (C.to_lowercase s));
      limit =
          min (unwrap_or (get_opt_usize args (lit "limit")) config.server.max_map_urls)
            config.server.max_map_urls;
    }

    abbrev pub nothing_found : Found
    nothing_found = record { candidates = []; seen = [] }

    abbrev pub checked_listing : List ℕ → Found → Task U Value
    checked_listing schedule st =
        bind (buffered schedule (tasks_for check_candidate st.candidates))
          (λ out. ret (ok (listing (somes out))))

    abbrev pub mapped_from : List ℕ → Option Value → U.Url → Task U Value
    mapped_from schedule args start =
        let scope = scope_of args start in
        bind
          (sitemap_pass (unwrap_or (get_opt_bool args (lit "ignoreSitemap")) false) start scope
            nothing_found)
          (λ st.
            bind
              (links_pass (unwrap_or (get_opt_bool args (lit "sitemapOnly")) false) start scope st)
              (checked_listing schedule))

    unfoldable pub web_map : List ℕ → Option Value → Task U Value
    web_map schedule args = do
      start ← pure (get_str_arg args (lit "url"))
      start_url ← validate_url U start config.allow_private_hosts
      mapped_from schedule args start_url
