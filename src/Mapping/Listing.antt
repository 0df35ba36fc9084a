-- ===== src/Mapping/Listing.antt =====
-- What `web_map` of src/actions/map.rs asks and returns.
use mcp_web_search.Validation.Vetted.{Vets->>=, Vets-pure, Vets-bind, Vets}
use mcp_web_search.Scrape.Links.{contains}
use mcp_web_search.Sitemap.{parse_sitemap_fast}
use mcp_web_search.Actions.{get_opt_bool, get_str_arg}
use mcp_web_search.Net.Concurrent.{tasks_for, buffered}
use mcp_web_search.Validation.{validate_url}
use mcp_web_search.Client.{fetch_page, FetchedPage}
use mcp_web_search.Mapping.Candidates.{consider_all-IsFound, urls_of, IsCandidate, IsFound}
use mcp_web_search.Scrape.Links.Once.{distinct}
use mcp_web_search.Client.Safety.{fetch_page-IsSafe, IsFetched, validate_url-IsSafe, IsSafe}
use mcp_web_search.Validation.Laws.{IsTarget}
use mcp_web_search.Net.Concurrent.Each.{buffered_for-Each, Each}
use mcp_web_search.Net.Logic.{OnOk}
use mcp_web_search.Json.{Value}
use mcp_web_search.Errors.{WsResult}
use mcp_web_search.Mapping.{
  links_pass, sitemap_pass, mapped_from, checked_listing, sitemap_at, from_links, from_sitemap,
  nothing_found, listing, kept, Found, scope_of, web_map, Scope, check_candidate,
}
use mcp_web_search.Base.{
  unwrap_or, ◌∷◌, [], none, some, true, false, ok, err, lit, refl, arith, Result, All, somes, ◌≤◌,
  ◌≡◌, ℕ, length, Bool, Option, List, Text,
}
use mcp_web_search.Config.{Config}
use mcp_web_search.Crates.{Crates}
use mcp_web_search.Net.{bind, Io, UrlLib}

module _ (U : UrlLib) (C : Crates) (config : Config) where
  -- What the check makes of a candidate: itself or nothing, and itself where no check is needed.
  abbrev pub IsChecked : Text × Bool → Option Text → Type 0
  IsChecked (url, needs_dns) none = needs_dns ≡ true
  IsChecked (url, needs_dns) (some kept_url) = kept_url ≡ url

  kept-IsChecked :
      (url : Text) (r : WsResult U.Url)
      → Vets (IsSafe U config) (IsChecked (url, true)) (kept U C config url r)
  kept-IsChecked url (ok _) = refl
  kept-IsChecked url (err e) = refl

  check_candidate-IsChecked :
      (c : Text × Bool) → Vets (IsSafe U config) (IsChecked c) (check_candidate U C config c)
  unfolding check_candidate
  check_candidate-IsChecked (url, true) =
      Vets-bind (IsSafe U config) (OnOk (IsTarget U config.allow_private_hosts))
        (IsChecked (url, true)) (validate_url U url config.allow_private_hosts) _
        (validate_url-IsSafe U config url) (λ r _. kept-IsChecked url r)
  check_candidate-IsChecked (url, false) = refl

  -- The URLs that are listed: candidates, each once, and no more than the limit.
  abbrev pub IsListing : Scope → List Text → Type 0
  IsListing scope urls =
      (length urls ≤ scope.limit)
      × (distinct urls ≡ true)
      × All (λ url. (needs_dns : Bool) × IsCandidate U C scope (url, needs_dns)) urls

  -- The URLs that are kept are some of the candidates.
  somes-contains :
      (cs : List (Text × Bool)) (out : List (Option Text))
      → Each IsChecked cs out
      → (s : Text) → contains s (urls_of cs) ≡ false
      → contains s (somes out) ≡ false
  somes-contains [] [] h s e = refl
  somes-contains [] (a ∷ as') h s e = elim h [ ]
  somes-contains (c ∷ cs) [] h s e = elim h [ ]
  somes-contains ((url, needs_dns) ∷ cs) (none ∷ out) h s e =
      somes-contains cs out h.1 s (ground (arith, e))
  somes-contains ((url, needs_dns) ∷ cs) (some u ∷ out) h s e =
      rw h.0 (ground (arith, e, somes-contains cs out h.1 s))

  somes-distinct :
      (cs : List (Text × Bool)) (out : List (Option Text))
      → Each IsChecked cs out
      → distinct (urls_of cs) ≡ true
      → distinct (somes out) ≡ true
  somes-distinct [] [] h e = refl
  somes-distinct [] (a ∷ as') h e = elim h [ ]
  somes-distinct (c ∷ cs) [] h e = elim h [ ]
  somes-distinct ((url, needs_dns) ∷ cs) (none ∷ out) h e =
      somes-distinct cs out h.1 (ground (arith, e))
  somes-distinct ((url, needs_dns) ∷ cs) (some u ∷ out) h e =
      rw h.0 (ground (arith, e, somes-distinct cs out h.1, somes-contains cs out h.1 url))

  somes-length :
      (cs : List (Text × Bool)) (out : List (Option Text))
      → Each IsChecked cs out
      → length (somes out) ≤ length cs
  somes-length [] [] h = omega arith
  somes-length [] (a ∷ as') h = elim h [ ]
  somes-length (c ∷ cs) [] h = elim h [ ]
  somes-length ((url, needs_dns) ∷ cs) (none ∷ out) h = omega (arith, somes-length cs out h.1)
  somes-length ((url, needs_dns) ∷ cs) (some u ∷ out) h = omega (arith, somes-length cs out h.1)

  somes-All :
      (scope : Scope) (cs : List (Text × Bool)) (out : List (Option Text))
      → Each IsChecked cs out
      → All (IsCandidate U C scope) cs
      → All (λ url. (needs_dns : Bool) × IsCandidate U C scope (url, needs_dns)) (somes out)
  somes-All scope [] [] h k = tt
  somes-All scope [] (a ∷ as') h k = elim h [ ]
  somes-All scope (c ∷ cs) [] h k = elim h [ ]
  somes-All scope ((url, needs_dns) ∷ cs) (none ∷ out) h k = somes-All scope cs out h.1 k.1
  somes-All scope ((url, needs_dns) ∷ cs) (some u ∷ out) h k =
      ((needs_dns, rw h.0 k.0), somes-All scope cs out h.1 k.1)

  -- A result of `web_map` for a start that was validated.
  abbrev pub IsMap : Option Value → Value → Type 0
  IsMap args v =
      (start : U.Url) × (urls : List Text) × IsTarget U config.allow_private_hosts start
      × IsListing (scope_of U C config args start) urls
      × (v ≡ listing U C config urls)

  module _ (args : Option Value) (start : U.Url)
      (target : IsTarget U config.allow_private_hosts start) where
    abbrev scope : Scope
    scope = scope_of U C config args start

    nothing-IsFound : IsFound U C scope (nothing_found U C config)
    nothing-IsFound = record {
      within = omega arith;
      candidates = tt;
      once = refl;
      same = λ s. refl;
    }

    fetched-Vets :
        (st : Found) (url : Text) (f : WsResult (FetchedPage U) → Io U Found)
        → ((r : WsResult (FetchedPage U)) → Vets (IsSafe U config) (IsFound U C scope) (f r))
        → Vets (IsSafe U config) (IsFound U C scope) (bind (fetch_page U config url) f)
    fetched-Vets st url f h =
        Vets-bind (IsSafe U config) (OnOk (IsFetched U config)) (IsFound U C scope)
          (fetch_page U config url) f (fetch_page-IsSafe U config url) (λ r _. h r)

    from_sitemap-IsFound :
        (st : Found)
        → IsFound U C scope st
        → (r : WsResult (FetchedPage U))
        → Vets (IsSafe U config) (IsFound U C scope) (from_sitemap U C config scope st r)
    from_sitemap-IsFound st h (err e) = h
    from_sitemap-IsFound st h (ok page) =
        consider_all-IsFound U C scope (parse_sitemap_fast (C.xml_events page.body)) st h

    from_links-IsFound :
        (st : Found)
        → IsFound U C scope st
        → (r : WsResult (FetchedPage U))
        → Vets (IsSafe U config) (IsFound U C scope) (from_links U C config scope st r)
    from_links-IsFound st h (err e) = h
    from_links-IsFound st h (ok page) = consider_all-IsFound U C scope _ st h

    sitemap_at-IsFound :
        (st : Found)
        → IsFound U C scope st
        → (r : Result Text U.Url)
        → Vets (IsSafe U config) (IsFound U C scope) (sitemap_at U C config scope st r)
    sitemap_at-IsFound st h (err e) = h
    sitemap_at-IsFound st h (ok origin) =
        fetched-Vets st (U.as_str origin) _ (from_sitemap-IsFound st h)

    checked-IsMap :
        (schedule : List ℕ) (st : Found)
        → IsFound U C scope st
        → Vets (IsSafe U config) (OnOk (IsMap args)) (checked_listing U C config schedule st)
    checked-IsMap schedule st h =
        Vets-bind (IsSafe U config) (Each IsChecked st.candidates) (OnOk (IsMap args))
          (buffered schedule (tasks_for (check_candidate U C config) st.candidates)) _
          (buffered_for-Each (IsSafe U config) IsChecked schedule (check_candidate U C config)
            check_candidate-IsChecked st.candidates)
          λ out each. (
            start,
            somes out,
            target,
            (
              omega (arith, h.within, somes-length st.candidates out each),
              somes-distinct st.candidates out each h.once,
              somes-All scope st.candidates out each h.candidates,
            ),
            refl,
          )

    sitemap_pass-IsFound :
        (ignored : Bool) (st : Found)
        → IsFound U C scope st
        → Vets
            (IsSafe U config)
            (IsFound U C scope)
            (sitemap_pass U C config ignored start scope st)
    sitemap_pass-IsFound true st h = h
    sitemap_pass-IsFound false st h = sitemap_at-IsFound st h (U.join start (lit "/sitemap.xml"))

    links_pass-IsFound :
        (left_out : Bool) (st : Found)
        → IsFound U C scope st
        → Vets (IsSafe U config) (IsFound U C scope) (links_pass U C config left_out start scope st)
    links_pass-IsFound true st h = h
    links_pass-IsFound false st h =
        fetched-Vets st (U.as_str start) (from_links U C config scope st) (from_links-IsFound st h)

    mapped_from-IsMap :
        (schedule : List ℕ)
        → Vets (IsSafe U config) (OnOk (IsMap args)) (mapped_from U C config schedule args start)
    mapped_from-IsMap schedule =
        let ignored = unwrap_or (get_opt_bool args (lit "ignoreSitemap")) false in
        let left_out = unwrap_or (get_opt_bool args (lit "sitemapOnly")) false in
        Vets-bind (IsSafe U config) (IsFound U C scope) (OnOk (IsMap args))
          (sitemap_pass U C config ignored start scope (nothing_found U C config)) _
          (sitemap_pass-IsFound ignored (nothing_found U C config) nothing-IsFound)
          λ st h.
            Vets-bind (IsSafe U config) (IsFound U C scope) (OnOk (IsMap args))
              (links_pass U C config left_out start scope st) (checked_listing U C config schedule)
              (links_pass-IsFound left_out st h) (checked-IsMap schedule)

  -- Whatever the network answers and in whatever order the candidates are polled, a list that
  -- `web_map` returns has at most `limit` URLs, none twice, each with a host in scope and with the
  -- search text in it. The start passed the guard, and every request is as safe as those of
  -- `fetch_page`.
  pub web_map-IsMap :
      (schedule : List ℕ) (args : Option Value)
      → Vets (IsSafe U config) (OnOk (IsMap args)) (web_map U C config schedule args)
  unfolding web_map
  web_map-IsMap schedule args =
      Vets-pure (IsSafe U config) (IsMap args) (get_str_arg args (lit "url")) _ λ raw.
        Vets->>= (IsSafe U config) (IsTarget U config.allow_private_hosts) (IsMap args)
          (validate_url U raw config.allow_private_hosts) _ (validate_url-IsSafe U config raw)
          (λ start target. mapped_from-IsMap args start target schedule)
