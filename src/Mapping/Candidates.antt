-- ===== src/Mapping/Candidates.antt =====
-- What the closure `consider` of `web_map` in src/actions/map.rs keeps.
use mcp_web_search.Scrape.Links.Once.{contains-append, distinct-append, distinct}
use mcp_web_search.Mapping.{
  matches, host_allowed_host, admitted, consider_all, consider, Found, host_of, Scope,
}
use mcp_web_search.Crates.{Crates}
use mcp_web_search.Net.{UrlLib}
use mcp_web_search.Base.{
  none, ◌∙◌, sym, All-append, length-append, text_eq, false, not, inr, ◌&&◌, true, inl, refl, leb,
  All, some, arith, ap, [], ◌∷◌, Bool-cases, Option, ◌<◌, ◌≤◌, ◌≡◌, length, ◌++◌, Bool, Text, List,
}
use mcp_web_search.Scrape.Links.{contains}

abbrev pub urls_of : List (Text × Bool) → List Text
urls_of [] = []
urls_of ((url, needs_dns) ∷ more) = url ∷ urls_of more

urls_of-append : (xs ys : List (Text × Bool)) → urls_of (xs ++ ys) ≡ urls_of xs ++ urls_of ys
urls_of-append [] ys = refl
urls_of-append ((url, needs_dns) ∷ xs) ys = ap (λ l. url ∷ l) (urls_of-append xs ys)

length-urls_of : (xs : List (Text × Bool)) → length (urls_of xs) ≡ length xs
length-urls_of [] = refl
length-urls_of ((url, needs_dns) ∷ xs) = omega (arith, length-urls_of xs)

module _ (U : UrlLib) (C : Crates) (scope : Scope) where
  -- A candidate: a URL with a host in scope, which the search text is in, and which is spared a DNS
  -- check only on the host of the start.
  abbrev pub IsCandidate : Text × Bool → Type 0
  IsCandidate (url, needs_dns) =
      (host : Text) × (host_of U C (U.parse url) ≡ some host)
      × (host_allowed_host host scope.base_host scope.include_subdomains ≡ true)
      × (matches U C scope.search url ≡ true)
      × (needs_dns ≡ not (text_eq host scope.base_host))

  pub record IsFound (st : Found) : Type 0 where
    pub within : length st.candidates ≤ scope.limit
    pub candidates : All IsCandidate st.candidates
    pub once : distinct (urls_of st.candidates) ≡ true
    pub same : (s : Text) → contains s st.seen ≡ contains s (urls_of st.candidates)

  added-IsFound :
      (url host : Text) (st : Found)
      → IsFound st
      → length st.candidates < scope.limit
      → host_of U C (U.parse url) ≡ some host
      → host_allowed_host host scope.base_host scope.include_subdomains ≡ true
      → matches U C scope.search url ≡ true
      → contains url st.seen ≡ false
      → IsFound (record {
        candidates = st.candidates ++ ((url, not (text_eq host scope.base_host)) ∷ []);
        seen = url ∷ st.seen;
      })
  added-IsFound url host st h room at allowed matching fresh = record {
    within =
        omega (arith, length-append st.candidates ((url, not (text_eq host scope.base_host)) ∷ []));
    candidates =
        All-append IsCandidate st.candidates _ h.candidates
          ((host, at, allowed, matching, refl), tt);
    once =
        rw (urls_of-append st.candidates ((url, not (text_eq host scope.base_host)) ∷ []))
          (distinct-append (urls_of st.candidates) url (sym (h.same url) ∙ fresh) h.once);
    same = λ s.
        rw (urls_of-append st.candidates ((url, not (text_eq host scope.base_host)) ∷ []))
          (ground (arith, h.same s, contains-append s (urls_of st.candidates) (url ∷ [])));
  }

  admitted-IsFound :
      (url : Text) (st : Found) (o : Option Text)
      → host_of U C (U.parse url) ≡ o
      → IsFound st
      → length st.candidates < scope.limit
      → IsFound (admitted U C scope url st o)
  admitted-IsFound url st none at h room = h
  admitted-IsFound url st (some host) at h room =
      elim (Bool-cases (
        host_allowed_host host scope.base_host scope.include_subdomains
        && matches U C scope.search url
        && not (contains url st.seen))) [
          | inl e ↦ rw e (
              added-IsFound url host st h room at (ground (arith, e)) (ground (arith, e))
                (ground (arith, e)))
          | inr e ↦ rw e h
        ]

  consider-IsFound : (url : Text) (st : Found) → IsFound st → IsFound (consider U C scope url st)
  unfolding consider
  consider-IsFound url st h = elim (Bool-cases (leb scope.limit (length st.candidates))) [
    | inl full ↦ rw full h
    | inr room ↦
        rw room (admitted-IsFound url st (host_of U C (U.parse url)) refl h (ground (arith, room)))
  ]

  pub consider_all-IsFound :
      (urls : List Text) (st : Found) → IsFound st → IsFound (consider_all U C scope urls st)
  unfolding consider_all
  consider_all-IsFound [] st h = h
  consider_all-IsFound (url ∷ more) st h =
      consider_all-IsFound more (consider U C scope url st) (consider-IsFound url st h)
