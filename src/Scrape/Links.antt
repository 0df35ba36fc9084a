-- ===== src/Scrape/Links.antt =====
-- `collect_links` of src/actions/scrape.rs: the targets of the links of a document, each once. The
-- elements that `a[href]` selects are `scraper`'s to find; `hrefs` are their attributes in order.
pub mod Once
use mcp_web_search.Base.{
  if◌then◌else◌, ◌++◌, some, ok, ◌||◌, none, text_eq, err, false, [], ◌∷◌, Option, Bool, List,
  Result, Text,
}
use mcp_web_search.Net.{UrlLib}

-- Whether a `HashSet` of texts, here the list of what was inserted, holds a text.
abbrev pub contains : Text → List Text → Bool
contains s [] = false
contains s (t ∷ ts) = text_eq t s || contains s ts

-- The set and the list after a link that leads to this target: `seen.insert` and `out.push`.
unfoldable pub insert : Option Text → List Text → List Text → List Text × List Text
insert none seen out = (seen, out)
insert (some s) seen out = if contains s seen then (seen, out) else (s ∷ seen, out ++ (s ∷ []))

module _ (U : UrlLib) (base : U.Url) where
  -- The absolute target of a link, where it has one.
  abbrev pub absolute : Result Text U.Url → Option Text
  absolute (err e) = none
  absolute (ok url) = some (U.as_str url)

  -- The loop over the links.
  links_from : List Text → List Text → List Text → List Text
  links_from seen out [] = out
  links_from seen out (href ∷ hrefs) =
      let next = insert (absolute (U.join base href)) seen out in links_from next.0 next.1 hrefs

  unfoldable pub collect_links : List Text → List Text
  unfolding links_from
  collect_links hrefs = links_from [] [] hrefs
