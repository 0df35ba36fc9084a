-- ===== src/Sitemap.antt =====
-- `parse_sitemap_fast` of src/actions/map.rs, over the events of the crate `quick_xml`.
pub mod Locs
pub mod Reading
pub mod Fetched
use mcp_web_search.Base.{
  true, false, none, some, [], ◌∷◌, ◌++◌, is_empty, lit, text_eq, trim, Bool, List, Option, Text,
  if◌then◌else◌,
}

-- An event of the reader; the text of `characters` is unescaped, where that succeeds. `stopped` is
-- the end of the input or an error, `otherwise` any other event.
pub data Event : Type 0 where
  start empty finish : Text → Event
  characters : Option Text → Event
  stopped otherwise : Event

abbrev pub is_loc : Text → Bool
is_loc name = text_eq name (lit "loc")

-- What a text in a `loc` adds to the URLs.
unfoldable pub url_of : Option Text → List Text
url_of none = []
url_of (some text) = if is_empty (trim text) then [] else trim text ∷ []

-- The URLs that the rest of the events adds.
unfoldable pub sitemap_from : Bool → List Event → List Text
sitemap_from in_loc [] = []
sitemap_from in_loc (start name ∷ more) = sitemap_from (if is_loc name then true else in_loc) more
sitemap_from in_loc (empty name ∷ more) = sitemap_from (if is_loc name then true else in_loc) more
sitemap_from in_loc (finish name ∷ more) = sitemap_from (if is_loc name then false else in_loc) more
sitemap_from true (characters text ∷ more) = url_of text ++ sitemap_from true more
sitemap_from false (characters text ∷ more) = sitemap_from false more
sitemap_from in_loc (stopped ∷ more) = []
sitemap_from in_loc (otherwise ∷ more) = sitemap_from in_loc more

unfoldable pub parse_sitemap_fast : List Event → List Text
parse_sitemap_fast events = sitemap_from false events
