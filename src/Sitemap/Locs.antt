-- ===== src/Sitemap/Locs.antt =====
-- What `parse_sitemap_fast` of src/actions/map.rs reads from a sitemap.
use mcp_web_search.Base.{
  true, false, if◌then◌else◌, text_eq, [], ◌∷◌, ◌++◌, ◌≡◌, ◌∙◌, ap, sym, refl, lit, append_assoc,
  List, Option, Text,
}
use mcp_web_search.Sitemap.{
  Event, start, empty, finish, characters, stopped, otherwise, is_loc, url_of, sitemap_from,
  parse_sitemap_fast,
}

-- A sitemap as a sequence of parts: a `loc` with its texts, or an event outside of them.
pub data Part : Type 0 where
  loc : List (Option Text) → Part
  outside : (event : Event) → Part

-- Events that neither open a `loc` nor end the reading.
abbrev pub IsOutside : Event → Type 0
IsOutside (start name) = is_loc name ≡ false
IsOutside (empty name) = is_loc name ≡ false
IsOutside stopped = ⊥
IsOutside _ = Unit

abbrev pub IsSitemap : List Part → Type 0
IsSitemap [] = Unit
IsSitemap (loc texts ∷ more) = IsSitemap more
IsSitemap (outside event ∷ more) = IsOutside event × IsSitemap more

abbrev pub texts_then : List (Option Text) → List Event → List Event
texts_then [] more = more
texts_then (text ∷ texts) more = characters text ∷ texts_then texts more

abbrev pub events_of : List Part → List Event
events_of [] = []
events_of (loc texts ∷ more) =
    start (lit "loc") ∷ texts_then texts (finish (lit "loc") ∷ events_of more)
events_of (outside event ∷ more) = event ∷ events_of more

abbrev pub urls_in : List (Option Text) → List Text
urls_in [] = []
urls_in (text ∷ texts) = url_of text ++ urls_in texts

abbrev pub urls_of : List Part → List Text
urls_of [] = []
urls_of (loc texts ∷ more) = urls_in texts ++ urls_of more
urls_of (outside event ∷ more) = urls_of more

sitemap_from-texts :
    (texts : List (Option Text)) (more : List Event)
    → sitemap_from true (texts_then texts more) ≡ urls_in texts ++ sitemap_from true more
unfolding sitemap_from
sitemap_from-texts [] more = refl
sitemap_from-texts (text ∷ texts) more =
    ap (λ l. url_of text ++ l) (sitemap_from-texts texts more)
    ∙ sym (append_assoc (url_of text) (urls_in texts) (sitemap_from true more))

sitemap_from-outside :
    (event : Event) (more : List Event)
    → IsOutside event
    → sitemap_from false (event ∷ more) ≡ sitemap_from false more
unfolding sitemap_from
sitemap_from-outside (start name) more h = rw h refl
sitemap_from-outside (empty name) more h = rw h refl
sitemap_from-outside (finish name) more h =
    elim (is_loc name)
      as (λ b. sitemap_from (if b then false else false) more ≡ sitemap_from false more) [
        | true ↦ refl
        | false ↦ refl
      ]
sitemap_from-outside (characters text) more h = refl
sitemap_from-outside stopped more h = elim h [ ]
sitemap_from-outside otherwise more h = refl

-- Of a sitemap whose `loc` elements have texts only, so no CDATA and no elements, and are not written
-- `<loc/>`, the reader returns the trimmed texts of those elements that are not blank, in their order, whatever
-- stands around them.
pub parse_sitemap_fast-urls :
    (parts : List Part) → IsSitemap parts → parse_sitemap_fast (events_of parts) ≡ urls_of parts
unfolding parse_sitemap_fast sitemap_from lit text_eq
parse_sitemap_fast-urls [] h = refl
parse_sitemap_fast-urls (loc texts ∷ more) h =
    sitemap_from-texts texts (finish (lit "loc") ∷ events_of more)
    ∙ ap (λ l. urls_in texts ++ l) (parse_sitemap_fast-urls more h)
parse_sitemap_fast-urls (outside event ∷ more) (o, h) =
    sitemap_from-outside event (events_of more) o ∙ parse_sitemap_fast-urls more h
