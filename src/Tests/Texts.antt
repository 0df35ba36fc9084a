-- ===== src/Tests/Texts.antt =====
-- The text helpers of the conversion to markdown at concrete texts.
use mcp_web_search.Sitemap.{characters, finish, otherwise, parse_sitemap_fast, start}
use mcp_web_search.Sitemap.Locs.{Part, loc, outside, events_of, urls_of, parse_sitemap_fast-urls}
use mcp_web_search.Scrape.Dom.Tags.{tag_of}
use mcp_web_search.Tests.Fixtures.{collapse, urls}
use mcp_web_search.Scrape.Links.{contains, collect_links}
use mcp_web_search.Scrape.Plain.Pruning.{html_to_text-pruned, pruned}
use mcp_web_search.Scrape.Links.Once.{collect_links-distinct, is_target, distinct}
use mcp_web_search.Scrape.Plain.{html_to_text}
use mcp_web_search.Scrape.Dom.Depth.{Panics, Ends, walk_element-Keeps}
use mcp_web_search.Scrape.Dom.{
  nothing, text, arm, element, walk_element, child, dom_to_markdown, Nodes,
}
use mcp_web_search.Base.{
  List, text_eq, ws_width_back, ws_width, drop_ws, trim_end, trim_start, trim, true, lit, refl,
  ◌++◌, [], none, replicate, some, ◌∷◌, ◌≡◌, Text,
}
use mcp_web_search.Scrape.Spaces.{
  scalar_step, scalar_ws, utf8_seq_len, collapse_generic, collapse_neon, collapse_sse2,
}
use mcp_web_search.Scrape.Spaces.Reference.{IsUtf8, collapsed}
use mcp_web_search.Scrape.Spaces.Vector.{collapse_neon-collapsed}
use mcp_web_search.Scrape.Spaces.Vector.Traps.{collapse_sse2-collapsed}
use mcp_web_search.Scrape.Spaces.Vector.Panics.{collapse_sse2-trapped}
use mcp_web_search.Scrape.Newlines.{sweep_step, sweep_from, cleanup_md}
use mcp_web_search.Scrape.Newlines.Runs.{NoTriple, cleanup_md-NoTriple}

-- Eighteen bytes, with a character of two bytes.
abbrev spaced : Text
spaced =
    0x61 ∷ 0x20 ∷ 0x09 ∷ 0x62 ∷ 0x0A ∷ 0x0A ∷ 0xC3 ∷ 0xA9 ∷ 0x20 ∷ 0x63 ∷ 0x64 ∷ 0x65 ∷ 0x66 ∷ 0x20
    ∷ 0x20 ∷ 0x67 ∷ 0x0D ∷ 0x68 ∷ []

-- `a b é cdef g h`
abbrev single_spaced : Text
single_spaced =
    0x61 ∷ 0x20 ∷ 0x62 ∷ 0x20 ∷ 0xC3 ∷ 0xA9 ∷ 0x20 ∷ 0x63 ∷ 0x64 ∷ 0x65 ∷ 0x66 ∷ 0x20 ∷ 0x67 ∷ 0x20
    ∷ 0x68 ∷ []

spaced-IsUtf8 : IsUtf8 spaced
unfolding utf8_seq_len
spaced-IsUtf8 = (
  refl,
  (
    refl,
    (
      refl,
      (
        refl,
        (
          refl,
          (
            refl,
            (
              refl,
              (
                refl,
                (refl, (refl, (refl, (refl, (refl, (refl, (refl, (refl, (refl, (refl, tt)))))))))),
              ),
            ),
          ),
        ),
      ),
    ),
  ),
)

collapse_neon-collapsed_example : collapse_neon spaced ≡ single_spaced
unfolding collapsed
collapse_neon-collapsed_example = collapse_neon-collapsed spaced spaced-IsUtf8

collapse_sse2-collapsed_example : collapse_sse2 spaced ≡ some single_spaced
unfolding collapsed
collapse_sse2-collapsed_example = collapse_sse2-collapsed spaced spaced-IsUtf8 (
  refl,
  (
    refl,
    (
      refl,
      (
        refl,
        (
          refl,
          (
            refl,
            (
              refl,
              (
                refl,
                (refl, (refl, (refl, (refl, (refl, (refl, (refl, (refl, (refl, (refl, tt)))))))))),
              ),
            ),
          ),
        ),
      ),
    ),
  ),
)

-- Fifteen letters and a space.
abbrev trap : Text
trap = replicate 15 0x61 ++ (0x20 ∷ [])

trap-IsUtf8 : IsUtf8 trap
unfolding utf8_seq_len
trap-IsUtf8 = (
  refl,
  (
    refl,
    (
      refl,
      (
        refl,
        (
          refl,
          (
            refl,
            (refl, (refl, (refl, (refl, (refl, (refl, (refl, (refl, (refl, (refl, tt)))))))))),
          ),
        ),
      ),
    ),
  ),
)

collapse_sse2-trapped_example :
    (collapse_sse2 trap ≡ none) × (collapse_neon trap ≡ trap) × (collapse_generic trap ≡ trap)
unfolding collapsed
collapse_sse2-trapped_example = collapse_sse2-trapped trap trap-IsUtf8 refl

cleanup_md-NoTriple_example : NoTriple (cleanup_md (0x61 ∷ 0x0A ∷ 0x0A ∷ 0x0A ∷ 0x0A ∷ 0x62 ∷ []))
unfolding utf8_seq_len
cleanup_md-NoTriple_example =
    cleanup_md-NoTriple (0x61 ∷ 0x0A ∷ 0x0A ∷ 0x0A ∷ 0x0A ∷ 0x62 ∷ [])
      (refl, (refl, (refl, (refl, (refl, (refl, tt))))))

-- A heading, a list in a list, and a script.
abbrev page : Nodes
page = child (element (lit "h2") [] (child (text (lit "Title")) nothing)) (
    child
      (element (lit "ul") []
        (child (element (lit "li") [] (child (text (lit "one")) nothing)) nothing))
      (child (element (lit "script") [] (child (text (lit "f()")) nothing)) nothing))

walk_element-Keeps_example :
    Ends
      (Panics collapse)
      (record { md = lit "> "; list_depth = 1 })
      (walk_element collapse
        (element (lit "div") [] page)
        (record { md = lit "> "; list_depth = 1 }))
walk_element-Keeps_example =
    walk_element-Keeps collapse (element (lit "div") [] page)
      (record { md = lit "> "; list_depth = 1 })

dom_to_markdown_runs : dom_to_markdown collapse page ≡ some (lit "## Title\n\n- one")
unfolding dom_to_markdown walk_element arm tag_of collapse_generic scalar_ws scalar_step
    utf8_seq_len cleanup_md sweep_from sweep_step trim trim_start trim_end drop_ws ws_width
    ws_width_back text_eq lit
dom_to_markdown_runs = refl

-- With the SSE2 version the walk of a page with such a text panics.
dom_to_markdown_trapped :
    dom_to_markdown collapse_sse2 (child (element (lit "p") [] (child (text trap) nothing)) nothing)
    ≡ none
unfolding dom_to_markdown walk_element arm tag_of collapse_sse2 text_eq lit
dom_to_markdown_trapped = rw ((collapse_sse2-trapped trap trap-IsUtf8 refl).0) refl

html_to_text-pruned_example : html_to_text collapse (pruned page) ≡ html_to_text collapse page
html_to_text-pruned_example = html_to_text-pruned collapse page

collect_links-distinct_example :
    (distinct (collect_links urls (lit "/") (lit "/a" ∷ [] ∷ lit "/b" ∷ lit "/a" ∷ [])) ≡ true)
    × ((s : Text)
        → contains s (collect_links urls (lit "/") (lit "/a" ∷ [] ∷ lit "/b" ∷ lit "/a" ∷ []))
          ≡ is_target urls (lit "/") s (lit "/a" ∷ [] ∷ lit "/b" ∷ lit "/a" ∷ []))
collect_links-distinct_example =
    collect_links-distinct urls (lit "/") (lit "/a" ∷ [] ∷ lit "/b" ∷ lit "/a" ∷ [])

-- A sitemap of two URLs, one of them between blanks, and a date.
abbrev sitemap : List Part
sitemap =
    outside otherwise
    ∷ outside (start (lit "url"))
    ∷ loc (some (lit " /a ") ∷ [])
    ∷ outside (start (lit "lastmod"))
    ∷ outside (characters (some (lit "2025")))
    ∷ outside (finish (lit "lastmod"))
    ∷ outside (finish (lit "url"))
    ∷ loc (some (lit "/b") ∷ [])
    ∷ []

parse_sitemap_fast-urls_example : parse_sitemap_fast (events_of sitemap) ≡ urls_of sitemap
unfolding lit text_eq
parse_sitemap_fast-urls_example =
    parse_sitemap_fast-urls sitemap (tt, (refl, (refl, (tt, (tt, (tt, tt))))))
