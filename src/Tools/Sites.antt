-- ===== src/Tools/Sites.antt =====
-- tools.json: the definitions of the map and extract tools.
use mcp_web_search.Base.{lit, true, [], ◌∷◌}
use mcp_web_search.Json.{Value, str, bool, object}
use mcp_web_search.Tools.Schema.{typed, names}

abbrev pub web_map : Value
web_map = object (
    (lit "name", str (lit "web_map"))
    ∷ (
      lit "description",
      str (
          lit
            "Discover URLs reachable from a starting URL, using the site's sitemap.xml and/or in-page HTML links. Useful for enumerating a site before targeted scraping. Results are restricted to the starting host (optionally including subdomains) and can be filtered by a search substring. SSRF-guarded."),
    )
    ∷ (
      lit "inputSchema",
      object (
          (lit "type", str (lit "object"))
          ∷ (
            lit "properties",
            object (
                (lit "url", typed "string" "Starting http/https URL for discovery.")
                ∷ (
                  lit "search",
                  typed "string"
                      "Optional case-insensitive substring; only URLs containing it are returned.",
                )
                ∷ (
                  lit "ignoreSitemap",
                  typed "boolean"
                      "Skip sitemap.xml discovery and use only in-page HTML links (default false).",
                )
                ∷ (
                  lit "sitemapOnly",
                  typed "boolean"
                      "Use only sitemap.xml, ignore in-page HTML links (default false).",
                )
                ∷ (
                  lit "includeSubdomains",
                  typed "boolean"
                      "Include URLs from subdomains of the starting host (default false).",
                )
                ∷ (lit "limit", typed "number" "Maximum number of URLs to return (default 5000).")
                ∷ []),
          )
          ∷ (lit "required", names ("url" ∷ []))
          ∷ []),
    )
    ∷ (lit "annotations", object ((lit "readOnlyHint", bool true) ∷ []))
    ∷ [])

abbrev pub web_extract : Value
web_extract = object (
    (lit "name", str (lit "web_extract"))
    ∷ (
      lit "description",
      str (
          lit
            "Fetch one or more URLs over HTTP and return their cleaned main content as markdown, concatenated with per-URL headers. URLs are fetched concurrently (bounded parallelism) and each is SSRF-guarded; a failure on one URL is reported inline without failing the others. Use this to gather readable content from a known set of pages."),
    )
    ∷ (
      lit "inputSchema",
      object (
          (lit "type", str (lit "object"))
          ∷ (
            lit "properties",
            object (
                (
                  lit "urls",
                  object (
                      (lit "type", str (lit "array"))
                      ∷ (lit "items", object ((lit "type", str (lit "string")) ∷ []))
                      ∷ (
                        lit "description",
                        str (lit "List of http/https URLs to fetch and extract."),
                      )
                      ∷ []),
                )
                ∷ []),
          )
          ∷ (lit "required", names ("urls" ∷ []))
          ∷ []),
    )
    ∷ (lit "annotations", object ((lit "readOnlyHint", bool true) ∷ []))
    ∷ [])
