-- ===== src/Tools/Pages.antt =====
-- tools.json: the definitions of the search and scrape tools.
use mcp_web_search.Base.{lit, true, [], ◌∷◌}
use mcp_web_search.Json.{Value, str, bool, object}
use mcp_web_search.Tools.Schema.{typed, names}

abbrev pub web_search : Value
web_search = object (
    (lit "name", str (lit "web_search"))
    ∷ (
      lit "description",
      str (
          lit
            "Search the web and return SERP results (title, URL, description) from the configured provider (searxng, duckduckgo, bing, tavily, google, zhipu, exa, or bocha). Use this to find pages relevant to a query before optionally scraping or extracting their content. Returns a list of results formatted as Title/URL/Description blocks."),
    )
    ∷ (
      lit "inputSchema",
      object (
          (lit "type", str (lit "object"))
          ∷ (
            lit "properties",
            object (
                (lit "query", typed "string" "The search query string.")
                ∷ (
                  lit "limit",
                  typed "number" "Maximum number of results to return (default 10, clamped 1-100).",
                )
                ∷ (lit "language", typed "string" "Language code for results, or 'auto' (default).")
                ∷ (
                  lit "categories",
                  object (
                      (lit "type", str (lit "string"))
                      ∷ (
                        lit "enum",
                        names (
                            "general" ∷ "news" ∷ "images" ∷ "videos" ∷ "it" ∷ "science" ∷ "map"
                            ∷ "music" ∷ "files" ∷ "social_media" ∷ []),
                      )
                      ∷ (
                        lit "description",
                        str (
                            lit
                              "Result category (default 'general'). Honored by providers that support it (e.g. searxng, tavily topic)."),
                      )
                      ∷ []),
                )
                ∷ (
                  lit "timeRange",
                  object (
                      (lit "type", str (lit "string"))
                      ∷ (lit "enum", names ("all" ∷ "day" ∷ "week" ∷ "month" ∷ "year" ∷ []))
                      ∷ (
                        lit "description",
                        str (lit "Restrict results to a recency window (default 'all')."),
                      )
                      ∷ []),
                )
                ∷ (
                  lit "safeSearch",
                  typed "number" "Safe-search level: 0=off, 1=moderate, 2=strict (default 0).",
                )
                ∷ (
                  lit "engines",
                  typed "string"
                      "Provider-specific engine selector (e.g. searxng engine list, zhipu engine).",
                )
                ∷ []),
          )
          ∷ (lit "required", names ("query" ∷ []))
          ∷ []),
    )
    ∷ (lit "annotations", object ((lit "readOnlyHint", bool true) ∷ []))
    ∷ [])

abbrev pub web_scrape : Value
web_scrape = object (
    (lit "name", str (lit "web_scrape"))
    ∷ (
      lit "description",
      str (
          lit
            "Fetch a single web page over HTTP and return its content in the requested formats. Conversion happens server-side with no browser and no JavaScript execution, so it is fast and safe. Every URL is validated by an SSRF guard that blocks loopback, private, and link-local addresses. Supports markdown, html, rawHtml, and links output. Screenshot and scripted-action formats are intentionally unsupported (they require a real browser)."),
    )
    ∷ (
      lit "inputSchema",
      object (
          (lit "type", str (lit "object"))
          ∷ (
            lit "properties",
            object (
                (
                  lit "url",
                  typed "string"
                      "The http/https URL to scrape. Must resolve to a public address unless the server was started with --allow-private-hosts.",
                )
                ∷ (
                  lit "formats",
                  object (
                      (lit "type", str (lit "array"))
                      ∷ (
                        lit "items",
                        object (
                            (lit "type", str (lit "string"))
                            ∷ (
                              lit "enum",
                              names ("markdown" ∷ "html" ∷ "rawHtml" ∷ "links" ∷ "extract" ∷ []),
                            )
                            ∷ []),
                      )
                      ∷ (
                        lit "description",
                        str (
                            lit
                              "Content formats to return (default ['markdown']). 'links' returns absolute URLs found on the page; 'rawHtml' returns the unmodified HTML; 'extract' is an alias for 'markdown'."),
                      )
                      ∷ []),
                )
                ∷ (
                  lit "onlyMainContent",
                  typed "boolean"
                      "When true, isolate the page's main/article region before conversion, dropping navigation and chrome (default false).",
                )
                ∷ []),
          )
          ∷ (lit "required", names ("url" ∷ []))
          ∷ []),
    )
    ∷ (lit "annotations", object ((lit "readOnlyHint", bool true) ∷ []))
    ∷ [])
