-- ===== src/Tools/Fetches.antt =====
-- tools.json: the definitions of the fetch tools.
use mcp_web_search.Base.{lit, true, [], ◌∷◌}
use mcp_web_search.Json.{Value, str, bool, object}
use mcp_web_search.Tools.Schema.{typed, names}

abbrev pub web_fetch : Value
web_fetch = object (
    (lit "name", str (lit "web_fetch"))
    ∷ (
      lit "description",
      str (
          lit
            "Fetch a single web page and return its content as markdown. A simpler alternative to web_scrape for the common case — just provide a URL and get readable content back with no options required. Uses the efficient dom_to_markdown path (single HTML parse, no htmd). SSRF-guarded."),
    )
    ∷ (
      lit "inputSchema",
      object (
          (lit "type", str (lit "object"))
          ∷ (
            lit "properties",
            object ((lit "url", typed "string" "The http/https URL to fetch.") ∷ []),
          )
          ∷ (lit "required", names ("url" ∷ []))
          ∷ []),
    )
    ∷ (lit "annotations", object ((lit "readOnlyHint", bool true) ∷ []))
    ∷ [])

abbrev pub web_fetch_text : Value
web_fetch_text = object (
    (lit "name", str (lit "web_fetch_text"))
    ∷ (
      lit "description",
      str (
          lit
            "Fetch a single web page and return its content as plain text with all HTML tags stripped. Use this when you want raw text without any markdown formatting, for example to feed into another text-processing pipeline. Lighter than full markdown conversion."),
    )
    ∷ (
      lit "inputSchema",
      object (
          (lit "type", str (lit "object"))
          ∷ (
            lit "properties",
            object ((lit "url", typed "string" "The http/https URL to fetch.") ∷ []),
          )
          ∷ (lit "required", names ("url" ∷ []))
          ∷ []),
    )
    ∷ (lit "annotations", object ((lit "readOnlyHint", bool true) ∷ []))
    ∷ [])

abbrev pub web_fetch_headers : Value
web_fetch_headers = object (
    (lit "name", str (lit "web_fetch_headers"))
    ∷ (
      lit "description",
      str (
          lit
            "Fetch only the HTTP response headers and status code for a URL without downloading the body. Use this to check whether a page is accessible, redirected, or returns an error — much faster than a full fetch when you only need metadata about the resource."),
    )
    ∷ (
      lit "inputSchema",
      object (
          (lit "type", str (lit "object"))
          ∷ (
            lit "properties",
            object ((lit "url", typed "string" "The http/https URL to check.") ∷ []),
          )
          ∷ (lit "required", names ("url" ∷ []))
          ∷ []),
    )
    ∷ (lit "annotations", object ((lit "readOnlyHint", bool true) ∷ []))
    ∷ [])

abbrev pub web_search_scrape : Value
web_search_scrape = object (
    (lit "name", str (lit "web_search_scrape"))
    ∷ (
      lit "description",
      str (
          lit
            "Search the web and scrape the top N results into markdown in a single MCP call. This compound operation saves round trips compared to calling web_search then web_scrape for each result. URLs are fetched concurrently (bounded parallelism) and each is SSRF-guarded."),
    )
    ∷ (
      lit "inputSchema",
      object (
          (lit "type", str (lit "object"))
          ∷ (
            lit "properties",
            object (
                (lit "query", typed "string" "The search query string.")
                ∷ (lit "limit", typed "number" "Maximum SERP results (default 5, clamped 1-20).")
                ∷ (
                  lit "scrapeLimit",
                  typed "number"
                      "Maximum results to scrape into full markdown (default 3, clamped 1-10).",
                )
                ∷ []),
          )
          ∷ (lit "required", names ("query" ∷ []))
          ∷ []),
    )
    ∷ (lit "annotations", object ((lit "readOnlyHint", bool true) ∷ []))
    ∷ [])
