-- ===== src/Tools/Links.antt =====
-- tools.json: the definitions of the sitemap and link tools.
use mcp_web_search.Base.{lit, true, [], ◌∷◌}
use mcp_web_search.Json.{Value, str, bool, object}
use mcp_web_search.Tools.Schema.{typed, names}

abbrev pub web_sitemap : Value
web_sitemap = object (
    (lit "name", str (lit "web_sitemap"))
    ∷ (
      lit "description",
      str (
          lit
            "Parse a website's sitemap.xml and return the list of discovered URLs. The sitemap is fetched from {origin}/sitemap.xml. Use this for site enumeration, content auditing, or finding all pages on a domain before selective scraping."),
    )
    ∷ (
      lit "inputSchema",
      object (
          (lit "type", str (lit "object"))
          ∷ (
            lit "properties",
            object (
                (
                  lit "url",
                  typed "string"
                      "The http/https URL whose sitemap.xml to fetch. The sitemap is looked up at the URL's origin.",
                )
                ∷ (lit "limit", typed "number" "Maximum number of URLs to return (default 5000).")
                ∷ []),
          )
          ∷ (lit "required", names ("url" ∷ []))
          ∷ []),
    )
    ∷ (lit "annotations", object ((lit "readOnlyHint", bool true) ∷ []))
    ∷ [])

abbrev pub web_check_links : Value
web_check_links = object (
    (lit "name", str (lit "web_check_links"))
    ∷ (
      lit "description",
      str (
          lit
            "Check whether a list of URLs are reachable by sending HEAD requests in parallel (bounded concurrency). Returns HTTP status code and reason phrase for each URL. Use this to validate links, detect broken pages, or audit site health. SSRF-guarded on every URL."),
    )
    ∷ (
      lit "inputSchema",
      object (
          (lit "type", str (lit "object"))
          ∷ (
            lit "properties",
            object (
                (
                  lit "urls",
                  object (
                      (lit "type", str (lit "array"))
                      ∷ (lit "items", object ((lit "type", str (lit "string")) ∷ []))
                      ∷ (lit "description", str (lit "List of http/https URLs to check."))
                      ∷ []),
                )
                ∷ []),
          )
          ∷ (lit "required", names ("urls" ∷ []))
          ∷ []),
    )
    ∷ (lit "annotations", object ((lit "readOnlyHint", bool true) ∷ []))
    ∷ [])
