-- ===== src/Tools/Browsers.antt =====
-- tools.json: the definitions of the browser tools.
use mcp_web_search.Base.{lit, true, [], ◌∷◌}
use mcp_web_search.Json.{Value, str, bool, object}
use mcp_web_search.Tools.Schema.{typed, names}

abbrev pub browser_scrape : Value
browser_scrape = object (
    (lit "name", str (lit "browser_scrape"))
    ∷ (
      lit "description",
      str (
          lit
            "Navigate to a URL using a real headless browser (Chrome/Chromium via CDP) and return its content. Unlike web_scrape, this executes JavaScript — use it for SPAs, lazy-loaded content, pages that require JS to render, or when you need to interact with the page before extracting content. Requires Chrome/Chromium to be installed (see --browser-path). SSRF-guarded: only public http/https URLs are allowed. Each concurrent browser page consumes ~50-200 MB RAM; concurrency is bounded by --browser-max-pages."),
    )
    ∷ (
      lit "inputSchema",
      object (
          (lit "type", str (lit "object"))
          ∷ (
            lit "properties",
            object (
                (
                  lit "url",
                  typed "string"
                      "The http/https URL to navigate to. Must resolve to a public address.",
                )
                ∷ (
                  lit "formats",
                  object (
                      (lit "type", str (lit "array"))
                      ∷ (
                        lit "items",
                        object (
                            (lit "type", str (lit "string"))
                            ∷ (
                              lit "enum",
                              names ("markdown" ∷ "html" ∷ "rawHtml" ∷ "links" ∷ "screenshot" ∷ []),
                            )
                            ∷ []),
                      )
                      ∷ (
                        lit "description",
                        str (
                            lit
                              "Content formats to return (default ['markdown']). 'screenshot' returns a base64 PNG image block alongside any text blocks."),
                      )
                      ∷ []),
                )
                ∷ (
                  lit "onlyMainContent",
                  typed "boolean"
                      "Isolate the main/article region before conversion (default false).",
                )
                ∷ (
                  lit "waitFor",
                  typed "string"
                      "CSS selector to wait for before extracting content. Useful for SPAs that render asynchronously.",
                )
                ∷ (
                  lit "waitTimeoutMs",
                  typed "number"
                      "Milliseconds to wait for waitFor selector before proceeding anyway (default 5000).",
                )
                ∷ (
                  lit "javascript",
                  typed "string"
                      "JavaScript snippet to evaluate in the page after navigation and before content extraction. Errors are silently ignored.",
                )
                ∷ (
                  lit "scrollToBottom",
                  typed "boolean"
                      "Scroll to the bottom of the page before extracting content (default false). Useful for triggering infinite-scroll / lazy-loaded content.",
                )
                ∷ []),
          )
          ∷ (lit "required", names ("url" ∷ []))
          ∷ []),
    )
    ∷ (lit "annotations", object ((lit "readOnlyHint", bool true) ∷ []))
    ∷ [])

abbrev pub browser_screenshot : Value
browser_screenshot = object (
    (lit "name", str (lit "browser_screenshot"))
    ∷ (
      lit "description",
      str (
          lit
            "Navigate to a URL using a real headless browser and return a PNG screenshot as a base64-encoded MCP image content block. Use this when you need a visual representation of a page — to debug layout, capture charts/diagrams, or verify rendering of JS-heavy pages. Requires Chrome/Chromium (see --browser-path). SSRF-guarded."),
    )
    ∷ (
      lit "inputSchema",
      object (
          (lit "type", str (lit "object"))
          ∷ (
            lit "properties",
            object (
                (lit "url", typed "string" "The http/https URL to screenshot.")
                ∷ (
                  lit "fullPage",
                  typed "boolean"
                      "Capture the full scrollable page height instead of just the viewport (default false).",
                )
                ∷ (
                  lit "width",
                  typed "number" "Viewport width in pixels (default 1280, clamped to 3840).",
                )
                ∷ (
                  lit "height",
                  typed "number" "Viewport height in pixels (default 800, clamped to 2160).",
                )
                ∷ (
                  lit "waitFor",
                  typed "string" "CSS selector to wait for before taking the screenshot.",
                )
                ∷ (
                  lit "waitTimeoutMs",
                  typed "number" "Milliseconds to wait for waitFor selector (default 5000).",
                )
                ∷ []),
          )
          ∷ (lit "required", names ("url" ∷ []))
          ∷ []),
    )
    ∷ (lit "annotations", object ((lit "readOnlyHint", bool true) ∷ []))
    ∷ [])
