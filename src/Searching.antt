-- ===== src/Searching.antt =====
-- src/actions/search.rs: `web_search` and `web_search_scrape`.
pub mod Runs
use mcp_web_search.Extracting.{main_markdown}
use mcp_web_search.Net.Concurrent.{for_each}
use mcp_web_search.Providers.Dispatch.{search_provider}
use mcp_web_search.Client.{fetch_page, FetchedPage}
use mcp_web_search.Errors.{to_string, WsResult}
use mcp_web_search.Config.{Config}
use mcp_web_search.Actions.{get_str_arg, get_opt_u8, get_opt_str, get_opt_usize, text_content}
use mcp_web_search.Crates.{awaited, Crates}
use mcp_web_search.Json.{Value}
use mcp_web_search.Net.{ret, ◌>>=◌, bind, pure, Io, Task, UrlLib}
use mcp_web_search.Providers.Types.{SearchRequest, SearchResult}
use mcp_web_search.Base.{
  drop, err, take, result_or, length, ok, trim, none, is_empty, map, if◌then◌else◌, unwrap_or, join,
  ◌++◌, some, min, ◌∷◌, lit, [], max, Text, List, Option, ℕ,
}

abbrev pub clamp : ℕ → ℕ → ℕ → ℕ
clamp lo hi n = max lo (min n hi)

abbrev pub shown_content : Option Text → Text
shown_content none = []
shown_content (some md) = if is_empty md then [] else lit "\nContent: " ++ md

abbrev pub format_block : SearchResult → Text
format_block r =
    lit "Title: "
    ++ (r.title
        ++ (lit "\nURL: "
            ++ (r.url ++ (lit "\nDescription: " ++ (r.snippet ++ shown_content r.markdown)))))

unfoldable pub format_results : List SearchResult → Text
format_results [] = lit "No results found."
format_results (r ∷ rs) = join (lit "\n\n") (map format_block (r ∷ rs))

-- The entry of a result that was scraped, and of one that was not.
abbrev pub scraped_entry : SearchResult → Text → Text
scraped_entry r section =
    lit "## "
    ++ (r.title
        ++ (lit " — "
            ++ (r.url
                ++ (lit "\n\n" ++ (r.snippet ++ (lit "\n\n" ++ (section ++ lit "\n\n---\n\n")))))))

abbrev pub plain_entry : SearchResult → Text
plain_entry r =
    lit "## "
    ++ (r.title ++ (lit " — " ++ (r.url ++ (lit "\n\n" ++ (r.snippet ++ lit "\n\n---\n\n")))))

-- The results by their index with the sections by theirs, as far as there are any.
unfoldable pub scraped_entries : List SearchResult → List Text → Text
scraped_entries [] sections = []
scraped_entries (r ∷ rs) [] = []
scraped_entries (r ∷ rs) (section ∷ sections) =
    scraped_entry r section ++ scraped_entries rs sections

abbrev pub plain_entries : List SearchResult → Text
plain_entries [] = []
plain_entries (r ∷ rs) = plain_entry r ++ plain_entries rs

abbrev pub found : Text → Value
found output = text_content (if is_empty output then lit "No results found." else output)

unfoldable pub search_request : Option Value → Config → Text → SearchRequest
search_request args config query = record {
  query = query;
  limit = clamp 1 100 (unwrap_or (get_opt_usize args (lit "limit")) config.search.limit);
  language = unwrap_or (get_opt_str args (lit "language")) config.search.language;
  categories = unwrap_or (get_opt_str args (lit "categories")) config.search.categories;
  time_range = unwrap_or (get_opt_str args (lit "timeRange")) config.search.time_range;
  safe_search = min (unwrap_or (get_opt_u8 args (lit "safeSearch")) config.search.safe_search) 2;
  engines = unwrap_or (get_opt_str args (lit "engines")) config.search.engines;
  timeout_ms = config.search.timeout;
  api_key = unwrap_or config.api_key [];
  api_url = config.api_url;
}

unfoldable pub scrape_request : Option Value → Config → Text → SearchRequest
scrape_request args config query = record {
  query = query;
  limit = clamp 1 20 (unwrap_or (get_opt_usize args (lit "limit")) 5);
  language = config.search.language;
  categories = config.search.categories;
  time_range = config.search.time_range;
  safe_search = min config.search.safe_search 2;
  engines = config.search.engines;
  timeout_ms = config.search.timeout;
  api_key = unwrap_or config.api_key [];
  api_url = config.api_url;
}

abbrev pub scrape_limit : Option Value → ℕ
scrape_limit args = clamp 1 10 (unwrap_or (get_opt_usize args (lit "scrapeLimit")) 3)

module _ (U : UrlLib) (C : Crates) (config : Config) where
  -- Once the query is known.
  abbrev pub searched : Option Value → Text → Task U Value
  searched args query =
      if is_empty (trim query)
      then pure (ok (text_content (lit "No search query provided.")))
      else (search_provider U C config.provider (search_request args config query) >>= λ resp.
          pure (ok (text_content (format_results resp.results))))

  unfoldable pub web_search : Option Value → Task U Value
  web_search args = pure (get_str_arg args (lit "query")) >>= searched args

  -- `unwrap_or_default` on what the other thread made of the page.
  abbrev pub scraped : WsResult (FetchedPage U) → Io U Text
  scraped (ok page) =
      ret (result_or (awaited (C.spawn_blocking (main_markdown U C config) page.body)) [])
  scraped (err e) = ret (lit "[Failed to fetch: " ++ (to_string e ++ lit "]"))

  unfoldable pub scrape_result : SearchResult → Io U Text
  scrape_result r = bind (fetch_page U config r.url) scraped

  -- Once the results are there.
  abbrev pub scraped_results : List ℕ → Option Value → List SearchResult → Task U Value
  scraped_results schedule args [] = pure (ok (text_content (lit "No results found.")))
  scraped_results schedule args (r ∷ rs) =
      let n = min (length (r ∷ rs)) (scrape_limit args) in
      bind (for_each schedule scrape_result (take n (r ∷ rs))) (λ sections. ret (
        ok (found (scraped_entries (take n (r ∷ rs)) sections ++ plain_entries (drop n (r ∷ rs))))))

  abbrev pub search_scraped : List ℕ → Option Value → Text → Task U Value
  search_scraped schedule args query =
      if is_empty (trim query)
      then pure (ok (text_content (lit "No search query provided.")))
      else (search_provider U C config.provider (scrape_request args config query) >>= λ resp.
          scraped_results schedule args resp.results)

  unfoldable pub web_search_scrape : List ℕ → Option Value → Task U Value
  web_search_scrape schedule args =
      pure (get_str_arg args (lit "query")) >>= search_scraped schedule args
