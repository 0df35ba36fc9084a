-- ===== src/Providers/Duckduckgo.antt =====
-- src/providers/duckduckgo.rs. The page is parsed by the crate `scraper`: `result_nodes` gives its
-- `div.result` elements, each with what its first title link and its first snippet say.
use mcp_web_search.Providers.Call.{status_ok, call_api, query_given}
use mcp_web_search.Errors.{provider_error, WsResult}
use mcp_web_search.Net.{◌>>=◌, pure, ◌>>◌, Task, ApiRequest, UrlLib, ApiResponse}
use mcp_web_search.Providers.Types.{new_result, SearchResponse, SearchResult, SearchRequest}
use mcp_web_search.Base.{
  and_then, trim, zero, is_empty, true, text_eq, suc, unwrap_or, ◌++◌, ◌∷◌, [], ok, map_err,
  starts_with, some, false, ◌==◌, err, none, strip_prefix, if◌then◌else◌, lit, Result, List, ℕ,
  Option, Text,
}

-- The text of the link, and its `href`.
pub record TitleLink : Type 0 where
  pub text : Text
  pub href : Option Text

pub record ResultNode : Type 0 where
  pub link : Option TitleLink
  pub snippet : Option Text

abbrev pub endpoint : Text
endpoint = lit "https://html.duckduckgo.com/html/"

abbrev pub kp : ℕ → Text
kp level = if level == 2 then lit "1" else if level == 1 then lit "-1" else lit "-2"

abbrev pub request : SearchRequest → ApiRequest
request req = record {
  post = false;
  url = endpoint;
  headers = [];
  query = (lit "q", req.query) ∷ (lit "kp", kp req.safe_search) ∷ [];
  json_body = none;
}

-- A link that is relative to the scheme.
abbrev pub absolute : Text → Text
absolute href = elim (strip_prefix (lit "//") href) [
  | some stripped ↦ lit "https://" ++ stripped
  | none ↦ href
]

-- The first `uddg` parameter.
abbrev pub uddg : List (Text × Text) → Option Text
uddg [] = none
uddg ((k, v) ∷ more) = if text_eq k (lit "uddg") then some v else uddg more

abbrev pub http_or_empty : Text → Text
http_or_empty url = if starts_with (lit "http") url then url else []

abbrev pub read_text : ApiResponse → WsResult Text
read_text resp = map_err (λ e. provider_error (lit "DuckDuckGo read failed: " ++ e)) resp.text

abbrev pub parsed : Result Text (List SearchResult) → WsResult SearchResponse
parsed (err e) = err (provider_error (lit "parse task failed: " ++ e))
parsed (ok results) = ok (record { results = results; success = true })

module _ (U : UrlLib) where
  abbrev pub target_of : Text → Result Text U.Url → Text
  target_of url (err e) = http_or_empty url
  target_of url (ok parsed_url) = unwrap_or (uddg (U.query_pairs parsed_url)) (http_or_empty url)

  unfoldable pub decode_redirect : Text → Text
  decode_redirect href = target_of (absolute href) (U.parse (absolute href))

  -- One turn of the loop; `rest` has what the later nodes add.
  abbrev pub node_result : Option TitleLink → Option Text → Option SearchResult
  node_result none snippet = none
  node_result (some link) snippet =
      let url = decode_redirect (unwrap_or link.href []) in
      if is_empty url
      then none
      else some (
          new_result (trim link.text) url (unwrap_or (and_then snippet (λ s. some (trim s))) [])
            (lit "duckduckgo"))

  -- At most `room` results more.
  unfoldable pub results_from : ℕ → List ResultNode → List SearchResult
  results_from zero nodes = []
  results_from (suc room) [] = []
  results_from (suc room) (node ∷ nodes) = elim (node_result node.link node.snippet) [
    | none ↦ results_from (suc room) nodes
    | some r ↦ r ∷ results_from room nodes
  ]

  module _ (spawn_blocking : (Text → List SearchResult) → Text → Result Text (List SearchResult))
      (result_nodes : Text → List ResultNode) where
    unfoldable pub parse_results : ℕ → Text → List SearchResult
    parse_results limit html = results_from limit (result_nodes html)

    unfoldable pub search_duckduckgo : SearchRequest → Task U SearchResponse
    search_duckduckgo req = do
      pure (query_given req)
      resp ← call_api U (lit "DuckDuckGo") (request req)
      pure (status_ok (lit "DuckDuckGo") resp)
      html ← pure (read_text resp)
      pure (parsed (spawn_blocking (parse_results req.limit) html))
