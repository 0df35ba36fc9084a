-- ===== src/Providers/Dispatch/Asks.antt =====
-- What a search backend of src/providers/ may ask of the network, and the parts of its code that
-- the backends share.
use mcp_web_search.Providers.Zhipu.{search_zhipu}
use mcp_web_search.Providers.Tavily.{search_tavily}
use mcp_web_search.Providers.Exa.{search_exa}
use mcp_web_search.Providers.Bocha.{search_bocha}
use mcp_web_search.Providers.Searxng.{search_searxng}
use mcp_web_search.Providers.Google.{search_google}
use mcp_web_search.Providers.Bing.{search_bing}
use mcp_web_search.Errors.{WebSearchError, WsResult}
use mcp_web_search.Net.Logic.{
  SendsAtMost-pure, SendsAtMost->>=, SendsAtMost, Runs-pure, Runs->>=, OnOk-Unit, OnOk, Runs,
}
use mcp_web_search.Json.{Value}
use mcp_web_search.Providers.Duckduckgo.{search_duckduckgo, node_result, ResultNode, results_from}
use mcp_web_search.Providers.Call.{
  key_given, query_given, parsed_json, succeeded, received, listed, call_json, call_api,
}
use mcp_web_search.Providers.Types.{SearchResult, SearchResponse, SearchRequest}
use mcp_web_search.Base.{
  ok_or, ok, zero, none, length-take, refl, take, ◌∷◌, length-map, suc, some, arith, ◌≡◌, ◌≤◌, [],
  length, unwrap_or, List, Text, Option, ℕ,
}
use mcp_web_search.Providers.Kind.{
  bocha, exa, zhipu, google, tavily, bing, duckduckgo, searxng, SearchProvider,
}
use mcp_web_search.Net.{ApiResponse, ◌>>=◌, ◌>>◌, bind, pure, Task, call, ApiRequest, Query, UrlLib}
use mcp_web_search.Providers.Searxng
use mcp_web_search.Providers.Duckduckgo
use mcp_web_search.Providers.Bing
use mcp_web_search.Providers.Tavily
use mcp_web_search.Providers.Google
use mcp_web_search.Providers.Zhipu
use mcp_web_search.Providers.Exa
use mcp_web_search.Providers.Bocha

-- The request goes to this URL, and nothing else is asked.
abbrev pub IsCallTo : {U : UrlLib} → Text → Query U → Type 0
IsCallTo url (call req) = req.url ≡ url
IsCallTo url _ = ⊥

-- Where a backend has its API: a fixed URL, but for SearXNG, whose base URL is configured.
abbrev pub endpoint_of : SearchProvider → Option Text → Text
endpoint_of searxng api_url = Searxng.endpoint (unwrap_or api_url [])
endpoint_of duckduckgo api_url = Duckduckgo.endpoint
endpoint_of bing api_url = Bing.endpoint
endpoint_of tavily api_url = Tavily.endpoint
endpoint_of google api_url = Google.endpoint
endpoint_of zhipu api_url = Zhipu.endpoint
endpoint_of exa api_url = Exa.endpoint
endpoint_of bocha api_url = Bocha.endpoint

abbrev pub IsWithin : ℕ → SearchResponse → Type 0
IsWithin limit resp = length resp.results ≤ limit

listed-IsWithin :
    (o : Option (List Value)) (limit : ℕ) (f : Value → SearchResult)
    → IsWithin limit (listed o limit f)
listed-IsWithin none limit f = omega arith
listed-IsWithin (some items) limit f =
    omega (arith, length-map f (take limit items), length-take limit items)

module _ (U : UrlLib) where
  call_api-IsCallTo :
      (name : Text) (req : ApiRequest)
      → Runs (IsCallTo req.url) (OnOk (λ _. Unit {0})) (call_api U name req)
  unfolding call_api
  call_api-IsCallTo name req = (refl, λ reply. OnOk-Unit (received name reply))

  call_json-IsCallTo :
      (name : Text) (req : ApiRequest)
      → Runs (IsCallTo req.url) (OnOk (λ _. Unit {0})) (call_json U name req)
  unfolding call_json
  call_json-IsCallTo name req =
      Runs->>= (IsCallTo req.url) (λ _. Unit {0}) (λ _. Unit {0}) (call_api U name req) _
        (call_api-IsCallTo name req)
        λ resp _.
          Runs-pure (IsCallTo req.url) (λ _. Unit {0}) (succeeded name resp) _
            λ _. OnOk-Unit (parsed_json name resp)

  call_api-sends : (name : Text) (req : ApiRequest) → SendsAtMost 1 (call_api U name req)
  unfolding call_api
  call_api-sends name req = (omega arith, λ _. tt)

  call_json-sends : (name : Text) (req : ApiRequest) → SendsAtMost 1 (call_json U name req)
  unfolding call_json
  call_json-sends name req =
      SendsAtMost->>= 1 0 1 (call_api U name req) _ (omega arith) (call_api-sends name req)
        (λ resp. SendsAtMost-pure 0 (succeeded name resp) _ (λ _. tt))

  pub results_from-IsWithin :
      (room : ℕ) (nodes : List ResultNode) → length (results_from U room nodes) ≤ room
  unfolding results_from
  results_from-IsWithin zero nodes = omega arith
  results_from-IsWithin (suc room) [] = omega arith
  results_from-IsWithin (suc room) (node ∷ nodes) =
      elim (node_result U node.link node.snippet)
        as (λ o.
          length (elim o [
            | none ↦ results_from U (suc room) nodes
            | some r ↦ r ∷ results_from U room nodes
          ])
          ≤ suc room) [
            | none ↦ results_from-IsWithin (suc room) nodes
            | some r ↦ omega (arith, results_from-IsWithin room nodes)
          ]

  -- A backend asks only this URL, once at most, and returns at most `limit` results.
  abbrev pub Asks : Text → ℕ → ℕ → Task U SearchResponse → Type 0
  Asks url n limit m = Runs (IsCallTo url) (OnOk (IsWithin limit)) m × SendsAtMost n m

  pub pure-Asks :
      {A : Type 0} (url : Text) (n limit : ℕ) (r : WsResult A) (f : A → Task U SearchResponse)
      → ((a : A) → Asks url n limit (f a))
      → Asks url n limit (pure r >>= f)
  pure-Asks url n limit r f h = (
    Runs-pure (IsCallTo url) (IsWithin limit) r f (λ a. (h a).0),
    SendsAtMost-pure n r f (λ a. (h a).1),
  )

  -- The results of a list, and those after an error that the body may report.
  pub listed-Asks :
      (url : Text) (o : Option (List Value)) (limit : ℕ) (f : Value → SearchResult)
      → Asks url 0 limit (pure (ok (listed o limit f)))
  listed-Asks url o limit f = (listed-IsWithin o limit f, tt)

  pub checked-Asks :
      (url : Text) (m : WsResult (Unit {0})) (o : Option (List Value)) (limit : ℕ)
      (f : Value → SearchResult)
      → Asks url 0 limit (pure m >> pure (ok (listed o limit f)))
  checked-Asks url m o limit f = pure-Asks url 0 limit m _ (λ _. listed-Asks url o limit f)

  pub call_api-Asks :
      (name : Text) (limit : ℕ) (sent : ApiRequest) (rest : ApiResponse → Task U SearchResponse)
      → ((resp : ApiResponse) → Asks sent.url 0 limit (rest resp))
      → Asks sent.url 1 limit (call_api U name sent >>= rest)
  call_api-Asks name limit sent rest h = (
    Runs->>= (IsCallTo sent.url) (λ _. Unit {0}) (IsWithin limit) (call_api U name sent) rest
        (call_api-IsCallTo name sent) (λ resp _. (h resp).0),
    SendsAtMost->>= 1 0 1 (call_api U name sent) rest (omega arith) (call_api-sends name sent)
        (λ resp. (h resp).1),
  )

  pub call_json-Asks :
      (name : Text) (limit : ℕ) (sent : ApiRequest) (rest : Value → Task U SearchResponse)
      → ((body : Value) → Asks sent.url 0 limit (rest body))
      → Asks sent.url 1 limit (call_json U name sent >>= rest)
  call_json-Asks name limit sent rest h = (
    Runs->>= (IsCallTo sent.url) (λ _. Unit {0}) (IsWithin limit) (call_json U name sent) rest
        (call_json-IsCallTo name sent) (λ body _. (h body).0),
    SendsAtMost->>= 1 0 1 (call_json U name sent) rest (omega arith) (call_json-sends name sent)
        (λ body. (h body).1),
  )

  -- The common course of the backends with a key.
  pub course-Asks :
      (name : Text) (req : SearchRequest) (sent : ApiRequest) (rest : Value → Task U SearchResponse)
      → ((body : Value) → Asks sent.url 0 req.limit (rest body))
      → Asks sent.url 1 req.limit (
          pure (query_given req) >> (pure (key_given name req) >> (call_json U name sent >>= rest)))
  course-Asks name req sent rest h = pure-Asks sent.url 1 req.limit (query_given req) _ λ _.
      pure-Asks sent.url 1 req.limit (key_given name req) _
        λ _. call_json-Asks name req.limit sent rest h

  -- The value that a guard finds.
  pub ok_or-Asks :
      (url : Text → Text) (n limit : ℕ) (o : Option Text) (e : WebSearchError)
      (f : Text → Task U SearchResponse)
      → ((a : Text) → Asks (url a) n limit (f a))
      → Asks (url (unwrap_or o [])) n limit (pure (ok_or o e) >>= f)
  unfolding bind
  ok_or-Asks url n limit none e f h = (tt, tt)
  ok_or-Asks url n limit (some a) e f h = h a
