-- ===== src/Toolbox/Sessions.antt =====
-- What the whole server asks of the world, over stdio and over HTTP.
use mcp_web_search.Validation.Vetted.{Vets-bind, Vets-if, Vets}
use mcp_web_search.Toolbox.Guards.{with_timeout-IsGuarded, named}
use mcp_web_search.Ratelimit.{TokenBucket}
use mcp_web_search.Http.{take_token, is_authorized, handle_rpc, respond}
use mcp_web_search.Server.Handlers.{handle_tools_call, process_request, Actions}
use mcp_web_search.Server.Lines.{too_long, line, eof, weight, read_line_capped, LineRead, Fill}
use mcp_web_search.Guarded.{IsGuarded}
use mcp_web_search.Server.Parsing.{Subtle, parse_request, Serde}
use mcp_web_search.Protocol.{JsonRpcRequest}
use mcp_web_search.Errors.{WsResult}
use mcp_web_search.Server.Stdio.{Session, run_stdio, serve, round, continued}
use mcp_web_search.Server.Dispatch.{process_parsed, process_one_line, process_request_http}
use mcp_web_search.Toolbox.{toolbox}
use mcp_web_search.Json.{get}
use mcp_web_search.Base.{
  inr, inl, Bool-cases, starts_with, zero, ok, and_then, suc, Result, err, lit, text_eq, Text,
  Option, ℕ, List,
}
use mcp_web_search.Config.{Config}
use mcp_web_search.Crates.{Crates}
use mcp_web_search.Net.{Io, with_timeout, UrlLib}

module _ (U : UrlLib) (C : Crates) (config : Config) (schedule : List ℕ) where
  abbrev pub tools : Actions U
  tools = toolbox U C config schedule

  module _ (version instructions : Text) where
    process_request-IsGuarded :
        (req : JsonRpcRequest)
        → Vets
            (IsGuarded U config)
            (λ _. Unit {0})
            (process_request U tools config version instructions req)
    unfolding process_request handle_tools_call
    process_request-IsGuarded req =
        Vets-if (IsGuarded U config) (λ _. Unit {0}) (text_eq req.method (lit "initialize")) _ _
          (λ _. tt)
          λ _.
            Vets-if (IsGuarded U config) (λ _. Unit {0}) (text_eq req.method (lit "tools/list")) _ _
              (λ _. tt)
              λ _.
                Vets-if (IsGuarded U config) (λ _. Unit {0}) (text_eq req.method (lit "tools/call"))
                  _ _
                  (λ _.
                    named U C config schedule (and_then req.params (λ p. get p (lit "arguments")))
                      _)
                  λ _.
                    Vets-if (IsGuarded U config) (λ _. Unit {0})
                      (text_eq req.method (lit "logging/setLevel")) _ _ (λ _. tt)
                      λ _.
                        Vets-if (IsGuarded U config) (λ _. Unit {0})
                          (text_eq req.method (lit "ping")) _ _ (λ _. tt)
                          λ _.
                            Vets-if (IsGuarded U config) (λ _. Unit {0})
                              (starts_with (lit "notifications/") req.method) _ _ (λ _. tt)
                              (λ _. tt)

    process_request_http-IsGuarded :
        (req : JsonRpcRequest)
        → Vets
            (IsGuarded U config)
            (λ _. Unit {0})
            (process_request_http U tools config version instructions req)
    unfolding process_request_http
    process_request_http-IsGuarded req =
        Vets-bind (IsGuarded U config) (λ _. Unit {0}) (λ _. Unit {0})
          (with_timeout (process_request U tools config version instructions req)) _
          (with_timeout-IsGuarded U C config schedule
            (process_request U tools config version instructions req)
            (process_request-IsGuarded req))
          (λ _ _. tt)

    process_parsed-IsGuarded :
        (S : Serde) (r : Result Text JsonRpcRequest)
        → Vets
            (IsGuarded U config)
            (λ _. Unit {0})
            (process_parsed U tools config version instructions S r)
    unfolding process_parsed
    process_parsed-IsGuarded S (err e) = tt
    process_parsed-IsGuarded S (ok req) =
        Vets-bind (IsGuarded U config) (λ _. Unit {0}) (λ _. Unit {0})
          (process_request_http U tools config version instructions req) _
          (process_request_http-IsGuarded req) (λ _ _. tt)

    continued-IsGuarded :
        (S : Serde) (again : Io U Session) (r : WsResult (List Text))
        → Vets (IsGuarded U config) (λ _. Unit {0}) again
        → Vets
            (IsGuarded U config)
            (λ _. Unit {0})
            (continued U tools config version instructions S again r)
    unfolding continued
    continued-IsGuarded S again (err e) h = tt
    continued-IsGuarded S again (ok lines) h =
        Vets-bind (IsGuarded U config) (λ _. Unit {0}) (λ _. Unit {0}) again _ h (λ _ _. tt)

    round-IsGuarded :
        (S : Serde) (again : Io U Session) (r : Result Text (LineRead × Text))
        → Vets (IsGuarded U config) (λ _. Unit {0}) again
        → Vets
            (IsGuarded U config)
            (λ _. Unit {0})
            (round U tools config version instructions S again r)
    unfolding round process_one_line
    round-IsGuarded S again (err e) h = tt
    round-IsGuarded S again (ok (eof, text)) h = tt
    round-IsGuarded S again (ok (line, text)) h =
        Vets-bind (IsGuarded U config) (λ _. Unit {0}) (λ _. Unit {0})
          (process_parsed U tools config version instructions S (parse_request S text)) _
          (process_parsed-IsGuarded S (parse_request S text))
          (λ r _. continued-IsGuarded S again r h)
    round-IsGuarded S again (ok (too_long, text)) h = tt

    serve-IsGuarded :
        (S : Serde) (fuel : ℕ) (fills : List Fill)
        → Vets
            (IsGuarded U config)
            (λ _. Unit {0})
            (serve U tools config version instructions S fuel fills)
    unfolding serve
    serve-IsGuarded S zero fills = tt
    serve-IsGuarded S (suc fuel) fills =
        let taken = read_line_capped config.server.max_request_bytes fills in
        round-IsGuarded S (serve U tools config version instructions S fuel taken.1) taken.0
          (serve-IsGuarded S fuel taken.1)

    -- Whatever arrives on stdin, and whatever the network, the backends and the browser answer, the
    -- server with its twelve tools puts only guarded queries: a request of the client and a
    -- navigation of the browser go to an http or https URL with a host, and where private hosts are
    -- refused a host that is an address passes the SSRF guard, and one that is a domain was looked up
    -- before, by a lookup with one address at least that all pass; a request to a backend goes to the
    -- configured one's API; and a client for a domain is the shared one without DNS pinning, and with
    -- it one whose pins, if any, are of that domain and, where private hosts are refused, at addresses
    -- that pass.
    pub run_stdio-IsGuarded :
        (S : Serde) (fills : List Fill)
        → Vets
            (IsGuarded U config)
            (λ _. Unit {0})
            (run_stdio U tools config version instructions S fills)
    unfolding run_stdio
    run_stdio-IsGuarded S fills = serve-IsGuarded S (suc (weight fills)) fills

    respond-IsGuarded :
        (r : Result Text JsonRpcRequest)
        → Vets (IsGuarded U config) (λ _. Unit {0}) (respond U tools config version instructions r)
    unfolding respond
    respond-IsGuarded (err e) = tt
    respond-IsGuarded (ok req) =
        Vets-bind (IsGuarded U config) (λ _. Unit {0}) (λ _. Unit {0})
          (process_request_http U tools config version instructions req) _
          (process_request_http-IsGuarded req) (λ _ _. tt)

    -- Whatever the headers and the body of a request over HTTP are, and whatever the network, the
    -- backends and the browser answer, the server with its twelve tools puts only guarded queries:
    -- a request of the client and a navigation of the browser go to an http or https URL with a host,
    -- and where private hosts are refused a host that is an address passes the SSRF guard, and one
    -- that is a domain was looked up before, by a lookup with one address at least that all pass; a
    -- request to a backend goes to the configured one's API; and a client for a domain is the shared
    -- one without DNS pinning, and with it one whose pins, if any, are of that domain and, where
    -- private hosts are refused, at addresses that pass.
    pub handle_rpc-IsGuarded :
        (T : Subtle) (S : Serde) (now : ℕ) (limiter : Option TokenBucket)
        (authorization : Option Text) (body : Text)
        → Vets
            (IsGuarded U config)
            (λ _. Unit {0})
            (handle_rpc U tools config version instructions T S now limiter authorization body).0
    unfolding handle_rpc
    handle_rpc-IsGuarded T S now limiter authorization body =
        elim (Bool-cases (is_authorized T config.server.auth_token authorization)) [
          | inl known ↦ elim (Bool-cases (take_token limiter now).0) [
            | inl taken ↦ rw (known, taken) (respond-IsGuarded (S.from_slice body))
            | inr spent ↦ rw (known, spent) tt
          ]
          | inr unknown ↦ rw unknown tt
        ]
