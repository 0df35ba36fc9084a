-- ===== src/Tests/Serving.antt =====
-- The server, its limiter and its tools at concrete requests.
use mcp_web_search.Float.{less_one, finite, maximum, minimum, as_secs_f64, multiply, add}
use mcp_web_search.Server.Dispatch.{process_request_http, process_one_line}
use mcp_web_search.Json.{number}
use mcp_web_search.Ratelimit.{new_bucket, refill, try_acquire}
use mcp_web_search.Http.{rate_limiter, status_of, take_token, is_authorized}
use mcp_web_search.Server.Parsing.{token_matches, parse_request}
use mcp_web_search.Net.Logic.{Runs}
use mcp_web_search.Base.{
  if◌then◌else◌, is_ok, refl, strip_prefix, ws_width_back, ws_width, ◌^◌, drop_ws, false, trim_end,
  trim_start, from_utf8_lossy, ◌*◌, trim, filter, true, none, ok, text_eq, some, ◌≡◌, [], ◌∷◌, lit,
  List,
}
use mcp_web_search.Tests.Fixtures.{urls, config, ping, serde, subtle, actions}
use mcp_web_search.Server.Stdio.Loop.{IsServed, run_stdio-IsServed}
use mcp_web_search.Server.Stdio.{run_stdio}
use mcp_web_search.Server.Lines.{line, Fill, bytes, interrupted, read_line_capped}
use mcp_web_search.Server.Lines.Chunks.{stream, read_line_capped-stream}
use mcp_web_search.Server.Dispatch.Answers.{
  IsResponseTo, IsAnswer, process_request_http-IsResponseTo, process_one_line-IsAnswer,
}
use mcp_web_search.Http.Order.{
  first_admitted, handled, accepted, limiter_after, admitted, admitted_answers, Arrival,
  admitted_answers-filter, handle_rpc-status,
}

-- Two short lines, cut in the middle, and one that is too long.
abbrev fills : List Fill
fills = bytes (lit "pi") ∷ interrupted ∷ bytes (lit "ng\npong\n1234") ∷ bytes (lit "56789\n") ∷ []

run_stdio-IsServed_example :
    Runs
      (λ _. Unit {0})
      (IsServed serde 8 (stream fills))
      (run_stdio urls actions config (lit "1") [] serde fills)
unfolding lit
run_stdio-IsServed_example =
    run_stdio-IsServed urls actions config (lit "1") [] serde fills (tt, (tt, (tt, (tt, tt))))

read_line_capped-stream_example :
    ((read_line_capped 8 fills).0 ≡ ok (line, from_utf8_lossy (lit "ping\n")))
    × (true ≡ true → stream (read_line_capped 8 fills).1 ≡ lit "pong\n123456789\n")
unfolding lit
read_line_capped-stream_example = read_line_capped-stream 8 fills (tt, (tt, (tt, (tt, tt))))

process_request_http-IsResponseTo_example :
    Runs
      (λ _. Unit {0})
      (IsResponseTo (some (number 1)))
      (process_request_http urls actions config (lit "1") [] ping)
process_request_http-IsResponseTo_example =
    process_request_http-IsResponseTo urls actions config (lit "1") [] ping

process_one_line-IsAnswer_example :
    Runs
      (λ _. Unit {0})
      (IsAnswer serde (parse_request serde (lit "ping")))
      (process_one_line urls actions config (lit "1") [] serde (lit "ping"))
process_one_line-IsAnswer_example =
    process_one_line-IsAnswer urls actions config (lit "1") [] serde (lit "ping")

-- A request that presents the token, one that does not, and another that does, within a second.
abbrev arrivals : List Arrival
arrivals =
    record { now = 0; authorization = some (lit "Bearer secret"); body = lit "{}" }
    ∷ record { now = 5; authorization = none; body = lit "{}" }
    ∷ record { now = 9; authorization = some (lit "Bearer secret"); body = lit "{}" }
    ∷ []

abbrev first_arrival : Arrival
first_arrival = record { now = 0; authorization = some (lit "Bearer secret"); body = lit "{}" }

admitted_answers-filter_example :
    (admitted_answers urls actions config (lit "1") [] subtle serde none arrivals
      ≡ admitted_answers urls actions config
          (lit "1")
          []
          subtle
          serde
          none
          (filter (admitted urls actions config (lit "1") [] subtle serde) arrivals))
    × (limiter_after urls actions config (lit "1") [] subtle serde none arrivals
        ≡ limiter_after urls actions config
            (lit "1")
            []
            subtle
            serde
            none
            (filter (admitted urls actions config (lit "1") [] subtle serde) arrivals))
admitted_answers-filter_example =
    admitted_answers-filter urls actions config (lit "1") [] subtle serde none arrivals

handle_rpc-status_example :
    Runs
      (λ _. accepted urls actions config (lit "1") [] subtle serde none first_arrival ≡ true)
      (λ r. status_of r ≡ 200)
      (handled urls actions config (lit "1") [] subtle serde none first_arrival).0
unfolding is_authorized token_matches take_token trim trim_start trim_end drop_ws ws_width
    ws_width_back strip_prefix text_eq lit
handle_rpc-status_example =
    handle_rpc-status urls actions config (lit "1") [] subtle serde none first_arrival

-- A request with the token, after one without it.
first_admitted_example :
    Runs
      (λ _. is_ok (serde.from_slice (lit "{}")) ≡ true)
      (λ r. status_of r ≡ (if is_ok (serde.from_slice (lit "{}")) then 200 else 400))
      (handled urls actions config
        (lit "1")
        []
        subtle
        serde
        (limiter_after urls actions config
          (lit "1")
          []
          subtle
          serde
          (rate_limiter config 0)
          (record { now = 5; authorization = none; body = lit "{}" } ∷ []))
        first_arrival).0
unfolding is_authorized token_matches trim trim_start trim_end drop_ws ws_width ws_width_back
    strip_prefix text_eq lit
first_admitted_example =
    first_admitted urls actions config (lit "1") [] subtle serde 0
      (record { now = 5; authorization = none; body = lit "{}" } ∷ []) first_arrival (refl, tt) refl

-- Two calls at a rate of 0.999999999, a second and a nanosecond apart: the tokens that were earned
-- are rounded up to one.
rounded_up :
    let bucket = new_bucket (finite (9007199245733793 * 2 ^ 1021)) 0 in
    (try_acquire 1_000_000_001 (try_acquire 0 bucket).1).0 ≡ true
unfolding try_acquire refill add multiply as_secs_f64 minimum maximum new_bucket less_one
rounded_up = refl

-- At a rate of 769.399445263 an empty bucket earns no whole token in 1299715 nanoseconds, though
-- the product of the decimals is one and a little.
rounded_down :
    (try_acquire 1_299_715 (record {
      tokens = finite 0;
      last_refill = 0;
      rate = finite (1691927272942145 * 2 ^ 1033);
      capacity = finite (1691927272942145 * 2 ^ 1033);
    })).0
    ≡ false
unfolding try_acquire refill add multiply as_secs_f64 minimum
rounded_down = refl
