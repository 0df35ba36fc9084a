-- ===== src/Server/Stdio.antt =====
-- `run_stdio` and `write_oversize_error` of src/server.rs: lines are read and answered in turn
-- until the stream ends, breaks, or holds a line that is too long. The loop recurs on fuel; see
-- `Loop`.
pub mod Loop
use mcp_web_search.Base.{
  ◌+◌, length, ok, show_nat, zero, [], ◌++◌, lit, suc, ◌∷◌, Result, err, some, none, Text, List,
  Option, ℕ,
}
use mcp_web_search.Server.Lines.{
  weight, bytes, Fill, LineRead, eof, line, too_long, read_line_capped,
}
use mcp_web_search.Server.Dispatch.{process_one_line, written}
use mcp_web_search.Server.Parsing.{Serde}
use mcp_web_search.Server.Handlers.{Actions}
use mcp_web_search.Config.{Config}
use mcp_web_search.Protocol.{error_response}
use mcp_web_search.Errors.{WebSearchError, WsResult, invalid_params, error_code, to_string}
use mcp_web_search.Net.{UrlLib, Io, ret, bind}

abbrev oversize : ℕ → WebSearchError
oversize cap =
    invalid_params (lit "Request exceeds maximum size of " ++ (show_nat cap ++ lit " bytes"))

unfoldable pub write_oversize_error : Serde → ℕ → WsResult (List Text)
write_oversize_error S cap =
    written
      (S.to_writer (error_response none (error_code (oversize cap)) (to_string (oversize cap))))

-- All that was written, and whether the loop ended well. No fuel was left where this is none.
abbrev pub Session : Type 0
Session = Option (List Text × WsResult (Unit {0}))

abbrev pub after_lines : List Text → Session → Session
after_lines lines none = none
after_lines lines (some (more, end)) = some (lines ++ more, end)

-- The rest of the loop after `?` on what was written.
abbrev pub ended : WsResult (List Text) → Session
ended (err e) = some ([], err e)
ended (ok lines) = some (lines, ok tt)

module _ (U : UrlLib) (A : Actions U) (config : Config) (version instructions : Text)
    (S : Serde) where
  -- One round after its line was answered; `again` is the rest of the session.
  unfoldable pub continued : Io U Session → WsResult (List Text) → Io U Session
  continued again (err e) = ret (some ([], err e))
  continued again (ok lines) = bind again (λ session. ret (after_lines lines session))

  -- One round, by what was read.
  unfoldable pub round : Io U Session → Result Text (LineRead × Text) → Io U Session
  unfolding continued
  round again (err e) = ret (some ([], ok tt))
  round again (ok (eof, text)) = ret (some ([], ok tt))
  round again (ok (line, text)) =
      bind (process_one_line U A config version instructions S text) (continued again)
  round again (ok (too_long, text)) =
      ret (ended (write_oversize_error S config.server.max_request_bytes))

  unfoldable pub serve : ℕ → List Fill → Io U Session
  unfolding round
  serve zero fills = ret none
  serve (suc fuel) fills =
      let taken = read_line_capped config.server.max_request_bytes fills in
      round (serve fuel taken.1) taken.0

  -- Each round that answers a line reads a byte at least, so this fuel is enough.
  unfoldable pub run_stdio : List Fill → Io U Session
  unfolding serve
  run_stdio fills = serve (suc (weight fills)) fills
