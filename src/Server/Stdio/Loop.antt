-- ===== src/Server/Stdio/Loop.antt =====
-- The session of `run_stdio` in src/server.rs, against the lines of the whole stream.
use mcp_web_search.Server.Dispatch.{process_one_line}
use mcp_web_search.Net.Logic.{Runs-bind, Runs}
use mcp_web_search.Config.{Config}
use mcp_web_search.Server.Handlers.{Actions}
use mcp_web_search.Net.{Io, UrlLib}
use mcp_web_search.Errors.{WebSearchError, WsResult}
use mcp_web_search.Base.{
  zero, subst, suc, All, refl, inr, inl, ◌++◌, Bool-cases, err, from_utf8_lossy, ap, leb, arith,
  true, ◌∷◌, ◌≡◌, none, length, ◌<◌, some, ltb, ok, [], List, Text, ℕ,
}
use mcp_web_search.Server.Parsing.{parse_request, Serde}
use mcp_web_search.Server.Stdio.{
  serve, round, continued, run_stdio, ended, after_lines, Session, write_oversize_error,
}
use mcp_web_search.Server.Lines.{Fill, read_line_capped, weight}
use mcp_web_search.Server.Lines.Chunks.{
  IsQuiet, stream, first_line, after_line, verdict, verdict-line, read_line_capped-stream,
}
use mcp_web_search.Server.Lines.Progress.{read_line_capped-Shrinks}
use mcp_web_search.Server.Dispatch.Answers.{IsAnswer, process_one_line-IsAnswer}

-- A session on a stream, with what it writes and how it ends: lines are answered in turn, each
-- before the next is read, up to the end, a failure to write a response as JSON, or a line that is
-- longer than `cap`.
pub data Served (S : Serde) (cap : ℕ) : Text → List Text → WsResult (Unit {0}) → Type 0 where
  closed : Served S cap [] [] (ok tt)
  refused :
      (s out : Text) (lines : List Text) (end : WsResult (Unit {0}))
      → ltb cap (length (first_line s)) ≡ true
      → ended (write_oversize_error S cap) ≡ some (lines, end)
      → Served S cap s lines end
  failed :
      (s : Text) (e : WebSearchError)
      → leb (length (first_line s)) cap ≡ true
      → IsAnswer S (parse_request S (from_utf8_lossy (first_line s))) (err e)
      → Served S cap s [] (err e)
  answered :
      (s : Text) (lines more : List Text) (end : WsResult (Unit {0}))
      → 0 < length s
      → leb (length (first_line s)) cap ≡ true
      → IsAnswer S (parse_request S (from_utf8_lossy (first_line s))) (ok lines)
      → Served S cap (after_line s) more end
      → Served S cap s (lines ++ more) end

-- A session that came to its end and answered the stream.
abbrev pub IsServed : Serde → ℕ → Text → Session → Type 0
IsServed S cap s none = ⊥
IsServed S cap s (some (out, end)) = Served S cap s out end

ended-refused :
    (S : Serde) (cap : ℕ) (s : Text)
    → ltb cap (length (first_line s)) ≡ true
    → (r : WsResult (List Text)) → write_oversize_error S cap ≡ r
    → IsServed S cap s (ended r)
ended-refused S cap s long (ok lines) e = refused s [] lines (ok tt) long (ap ended e)
ended-refused S cap s long (err x) e = refused s [] [] (err x) long (ap ended e)

first_line-nonempty : (b : ℕ) (bs : Text) → 0 < length (first_line (b ∷ bs))
first_line-nonempty b bs = ground arith

module _ (U : UrlLib) (A : Actions U) (config : Config) (version instructions : Text)
    (S : Serde) where
  after_lines-IsServed :
      (s : Text) (lines : List Text)
      → 0 < length s
      → leb (length (first_line s)) config.server.max_request_bytes ≡ true
      → IsAnswer S (parse_request S (from_utf8_lossy (first_line s))) (ok lines)
      → (session : Session) → IsServed S config.server.max_request_bytes (after_line s) session
      → IsServed S config.server.max_request_bytes s (after_lines lines session)
  after_lines-IsServed s lines some_bytes fits a none h = h
  after_lines-IsServed s lines some_bytes fits a (some (more, end)) h =
      answered s lines more end some_bytes fits a h

  continued-IsServed :
      (s : Text) (again : Io U Session)
      → 0 < length s
      → leb (length (first_line s)) config.server.max_request_bytes ≡ true
      → Runs (λ _. Unit {0}) (IsServed S config.server.max_request_bytes (after_line s)) again
      → (r : WsResult (List Text)) → IsAnswer S (parse_request S (from_utf8_lossy (first_line s))) r
      → Runs
          (λ _. Unit {0})
          (IsServed S config.server.max_request_bytes s)
          (continued U A config version instructions S again r)
  unfolding continued
  continued-IsServed s again some_bytes fits h (err e) a = failed s e fits a
  continued-IsServed s again some_bytes fits h (ok lines) a =
      Runs-bind (λ _. Unit {0}) (IsServed S config.server.max_request_bytes (after_line s))
        (IsServed S config.server.max_request_bytes s) again _ h
        (after_lines-IsServed s lines some_bytes fits a)

  round-IsServed :
      (s : Text) (again : Io U Session)
      → (leb (length (first_line s)) config.server.max_request_bytes ≡ true
          → Runs (λ _. Unit {0}) (IsServed S config.server.max_request_bytes (after_line s)) again)
      → Runs
          (λ _. Unit {0})
          (IsServed S config.server.max_request_bytes s)
          (round U A config version instructions S again
            (verdict config.server.max_request_bytes (first_line s)))
  unfolding round
  round-IsServed [] again h = closed
  round-IsServed (b ∷ bs) again h =
      let s = b ∷ bs in
      let cap_bytes = config.server.max_request_bytes in
      elim (Bool-cases (ltb cap_bytes (length (first_line s)))) [
        | inl e ↦
            rw (verdict-line cap_bytes (first_line s) (first_line-nonempty b bs), e)
              (ended-refused S cap_bytes s e (write_oversize_error S cap_bytes) refl)
        | inr e ↦
            let fits : leb (length (first_line s)) cap_bytes ≡ true = ground (arith, e) in
            rw (verdict-line cap_bytes (first_line s) (first_line-nonempty b bs), e)
              (Runs-bind (λ _. Unit {0})
                (IsAnswer S (parse_request S (from_utf8_lossy (first_line s))))
                (IsServed S cap_bytes s)
                (process_one_line U A config version instructions S
                  (from_utf8_lossy (first_line s)))
                (continued U A config version instructions S again)
                (process_one_line-IsAnswer U A config version instructions S
                  (from_utf8_lossy (first_line s)))
                (continued-IsServed s again (omega arith) fits (h fits)))
      ]

  serve-IsServed :
      (fuel : ℕ) (fills : List Fill)
      → weight fills < fuel
      → All IsQuiet fills
      → Runs
          (λ _. Unit {0})
          (IsServed S config.server.max_request_bytes (stream fills))
          (serve U A config version instructions S fuel fills)
  unfolding serve round
  serve-IsServed zero fills enough quiet = omega (arith, enough)
  serve-IsServed (suc fuel) [] enough quiet =
      rw (read_line_capped-stream config.server.max_request_bytes [] quiet).0 closed
  serve-IsServed (suc fuel) (fill ∷ fills) enough quiet =
      let cap_bytes = config.server.max_request_bytes in
      let read = read_line_capped-stream cap_bytes (fill ∷ fills) quiet in
      let left = read_line_capped-Shrinks cap_bytes fill fills quiet in
      rw (read.0) (
        round-IsServed (stream (fill ∷ fills))
          (serve U A config version instructions S fuel
            (read_line_capped cap_bytes (fill ∷ fills)).1)
          (λ fits.
            subst
              (λ s.
                Runs (λ _. Unit {0}) (IsServed S cap_bytes s)
                  (serve U A config version instructions S fuel
                    (read_line_capped cap_bytes (fill ∷ fills)).1))
              (read.1 fits)
              (serve-IsServed fuel (read_line_capped cap_bytes (fill ∷ fills)).1
                (omega (arith, left.0, enough)) left.1)))

  -- On a stream without an I/O error, whatever the network and the clock do, `run_stdio` comes to
  -- an end; the lines are answered in turn, each as `IsAnswer` says, up to the end of the stream, a
  -- failure to write a response as JSON, or a line over the cap, which is reported.
  pub run_stdio-IsServed :
      (fills : List Fill)
      → All IsQuiet fills
      → Runs
          (λ _. Unit {0})
          (IsServed S config.server.max_request_bytes (stream fills))
          (run_stdio U A config version instructions S fills)
  unfolding run_stdio
  run_stdio-IsServed fills quiet = serve-IsServed (suc (weight fills)) fills (omega arith) quiet
