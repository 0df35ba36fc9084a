-- ===== src/Client.antt =====
-- src/client.rs: the client for a validated URL, and the fetching of a page through redirects. The
-- loop `for hop in 0..=max_redirects` recurs on the rounds left, `max_redirects + 1` at the start.
pub mod Body
pub mod Safety
pub mod Bounds
use mcp_web_search.Validation.{non_public, validate_ip, validate_url}
use mcp_web_search.Errors.{
  url_not_allowed, http_error, timeout, WsResult, response_too_large, WebSearchError,
}
use mcp_web_search.Base.{
  zero, ltb, false, unwrap_or, length, true, none, is_ok, min, ◌+◌, suc, ◌∷◌, from_utf8_lossy,
  show_nat, try, ◌==◌, ◌&&◌, Bool, some, err, map, [], ok, ◌++◌, ◌-◌, if◌then◌else◌, ◌^◌, Option,
  Result, List, ℕ, Text, lit,
}
use mcp_web_search.Net.{
  get, elapsed, build_client, replied, lookup_host, ◌>>◌, failed, shared, domain, pinned, send, ret,
  ◌>>=◌, pure, ask, Host, SocketAddr, Response, Client, Reply, Failure, Task, UrlLib,
}
use mcp_web_search.Config.{Config}

pub record FetchedPage (U : UrlLib) : Type 0 where
  pub final_url : U.Url
  pub body : Text

abbrev pub usize_max : ℕ
usize_max = 2 ^ 64 - 1

abbrev too_large : ℕ → WebSearchError
too_large cap = response_too_large (lit "response body exceeds " ++ (show_nat cap ++ lit " bytes"))

-- The loop of `read_capped` over the chunks of the body, with the total so far and the buffer.
read_from : ℕ → ℕ → Text → List (Result Text Text) → WsResult Text
read_from cap total buf [] = ok (from_utf8_lossy buf)
read_from cap total buf (err e ∷ chunks) = err (http_error (lit "body stream error: " ++ e))
read_from cap total buf (ok chunk ∷ chunks) =
    let total' = min (total + length chunk) usize_max in
    let rest = read_from cap total' (buf ++ chunk) chunks in
    if ltb cap total' then err (too_large cap) else rest

unfoldable pub read_capped : List (Result Text Text) → ℕ → WsResult Text
unfolding read_from
read_capped chunks cap = read_from cap 0 [] chunks

-- `status.is_redirection()` and the like are what the response says; see `Response`.
module _ (U : UrlLib) (config : Config) where
  -- The loop over the resolved addresses: all must pass.
  unfoldable pub validate_all : Text → List SocketAddr → WsResult (Unit {0})
  validate_all name [] = ok tt
  validate_all name (addr ∷ addrs) =
      let rest = validate_all name addrs in
      if is_ok (validate_ip U addr.ip config.allow_private_hosts)
      then rest
      else err (non_public U name)

  -- `builder.resolve(&domain, *addr)` for each address.
  abbrev pins_for : Text → List SocketAddr → List (Text × SocketAddr)
  pins_for name = map (λ addr. (name, addr))

  abbrev built : List (Text × SocketAddr) → Option Text → Task U Client
  built pins none = ret (ok (pinned pins))
  built pins (some e) = ret (err (http_error (lit "failed to build pinned client: " ++ e)))

  build_from : Text → Result Text (List SocketAddr) → Task U Client
  build_from name (err e) =
      ret
        (err (url_not_allowed (lit "DNS pinning: cannot resolve '" ++ (name ++ (lit "': " ++ e)))))
  build_from name (ok addrs) = do
    pure (validate_all name addrs)
    ask (build_client (pins_for name addrs)) (built (pins_for name addrs))

  pin_host : Option Host → Option ℕ → Task U Client
  unfolding build_from
  pin_host (some (domain name)) port = ask (lookup_host name (unwrap_or port 0)) (build_from name)
  pin_host _ port = ret (err (url_not_allowed (lit "DNS pinning only applies to domain hosts")))

  unfoldable pub build_pinned_client : U.Url → Task U Client
  unfolding pin_host
  build_pinned_client url = pin_host (U.host url) (U.port_or_known_default url)

  abbrev is_domain : Option Host → Bool
  is_domain (some (domain name)) = true
  is_domain _ = false

  unfoldable pub client_for : U.Url → Task U Client
  unfolding build_pinned_client
  client_for url =
      if config.dns_pin && is_domain (U.host url) then build_pinned_client url else ret (ok shared)

  -- The errors of a request to a URL.
  failure : U.Url → Failure → WebSearchError
  failure url f =
      if f.is_timeout
      then timeout (lit "request to " ++ (U.as_str url ++ lit " timed out"))
      else if f.is_connect
      then http_error (lit "connection to " ++ (U.as_str url ++ (lit " failed: " ++ f.message)))
      else http_error (lit "request to " ++ (U.as_str url ++ (lit " failed: " ++ f.message)))

  received : U.Url → Reply → WsResult Response
  unfolding failure
  received url elapsed = err (timeout (lit "fetching " ++ U.as_str url))
  received url (failed f) = err (failure url f)
  received url (replied resp) = ok resp

  request : Client → U.Url → Task U Response
  unfolding received
  request client url = ask (send get client url) (λ reply. ret (received url reply))

  unfoldable pub joined : Text → Result Text U.Url → WsResult Text
  joined location (err e) =
      err (http_error (lit "invalid redirect target '" ++ (location ++ (lit "': " ++ e))))
  joined location (ok next) = ok (U.as_str next)

  unfoldable pub location_of : ℕ → U.Url → Option Text → WsResult Text
  unfolding joined
  location_of hop url none = err (
      http_error (
        lit "redirect #"
        ++ (show_nat hop ++ (lit " from " ++ (U.as_str url ++ lit " without Location header")))))
  location_of hop url (some location) = joined location (U.join url location)

  unfoldable pub exceeded : Text → WebSearchError
  exceeded start =
      http_error
        (lit "exceeded " ++ (show_nat config.max_redirects ++ (lit " redirects from " ++ start)))

  -- Where a redirect leads, as the text that is validated next.
  redirect_target : Text → ℕ → U.Url → Response → WsResult Text
  unfolding location_of exceeded
  redirect_target start hop url resp =
      if hop == config.max_redirects
      then err (exceeded start)
      else location_of hop url resp.location

  page_of : U.Url → Response → WsResult (FetchedPage U)
  page_of url resp =
      if resp.is_success
      then try (read_capped resp.chunks config.max_response_bytes)
          (λ body. ok (record { final_url = url; body = body }))
      else err (http_error (U.as_str url ++ (lit " returned HTTP " ++ show_nat resp.status)))

  -- The body of the loop once the response is there; `again` is the next round.
  after_response :
      Text → ℕ → (U.Url → Task U (FetchedPage U)) → U.Url → Response → Task U (FetchedPage U)
  unfolding redirect_target page_of
  after_response start hop again url resp =
      if resp.is_redirection
      then (pure (redirect_target start hop url resp) >>= λ raw.
          validate_url U raw config.allow_private_hosts >>= again)
      else pure (page_of url resp)

  fetch_from : Text → ℕ → ℕ → U.Url → Task U (FetchedPage U)
  unfolding after_response request exceeded
  fetch_from start zero hop url = pure (err (exceeded start))
  fetch_from start (suc rounds) hop url = do
    client ← client_for url
    resp ← request client url
    after_response start hop (λ next. fetch_from start rounds (hop + 1) next) url resp

  unfoldable pub fetch_page : Text → Task U (FetchedPage U)
  unfolding fetch_from
  fetch_page start = do
    url ← validate_url U start config.allow_private_hosts
    fetch_from start (config.max_redirects + 1) 0 url
