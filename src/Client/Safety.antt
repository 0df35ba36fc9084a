-- ===== src/Client/Safety.antt =====
-- What `fetch_page` of src/client.rs asks of the network: every request goes to a validated URL,
-- and with DNS pinning through a client that is pinned to validated addresses.
use mcp_web_search.Validation.Vetted.{Vets-if, Vets->>=, Vets}
use mcp_web_search.Base.{
  arith, zero, ◌&&◌, ok, suc, if◌then◌else◌, err, ◌+◌, ℕ, Result, refl, [], false, none, ◌∷◌, true,
  List, All, some, ◌≡◌, Option, Text, is_ok,
}
use mcp_web_search.Net.{
  ipv6, ipv4, ask, Host, domain, SocketAddr, Client, shared, pinned, UrlLib, Query, lookup_host,
  build_client, send, expired, call, drive, ret, Task, Response,
}
use mcp_web_search.Net.Logic.{OnOk-weaken, OnOk-try, OnOk-Unit, OnOk-if, OnOk}
use mcp_web_search.Validation.{non_public, validate_ip, validate_url}
use mcp_web_search.Validation.Laws.{IsTarget, IsGuardLookup, validate_url-IsTarget}
use mcp_web_search.Config.{Config}
use mcp_web_search.Client.{
  FetchedPage, fetch_page, fetch_from, after_response, page_of, client_for, build_pinned_client,
  build_from, validate_all, pins_for, pin_host, built, request, received, is_domain,
  redirect_target, read_capped,
}

module _ (U : UrlLib) (config : Config) where
  -- An address that may be connected to.
  abbrev pub IsOpen : SocketAddr → Type 0
  IsOpen addr = is_ok (validate_ip U addr.ip config.allow_private_hosts) ≡ true

  -- A call of `resolve` that pins `name` to such an address.
  abbrev pub IsPin : Text → Text × SocketAddr → Type 0
  IsPin name (pin_name, addr) = (pin_name ≡ name) × IsOpen addr

  -- A client for a host: with DNS pinning, the one for a domain has the pins of that domain only.
  abbrev pub IsClientFor : Option Host → Client → Type 0
  IsClientFor (some (domain name)) (pinned pins) = (config.dns_pin ≡ true) × All (IsPin name) pins
  IsClientFor (some (domain name)) shared = config.dns_pin ≡ false
  IsClientFor _ (pinned pins) = ⊥
  IsClientFor _ shared = Unit

  -- A query that is safe to put.
  abbrev pub IsSafe : Query U → Type 0
  IsSafe (lookup_host name port) = Unit
  IsSafe (build_client pins) = (name : Text) × All (IsPin name) pins
  IsSafe (send method client url) =
      IsTarget U config.allow_private_hosts url × IsClientFor (U.host url) client
  IsSafe expired = ⊥
  IsSafe (call req) = ⊥
  IsSafe (drive d) = ⊥

  pub Vets-weaken :
      {A : Type 0} (P Q : Query U → Type 0) (R : A → Type 0) (m : Task U A)
      → ((q : Query U) → P q → Q q)
      → Vets P (OnOk R) m
      → Vets Q (OnOk R) m
  Vets-weaken P Q R (ret a) f h = h
  Vets-weaken P Q R (ask q k) f h =
      (f q h.0, λ x admitted. Vets-weaken P Q R (k x) f (h.1 x admitted))

  IsGuardLookup-IsSafe : (q : Query U) → IsGuardLookup U config.allow_private_hosts q → IsSafe q
  IsGuardLookup-IsSafe (lookup_host name port) h = tt
  IsGuardLookup-IsSafe (build_client pins) h = elim h [ ]
  IsGuardLookup-IsSafe (send method client url) h = elim h [ ]
  IsGuardLookup-IsSafe expired h = elim h [ ]
  IsGuardLookup-IsSafe (call req) h = elim h [ ]
  IsGuardLookup-IsSafe (drive d) h = elim h [ ]

  pub validate_url-IsSafe :
      (raw : Text)
      → Vets IsSafe
          (OnOk (IsTarget U config.allow_private_hosts))
          (validate_url U raw config.allow_private_hosts)
  validate_url-IsSafe raw =
      Vets-weaken (IsGuardLookup U config.allow_private_hosts) IsSafe
        (IsTarget U config.allow_private_hosts) (validate_url U raw config.allow_private_hosts)
        IsGuardLookup-IsSafe (validate_url-IsTarget U raw config.allow_private_hosts)

  validate_all-IsPin :
      (name : Text) (addrs : List SocketAddr)
      → OnOk
          (λ _. All (IsPin name) (pins_for U config name addrs))
          (validate_all U config name addrs)
  unfolding validate_all
  validate_all-IsPin name [] = tt
  validate_all-IsPin name (addr ∷ addrs) =
      OnOk-if _ (is_ok (validate_ip U addr.ip config.allow_private_hosts))
        (validate_all U config name addrs) (err (non_public U name))
        (λ passes.
          OnOk-weaken _ _ (validate_all U config name addrs) (λ _ h. ((refl, passes), h))
            (validate_all-IsPin name addrs))
        (λ _. tt)

  module _ (pins_on : config.dns_pin ≡ true) where
    built-IsClientFor :
        (name : Text) (pins : List (Text × SocketAddr))
        → All (IsPin name) pins
        → (o : Option Text)
        → Vets IsSafe (OnOk (IsClientFor (some (domain name)))) (built U config pins o)
    built-IsClientFor name pins h none = (pins_on, h)
    built-IsClientFor name pins h (some e) = tt

    build_from-IsClientFor :
        (name : Text) (r : Result Text (List SocketAddr))
        → Vets IsSafe (OnOk (IsClientFor (some (domain name)))) (build_from U config name r)
    unfolding build_from
    build_from-IsClientFor name (err e) = tt
    build_from-IsClientFor name (ok addrs) =
        Vets->>= IsSafe (λ _. All (IsPin name) (pins_for U config name addrs))
          (IsClientFor (some (domain name))) (ret (validate_all U config name addrs))
          (λ _.
            ask (build_client (pins_for U config name addrs))
              (built U config (pins_for U config name addrs)))
          (validate_all-IsPin name addrs)
          (λ _ h. ((name, h), λ o _. built-IsClientFor name (pins_for U config name addrs) h o))

  -- The choice of `client_for`, by the host.
  chosen-IsClientFor :
      (host : Option Host) (port : Option ℕ)
      → Vets IsSafe (OnOk (IsClientFor host)) (
          if config.dns_pin && is_domain U config host
          then pin_host U config host port
          else ret (ok shared))
  unfolding pin_host
  chosen-IsClientFor none port = Vets-if IsSafe _ (config.dns_pin && false) _ _ (λ _. tt) (λ _. tt)
  chosen-IsClientFor (some (ipv4 ip)) port =
      Vets-if IsSafe _ (config.dns_pin && false) _ _ (λ _. tt) (λ _. tt)
  chosen-IsClientFor (some (ipv6 ip)) port =
      Vets-if IsSafe _ (config.dns_pin && false) _ _ (λ _. tt) (λ _. tt)
  chosen-IsClientFor (some (domain name)) port =
      Vets-if IsSafe _ (config.dns_pin && true) _ _
        (λ e. (tt, λ r _. build_from-IsClientFor (ground (arith, e)) name r))
        (λ e. ground (arith, e))

  pub client_for-IsClientFor :
      (url : U.Url) → Vets IsSafe (OnOk (IsClientFor (U.host url))) (client_for U config url)
  unfolding client_for build_pinned_client
  client_for-IsClientFor url = chosen-IsClientFor (U.host url) (U.port_or_known_default url)

  -- A page that was fetched from a validated URL.
  abbrev pub IsFetched : FetchedPage U → Type 0
  IsFetched page = IsTarget U config.allow_private_hosts page.final_url

  page_of-IsFetched :
      (url : U.Url) (resp : Response)
      → IsTarget U config.allow_private_hosts url
      → OnOk IsFetched (page_of U config url resp)
  unfolding page_of
  page_of-IsFetched url resp t =
      OnOk-if _ resp.is_success _ _
        (λ _. OnOk-try _ (read_capped resp.chunks config.max_response_bytes) _ (λ _ _. t)) (λ _. tt)

  request-IsSafe :
      (client : Client) (url : U.Url)
      → IsTarget U config.allow_private_hosts url
      → IsClientFor (U.host url) client
      → Vets IsSafe (OnOk (λ _. Unit {0})) (request U config client url)
  unfolding request
  request-IsSafe client url t c = ((t, c), λ reply _. OnOk-Unit (received U config url reply))

  after_response-IsSafe :
      (start : Text) (hop : ℕ) (again : U.Url → Task U (FetchedPage U)) (url : U.Url)
      (resp : Response)
      → ((next : U.Url)
          → IsTarget U config.allow_private_hosts next
          → Vets IsSafe (OnOk IsFetched) (again next))
      → IsTarget U config.allow_private_hosts url
      → Vets IsSafe (OnOk IsFetched) (after_response U config start hop again url resp)
  unfolding after_response
  after_response-IsSafe start hop again url resp h t =
      Vets-if IsSafe (OnOk IsFetched) resp.is_redirection _ _
        (λ _.
          Vets->>= IsSafe (λ _. Unit {0}) IsFetched
            (ret (redirect_target U config start hop url resp)) _
            (OnOk-Unit (redirect_target U config start hop url resp))
            λ raw _.
              Vets->>= IsSafe (IsTarget U config.allow_private_hosts) IsFetched
                (validate_url U raw config.allow_private_hosts) again (validate_url-IsSafe raw) h)
        (λ _. page_of-IsFetched url resp t)

  fetch_from-IsSafe :
      (start : Text) (rounds hop : ℕ) (url : U.Url)
      → IsTarget U config.allow_private_hosts url
      → Vets IsSafe (OnOk IsFetched) (fetch_from U config start rounds hop url)
  unfolding fetch_from
  fetch_from-IsSafe start zero hop url t = tt
  fetch_from-IsSafe start (suc rounds) hop url t =
      Vets->>= IsSafe (IsClientFor (U.host url)) IsFetched (client_for U config url) _
        (client_for-IsClientFor url)
        λ client c.
          Vets->>= IsSafe (λ _. Unit {0}) IsFetched (request U config client url) _
            (request-IsSafe client url t c)
            λ resp _.
              after_response-IsSafe start hop (fetch_from U config start rounds (hop + 1)) url resp
                (fetch_from-IsSafe start rounds (hop + 1)) t

  -- Whatever the network answers, each request that `fetch_page` sends, after a redirect too, goes
  -- to an http or https URL with a host, and where private hosts are refused a host that is an
  -- address passes the guard, and one that is a domain was looked up before, by a lookup with one
  -- address at least that all pass. With DNS pinning a domain is reached only through a client whose
  -- pins, if it has any, are of that domain and, where private hosts are refused, at addresses that
  -- pass. A page that is returned came from such a URL.
  pub fetch_page-IsSafe : (start : Text) → Vets IsSafe (OnOk IsFetched) (fetch_page U config start)
  unfolding fetch_page
  fetch_page-IsSafe start =
      Vets->>= IsSafe (IsTarget U config.allow_private_hosts) IsFetched
        (validate_url U start config.allow_private_hosts) _ (validate_url-IsSafe start)
        (fetch_from-IsSafe start (config.max_redirects + 1) 0)
