-- ===== src/Validation.antt =====
-- src/validation.rs: which addresses and URLs the program may reach.
pub mod Vetted
pub mod Blocks
pub mod Laws
pub mod Blocking
use mcp_web_search.Net.{
  Io, lookup_host, on_ok, ask, bind, domain, pure, ipv6, v6, ◌>>=◌, ipv4, v4, ret, SocketAddr, Task,
  Host, IpAddr, UrlLib, Ipv6Addr,
}
use mcp_web_search.Errors.{refuse_if, url_not_allowed, WsResult, WebSearchError}
use mcp_web_search.Base.{
  [], is_ok, true, none, ◌∷◌, ◌%◌, is_some, false, err, some, ◌*◌, within, text_eq, ◌/◌, ◌&&◌,
  Result, List, try, ok, if◌then◌else◌, ◌++◌, ◌||◌, ◌==◌, Option, show_nat, Bool, Text, lit,
}
use mcp_web_search.Net.{Ipv4Addr}

-- The octet tests. A mask `o & 0xC0` keeps the two high bits, which is `o / 64 * 64`; `o & 0xFE`
-- is `o / 2 * 2`. The private ranges and the like are those of `std::net::Ipv4Addr`.
is_loopback_v4 : Ipv4Addr → Bool
is_loopback_v4 ip = ip.a == 127

is_private_v4 : Ipv4Addr → Bool
is_private_v4 ip = ip.a == 10 || ip.a == 172 && within 16 31 ip.b || ip.a == 192 && ip.b == 168

is_link_local_v4 : Ipv4Addr → Bool
is_link_local_v4 ip = ip.a == 169 && ip.b == 254

is_broadcast_v4 : Ipv4Addr → Bool
is_broadcast_v4 ip = ip.a == 255 && ip.b == 255 && ip.c == 255 && ip.d == 255

is_documentation_v4 : Ipv4Addr → Bool
is_documentation_v4 ip =
    ip.a == 192 && ip.b == 0 && ip.c == 2
    || ip.a == 198 && ip.b == 51 && ip.c == 100
    || ip.a == 203 && ip.b == 0 && ip.c == 113

is_unspecified_v4 : Ipv4Addr → Bool
is_unspecified_v4 ip = ip.a == 0 && ip.b == 0 && ip.c == 0 && ip.d == 0

unfoldable pub blocked_v4 : Ipv4Addr → Bool
unfolding is_loopback_v4 is_private_v4 is_link_local_v4 is_broadcast_v4 is_documentation_v4
    is_unspecified_v4
blocked_v4 ip =
    is_loopback_v4 ip
    || is_private_v4 ip
    || is_link_local_v4 ip
    || is_broadcast_v4 ip
    || is_documentation_v4 ip
    || is_unspecified_v4 ip
    || ip.a == 0
    || ip.a == 100 && ip.b / 64 * 64 == 0x40
    || ip.a == 198 && ip.b / 2 * 2 == 0x12
    || ip.a == 198 && ip.b == 51 && ip.c == 100
    || ip.a == 203 && ip.b == 0 && ip.c == 113

-- `Display` of an `Ipv4Addr`.
show_ipv4 : Ipv4Addr → Text
show_ipv4 ip =
    show_nat ip.a
    ++ (lit "." ++ (show_nat ip.b ++ (lit "." ++ (show_nat ip.c ++ (lit "." ++ show_nat ip.d)))))

abbrev refused : Text → WebSearchError
refused shown = url_not_allowed (
    lit "address "
    ++ (shown
        ++ lit " is in a blocked (private/internal) range; pass --allow-private-hosts to override"))

unfoldable pub guard_ipv4 : Ipv4Addr → WsResult (Unit {0})
unfolding show_ipv4
guard_ipv4 ip = refuse_if (blocked_v4 ip) (refused (show_ipv4 ip))

-- The segment tests: `s & 0xFE00` is `s / 512 * 512`, `s & 0xFFC0` is `s / 64 * 64`.
is_loopback_v6 : Ipv6Addr → Bool
is_loopback_v6 ip =
    ip.s0 == 0
    && ip.s1 == 0
    && ip.s2 == 0
    && ip.s3 == 0
    && ip.s4 == 0
    && ip.s5 == 0
    && ip.s6 == 0
    && ip.s7 == 1

is_unspecified_v6 : Ipv6Addr → Bool
is_unspecified_v6 ip =
    ip.s0 == 0
    && ip.s1 == 0
    && ip.s2 == 0
    && ip.s3 == 0
    && ip.s4 == 0
    && ip.s5 == 0
    && ip.s6 == 0
    && ip.s7 == 0

unfoldable pub blocked_v6 : Ipv6Addr → Bool
unfolding is_loopback_v6 is_unspecified_v6
blocked_v6 ip =
    is_loopback_v6 ip
    || is_unspecified_v6 ip
    || ip.s0 / 512 * 512 == 0xFC00
    || ip.s0 / 64 * 64 == 0xFE80

-- `Ipv6Addr::to_ipv4_mapped`: ::ffff:a.b.c.d
unfoldable pub to_ipv4_mapped : Ipv6Addr → Option Ipv4Addr
to_ipv4_mapped ip =
    if ip.s0 == 0 && ip.s1 == 0 && ip.s2 == 0 && ip.s3 == 0 && ip.s4 == 0 && ip.s5 == 0xFFFF
    then some (record { a = ip.s6 / 256; b = ip.s6 % 256; c = ip.s7 / 256; d = ip.s7 % 256 })
    else none

abbrev guard_mapped : Option Ipv4Addr → WsResult (Unit {0})
guard_mapped none = ok tt
guard_mapped (some ip) = guard_ipv4 ip

module _ (U : UrlLib) where
  unfoldable pub guard_ipv6 : Ipv6Addr → WsResult (Unit {0})
  guard_ipv6 ip =
      try (refuse_if (blocked_v6 ip) (refused (U.show_ipv6 ip)))
        (λ _. guard_mapped (to_ipv4_mapped ip))

  unfoldable pub guard_ip : IpAddr → WsResult (Unit {0})
  guard_ip (v4 ip) = guard_ipv4 ip
  guard_ip (v6 ip) = guard_ipv6 ip

  unfoldable pub validate_ip : IpAddr → Bool → WsResult (Unit {0})
  unfolding guard_ip
  validate_ip ip allow_private = if allow_private then ok tt else guard_ip ip

  abbrev pub non_public : Text → WebSearchError
  non_public name =
      url_not_allowed (lit "host '" ++ (name ++ lit "' resolves to a non-public address"))

  abbrev pub no_addresses : Text → WebSearchError
  no_addresses name = url_not_allowed (lit "host '" ++ (name ++ lit "' resolved to no addresses"))

  -- The loop of `check_addrs`; the flag is `saw_any`.
  check_from : Bool → List SocketAddr → Text → WsResult (Unit {0})
  check_from saw_any [] name = if saw_any then ok tt else err (no_addresses name)
  check_from saw_any (addr ∷ addrs) name =
      let rest = check_from true addrs name in
      if is_ok (guard_ip addr.ip) then rest else err (non_public name)

  unfoldable pub check_addrs : List SocketAddr → Text → WsResult (Unit {0})
  unfolding check_from
  check_addrs addrs name = check_from false addrs name

  -- What `parse_and_check_scheme_host` says of a URL that parsed.
  checked : Text → U.Url → WsResult U.Url
  checked raw url =
      if text_eq (U.scheme url) (lit "http") || text_eq (U.scheme url) (lit "https")
      then (if is_some (U.host url)
          then ok url
          else err (url_not_allowed (lit "URL '" ++ (raw ++ lit "' has no host"))))
      else err (
          url_not_allowed
            (lit "scheme '" ++ (U.scheme url ++ lit "' is not allowed (only http/https)")))

  checked_parse : Text → Result Text U.Url → WsResult U.Url
  unfolding checked
  checked_parse raw (err e) =
      err (url_not_allowed (lit "invalid URL '" ++ (raw ++ (lit "': " ++ e))))
  checked_parse raw (ok url) = checked raw url

  unfoldable pub parse_and_check_scheme_host : Text → WsResult U.Url
  unfolding checked_parse
  parse_and_check_scheme_host raw = checked_parse raw (U.parse raw)

  -- The addresses of a domain, checked.
  abbrev resolved : Text → Result Text (List SocketAddr) → Task U (Unit {0})
  resolved name (err e) =
      ret (err (url_not_allowed (lit "cannot resolve host '" ++ (name ++ (lit "': " ++ e)))))
  resolved name (ok addrs) = ret (check_addrs addrs name)

  check_host : Option Host → Task U (Unit {0})
  check_host (some (ipv4 ip)) = ret (guard_ipv4 ip)
  check_host (some (ipv6 ip)) = ret (guard_ipv6 ip)
  check_host (some (domain name)) = ask (lookup_host name 0) (resolved name)
  check_host none = ret (ok tt)

  unfoldable pub check_host_async : U.Url → Task U (Unit {0})
  unfolding check_host
  check_host_async url = check_host (U.host url)

  -- What follows the checks of scheme and host.
  clear : Bool → U.Url → Task U U.Url
  clear true url = pure (ok url)
  clear false url = bind (check_host_async url) (on_ok (λ _. pure (ok url)))

  unfoldable pub validate_url : Text → Bool → Task U U.Url
  unfolding clear
  validate_url raw allow_private = do
    url ← pure (parse_and_check_scheme_host raw)
    clear allow_private url

  -- The blocking twins. DNS is asked by `to_socket_addrs`, the same query.
  host_blocking : Option Host → Task U (Unit {0})
  host_blocking (some (ipv4 ip)) = ret (guard_ipv4 ip)
  host_blocking (some (ipv6 ip)) = ret (guard_ipv6 ip)
  host_blocking (some (domain name)) = ask (lookup_host name 0) (resolved name)
  host_blocking none = ret (ok tt)

  unfoldable pub check_host_blocking : U.Url → Task U (Unit {0})
  unfolding host_blocking
  check_host_blocking url = host_blocking (U.host url)

  clear_blocking : Bool → U.Url → Task U U.Url
  clear_blocking true url = pure (ok url)
  clear_blocking false url = bind (check_host_blocking url) (on_ok (λ _. pure (ok url)))

  unfoldable pub validate_url_blocking : Text → Bool → Task U U.Url
  unfolding clear_blocking
  validate_url_blocking raw allow_private = do
    url ← pure (parse_and_check_scheme_host raw)
    clear_blocking allow_private url

  unfoldable pub is_safe_host : Text → Io U Bool
  is_safe_host raw = bind (validate_url_blocking raw false) (λ r. ret (is_ok r))
