-- ===== src/Validation/Laws.antt =====
-- What a validated address and a validated URL are.
use mcp_web_search.Validation.Vetted.{Vets->>=, Admits, Vets, passes}
use mcp_web_search.Errors.{WsResult}
use mcp_web_search.Net.Logic.{Runs-bind, Runs, OnOk}
use mcp_web_search.Validation.{
  clear, non_public, no_addresses, resolved, validate_url, check_host_async, checked_parse,
  guard_mapped, check_host, check_from, parse_and_check_scheme_host, check_addrs, guard_ipv6,
  to_ipv4_mapped, blocked_v6, guard_ipv4,
}
use mcp_web_search.Base.{
  ℕ, [], ◌∷◌, is_empty, ok, err, all, Result, none, ◌∙◌, if◌then◌else◌, refl, inr, is_some, inl,
  true, Bool-cases, within, ◌%◌, leb, any, false, some, ◌||◌, ◌/◌, ◌&&◌, not, lit, List, is_ok, ◌≡◌,
  arith, ◌==◌, ◌<◌, Bool, Option, text_eq, Text,
}
use mcp_web_search.Net.{
  bind, on_ok, ret, expired, call, drive, domain, send, ipv6, build_client, ipv4, lookup_host, Host,
  Ipv4Addr, SocketAddr, Ipv6Addr, UrlLib, Query,
}
use mcp_web_search.Validation.Blocks.{
  IsIpv4, octets, in_block, special_blocks, blocked_v4-special_blocks,
}

-- An IPv4 address passes the guard exactly when it lies in none of the special-purpose blocks.
pub guard_ipv4-special_blocks :
    (ip : Ipv4Addr) → IsIpv4 ip → is_ok (guard_ipv4 ip) ≡ not (any (in_block ip) special_blocks)
unfolding guard_ipv4
guard_ipv4-special_blocks ip v = rw (← blocked_v4-special_blocks ip v) (ground arith)

pub record IsIpv6 (ip : Ipv6Addr) : Type 0 where
  pub s0_word : ip.s0 < 65536
  pub s6_word : ip.s6 < 65536
  pub s7_word : ip.s7 < 65536

-- The address is 0:0:0:0:0:0:0:0 or 0:0:0:0:0:0:0:1.
abbrev pub is_zero_or_one : Ipv6Addr → Bool
is_zero_or_one ip =
    ip.s0 == 0
    && ip.s1 == 0
    && ip.s2 == 0
    && ip.s3 == 0
    && ip.s4 == 0
    && ip.s5 == 0
    && ip.s6 == 0
    && leb ip.s7 1

-- ::ffff:0:0/96, and the address in its last 32 bits.
abbrev pub is_mapped : Ipv6Addr → Bool
is_mapped ip = ip.s0 == 0 && ip.s1 == 0 && ip.s2 == 0 && ip.s3 == 0 && ip.s4 == 0 && ip.s5 == 0xFFFF

abbrev pub embedded : Ipv6Addr → Ipv4Addr
embedded ip = octets (ip.s6 / 256) (ip.s6 % 256) (ip.s7 / 256) (ip.s7 % 256)

embedded-IsIpv4 : (ip : Ipv6Addr) → IsIpv6 ip → IsIpv4 (embedded ip)
embedded-IsIpv4 ip v = omega arith

blocked_v6_ranges :
    (ip : Ipv6Addr)
    → blocked_v6 ip
      ≡ (is_zero_or_one ip || within 0xFC00 0xFDFF ip.s0 || within 0xFE80 0xFEBF ip.s0)
unfolding blocked_v6
blocked_v6_ranges ip = ground arith

to_ipv4_mapped-embedded :
    (ip : Ipv6Addr) → to_ipv4_mapped ip ≡ (if is_mapped ip then some (embedded ip) else none)
unfolding to_ipv4_mapped
to_ipv4_mapped-embedded ip = refl

module _ (U : UrlLib) where
  guard_ipv6_split :
      (ip : Ipv6Addr)
      → is_ok (guard_ipv6 U ip) ≡ (not (blocked_v6 ip) && is_ok (guard_mapped (to_ipv4_mapped ip)))
  unfolding guard_ipv6
  guard_ipv6_split ip = elim (Bool-cases (blocked_v6 ip)) [ inl e ↦ rw e refl | inr e ↦ rw e refl ]

  guard_mapped-special_blocks :
      (ip : Ipv6Addr)
      → IsIpv6 ip
      → is_ok (guard_mapped (to_ipv4_mapped ip))
        ≡ not (is_mapped ip && any (in_block (embedded ip)) special_blocks)
  guard_mapped-special_blocks ip v = elim (Bool-cases (is_mapped ip)) [
    | inl e ↦
        rw (to_ipv4_mapped-embedded, e)
          (guard_ipv4-special_blocks (embedded ip) (embedded-IsIpv4 ip v))
    | inr e ↦ rw (to_ipv4_mapped-embedded, e) refl
  ]

  -- An IPv6 address passes the guard exactly when it is neither :: nor ::1, lies neither in
  -- fc00::/7 nor in fe80::/10, and embeds no special-purpose IPv4 address as ::ffff:a.b.c.d.
  pub guard_ipv6_ranges :
      (ip : Ipv6Addr)
      → IsIpv6 ip
      → is_ok (guard_ipv6 U ip) ≡ (
          not (is_zero_or_one ip || within 0xFC00 0xFDFF ip.s0 || within 0xFE80 0xFEBF ip.s0)
          && not (is_mapped ip && any (in_block (embedded ip)) special_blocks))
  guard_ipv6_ranges ip v =
      guard_ipv6_split ip ∙ rw (blocked_v6_ranges ip, guard_mapped-special_blocks ip v) refl

  check_from_lem :
      (seen : Bool) (addrs : List SocketAddr) (name : Text)
      → check_from U seen addrs name ≡ (
          if all (passes U) addrs
          then (if seen || not (is_empty addrs) then ok tt else err (no_addresses U name))
          else err (non_public U name))
  unfolding check_from
  check_from_lem true [] name = refl
  check_from_lem false [] name = refl
  check_from_lem seen (addr ∷ addrs) name = ground (arith, check_from_lem true addrs name)

  -- The addresses of a domain are accepted exactly when there is one and all pass the guard. What
  -- else is reported depends on the addresses only in this verdict, so none is shown to the caller.
  pub check_addrs_verdict :
      (addrs : List SocketAddr) (name : Text)
      → check_addrs U addrs name ≡ (
          if all (passes U) addrs
          then (if is_empty addrs then err (no_addresses U name) else ok tt)
          else err (non_public U name))
  unfolding check_addrs
  check_addrs_verdict [] name = check_from_lem false [] name
  check_addrs_verdict (addr ∷ addrs) name = check_from_lem false (addr ∷ addrs) name

  -- An http or https URL with a host.
  abbrev pub IsWeb : U.Url → Type 0
  IsWeb url =
      ((text_eq (U.scheme url) (lit "http") || text_eq (U.scheme url) (lit "https")) ≡ true)
      × (is_some (U.host url) ≡ true)

  -- A host that is an address passes the guard, and one that is a domain is cleared.
  abbrev pub IsOpenHost : Option Host → Type 0
  IsOpenHost (some (ipv4 ip)) = is_ok (guard_ipv4 ip) ≡ true
  IsOpenHost (some (ipv6 ip)) = is_ok (guard_ipv6 U ip) ≡ true
  IsOpenHost (some (domain name)) = U.IsCleared name
  IsOpenHost none = Unit

  abbrev pub IsTarget : Bool → U.Url → Type 0
  IsTarget allow_private url = IsWeb url × (allow_private ≡ false → IsOpenHost (U.host url))

  -- A DNS query, and one that is made only while private hosts are refused.
  abbrev pub IsGuardLookup : Bool → Query U → Type 0
  IsGuardLookup allow_private (lookup_host name port) = allow_private ≡ false
  IsGuardLookup allow_private (build_client pins) = ⊥
  IsGuardLookup allow_private (send method client url) = ⊥
  IsGuardLookup allow_private expired = ⊥
  IsGuardLookup allow_private (call req) = ⊥
  IsGuardLookup allow_private (drive d) = ⊥

  checked_parse-IsWeb : (raw : Text) (r : Result Text U.Url) → OnOk IsWeb (checked_parse U raw r)
  unfolding checked_parse
  checked_parse-IsWeb raw (err e) = tt
  checked_parse-IsWeb raw (ok url) = ground arith

  parse_and_check_scheme_host-IsWeb : (raw : Text) → OnOk IsWeb (parse_and_check_scheme_host U raw)
  unfolding parse_and_check_scheme_host
  parse_and_check_scheme_host-IsWeb raw = checked_parse-IsWeb raw (U.parse raw)

  -- Any success of the guard is a verdict.
  OnOk-is_ok : (r : WsResult (Unit {0})) → OnOk (λ _. is_ok r ≡ true) r
  OnOk-is_ok (ok a) = refl
  OnOk-is_ok (err e) = tt

  resolved-IsCleared :
      (P : Query U → Type 0) (name : Text) (port : ℕ) (r : Result Text (List SocketAddr))
      → Admits {U = U} (lookup_host name port) r
      → Vets P (OnOk (λ _. U.IsCleared name)) (resolved U name r)
  resolved-IsCleared P name port (err e) admitted = tt
  resolved-IsCleared P name port (ok addrs) admitted =
      rw (check_addrs_verdict addrs name) (elim (Bool-cases (all (passes U) addrs)) [
        | inl pass ↦ elim (Bool-cases (is_empty addrs)) [
          | inl none_there ↦ rw (pass, none_there) tt
          | inr some_there ↦ rw (pass, some_there) (admitted (rw (pass, some_there) refl))
        ]
        | inr blocked ↦ rw blocked tt
      ])

  check_host-IsOpenHost :
      (h : Option Host) → Vets (IsGuardLookup false) (OnOk (λ _. IsOpenHost h)) (check_host U h)
  unfolding check_host
  check_host-IsOpenHost (some (ipv4 ip)) = OnOk-is_ok (guard_ipv4 ip)
  check_host-IsOpenHost (some (ipv6 ip)) = OnOk-is_ok (guard_ipv6 U ip)
  check_host-IsOpenHost (some (domain name)) =
      (refl, λ r admitted. resolved-IsCleared (IsGuardLookup false) name 0 r admitted)
  check_host-IsOpenHost none = tt

  clear-IsTarget :
      (allow_private : Bool) (url : U.Url)
      → IsWeb url
      → Vets
          (IsGuardLookup allow_private)
          (OnOk (IsTarget allow_private))
          (clear U allow_private url)
  unfolding clear check_host_async
  clear-IsTarget true url w = (w, λ e. cc)
  clear-IsTarget false url w =
      Vets->>= (IsGuardLookup false) (λ _. IsOpenHost (U.host url)) (IsTarget false)
        (check_host U (U.host url)) (λ _. ret (ok url)) (check_host-IsOpenHost (U.host url))
        (λ _ open_host. (w, λ _. open_host))

  -- Whatever DNS answers, a URL that `validate_url` returns is http or https with a host, and where
  -- private hosts are refused a host that is an address passes the guard, and one that is a domain
  -- was looked up, had an address, and all its addresses passed. DNS is asked only where private
  -- hosts are refused, and no request is sent.
  pub validate_url-IsTarget :
      (raw : Text) (allow_private : Bool)
      → Vets
          (IsGuardLookup allow_private)
          (OnOk (IsTarget allow_private))
          (validate_url U raw allow_private)
  unfolding validate_url
  validate_url-IsTarget raw allow_private =
      Vets->>= (IsGuardLookup allow_private) IsWeb (IsTarget allow_private)
        (ret (parse_and_check_scheme_host U raw)) (clear U allow_private)
        (parse_and_check_scheme_host-IsWeb raw) (clear-IsTarget allow_private)

  check_host-asks : (h : Option Host) → Runs (IsGuardLookup false) (λ _. Unit {0}) (check_host U h)
  unfolding check_host
  check_host-asks (some (ipv4 ip)) = tt
  check_host-asks (some (ipv6 ip)) = tt
  check_host-asks (some (domain name)) = (refl, λ r. answered r)
    where
      answered :
          (r : Result Text (List SocketAddr))
          → Runs (IsGuardLookup false) (λ _. Unit {0}) (resolved U name r)
      answered (err e) = tt
      answered (ok addrs) = tt
  check_host-asks none = tt

  clear-asks :
      (allow_private : Bool) (url : U.Url)
      → Runs (IsGuardLookup allow_private) (λ _. Unit {0}) (clear U allow_private url)
  unfolding clear check_host_async
  clear-asks true url = tt
  clear-asks false url =
      Runs-bind (IsGuardLookup false) (λ _. Unit {0}) (λ _. Unit {0}) (check_host U (U.host url)) _
        (check_host-asks (U.host url)) (λ r _. found r)
    where
      found :
          (r : WsResult (Unit {0}))
          → Runs (IsGuardLookup false) (λ _. Unit {0}) (on_ok (λ _. ret (ok url)) r)
      found (ok a) = tt
      found (err e) = tt

  -- The queries of the guard, whatever is answered.
  pub validate_url-asks :
      (raw : Text) (allow_private : Bool)
      → Runs (IsGuardLookup allow_private) (λ _. Unit {0}) (validate_url U raw allow_private)
  unfolding validate_url bind
  validate_url-asks raw allow_private =
      elim (parse_and_check_scheme_host U raw)
        as (λ r.
          Runs (IsGuardLookup allow_private) (λ _. Unit {0})
            (bind (ret r) (on_ok (clear U allow_private)))) [
              | ok url ↦ clear-asks allow_private url
              | err e ↦ tt
            ]
