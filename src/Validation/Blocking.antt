-- ===== src/Validation/Blocking.antt =====
-- The blocking twin of the URL guard in src/validation.rs.
use mcp_web_search.Base.{false, true, refl, ok, none, ap, some, ◌≡◌, Text, Bool, Option}
use mcp_web_search.Validation.{
  parse_and_check_scheme_host, validate_url, validate_url_blocking, check_host, host_blocking,
  check_host_async, check_host_blocking, clear, clear_blocking,
}
use mcp_web_search.Net.{UrlLib, Host, ipv4, ipv6, domain, bind, on_ok, ret}

module _ (U : UrlLib) where
  host_blocking-same : (h : Option Host) → host_blocking U h ≡ check_host U h
  unfolding host_blocking check_host
  host_blocking-same none = refl
  host_blocking-same (some (ipv4 ip)) = refl
  host_blocking-same (some (ipv6 ip)) = refl
  host_blocking-same (some (domain name)) = refl

  clear_blocking-same :
      (allow_private : Bool) (url : U.Url)
      → clear_blocking U allow_private url ≡ clear U allow_private url
  unfolding clear_blocking clear check_host_blocking check_host_async
  clear_blocking-same true url = refl
  clear_blocking-same false url =
      ap (λ m. bind m (on_ok (λ _. ret (ok url)))) (host_blocking-same (U.host url))

  -- The blocking guard puts the same queries as the asynchronous one and gives the same answers.
  pub validate_url_blocking-validate_url :
      (raw : Text) (allow_private : Bool)
      → validate_url_blocking U raw allow_private ≡ validate_url U raw allow_private
  unfolding validate_url_blocking validate_url
  validate_url_blocking-validate_url raw allow_private =
      ap (λ f. bind (ret (parse_and_check_scheme_host U raw)) (on_ok f))
        (λ i url. clear_blocking-same allow_private url i)
