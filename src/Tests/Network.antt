-- ===== src/Tests/Network.antt =====
-- The guard and the client at concrete addresses and bodies.
use mcp_web_search.Validation.Vetted.{Vets}
use mcp_web_search.Json.{Value, object, str}
use mcp_web_search.Validation.Blocks.{in_block}
use mcp_web_search.Validation.{
  non_public, check_addrs, blocked_v4, validate_url, guard_ipv6, guard_ipv4, guard_ip,
}
use mcp_web_search.Base.{
  Option, some, err, lit, [], ◌≤◌, from_utf8_lossy, ◌∷◌, arith, length, ok, Text, false, ◌≡◌, List,
  is_ok,
}
use mcp_web_search.Net.Logic.{OnOk, SendsAtMost}
use mcp_web_search.Tests.Fixtures.{urls, config, page_url, public_ip, private_ip, loopback, socket}
use mcp_web_search.Client.Safety.{IsSafe, IsFetched, fetch_page-IsSafe}
use mcp_web_search.Client.Bounds.{fetch_page-sends}
use mcp_web_search.Client.Body.{arrived, read_capped-arrived, read_capped_bound}
use mcp_web_search.Client.{fetch_page, read_capped}
use mcp_web_search.Validation.Laws.{
  IsTarget, IsGuardLookup, validate_url-IsTarget, guard_ipv4-special_blocks, guard_ipv6_ranges,
  check_addrs_verdict,
}

fetch_page-IsSafe_example :
    Vets (IsSafe urls config) (OnOk (IsFetched urls config)) (fetch_page urls config page_url)
fetch_page-IsSafe_example = fetch_page-IsSafe urls config page_url

-- The argument of a call that fetches the page.
abbrev args : Option Value
args = some (object ((lit "url", str page_url) ∷ []))

fetch_page-sends_example : SendsAtMost 6 (fetch_page urls config page_url)
fetch_page-sends_example = fetch_page-sends urls config page_url

validate_url-IsTarget_example :
    Vets (IsGuardLookup urls false) (OnOk (IsTarget urls false)) (validate_url urls page_url false)
validate_url-IsTarget_example = validate_url-IsTarget urls page_url false

guard_ipv4-special_blocks_example : is_ok (guard_ipv4 private_ip) ≡ false
unfolding in_block
guard_ipv4-special_blocks_example = guard_ipv4-special_blocks private_ip (record {
  a_byte = omega arith;
  b_byte = omega arith;
  c_byte = omega arith;
  d_byte = omega arith;
})

guard_ipv6_ranges_example : is_ok (guard_ipv6 urls loopback) ≡ false
guard_ipv6_ranges_example =
    guard_ipv6_ranges urls loopback
      (record { s0_word = omega arith; s6_word = omega arith; s7_word = omega arith })

check_addrs_verdict_example :
    check_addrs urls (socket public_ip ∷ socket private_ip ∷ []) (lit "example.com")
    ≡ err (non_public urls (lit "example.com"))
unfolding guard_ip guard_ipv4 blocked_v4
check_addrs_verdict_example =
    check_addrs_verdict urls (socket public_ip ∷ socket private_ip ∷ []) (lit "example.com")

-- Two chunks of a body, the second in the middle of a character.
abbrev chunks : List Text
chunks = (0x61 ∷ 0xC3 ∷ []) ∷ (0xA9 ∷ []) ∷ []

read_capped-arrived_example :
    read_capped (arrived chunks) 3 ≡ ok (from_utf8_lossy (0x61 ∷ 0xC3 ∷ 0xA9 ∷ []))
read_capped-arrived_example = read_capped-arrived 3 chunks (omega arith)

read_capped_bound_example : OnOk (λ body. length body ≤ 9) (read_capped (arrived chunks) 3)
read_capped_bound_example = read_capped_bound 3 (arrived chunks) (omega arith)
