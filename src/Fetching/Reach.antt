-- ===== src/Fetching/Reach.antt =====
-- `check_one_link` of src/actions/fetch.rs, which asks whether a link can be reached.
use mcp_web_search.Validation.Vetted.{Vets-bind, Vets}
use mcp_web_search.Net.{
  ret, elapsed, failed, head, replied, send, ask, bind, Client, Io, Reply, UrlLib,
}
use mcp_web_search.Net.Logic.{OnOk, SendsAtMost, SendsAtMost-bind}
use mcp_web_search.Base.{
  true, false, unwrap_or, show_nat, ok, ◌++◌, ◌≡◌, refl, lit, ltb, ℕ, Option, err, if◌then◌else◌,
  Text, arith,
}
use mcp_web_search.Errors.{WsResult, to_string}
use mcp_web_search.Config.{Config}
use mcp_web_search.Client.{client_for}
use mcp_web_search.Client.Safety.{IsSafe, IsClientFor, client_for-IsClientFor, validate_url-IsSafe}
use mcp_web_search.Client.Bounds.{client_for-sends, validate_url-sends}
use mcp_web_search.Validation.{validate_url}
use mcp_web_search.Validation.Laws.{IsTarget}

abbrev link_line : Text → Text → Text → Text
link_line icon url rest = icon ++ (lit " " ++ (url ++ (lit " — " ++ rest)))

module _ (U : UrlLib) (config : Config) (canonical_reason : ℕ → Option Text) where
  replied_line : Text → Reply → Text
  replied_line url elapsed = link_line (lit "⚠") url (lit "Timeout")
  replied_line url (failed f) =
      if f.is_timeout
      then link_line (lit "⚠") url (lit "Timeout")
      else if f.is_connect
      then link_line (lit "✗") url (lit "Connection failed")
      else link_line (lit "✗") url f.message
  replied_line url (replied resp) =
      link_line (if ltb resp.status 400 then lit "✓" else lit "✗") url (
        show_nat resp.status
        ++ (lit " " ++ unwrap_or (canonical_reason resp.status) (lit "Unknown")))

  sent_to : Text → U.Url → WsResult Client → Io U Text
  unfolding replied_line
  sent_to url current (err e) = ret (link_line (lit "✗") url (to_string e))
  sent_to url current (ok client) =
      ask (send head client current) (λ reply. ret (replied_line url reply))

  checked_at : Text → WsResult U.Url → Io U Text
  unfolding sent_to
  checked_at url (err e) = ret (link_line (lit "✗") url (to_string e))
  checked_at url (ok current) = bind (client_for U config current) (sent_to url current)

  unfoldable pub check_one_link : Text → Io U Text
  unfolding checked_at
  check_one_link url = bind (validate_url U url config.allow_private_hosts) (checked_at url)

  -- A line about `url`.
  abbrev pub IsAbout : Text → Text → Type 0
  IsAbout url line = (icon : Text) × (rest : Text) × (line ≡ link_line icon url rest)

  replied_line-IsAbout : (url : Text) (reply : Reply) → IsAbout url (replied_line url reply)
  unfolding replied_line
  replied_line-IsAbout url elapsed = (_, _, refl)
  replied_line-IsAbout url (failed f) =
      elim f.is_timeout
        as (λ t. IsAbout url (
          if t
          then link_line (lit "⚠") url (lit "Timeout")
          else if f.is_connect
          then link_line (lit "✗") url (lit "Connection failed")
          else link_line (lit "✗") url f.message)) [
            | true ↦ (_, _, refl)
            | false ↦
                elim f.is_connect
                  as (λ c. IsAbout url (
                    if c
                    then link_line (lit "✗") url (lit "Connection failed")
                    else link_line (lit "✗") url f.message)) [
                      | true ↦ (_, _, refl)
                      | false ↦ (_, _, refl)
                    ]
          ]
  replied_line-IsAbout url (replied resp) = (_, _, refl)

  sent_to-IsAbout :
      (url : Text) (current : U.Url)
      → IsTarget U config.allow_private_hosts current
      → (r : WsResult Client) → OnOk (IsClientFor U config (U.host current)) r
      → Vets (IsSafe U config) (IsAbout url) (sent_to url current r)
  unfolding sent_to
  sent_to-IsAbout url current t (err e) c = (_, _, refl)
  sent_to-IsAbout url current t (ok client) c = ((t, c), λ reply _. replied_line-IsAbout url reply)

  checked_at-IsAbout :
      (url : Text) (r : WsResult U.Url)
      → OnOk (IsTarget U config.allow_private_hosts) r
      → Vets (IsSafe U config) (IsAbout url) (checked_at url r)
  unfolding checked_at
  checked_at-IsAbout url (err e) t = (_, _, refl)
  checked_at-IsAbout url (ok current) t =
      Vets-bind (IsSafe U config) (OnOk (IsClientFor U config (U.host current))) (IsAbout url)
        (client_for U config current) (sent_to url current)
        (client_for-IsClientFor U config current) (sent_to-IsAbout url current t)

  sent_to-sends :
      (url : Text) (current : U.Url) (r : WsResult Client) → SendsAtMost 1 (sent_to url current r)
  unfolding sent_to
  sent_to-sends url current (err e) = tt
  sent_to-sends url current (ok client) = (omega arith, λ _. tt)

  checked_at-sends : (url : Text) (r : WsResult U.Url) → SendsAtMost 1 (checked_at url r)
  unfolding checked_at
  checked_at-sends url (err e) = tt
  checked_at-sends url (ok current) =
      SendsAtMost-bind 0 1 (client_for U config current) (sent_to url current)
        (client_for-sends U config current) (sent_to-sends url current)

  -- Whatever the network answers, `check_one_link` ends with a line about its link, sends one
  -- request at most, and that is as safe as those of `fetch_page`.
  pub check_one_link-IsSafe :
      (url : Text)
      → Vets (IsSafe U config) (IsAbout url) (check_one_link url)
        × SendsAtMost 1 (check_one_link url)
  unfolding check_one_link
  check_one_link-IsSafe url = (
    Vets-bind (IsSafe U config) (OnOk (IsTarget U config.allow_private_hosts)) (IsAbout url)
        (validate_url U url config.allow_private_hosts) (checked_at url)
        (validate_url-IsSafe U config url) (checked_at-IsAbout url),
    SendsAtMost-bind 0 1 (validate_url U url config.allow_private_hosts) (checked_at url)
        (validate_url-sends U url config.allow_private_hosts) (checked_at-sends url),
  )
