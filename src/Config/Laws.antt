-- ===== src/Config/Laws.antt =====
-- What a configuration that `from_args` accepts promises.
use mcp_web_search.Errors.{refuse_if-eq-ok}
use mcp_web_search.Base.{
  subst, try-eq-ok, not, ◌&&◌, ℕ, ◌<◌, Text, true, false, Option, none, some, [], is_empty, is_some,
  unwrap_or, Result, ok, err, ◌≡◌, refl, arith,
}
use mcp_web_search.Args.{Args, enabled_categories}
use mcp_web_search.Config.{
  WsResult, Config, from_args, auth_token_of, token_of_file, differ, nonempty, assemble,
}
use mcp_web_search.Providers.Kind.{requires_api_key, needs_url}
use mcp_web_search.Tools.{build_tools_list}

-- A provider has the key and the address that it needs, TLS is on whole or off whole, the numbers
-- of URLs to extract and to map and of pages are not 0, a token file gives a token where none is
-- given directly, and the tool list is that of the enabled categories.
pub record IsSound (a : Args) (c : Config) : Type 0 where
  pub keyed : requires_api_key c.provider ≡ true → is_empty (unwrap_or c.api_key []) ≡ false
  pub addressed : needs_url c.provider ≡ true → is_some c.api_url ≡ true
  pub tls_whole : is_some c.server.tls_cert ≡ is_some c.server.tls_key
  pub extracts : 0 < c.server.max_extract_urls
  pub maps : 0 < c.server.max_map_urls
  pub pages : 0 < c.browser.max_pages
  pub exposed : c.server.enabled_categories ≡ enabled_categories a
  pub guarded :
      a.auth_token ≡ none
      → is_some a.auth_token_file ≡ true
      → is_empty (unwrap_or c.server.auth_token []) ≡ false
  pub listed : c.tools_list ≡ build_tools_list c.server.enabled_categories

token_of_file_nonempty :
    (path : Text) (r : Result Text Text) {t : Option Text}
    → token_of_file path r ≡ ok t
    → is_empty (unwrap_or t []) ≡ false
unfolding token_of_file
token_of_file_nonempty path (err e) h = cc
token_of_file_nonempty path (ok contents) h = ground arith

-- Soundness of the configuration that a result holds.
abbrev IsSound' : Args → WsResult Config → Type 0
IsSound' a (ok c) = IsSound a c
IsSound' a (err e) = Unit

module _ (read_to_string : Text → Result Text Text) (cpus : ℕ) where
  auth_token_of_guarded :
      (given file : Option Text) {t : Option Text}
      → auth_token_of read_to_string cpus given file ≡ ok t
      → given ≡ none
      → is_some file ≡ true
      → is_empty (unwrap_or t []) ≡ false
  unfolding auth_token_of
  auth_token_of_guarded none (some path) h _ _ = token_of_file_nonempty path (read_to_string path) h
  auth_token_of_guarded none none h _ f = cc
  auth_token_of_guarded (some t) file h g _ = cc

  assemble-IsSound :
      (a : Args) (t : Option Text)
      → (requires_api_key a.search_provider && is_empty (unwrap_or a.search_api_key [])) ≡ false
      → (needs_url a.search_provider && not (is_some a.search_api_url)) ≡ false
      → differ (is_some (nonempty a.tls_cert)) (is_some (nonempty a.tls_key)) ≡ false
      → auth_token_of read_to_string cpus a.auth_token a.auth_token_file ≡ ok t
      → IsSound a (assemble read_to_string cpus a t)
  assemble-IsSound a t keyed addressed whole token = record {
    keyed = ground arith;
    addressed = ground arith;
    tls_whole = ground arith;
    extracts = ground arith;
    maps = ground arith;
    pages = ground arith;
    exposed = refl;
    guarded = auth_token_of_guarded a.auth_token a.auth_token_file token;
    listed = refl;
  }

  -- A configuration that is built from arguments is sound: the provider has its key and its
  -- address, the certificate and the key of TLS come together, the limits `max_extract_urls`,
  -- `max_map_urls` and `max_pages` are not 0, a token file gives a token that is not empty where no
  -- token is given directly, and the tool list shows just the categories that the flags enable.
  pub from_args-IsSound :
      (a : Args) {c : Config} → from_args read_to_string cpus a ≡ ok c → IsSound a c
  unfolding from_args
  from_args-IsSound a h =
      let (keyed, rest) = refuse_if-eq-ok _ _ _ h in
      let (addressed, rest') = refuse_if-eq-ok _ _ _ rest in
      let (whole, rest'') = refuse_if-eq-ok _ _ _ rest' in
      let (t, token, same) = try-eq-ok _ _ rest'' in
      subst (λ r. IsSound' a r) same (assemble-IsSound a t keyed addressed whole token)
