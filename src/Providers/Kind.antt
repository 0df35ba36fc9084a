-- ===== src/Providers/Kind.antt =====
-- src/config.rs: which search backend is configured.
use mcp_web_search.Base.{
  ◌++◌, err, refl, ◌||◌, ok, ◌≡◌, if◌then◌else◌, text_eq, Result, Text, lit, Bool, true, false,
}

pub data SearchProvider : Type 0 where
  searxng duckduckgo bing tavily google zhipu exa bocha : SearchProvider

abbrev pub requires_api_key : SearchProvider → Bool
requires_api_key searxng = false
requires_api_key duckduckgo = false
requires_api_key _ = true

-- The closure `needs_url` of `Config::from_args`.
abbrev pub needs_url : SearchProvider → Bool
needs_url searxng = true
needs_url google = true
needs_url _ = false

unfoldable pub as_str : SearchProvider → Text
as_str searxng = lit "searxng"
as_str duckduckgo = lit "duckduckgo"
as_str bing = lit "bing"
as_str tavily = lit "tavily"
as_str google = lit "google"
as_str zhipu = lit "zhipu"
as_str exa = lit "exa"
as_str bocha = lit "bocha"

-- What the missing URL would be, for the message.
abbrev pub url_hint : SearchProvider → Text
url_hint searxng = lit "SearXNG base URL"
url_hint google = lit "Google Custom Search Engine id"
url_hint _ = lit "API URL"

-- `from_str`; `to_lowercase` is `str::to_lowercase`.
module _ (to_lowercase : Text → Text) where
  parsed_kind : Text → Result Text SearchProvider
  parsed_kind name =
      if text_eq name (lit "searxng")
      then ok searxng
      else if text_eq name (lit "duckduckgo") || text_eq name (lit "ddg")
      then ok duckduckgo
      else if text_eq name (lit "bing")
      then ok bing
      else if text_eq name (lit "tavily")
      then ok tavily
      else if text_eq name (lit "google")
      then ok google
      else if text_eq name (lit "zhipu")
      then ok zhipu
      else if text_eq name (lit "exa")
      then ok exa
      else if text_eq name (lit "bocha")
      then ok bocha
      else err (
          lit "Invalid search provider: "
          ++ (name
              ++ lit ". Supported: searxng, duckduckgo, bing, tavily, google, zhipu, exa, bocha"))

  unfoldable pub from_str : Text → Result Text SearchProvider
  unfolding parsed_kind
  from_str s = parsed_kind (to_lowercase s)

  -- Every provider is parsed back from the name that it displays, in whatever case that is written,
  -- where `to_lowercase` gives that name.
  pub from_str-as_str :
      (p : SearchProvider) (s : Text) → to_lowercase s ≡ as_str p → from_str s ≡ ok p
  unfolding from_str as_str text_eq lit
  from_str-as_str searxng s h = rw h refl
  from_str-as_str duckduckgo s h = rw h refl
  from_str-as_str bing s h = rw h refl
  from_str-as_str tavily s h = rw h refl
  from_str-as_str google s h = rw h refl
  from_str-as_str zhipu s h = rw h refl
  from_str-as_str exa s h = rw h refl
  from_str-as_str bocha s h = rw h refl
