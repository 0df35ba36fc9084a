-- ===== src/Browsing/Pictures.antt =====
-- The results of the tools of src/actions/browser.rs: blocks of text and pictures.
use mcp_web_search.Validation.{validate_url}
use mcp_web_search.Actions.{get_str_arg}
use mcp_web_search.Net.Logic.{OnOk, Runs-bind, Runs}
use mcp_web_search.Actions.Content.{
  Returns->>=, Returns-bind, IsImageBlock, IsContent, Returns, IsTextBlock,
}
use mcp_web_search.Browsing.{
  markdown_block, navigate, acquire_page, browser_formats, markdown, pool_given, page_format, shot,
  links, capture, captured, loaded_page, content_of, raw, image_block, text_block, PageFormat,
  links_block, image_of, browser_screenshot, browser_scrape, all_blocks, format_blocks,
}
use mcp_web_search.Base.{
  none, some, refl, [], err, inr, inl, ◌∷◌, ok, ◌++◌, text_eq, ◌⊎◌, ℕ, Bool, All, lit, Option, List,
  Text, Result,
}
use mcp_web_search.Json.{get, Value}
use mcp_web_search.Config.{Config}
use mcp_web_search.Crates.{Crates}
use mcp_web_search.Net.{◌>>=◌, pure, ◌>>◌, Task, UrlLib}

module _ (U : UrlLib) (C : Crates) (config : Config) where
  abbrev IsBlock : Value → Type 0
  IsBlock v = IsTextBlock v ⊎ IsImageBlock v

  text_block-IsBlock : (text : Text) → IsBlock (text_block text)
  unfolding get lit text_eq
  text_block-IsBlock text = inl (text, refl, refl)

  image_block-IsBlock : (bytes : Text) → IsBlock (image_block U C config bytes)
  unfolding get lit text_eq
  image_block-IsBlock bytes = inr (C.base64 bytes, refl, refl, refl)

  image_of-IsBlock : (r : Result Text Text) → All IsBlock (image_of U C config r)
  image_of-IsBlock (ok bytes) = (image_block-IsBlock bytes, tt)
  image_of-IsBlock (err e) = tt

  links_block-IsBlock :
      (html : Text) (r : Result Text U.Url) → All IsBlock (links_block U C config html r)
  links_block-IsBlock html (ok base) = (text_block-IsBlock _, tt)
  links_block-IsBlock html (err e) = tt

  All-append : (vs ws : List Value) → All IsBlock vs → All IsBlock ws → All IsBlock (vs ++ ws)
  All-append [] ws h k = k
  All-append (v ∷ vs) ws h k = (h.0, All-append vs ws h.1 k)

  markdown_block-IsBlock :
      (o : Option Text) → Runs (λ _. Unit {0}) (All IsBlock) (markdown_block U C config o)
  markdown_block-IsBlock none = (tt, λ x. elim x [ ])
  markdown_block-IsBlock (some md) = (text_block-IsBlock md, tt)

  format_blocks-IsBlock :
      (url : U.Url) (only_main : Bool) (tab : ℕ) (fmt : PageFormat)
      → Runs (λ _. Unit {0}) (All IsBlock) (format_blocks U C config url only_main tab fmt)
  unfolding format_blocks
  format_blocks-IsBlock url only_main tab raw = (tt, λ html. (text_block-IsBlock _, tt))
  format_blocks-IsBlock url only_main tab links = (tt, λ html. links_block-IsBlock _ _)
  format_blocks-IsBlock url only_main tab shot = (tt, image_of-IsBlock)
  format_blocks-IsBlock url only_main tab markdown = (tt, λ html. markdown_block-IsBlock _)

  all_blocks-IsBlock :
      (url : U.Url) (only_main : Bool) (tab : ℕ) (formats : List Text)
      → Runs (λ _. Unit {0}) (All IsBlock) (all_blocks U C config url only_main tab formats)
  unfolding all_blocks
  all_blocks-IsBlock url only_main tab [] = tt
  all_blocks-IsBlock url only_main tab (fmt ∷ more) =
      Runs-bind (λ _. Unit {0}) (All IsBlock) (All IsBlock) _ _
        (format_blocks-IsBlock url only_main tab (page_format fmt))
        λ blocks h.
          Runs-bind (λ _. Unit {0}) (All IsBlock) (All IsBlock) _ _
            (all_blocks-IsBlock url only_main tab more) (λ rest k. All-append blocks rest h k)

  content_of-IsContent : (vs : List Value) → All IsBlock vs → IsContent (content_of U C config vs)
  unfolding get lit text_eq
  content_of-IsContent [] h = ((_, [], refl, (text_block-IsBlock [], tt)), refl)
  content_of-IsContent (v ∷ vs) h = ((v, vs, refl, h), refl)

  pub loaded_page-IsContent :
      (args : Option Value) (url : U.Url) (tab : ℕ)
      → Returns IsContent (loaded_page U C config args url tab)
  loaded_page-IsContent args url tab = Returns-bind IsContent _ _ λ _.
      Returns-bind IsContent _ _ λ _. Returns-bind IsContent _ _ λ _.
        Runs-bind (λ _. Unit {0}) (All IsBlock) (OnOk IsContent) _ _
          (all_blocks-IsBlock url _ tab (browser_formats U C config args))
          (λ blocks h. (tt, λ _. content_of-IsContent blocks h))

  captured-IsContent :
      (tab : ℕ) (r : Result Text Text) → Returns IsContent (captured U C config tab r)
  unfolding get lit text_eq
  captured-IsContent tab (err e) = tt
  captured-IsContent tab (ok bytes) =
      (tt, λ _. ((_, [], refl, (image_block-IsBlock bytes, tt)), refl))

  module _ (args : Option Value) (rest : U.Url → ℕ → Task U Value)
      (h : (url : U.Url) (tab : ℕ) → Returns IsContent (rest url tab)) where
    opened-IsContent : Returns IsContent (do
      pure (pool_given U config)
      given ← pure (get_str_arg args (lit "url"))
      url ← validate_url U given config.allow_private_hosts
      tab ← acquire_page U config
      navigate U config tab url
      rest url tab)
    opened-IsContent = Returns->>= IsContent _ _ λ _. Returns->>= IsContent _ _ λ given.
        Returns->>= IsContent _ _
          λ url. Returns->>= IsContent _ _ λ tab. Returns->>= IsContent _ _ (λ _. h url tab)

  pub browser_scrape-IsContent :
      (args : Option Value) → Returns IsContent (browser_scrape U C config args)
  unfolding browser_scrape
  browser_scrape-IsContent args =
      opened-IsContent args (loaded_page U C config args) (loaded_page-IsContent args)

  pub browser_screenshot-IsContent :
      (args : Option Value) → Returns IsContent (browser_screenshot U C config args)
  unfolding browser_screenshot
  browser_screenshot-IsContent args =
      opened-IsContent args (λ url tab. capture U C config args tab)
        (λ url tab. Returns-bind IsContent _ _ (λ _. (tt, captured-IsContent tab)))
