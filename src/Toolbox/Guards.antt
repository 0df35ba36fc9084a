-- ===== src/Toolbox/Guards.antt =====
-- What the twelve tools ask of the world, as `handle_tools_call` of src/server.rs finds them.
use mcp_web_search.Validation.Vetted.{Vets-bind, Vets-if, Vets-mono, Vets}
use mcp_web_search.Server.Handlers.Every.{handler_of-Every, OfHandler, Every}
use mcp_web_search.Tools.{is_tool_available}
use mcp_web_search.Browsing.Navigation.{browser_scrape-IsGuarded}
use mcp_web_search.Fetching.Links.{web_check_links-IsReport}
use mcp_web_search.Server.Handlers.{call_named, perform, handler_of, Actions}
use mcp_web_search.Fetching.{web_fetch, web_fetch_text}
use mcp_web_search.Sitemap.Fetched.{web_sitemap-IsSafe}
use mcp_web_search.Fetching.Guarded.{web_fetch_headers-IsSafe, web_fetch-IsSafe}
use mcp_web_search.Extracting.Sections.{web_extract-IsExtract}
use mcp_web_search.Mapping.Listing.{web_map-IsMap}
use mcp_web_search.Scraping.Requests.{web_scrape-IsSafe}
use mcp_web_search.Searching.Runs.{web_search_scrape-IsGuarded, web_search-IsGuarded}
use mcp_web_search.Client.Safety.{IsSafe}
use mcp_web_search.Guarded.{IsSafe-IsGuarded, IsGuarded}
use mcp_web_search.Errors.{WsResult}
use mcp_web_search.Net.Logic.{OnOk}
use mcp_web_search.Toolbox.{toolbox}
use mcp_web_search.Json.{Value}
use mcp_web_search.Base.{ok, false, err, true, none, some, Text, Bool, Option, ℕ, List}
use mcp_web_search.Config.{Config}
use mcp_web_search.Crates.{Crates}
use mcp_web_search.Net.{ask, on_ok, ret, Task, Io, with_timeout, bind, UrlLib}

module _ (U : UrlLib) (C : Crates) (config : Config) (schedule : List ℕ) where
  abbrev IsGuardedAction : (Option Value → Task U Value) → Type 0
  IsGuardedAction action =
      (args : Option Value) → Vets (IsGuarded U config) (λ _. Unit {0}) (action args)

  -- What is safe for the client is safe for the server.
  of_client :
      (action : Option Value → Task U Value) (R : Option Value → WsResult Value → Type 0)
      → ((args : Option Value) → Vets (IsSafe U config) (R args) (action args))
      → IsGuardedAction action
  of_client action R h args =
      Vets-mono (IsSafe U config) (IsGuarded U config) (R args) (λ _. Unit {0}) (action args)
        (IsSafe-IsGuarded U config) (λ _ _. tt) (h args)

  of_server :
      (action : Option Value → Task U Value) (R : Option Value → WsResult Value → Type 0)
      → ((args : Option Value) → Vets (IsGuarded U config) (R args) (action args))
      → IsGuardedAction action
  of_server action R h args =
      Vets-mono (IsGuarded U config) (IsGuarded U config) (R args) (λ _. Unit {0}) (action args)
        (λ _ p. p) (λ _ _. tt) (h args)

  fetches :
      (args : Option Value)
      → Vets
          (IsSafe U config)
          (OnOk (λ _. Unit {0}))
          (web_fetch U config C.spawn_blocking C.parse_document C.collapse_whitespace args)
        × Vets
            (IsSafe U config)
            (OnOk (λ _. Unit {0}))
            (web_fetch_text U config C.spawn_blocking C.parse_document C.collapse_whitespace args)
  fetches args =
      web_fetch-IsSafe U config C.spawn_blocking C.parse_document C.collapse_whitespace args

  abbrev tools : Actions U
  tools = toolbox U C config schedule

  tools-IsGuarded : Every U tools IsGuardedAction
  tools-IsGuarded = record {
    search = of_server _ _ (λ args. (web_search-IsGuarded U C config args).0);
    scrape = of_client _ _ (λ args. (web_scrape-IsSafe U C config args).0);
    map_site = of_client _ _ (web_map-IsMap U C config schedule);
    extract = of_client _ _ (λ args. (web_extract-IsExtract U C config schedule args).0);
    fetch = of_client _ _ (λ args. (fetches args).0);
    fetch_text = of_client _ _ (λ args. (fetches args).1);
    fetch_headers =
        of_client _ _ (λ args. (web_fetch_headers-IsSafe U config C.canonical_reason args).0);
    search_scrape =
        of_server _ _ (λ args. (web_search_scrape-IsGuarded U C config schedule args).0);
    sitemap = of_client _ _ (λ args. (web_sitemap-IsSafe U C config args).0);
    check_links = of_client _ _ (λ args. (web_check_links-IsReport U C config schedule args).0);
    browse = λ args. (browser_scrape-IsGuarded U C config args).0;
    screen = λ args. (browser_scrape-IsGuarded U C config args).1;
  }

  performed :
      (name : Text) (args : Option Value) (o : Option (Option Value → Task U Value))
      → OfHandler U IsGuardedAction o
      → Vets (IsGuarded U config) (λ _. Unit {0}) (perform U tools name args o)
  unfolding perform
  performed name args none h = tt
  performed name args (some action) h = h args

  call_named-IsGuarded :
      (args : Option Value) (name : Text)
      → Vets (IsGuarded U config) (λ _. Unit {0}) (call_named U tools config args name)
  unfolding call_named
  call_named-IsGuarded args name =
      Vets-if (IsGuarded U config) (λ _. Unit {0})
        (is_tool_available name config.server.enabled_categories) _ _
        (λ _.
          Vets-bind (IsGuarded U config) (λ _. Unit {0}) (λ _. Unit {0})
            (perform U tools name args (handler_of U tools name)) _
            (performed name args (handler_of U tools name)
              (handler_of-Every U IsGuardedAction tools tools-IsGuarded name))
            (λ _ _. tt))
        (λ _. tt)

  pub named :
      (args : Option Value) (r : WsResult Text)
      → Vets
          (IsGuarded U config)
          (λ _. Unit {0})
          (bind (ret r) (on_ok (call_named U tools config args)))
  unfolding bind
  named args (err e) = tt
  named args (ok name) = call_named-IsGuarded args name

  late_or :
      {A : Type 0} (m : Io U (Option A))
      → Vets (IsGuarded U config) (λ _. Unit {0}) m
      → (late : Bool)
      → Vets (IsGuarded U config) (λ _. Unit {0}) (elim late [ true ↦ ret none | false ↦ m ])
  late_or m h true = tt
  late_or m h false = h

  pub with_timeout-IsGuarded :
      {A : Type 0} (m : Io U A)
      → Vets (IsGuarded U config) (λ _. Unit {0}) m
      → Vets (IsGuarded U config) (λ _. Unit {0}) (with_timeout m)
  unfolding with_timeout
  with_timeout-IsGuarded (ret a) h = tt
  with_timeout-IsGuarded (ask q k) h = (
    tt,
    λ late _.
        late_or (ask q (λ x. with_timeout (k x)))
          (h.0, λ x admitted. with_timeout-IsGuarded (k x) (h.1 x admitted)) late,
  )
