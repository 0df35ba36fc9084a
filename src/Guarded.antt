-- ===== src/Guarded.antt =====
-- What the whole server may ask of the world, and the requests of its parts in those terms.
use mcp_web_search.Validation.Vetted.{Vets-mono, Vets}
use mcp_web_search.Validation.Laws.{IsTarget}
use mcp_web_search.Base.{◌≡◌}
use mcp_web_search.Net.Logic.{OnOk-Unit, OnOk}
use mcp_web_search.Providers.Dispatch.Asks.{endpoint_of, IsCallTo}
use mcp_web_search.Client.Safety.{IsSafe}
use mcp_web_search.Config.{Config}
use mcp_web_search.Net.{
  expired, goto, drive, call, send, build_client, lookup_host, Task, Io, Query, UrlLib,
}

module _ (U : UrlLib) (config : Config) where
  -- The queries that are safe for the server to put: those of the client as in Client.Safety, the
  -- API of the configured backend, and in the browser a navigation to
  -- a URL that passed the guard only.
  abbrev pub IsGuarded : Query U → Type 0
  IsGuarded (lookup_host name port) = Unit
  IsGuarded (build_client pins) = IsSafe U config (build_client pins)
  IsGuarded (send method client url) = IsSafe U config (send method client url)
  IsGuarded expired = Unit
  IsGuarded (call req) = req.url ≡ endpoint_of config.provider config.api_url
  IsGuarded (drive (goto tab url)) = IsTarget U config.allow_private_hosts url
  IsGuarded (drive d) = Unit

  pub IsSafe-IsGuarded : (q : Query U) → IsSafe U config q → IsGuarded q
  IsSafe-IsGuarded (lookup_host name port) h = tt
  IsSafe-IsGuarded (build_client pins) h = h
  IsSafe-IsGuarded (send method client url) h = h
  IsSafe-IsGuarded expired h = elim h [ ]
  IsSafe-IsGuarded (call req) h = elim h [ ]
  IsSafe-IsGuarded (drive d) h = elim h [ ]

  pub IsCallTo-IsGuarded :
      (q : Query U) → IsCallTo (endpoint_of config.provider config.api_url) q → IsGuarded q
  IsCallTo-IsGuarded (call req) h = h
  IsCallTo-IsGuarded (lookup_host name port) h = elim h [ ]
  IsCallTo-IsGuarded (build_client pins) h = elim h [ ]
  IsCallTo-IsGuarded (send method client url) h = elim h [ ]
  IsCallTo-IsGuarded expired h = elim h [ ]
  IsCallTo-IsGuarded (drive d) h = elim h [ ]

  -- What is safe for the client is safe for the server.
  pub Vets-IsGuarded :
      {A : Type 0} (R : A → Type 0) (m : Io U A) → Vets (IsSafe U config) R m → Vets IsGuarded R m
  Vets-IsGuarded R m h = Vets-mono (IsSafe U config) IsGuarded R R m IsSafe-IsGuarded (λ a r. r) h

  pub Vets-any_ok :
      {A : Type 0} (R : A → Type 0) (m : Task U A)
      → Vets IsGuarded (OnOk R) m
      → Vets IsGuarded (OnOk (λ _. Unit {0})) m
  Vets-any_ok R m h =
      Vets-mono IsGuarded IsGuarded (OnOk R) (OnOk (λ _. Unit {0})) m (λ q p. p)
        (λ r _. OnOk-Unit r) h
