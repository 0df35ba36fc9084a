-- ===== src/Server/Handlers/Versions.antt =====
-- The negotiation of the protocol version in `handle_initialize` of src/server.rs.
use mcp_web_search.Protocol.{JsonRpcRequest}
use mcp_web_search.Json.{as_str, get, Value}
use mcp_web_search.Errors.{WsResult}
use mcp_web_search.Base.{
  ◌∙◌, ap, inr, inl, Bool-cases, text_eq, unwrap_or, none, err, refl, if◌then◌else◌, lit, some,
  true, ◌≡◌, ok, and_then, Text, Option,
}
use mcp_web_search.Server.Handlers.{
  filtered, negotiated, handle_initialize, is_supported, latest_protocol_version,
}

-- What a client asks for.
abbrev pub requested : Option Value → Option Text
requested params = and_then (and_then params (λ p. get p (lit "protocolVersion"))) as_str

-- The version that an answer to `initialize` names.
abbrev pub offered : WsResult Value → Option Text
offered (ok v) = and_then (get v (lit "protocolVersion")) as_str
offered (err e) = none

latest_lem : is_supported latest_protocol_version ≡ true
unfolding lit text_eq
latest_lem = refl

chosen : Option Text → Text
chosen o = unwrap_or (filtered is_supported o) latest_protocol_version

chosen-is_supported : (o : Option Text) → is_supported (chosen o) ≡ true
unfolding chosen
chosen-is_supported none = latest_lem
chosen-is_supported (some w) = elim (Bool-cases (is_supported w)) [
  | inl e ↦ rw e e
  | inr e ↦ rw e latest_lem
]

chosen-some : (w : Text) → chosen (some w) ≡ (if is_supported w then w else latest_protocol_version)
unfolding chosen
chosen-some w = elim (Bool-cases (is_supported w)) [ inl e ↦ rw e refl | inr e ↦ rw e refl ]

negotiated_lem :
    (params : Option Value)
    → (is_supported (negotiated params) ≡ true)
      × ((v : Text)
          → requested params ≡ some v
          → negotiated params ≡ (if is_supported v then v else latest_protocol_version))
unfolding negotiated chosen
negotiated_lem params = (chosen-is_supported (requested params), λ v e. ap chosen e ∙ chosen-some v)

-- The answer to `initialize` names a version that the server speaks: the one that the client asks
-- for where it is one of them, and the latest otherwise.
pub handle_initialize-negotiates :
    (version instructions : Text) (req : JsonRpcRequest)
    → (v : Text) × (offered (handle_initialize version instructions req) ≡ some v)
      × (is_supported v ≡ true)
      × ((w : Text)
          → requested req.params ≡ some w
          → v ≡ (if is_supported w then w else latest_protocol_version))
unfolding handle_initialize get text_eq lit as_str
handle_initialize-negotiates version instructions req =
    (negotiated req.params, refl, (negotiated_lem req.params).0, (negotiated_lem req.params).1)
