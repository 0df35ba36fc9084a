-- ===== src/Tools/Schema.antt =====
-- Shapes that recur in tools.json.
use mcp_web_search.Base.{String, lit, List, map, [], ◌∷◌}
use mcp_web_search.Json.{Value, str, object, array}

abbrev pub typed : String → String → Value
typed kind description =
    object ((lit "type", str (lit kind)) ∷ (lit "description", str (lit description)) ∷ [])

abbrev pub names : List String → Value
names texts = array (map (λ t. str (lit t)) texts)
