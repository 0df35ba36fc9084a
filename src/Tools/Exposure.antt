-- ===== src/Tools/Exposure.antt =====
-- What `tools/list` shows is what `tools/call` accepts.
use mcp_web_search.Base.{
  ◌≡◌, refl, sym, ap, ◌∙◌, inl, inr, Bool, true, false, ◌&&◌, Option, none, some, List, [], ◌∷◌,
  arith, Option-cases, is_some, and_then, any, filter, Text, lit, text_eq, text_eq_iff,
}
use mcp_web_search.Json.{Value, get, as_array, items-to_items}
use mcp_web_search.Tools.{
  ToolCategory, ToolMeta, all_tools, all_tool_defs, find_tool, tool_exists, is_tool_available,
  def_name, available, build_tools_list, payload,
}

-- Reading a payload: a definition with the name, and an entry of `tools` with it.
abbrev has_name : Text → Value → Bool
has_name name t = elim (def_name t) [ none ↦ false | some m ↦ text_eq m name ]

abbrev shown : Text → Option (List Value) → Bool
shown name none = false
shown name (some ts) = any (has_name name) ts

pub is_listed : Text → Value → Bool
unfolding get as_array
is_listed name payload = shown name (and_then (get payload (lit "tools")) as_array)

any-filter {ℓ} :
    {A : Type ℓ} (p q : A → Bool) (xs : List A) → any q (filter p xs) ≡ any (λ x. p x && q x) xs
any-filter p q [] = refl
any-filter p q (x ∷ xs) = ground (arith, any-filter p q xs)

any-const_and {ℓ} :
    {A : Type ℓ} (c : Bool) (q : A → Bool) (xs : List A) → any (λ x. c && q x) xs ≡ (c && any q xs)
any-const_and true q [] = refl
any-const_and false q [] = refl
any-const_and c q (x ∷ xs) = ground (arith, any-const_and c q xs)

any-congr {ℓ} :
    {A : Type ℓ} (p q : A → Bool) → ((x : A) → p x ≡ q x) → (xs : List A) → any p xs ≡ any q xs
any-congr p q h [] = refl
any-congr p q h (x ∷ xs) = rw (h x, any-congr p q h xs)

is_some-find_tool :
    (name : Text) (ts : List ToolMeta)
    → is_some (find_tool name ts) ≡ any (λ t. text_eq t.name name) ts
unfolding find_tool
is_some-find_tool name [] = refl
is_some-find_tool name (t ∷ ts) = ground (arith, is_some-find_tool name ts)

-- tools.json defines the tools of the table, in its order.
any-all_tool_defs : (name : Text) → any (has_name name) all_tool_defs ≡ tool_exists name
unfolding tool_exists lit text_eq def_name
any-all_tool_defs name = sym (is_some-find_tool name all_tools)

available-has_name :
    (enabled : List ToolCategory) (name : Text) (t : Value)
    → (available enabled (def_name t) && has_name name t)
      ≡ (is_tool_available name enabled && has_name name t)
available-has_name enabled name t = elim (Option-cases (def_name t)) [
  | inl e ↦ rw e (ground arith)
  | inr (m, e) ↦ rw e (ground (arith, text_eq_iff m name))
]

available-tool_exists :
    (name : Text) (enabled : List ToolCategory)
    → (is_tool_available name enabled && tool_exists name) ≡ is_tool_available name enabled
unfolding is_tool_available tool_exists
available-tool_exists name enabled = ground arith

is_listed-payload :
    (name : Text) (defs : List Value) (enabled : List ToolCategory)
    → is_listed name (payload defs enabled)
      ≡ any (has_name name) (filter (λ t. available enabled (def_name t)) defs)
unfolding is_listed payload text_eq lit
is_listed-payload name defs enabled = rw items-to_items refl

any-available :
    (name : Text) (enabled : List ToolCategory)
    → any (has_name name) (filter (λ t. available enabled (def_name t)) all_tool_defs)
      ≡ (is_tool_available name enabled && tool_exists name)
any-available name enabled =
    any-filter (λ t. available enabled (def_name t)) (has_name name) all_tool_defs
    ∙ any-congr _ _ (available-has_name enabled name) all_tool_defs
    ∙ any-const_and (is_tool_available name enabled) (has_name name) all_tool_defs
    ∙ ap (λ b. is_tool_available name enabled && b) (any-all_tool_defs name)

-- A tool name stands in the `tools/list` payload exactly when `tools/call` would let it through,
-- for whatever categories are enabled.
pub is_listed-build_tools_list :
    (name : Text) (enabled : List ToolCategory)
    → is_listed name (build_tools_list enabled) ≡ is_tool_available name enabled
unfolding build_tools_list
is_listed-build_tools_list name enabled =
    is_listed-payload name all_tool_defs enabled
    ∙ any-available name enabled
    ∙ available-tool_exists name enabled
