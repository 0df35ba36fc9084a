-- ===== src/Scrape/Plain.antt =====
-- `html_to_text` of src/actions/scrape.rs: the texts of a document, joined by spaces, without those
-- in elements that are skipped.
pub mod Pruning
use mcp_web_search.Base.{
  none, some, and_then, Option, ◌∷◌, ◌||◌, [], ◌++◌, lit, trim_end, is_empty, text_eq, trim_start,
  if◌then◌else◌, trim, Bool, Text,
}
use mcp_web_search.Scrape.Dom.{Node, Nodes, element, text, other, nothing, child}

unfoldable pub text_skip_element : Text → Bool
text_skip_element name =
    text_eq (lit "script") name
    || text_eq (lit "style") name
    || text_eq (lit "nav") name
    || text_eq (lit "footer") name
    || text_eq (lit "aside") name
    || text_eq (lit "head") name

-- `collapse_whitespace` is the version of the target, and none where that panics, as the SSE2 version
-- does at some texts (Scrape.Spaces.Vector.Panics).
module _ (collapse_whitespace : Text → Option Text) where
  -- One text: nothing where it is blank, and a space before it where something is there.
  abbrev pub append_text : Text → Text → Option Text
  append_text s out = and_then (collapse_whitespace (trim s)) (λ shown.
      some (if is_empty shown then out else if is_empty out then shown else out ++ (0x20 ∷ shown)))

  unfoldable mutual
    -- An element, and nothing for any other node.
    pub text_walk_element : Node → Text → Option Text
    text_walk_element (element name attrs children) out =
        let below = text_walk_children children out in
        if text_skip_element name then some out else below
    text_walk_element (text s) out = some out
    text_walk_element other out = some out

    pub text_walk_children : Nodes → Text → Option Text
    text_walk_children nothing out = some out
    text_walk_children (child node more) out =
        and_then (text_walk_child node out) (text_walk_children more)

    pub text_walk_child : Node → Text → Option Text
    text_walk_child (element name attrs children) out =
        let below = text_walk_children children out in
        if text_skip_element name then some out else below
    text_walk_child (text s) out = append_text s out
    text_walk_child other out = some out

  abbrev pub text_walk_elements : Nodes → Text → Option Text
  text_walk_elements nothing out = some out
  text_walk_elements (child node more) out =
      and_then (text_walk_element node out) (text_walk_elements more)

  abbrev pub trimmed : Option Text → Option Text
  trimmed none = none
  trimmed (some out) = some (trim_start (trim_end out))

  -- Of a document, by the children of its root.
  unfoldable pub html_to_text : Nodes → Option Text
  html_to_text doc = trimmed (text_walk_elements doc [])
