-- ===== src/Scrape/Plain/Pruning.antt =====
-- Skipped elements in `html_to_text` of src/actions/scrape.rs.
use mcp_web_search.Base.{
  none, some, and_then, Option, [], refl, inr, inl, ap, Bool-cases, ◌≡◌, Text, if◌then◌else◌,
}
use mcp_web_search.Scrape.Dom.{other, nothing, text, element, child, Nodes}
use mcp_web_search.Scrape.Plain.{
  trimmed, append_text, text_skip_element, text_walk_element, text_walk_children,
  text_walk_elements, html_to_text,
}

-- A document without its skipped elements.
abbrev pub pruned : Nodes → Nodes
pruned nothing = nothing
pruned (child (element name attrs children) more) =
    if text_skip_element name
    then pruned more
    else child (element name attrs (pruned children)) (pruned more)
pruned (child (text s) more) = child (text s) (pruned more)
pruned (child other more) = child other (pruned more)

module _ (collapse_whitespace : Text → Option Text) where
  -- A walk goes on alike after the same outcome.
  then_alike :
      (f g : Text → Option Text) (o : Option Text)
      → ((out : Text) → f out ≡ g out)
      → and_then o f ≡ and_then o g
  then_alike f g none h = refl
  then_alike f g (some out) h = h out

  text_walk_children-pruned :
      (nodes : Nodes) (out : Text)
      → text_walk_children collapse_whitespace (pruned nodes) out
        ≡ text_walk_children collapse_whitespace nodes out
  unfolding text_walk_element
  text_walk_children-pruned nothing out = refl
  text_walk_children-pruned (child (element name attrs children) more) out =
      elim (Bool-cases (text_skip_element name)) [
        | inl e ↦ rw e (text_walk_children-pruned more out)
        | inr e ↦
            rw (e, e)
              (rw (text_walk_children-pruned children out) (
                then_alike _ _ (text_walk_children collapse_whitespace children out)
                  (text_walk_children-pruned more)))
      ]
  text_walk_children-pruned (child (text s) more) out =
      then_alike _ _ (append_text collapse_whitespace s out) (text_walk_children-pruned more)
  text_walk_children-pruned (child other more) out = text_walk_children-pruned more out

  text_walk_elements-pruned :
      (nodes : Nodes) (out : Text)
      → text_walk_elements collapse_whitespace (pruned nodes) out
        ≡ text_walk_elements collapse_whitespace nodes out
  unfolding text_walk_element
  text_walk_elements-pruned nothing out = refl
  text_walk_elements-pruned (child (element name attrs children) more) out =
      elim (Bool-cases (text_skip_element name)) [
        | inl e ↦ rw e (text_walk_elements-pruned more out)
        | inr e ↦
            rw (e, e)
              (rw (text_walk_children-pruned children out) (
                then_alike _ _ (text_walk_children collapse_whitespace children out)
                  (text_walk_elements-pruned more)))
      ]
  text_walk_elements-pruned (child (text s) more) out = text_walk_elements-pruned more out
  text_walk_elements-pruned (child other more) out = text_walk_elements-pruned more out

  -- What stands in a skipped element, at any depth, has no influence on the text of a document, nor
  -- on whether the walk panics: it is that of the document without those elements.
  pub html_to_text-pruned :
      (doc : Nodes)
      → html_to_text collapse_whitespace (pruned doc) ≡ html_to_text collapse_whitespace doc
  unfolding html_to_text
  html_to_text-pruned doc = ap (trimmed collapse_whitespace) (text_walk_elements-pruned doc [])
