-- ===== src/Scrape/Dom/Depth.antt =====
-- What the walk of the document in src/actions/scrape.rs does to its state.
use mcp_web_search.Base.{
  none, and_then, some, Option, lit, is_empty, false, arith, true, ◌+◌, ◌∷◌, if◌then◌else◌, ℕ, List,
  Bool, append_assoc, append-nil, refl, ap, sym, ◌∙◌, ◌≡◌, [], ◌++◌, Text,
}
use mcp_web_search.Scrape.Dom.{
  fresh, main_to_markdown, dom_to_markdown, cleaned, map_walk, attr, is_shown, deeper, push_text,
  shallower, ends_with_newline, Node, Nodes, element, text, other, nothing, child, Walk, arm,
  push_str, end_line, walk_element, walk_children, walk_child, walk_items, walk_numbered,
}
use mcp_web_search.Scrape.Dom.Tags.{
  plain_tag, row, cell, iframe, skipped, image, anchor, item, numbers, bullets, code, pre,
  blockquote, rule, line_break, paragraph, wrapped, heading, Tag, tag_of,
}

-- The walk only adds to the text, and leaves the depth as it was.
abbrev pub Keeps : Walk → Walk → Type 0
Keeps w v = ((added : Text) × (v.md ≡ w.md ++ added)) × (v.list_depth ≡ w.list_depth)

-- The outcome of a walk that began at `w`; `F` is what a panic shows.
abbrev pub Ends : Type 0 → Walk → Option Walk → Type 0
Ends F w none = F
Ends F w (some v) = Keeps w v

abbrev Kept : Type 0 → (Walk → Option Walk) → Type 0
Kept F f = (w : Walk) → Ends F w (f w)

Keeps-trans : (w v u : Walk) → Keeps w v → Keeps v u → Keeps w u
Keeps-trans w v u ((a, p), d) ((b, q), e) =
    ((a ++ b, q ∙ ap (λ l. l ++ b) p ∙ append_assoc w.md a b), e ∙ d)

push_str-Keeps : (s : Text) (w : Walk) → Keeps w (push_str s w)
push_str-Keeps s w = ((s, refl), refl)

same-Keeps : (w : Walk) → Keeps w w
same-Keeps w = (([], sym (append-nil w.md)), refl)

if-Keeps : (b : Bool) (w v u : Walk) → Keeps w v → Keeps w u → Keeps w (if b then v else u)
if-Keeps true w v u h k = h
if-Keeps false w v u h k = k

end_line-Keeps : (w : Walk) → Keeps w (end_line w)
end_line-Keeps w =
    if-Keeps (ends_with_newline w.md) w w (push_str (0x0A ∷ []) w) (same-Keeps w)
      (push_str-Keeps (0x0A ∷ []) w)

-- One step after another.
then_push : (s : Text) (w v : Walk) → Keeps w v → Keeps w (push_str s v)
then_push s w v h = Keeps-trans w v (push_str s v) h (push_str-Keeps s v)

then_end_line : (w v : Walk) → Keeps w v → Keeps w (end_line v)
then_end_line w v h = Keeps-trans w v (end_line v) h (end_line-Keeps v)

module _ (F : Type 0) where
  map_Ends :
      (f : Walk → Walk) (w u : Walk) (o : Option Walk)
      → ((v : Walk) → Keeps u v → Keeps w (f v))
      → Ends F u o
      → Ends F w (map_walk f o)
  map_Ends f w u none h e = e
  map_Ends f w u (some v) h e = h v e

  -- A walk behind some text, after which more is written.
  push_Ends :
      (s : Text) (w u : Walk) (o : Option Walk)
      → Keeps w u
      → Ends F u o
      → Ends F w (map_walk (push_str s) o)
  push_Ends s w u o h e =
      map_Ends (push_str s) w u o (λ v k. then_push s w v (Keeps-trans w u v h k)) e

  line_Ends :
      (s : Text) (w u : Walk) (o : Option Walk)
      → Keeps w u
      → Ends F u o
      → Ends F w (map_walk (λ v. push_str s (end_line v)) o)
  line_Ends s w u o h e =
      map_Ends _ w u o (λ v k. then_push s w _ (then_end_line w v (Keeps-trans w u v h k))) e

  then_Ends :
      (f : Walk → Option Walk) (w : Walk) (o : Option Walk)
      → Kept F f
      → Ends F w o
      → Ends F w (and_then o f)
  then_Ends f w none k e = e
  then_Ends f w (some v) k e = onward (f v) (k v)
    where
      onward : (o : Option Walk) → Ends F v o → Ends F w o
      onward none h = h
      onward (some u) h = Keeps-trans w v u e h

  shallower-Keeps : (w v : Walk) → Keeps (deeper w) v → Keeps w (shallower v)
  shallower-Keeps w v (h, d) = (h, omega (arith, d))

  arm-Kept :
      (tag : Tag) (attrs : List (Text × Text)) (children : Nodes)
      (walked items numbered : Walk → Option Walk)
      → Kept F walked
      → Kept F items
      → Kept F numbered
      → Kept F (arm tag attrs children walked items numbered)
  unfolding arm
  arm-Kept (heading level) attrs children walked items numbered k i n w =
      line_Ends _ w _ _ (then_push _ w _ (push_str-Keeps _ w)) (k _)
  arm-Kept paragraph attrs children walked items numbered k i n w =
      line_Ends _ w w _ (same-Keeps w) (k w)
  arm-Kept line_break attrs children walked items numbered k i n w = push_str-Keeps _ w
  arm-Kept rule attrs children walked items numbered k i n w = push_str-Keeps _ w
  arm-Kept blockquote attrs children walked items numbered k i n w =
      map_Ends _ w (record { md = []; list_depth = w.list_depth }) _ (λ v h. ((_, refl), h.1)) (k _)
  arm-Kept pre attrs children walked items numbered k i n w =
      then_push _ w _ (then_end_line w _ (then_push _ w _ (push_str-Keeps _ w)))
  arm-Kept code attrs children walked items numbered k i n w =
      then_push _ w _ (then_push _ w _ (push_str-Keeps _ w))
  arm-Kept bullets attrs children walked items numbered k i n w =
      map_Ends _ w (deeper w) _ (λ v h. then_push _ w _ (then_end_line w _ (shallower-Keeps w v h)))
        (i (deeper w))
  arm-Kept numbers attrs children walked items numbered k i n w =
      map_Ends _ w (deeper w) _ (λ v h. then_push _ w _ (shallower-Keeps w v h)) (n (deeper w))
  arm-Kept item attrs children walked items numbered k i n w =
      push_Ends _ w _ _ (then_push _ w _ (push_str-Keeps _ w)) (k _)
  arm-Kept anchor attrs children walked items numbered k i n w =
      push_Ends _ w _ _ (push_str-Keeps _ w) (k _)
  arm-Kept image attrs children walked items numbered k i n w = push_str-Keeps _ w
  arm-Kept (wrapped before after) attrs children walked items numbered k i n w =
      push_Ends _ w _ _ (push_str-Keeps _ w) (k _)
  arm-Kept skipped attrs children walked items numbered k i n w = same-Keeps w
  arm-Kept iframe attrs children walked items numbered k i n w =
      if-Keeps (is_empty (attr (lit "src") attrs)) w w _ (same-Keeps w) (push_str-Keeps _ w)
  arm-Kept cell attrs children walked items numbered k i n w =
      push_Ends _ w w _ (same-Keeps w) (k w)
  arm-Kept row attrs children walked items numbered k i n w = push_Ends _ w w _ (same-Keeps w) (k w)
  arm-Kept plain_tag attrs children walked items numbered k i n w = k w

module _ (collapse_whitespace : Text → Option Text) where
  -- A text at which `collapse_whitespace` panics.
  abbrev pub Panics : Type 0
  Panics = (s : Text) × (collapse_whitespace s ≡ none)

  push_text-Kept : (s : Text) → Kept Panics (push_text collapse_whitespace s)
  push_text-Kept s w = pushed (collapse_whitespace s) refl
    where
      pushed :
          (o : Option Text)
          → collapse_whitespace s ≡ o
          → Ends Panics w
              (and_then o (λ shown. some (if is_shown shown then push_str shown w else w)))
      pushed none e = (s, e)
      pushed (some shown) e = if-Keeps (is_shown shown) w _ w (push_str-Keeps _ w) (same-Keeps w)

  mutual
    unfolding walk_element

    pub walk_element-Kept : (node : Node) → Kept Panics (walk_element collapse_whitespace node)
    walk_element-Kept (element name attrs children) w =
        arm-Kept Panics (tag_of name) attrs children _ _ _ (walk_children-Kept children)
          (walk_items-Kept children) (walk_numbered-Kept children 1) w
    walk_element-Kept (text s) w = same-Keeps w
    walk_element-Kept other w = same-Keeps w

    walk_children-Kept : (nodes : Nodes) → Kept Panics (walk_children collapse_whitespace nodes)
    walk_children-Kept nothing w = same-Keeps w
    walk_children-Kept (child node more) w =
        then_Ends Panics (walk_children collapse_whitespace more) w _ (walk_children-Kept more)
          (walk_child-Kept node w)

    walk_child-Kept : (node : Node) → Kept Panics (walk_child collapse_whitespace node)
    walk_child-Kept (element name attrs children) w =
        arm-Kept Panics (tag_of name) attrs children _ _ _ (walk_children-Kept children)
          (walk_items-Kept children) (walk_numbered-Kept children 1) w
    walk_child-Kept (text s) w = push_text-Kept s w
    walk_child-Kept other w = same-Keeps w

    pub walk_items-Kept : (nodes : Nodes) → Kept Panics (walk_items collapse_whitespace nodes)
    walk_items-Kept nothing w = same-Keeps w
    walk_items-Kept (child node more) w =
        then_Ends Panics (walk_items collapse_whitespace more) w _ (walk_items-Kept more)
          (walk_element-Kept node w)

    walk_numbered-Kept :
        (nodes : Nodes) (idx : ℕ) → Kept Panics (walk_numbered collapse_whitespace nodes idx)
    walk_numbered-Kept nothing idx w = same-Keeps w
    walk_numbered-Kept (child (element name attrs children) more) idx w =
        then_Ends Panics (walk_numbered collapse_whitespace more (idx + 1)) w _
          (walk_numbered-Kept more (idx + 1))
          (push_Ends Panics _ w _ _ (then_push _ w _ (push_str-Keeps _ w))
            (walk_children-Kept children _))
    walk_numbered-Kept (child (text s) more) idx w = walk_numbered-Kept more idx w
    walk_numbered-Kept (child other more) idx w = walk_numbered-Kept more idx w

  -- Whatever the document and the version of `collapse_whitespace`, the walk of an element only
  -- adds to the markdown, and leaves the depth of the lists as it found it; it panics only where
  -- `collapse_whitespace` does at some text.
  pub walk_element-Keeps :
      (node : Node) (w : Walk) → Ends Panics w (walk_element collapse_whitespace node w)
  walk_element-Keeps node w = walk_element-Kept node w

  ended :
      (w : Walk) (o : Option Walk) → Ends Panics w o → cleaned collapse_whitespace o ≡ none → Panics
  ended w none p e = p
  ended w (some v) k e = cc

  -- A conversion panics only where `collapse_whitespace` does.
  pub dom_to_markdown-Panics :
      (doc : Nodes) → dom_to_markdown collapse_whitespace doc ≡ none → Panics
  unfolding dom_to_markdown
  dom_to_markdown-Panics doc e =
      ended (fresh collapse_whitespace) _ (walk_items-Kept doc (fresh collapse_whitespace)) e

  pub main_to_markdown-Panics :
      (select_main : Nodes → Option Node) (doc : Nodes)
      → main_to_markdown collapse_whitespace select_main doc ≡ none
      → Panics
  unfolding main_to_markdown
  main_to_markdown-Panics select_main doc =
      elim (select_main doc)
        as (λ o.
          elim o [
            | some main ↦
                cleaned collapse_whitespace
                  (walk_element collapse_whitespace main (fresh collapse_whitespace))
            | none ↦
                cleaned collapse_whitespace
                  (walk_items collapse_whitespace doc (fresh collapse_whitespace))
          ]
            ≡ none
          → Panics) [
            | some main ↦ λ e.
                ended (fresh collapse_whitespace) _
                  (walk_element-Kept main (fresh collapse_whitespace)) e
            | none ↦ λ e.
                ended (fresh collapse_whitespace) _
                  (walk_items-Kept doc (fresh collapse_whitespace)) e
          ]
