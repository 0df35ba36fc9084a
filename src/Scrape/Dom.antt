-- ===== src/Scrape/Dom.antt =====
-- The walk of the document in src/actions/scrape.rs: `walk_children`, `walk_element`,
-- `dom_to_markdown` and `main_to_markdown`. The tree is what the crate `scraper`
-- parses; `walk_element` passes what it does with the children to `arm`, one case per arm of the
-- `match` on the name. `list_depth` is not bounded by the 32 bits that it has in the code.
pub mod Tags
pub mod Depth
use mcp_web_search.Base.{
  and_then, show_nat, none, ◌&&◌, some, not, trim, replicate, lit, ◌==◌, text_eq, false, Option, [],
  concat, is_empty, ◌∷◌, Bool, ◌++◌, ◌-◌, ◌+◌, ℕ, List, if◌then◌else◌, Text,
}
use mcp_web_search.Scrape.Newlines.{cleanup_md}
use mcp_web_search.Scrape.Dom.Tags.{
  Tag, heading, paragraph, line_break, rule, blockquote, pre, code, bullets, numbers, item, anchor,
  image, wrapped, skipped, iframe, cell, row, plain_tag, tag_of,
}

-- An element with its name and attributes, a text, or a node of another kind.
mutual
  pub data Node : Type 0 where
    element : Text → List (Text × Text) → Nodes → Node
    text : Text → Node
    other : Node

  pub data Nodes : Type 0 where
    nothing : Nodes
    child : Node → Nodes → Nodes

-- `md` and `list_depth`.
pub record Walk : Type 0 where
  pub md : Text
  pub list_depth : ℕ

abbrev pub push_str : Text → Walk → Walk
push_str s w = record w { md = w.md ++ s }

-- `md.ends_with('\n')`
abbrev pub ends_with_newline : Text → Bool
ends_with_newline [] = false
ends_with_newline (b ∷ []) = b == 0x0A
ends_with_newline (b ∷ c ∷ bs) = ends_with_newline (c ∷ bs)

abbrev pub end_line : Walk → Walk
end_line w = if ends_with_newline w.md then w else push_str (0x0A ∷ []) w

-- `el.value().attr(name).unwrap_or("")`
abbrev pub attr : Text → List (Text × Text) → Text
attr name [] = []
attr name ((k, v) ∷ attrs) = let rest = attr name attrs in if text_eq k name then v else rest

-- `str::lines`: a line ends before its newline and a carriage return before that; `line` is the
-- start of the current one.
abbrev pub without_cr : Text → Text
without_cr [] = []
without_cr (b ∷ []) = if b == 0x0D then [] else b ∷ []
without_cr (b ∷ c ∷ bs) = b ∷ without_cr (c ∷ bs)

unfoldable pub lines_from : Text → Text → List Text
lines_from line [] = if is_empty line then [] else line ∷ []
lines_from line (b ∷ bs) =
    let next = lines_from [] bs in
    let same = lines_from (line ++ (b ∷ [])) bs in
    if b == 0x0A then without_cr line ∷ next else same

abbrev pub quoted_lines : List Text → Text
quoted_lines [] = []
quoted_lines (line ∷ more) = lit "> " ++ (line ++ (0x0A ∷ quoted_lines more))

-- `"  ".repeat(list_depth.saturating_sub(1))`
abbrev pub indent : ℕ → Text
indent depth = concat (replicate (depth - 1) (0x20 ∷ 0x20 ∷ []))

-- The texts among the children, trimmed, as `code` and `kbd` write them.
abbrev pub trimmed_texts : Nodes → Text
trimmed_texts nothing = []
trimmed_texts (child (text s) more) = trim s ++ trimmed_texts more
trimmed_texts (child node more) = trimmed_texts more

-- The texts of all descendants.
unfoldable mutual
  pub texts_of : Node → Text
  texts_of (element name attrs children) = texts_below children
  texts_of (text s) = s
  texts_of other = []

  pub texts_below : Nodes → Text
  texts_below nothing = []
  texts_below (child node more) = texts_of node ++ texts_below more

abbrev pub deeper : Walk → Walk
deeper w = record w { list_depth = w.list_depth + 1 }

abbrev pub shallower : Walk → Walk
shallower w = record w { list_depth = w.list_depth - 1 }

-- A walk that may panic, and what is done after it.
abbrev pub map_walk : (Walk → Walk) → Option Walk → Option Walk
map_walk f none = none
map_walk f (some w) = some (f w)

-- The arm of a tag. `walked` walks the children, `items` the elements among them, `numbered` them
-- as the items of a numbered list; none is a panic.
unfoldable pub arm :
    Tag
    → List (Text × Text)
    → Nodes
    → (Walk → Option Walk)
    → (Walk → Option Walk)
    → (Walk → Option Walk)
    → Walk
    → Option Walk
arm (heading level) attrs children walked items numbered w =
    map_walk (λ v. push_str (0x0A ∷ []) (end_line v))
      (walked (push_str (0x20 ∷ []) (push_str (replicate level 0x23) w)))
arm paragraph attrs children walked items numbered w =
    map_walk (λ v. push_str (0x0A ∷ []) (end_line v)) (walked w)
arm line_break attrs children walked items numbered w = some (push_str (0x0A ∷ []) w)
arm rule attrs children walked items numbered w = some (push_str (lit "---\n\n") w)
arm blockquote attrs children walked items numbered w =
    map_walk
      (λ inner. record {
        md = w.md ++ (quoted_lines (lines_from [] inner.md) ++ (0x0A ∷ []));
        list_depth = inner.list_depth;
      })
      (walked (record { md = []; list_depth = w.list_depth }))
arm pre attrs children walked items numbered w = some (
    push_str (lit "```\n\n")
      (end_line (push_str (texts_below children) (push_str (lit "```\n") w))))
arm code attrs children walked items numbered w =
    some (push_str (lit "`") (push_str (trimmed_texts children) (push_str (lit "`") w)))
arm bullets attrs children walked items numbered w =
    map_walk (λ v. push_str (0x0A ∷ []) (end_line (shallower v))) (items (deeper w))
arm numbers attrs children walked items numbered w =
    map_walk (λ v. push_str (0x0A ∷ []) (shallower v)) (numbered (deeper w))
arm item attrs children walked items numbered w =
    map_walk (push_str (0x0A ∷ []))
      (walked (push_str (lit "- ") (push_str (indent w.list_depth) w)))
arm anchor attrs children walked items numbered w =
    map_walk (push_str (lit "](" ++ (attr (lit "href") attrs ++ lit ")")))
      (walked (push_str (lit "[") w))
arm image attrs children walked items numbered w = some (
    push_str
      (lit "![" ++ (attr (lit "alt") attrs ++ (lit "](" ++ (attr (lit "src") attrs ++ lit ")")))) w)
arm (wrapped before after) attrs children walked items numbered w =
    map_walk (push_str after) (walked (push_str before w))
arm skipped attrs children walked items numbered w = some w
arm iframe attrs children walked items numbered w = some (
    if is_empty (attr (lit "src") attrs)
    then w
    else push_str (lit "[iframe: " ++ (attr (lit "src") attrs ++ lit "]")) w)
arm cell attrs children walked items numbered w = map_walk (push_str (0x20 ∷ [])) (walked w)
arm row attrs children walked items numbered w = map_walk (push_str (0x0A ∷ [])) (walked w)
arm plain_tag attrs children walked items numbered w = walked w

-- `!s.is_empty() && s != " "`
abbrev pub is_shown : Text → Bool
is_shown s = not (is_empty s) && not (text_eq s (0x20 ∷ []))

-- `collapse_whitespace` is the version of the target, and none where that panics, as the SSE2 version
-- does at some texts (Scrape.Spaces.Vector.Panics).
module _ (collapse_whitespace : Text → Option Text) where
  abbrev pub push_text : Text → Walk → Option Walk
  push_text s w =
      and_then (collapse_whitespace s)
        (λ shown. some (if is_shown shown then push_str shown w else w))

  unfoldable mutual
    -- An element, and nothing for any other node.
    pub walk_element : Node → Walk → Option Walk
    walk_element (element name attrs children) w =
        arm (tag_of name) attrs children (walk_children children) (walk_items children)
          (walk_numbered children 1) w
    walk_element (text s) w = some w
    walk_element other w = some w

    pub walk_children : Nodes → Walk → Option Walk
    walk_children nothing w = some w
    walk_children (child node more) w = and_then (walk_child node w) (walk_children more)

    -- One child: an element, or a text.
    pub walk_child : Node → Walk → Option Walk
    walk_child (element name attrs children) w =
        arm (tag_of name) attrs children (walk_children children) (walk_items children)
          (walk_numbered children 1) w
    walk_child (text s) w = push_text s w
    walk_child other w = some w

    -- The children of `ul`: the elements only.
    pub walk_items : Nodes → Walk → Option Walk
    walk_items nothing w = some w
    walk_items (child node more) w = and_then (walk_element node w) (walk_items more)

    -- The children of `ol`, from the number `idx` on: the elements only, each as an item.
    pub walk_numbered : Nodes → ℕ → Walk → Option Walk
    walk_numbered nothing idx w = some w
    walk_numbered (child (element name attrs children) more) idx w =
        and_then
          (map_walk (push_str (0x0A ∷ [])) (
            walk_children children
              (push_str (show_nat idx ++ lit ". ") (push_str (indent w.list_depth) w))))
          (walk_numbered more (idx + 1))
    walk_numbered (child (text s) more) idx w = walk_numbered more idx w
    walk_numbered (child other more) idx w = walk_numbered more idx w

  abbrev pub fresh : Walk
  fresh = record { md = []; list_depth = 0 }

  abbrev pub cleaned : Option Walk → Option Text
  cleaned none = none
  cleaned (some w) = some (cleanup_md w.md)

  -- Of a document, by the children of its root.
  unfoldable pub dom_to_markdown : Nodes → Option Text
  dom_to_markdown doc = cleaned (walk_items doc fresh)

  -- The first match of `main, article, [role=main]` is `scraper`'s to find.
  unfoldable pub main_to_markdown : (Nodes → Option Node) → Nodes → Option Text
  main_to_markdown select_main doc = elim (select_main doc) [
    | some main ↦ cleaned (walk_element main fresh)
    | none ↦ cleaned (walk_items doc fresh)
  ]
