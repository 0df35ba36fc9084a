-- ===== src/Scrape/Dom/Tags.antt =====
-- The names of elements as `walk_element` of src/actions/scrape.rs tells them apart.
use mcp_web_search.Base.{
  ◌||◌, lit, text_eq, ◌-◌, [], false, get_or, ◌∷◌, Bool, if◌then◌else◌, String, Text, List, ℕ,
}

-- One constructor for each arm; the arms that write something before and after the children share
-- `wrapped`, and those that only walk the children `plain_tag`.
pub data Tag : Type 0 where
  heading : ℕ → Tag
  paragraph line_break rule blockquote pre code bullets numbers item anchor image : Tag
  wrapped : Text → Text → Tag
  skipped iframe cell row plain_tag : Tag

abbrev one_of : List String → Text → Bool
one_of [] name = false
one_of (s ∷ more) name = text_eq (lit s) name || one_of more name

abbrev headings : List String
headings = "h1" ∷ "h2" ∷ "h3" ∷ "h4" ∷ "h5" ∷ "h6" ∷ []

abbrev skips : List String
skips =
    "script" ∷ "style" ∷ "head" ∷ "nav" ∷ "footer" ∷ "aside" ∷ "form" ∷ "svg" ∷ "math" ∷ "input"
    ∷ "button" ∷ "select" ∷ "textarea" ∷ []

unfoldable pub tag_of : Text → Tag
tag_of name =
    if one_of headings name
    then heading (get_or name 1 0x30 - 0x30)
    else if one_of ("p" ∷ []) name
    then paragraph
    else if one_of ("br" ∷ []) name
    then line_break
    else if one_of ("hr" ∷ []) name
    then rule
    else if one_of ("blockquote" ∷ []) name
    then blockquote
    else if one_of ("pre" ∷ []) name
    then pre
    else if one_of ("code" ∷ "kbd" ∷ []) name
    then code
    else if one_of ("ul" ∷ []) name
    then bullets
    else if one_of ("ol" ∷ []) name
    then numbers
    else if one_of ("li" ∷ []) name
    then item
    else if one_of ("a" ∷ []) name
    then anchor
    else if one_of ("img" ∷ []) name
    then image
    else if one_of ("strong" ∷ "b" ∷ []) name
    then wrapped (lit "**") (lit "**")
    else if one_of ("em" ∷ "i" ∷ []) name
    then wrapped (lit "*") (lit "*")
    else if one_of ("del" ∷ "s" ∷ []) name
    then wrapped (lit "~~") (lit "~~")
    else if one_of skips name
    then skipped
    else if one_of ("q" ∷ []) name
    then wrapped (0x22 ∷ []) (0x22 ∷ [])
    else if one_of ("sub" ∷ []) name
    then wrapped (lit "_{") (lit "}")
    else if one_of ("sup" ∷ []) name
    then wrapped (lit "^") (lit "^")
    else if one_of ("iframe" ∷ []) name
    then iframe
    else if one_of ("td" ∷ "th" ∷ []) name
    then cell
    else if one_of ("tr" ∷ "table" ∷ []) name
    then row
    else plain_tag
