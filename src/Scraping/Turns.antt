-- ===== src/Scraping/Turns.antt =====
-- One turn of the loop over the formats in `web_scrape` of src/actions/scrape.rs, which may take the
-- body out of its variable.
use mcp_web_search.Scrape.Dom.{Nodes}
use mcp_web_search.Crates.{Crates}
use mcp_web_search.Scraping.{
  links_of, is_last, extract_main_doc, sections_from, section, markdown_of, one_of,
}
use mcp_web_search.Net.{UrlLib}
use mcp_web_search.Base.{
  and_then, inr, refl, inl, arith, false, ◌+◌, Bool-cases, some, any, All, true, ◌≡◌, List, ◌&&◌,
  ◌||◌, none, [], ℕ, ◌∷◌, Option, if◌then◌else◌, lit, text_eq, Bool, Text,
}

abbrev pub is_converted : Text → Bool
is_converted fmt = one_of (lit "markdown" ∷ lit "extract" ∷ []) fmt

abbrev pub is_html : Text → Bool
is_html fmt = text_eq fmt (lit "html")

abbrev pub uses_body : Text → Bool
uses_body fmt = one_of (lit "html" ∷ lit "rawHtml" ∷ []) fmt

abbrev pub is_known : Text → Bool
is_known fmt =
    one_of (lit "markdown" ∷ lit "extract" ∷ lit "html" ∷ lit "rawHtml" ∷ lit "links" ∷ []) fmt

abbrev pub needs : Bool → Text → Bool
needs only_main f =
    one_of (lit "markdown" ∷ lit "extract" ∷ lit "links" ∷ []) f
    || text_eq f (lit "html") && only_main

-- The section of a format, from the whole body and its document; none where its conversion panics.
abbrev pub shown_section : (U : UrlLib) → Crates → U.Url → Bool → Text → Text → Option Text
shown_section U C final_url only_main body fmt =
    let d = C.parse_document body in
    if is_converted fmt
    then markdown_of U C final_url only_main none none d
    else if is_html fmt && only_main
    then some (extract_main_doc U C final_url only_main none none body d)
    else if uses_body fmt
    then some body
    else some (links_of U C final_url only_main none none d)

-- The sections of all formats in their order, none where one of them is none.
abbrev pub each : (Text → Option Text) → List Text → Option (List Text)
each f [] = some []
each f (x ∷ xs) = and_then (f x) (λ s. and_then (each f xs) (λ rest. some (s ∷ rest)))

module _ (U : UrlLib) (C : Crates) (final_url : U.Url) (only_main : Bool) (last : Option ℕ)
    (doc : Option Nodes) (body : Text) where
  -- The body after a turn.
  abbrev pub after : ℕ → Text → Option Text → Option Text
  after idx fmt b =
      if is_converted fmt
      then b
      else if is_html fmt && only_main
      then b
      else if uses_body fmt
      then (if is_last idx last then none else b)
      else b

  section_lem :
      (idx : ℕ) (fmt : Text) (b : Option Text)
      → is_known fmt ≡ true
      → (needs only_main fmt ≡ true → doc ≡ some (C.parse_document body))
      → (uses_body fmt ≡ true → b ≡ some body)
      → section U C final_url only_main last doc idx fmt b
        ≡ and_then (shown_section U C final_url only_main body fmt) (λ s. some (s, after idx fmt b))
  unfolding section
  section_lem idx fmt b known parsed there = elim (Bool-cases (is_converted fmt)) [
    | inl c ↦ rw (parsed (ground (arith, c)), c) refl
    | inr c ↦ elim (Bool-cases (is_html fmt && only_main)) [
      | inl h ↦ rw (parsed (ground (arith, h)), there (ground (arith, h)), c, h) refl
      | inr h ↦ elim (Bool-cases (uses_body fmt)) [
        | inl u ↦ elim (Bool-cases (is_last idx last)) [
          | inl l ↦ rw (there u, c, h, u, l) refl
          | inr l ↦ rw (there u, c, h, u, l) refl
        ]
        | inr u ↦
            let e : text_eq fmt (lit "links") ≡ true = ground (arith, known, c, u) in
            rw (parsed (ground (arith, e)), c, h, u, e) refl
      ]
    ]
  ]

  -- At each turn that shows the body it is still there.
  abbrev pub Kept : ℕ → List Text → Option Text → Type 0
  Kept idx [] b = Unit
  Kept idx (f ∷ fs) b = (uses_body f ≡ true → b ≡ some body) × Kept (idx + 1) fs (after idx f b)

  abbrev pub Ready : Text → Type 0
  Ready f = (is_known f ≡ true) × (needs only_main f ≡ true → doc ≡ some (C.parse_document body))

  go_on :
      {b : Option Text} (rest : Option Text → Option (List Text)) {others : Option (List Text)}
      (o : Option Text)
      → rest b ≡ others
      → and_then {A = Text × Option Text}
          (and_then o (λ s. some (s, b)))
          (λ s. and_then (rest s.1) (λ more. some (s.0 ∷ more)))
        ≡ and_then o (λ s. and_then others (λ more. some (s ∷ more)))
  go_on rest none e = refl
  go_on rest (some s) e = rw e refl

  pub sections_from_lem :
      (idx : ℕ) (formats : List Text) (b : Option Text)
      → All Ready formats
      → Kept idx formats b
      → sections_from U C final_url only_main last doc idx formats b
        ≡ each (shown_section U C final_url only_main body) formats
  unfolding sections_from
  sections_from_lem idx [] b r k = refl
  sections_from_lem idx (f ∷ fs) b r k = rw (section_lem idx f b r.0.0 r.0.1 k.0) (
      go_on (sections_from U C final_url only_main last doc (idx + 1) fs)
        (shown_section U C final_url only_main body f)
        (sections_from_lem (idx + 1) fs (after idx f b) r.1 k.1))

  -- A body that no later format shows need not be there.
  pub Kept-unused :
      (idx : ℕ) (fs : List Text) (b : Option Text) → any uses_body fs ≡ false → Kept idx fs b
  Kept-unused idx [] b h = tt
  Kept-unused idx (f ∷ fs) b h =
      (λ u. ground (arith, h, u), Kept-unused (idx + 1) fs (after idx f b) (ground (arith, h)))

  -- Without a last turn the body is never moved.
  pub Kept-always : (idx : ℕ) (fs : List Text) → last ≡ none → Kept idx fs (some body)
  Kept-always idx [] e = tt
  Kept-always idx (f ∷ fs) e = (λ _. refl, rw (stays) (Kept-always (idx + 1) fs e))
    where
      stays : after idx f (some body) ≡ some body
      stays = rw e (ground arith)
