-- ===== src/Scraping/Moves.antt =====
-- The body of the page in `web_scrape` of src/actions/scrape.rs, which is moved into the last
-- section that shows it, and the parse that is left out where no format needs it.
use mcp_web_search.Scrape.Dom.Depth.{dom_to_markdown-Panics, main_to_markdown-Panics, Panics}
use mcp_web_search.Scraping.Turns.{
  is_converted, each, Kept, Ready, Kept-unused, sections_from_lem, Kept-always, needs, after,
  shown_section, is_known, is_html, uses_body,
}
use mcp_web_search.Scrape.Dom.{dom_to_markdown, main_to_markdown, Nodes}
use mcp_web_search.Crates.{Crates}
use mcp_web_search.Scraping.{
  needs_dom, sections, last_raw, checked_format, checked_formats, is_raw, later_or, rposition,
}
use mcp_web_search.Net.{UrlLib}
use mcp_web_search.Base.{
  ◌⊎◌, and_then, ◌∙◌, ok, sym, subst, ◌==◌, ◌≤◌, inr, refl, inl, arith, false, ◌+◌, Bool-cases,
  some, any, All, true, ◌≡◌, List, ◌&&◌, none, [], ℕ, ◌∷◌, Option, if◌then◌else◌, Bool, Text,
}

-- An index that is found is one of the list, and where none is found nothing meets the test.
later_or-le :
    (here : Bool) (idx : ℕ) (o : Option ℕ) (j : ℕ)
    → ((i : ℕ) → o ≡ some i → idx + 1 ≤ i)
    → later_or here idx o ≡ some j
    → idx ≤ j
later_or-le here idx (some i) j h e = ground (arith, h i refl, e)
later_or-le true idx none j h e = ground (arith, e)
later_or-le false idx none j h e = cc

rposition-le :
    (p : Text → Bool) (idx : ℕ) (fs : List Text) (j : ℕ) → rposition p idx fs ≡ some j → idx ≤ j
unfolding rposition
rposition-le p idx [] j h = cc
rposition-le p idx (f ∷ fs) j h =
    later_or-le (p f) idx (rposition p (idx + 1) fs) j (rposition-le p (idx + 1) fs) h

later_or-none :
    (here : Bool) (idx : ℕ) (o : Option ℕ)
    → later_or here idx o ≡ none
    → (here ≡ false) × (o ≡ none)
later_or-none here idx (some i) e = cc
later_or-none true idx none e = cc
later_or-none false idx none e = (refl, refl)

rposition-none :
    (p : Text → Bool) (idx : ℕ) (fs : List Text) → rposition p idx fs ≡ none → any p fs ≡ false
unfolding rposition
rposition-none p idx [] h = refl
rposition-none p idx (f ∷ fs) h =
    let (here, later) = later_or-none (p f) idx (rposition p (idx + 1) fs) h in
    rw here (rposition-none p (idx + 1) fs later)

module _ (U : UrlLib) (C : Crates) (final_url : U.Url) (only_main : Bool) (doc : Option Nodes)
    (body : Text) where
  -- Every format that shows the body is one into which it may be moved.
  abbrev AllRaw : List Text → Type 0
  AllRaw fs = All (λ f. uses_body f ≡ true → is_raw only_main f ≡ true) fs

  unused :
      (fs : List Text) → AllRaw fs → any (is_raw only_main) fs ≡ false → any uses_body fs ≡ false
  unused [] a h = refl
  unused (f ∷ fs) a h = elim (Bool-cases (uses_body f)) [
    | inl u ↦ ground (arith, a.0 u, h)
    | inr u ↦ rw u (unused fs a.1 (ground (arith, h)))
  ]

  moved_rest :
      (idx : ℕ) (f : Text) (fs : List Text)
      → AllRaw (f ∷ fs)
      → (o : Option ℕ) → rposition (is_raw only_main) (idx + 1) fs ≡ o
      → Kept U C final_url only_main o doc body (idx + 1) fs (some body)
      → Kept U C final_url only_main (later_or (is_raw only_main f) idx o) doc body (idx + 1) fs (
          after U C final_url only_main
            (later_or (is_raw only_main f) idx o)
            doc
            body
            idx
            f
            (some body))
  moved_rest idx f fs a none e k =
      Kept-unused U C final_url only_main _ doc body (idx + 1) fs _
        (unused fs a.1 (rposition-none (is_raw only_main) (idx + 1) fs e))
  moved_rest idx f fs a (some j) e k =
      let later : idx + 1 ≤ j = rposition-le (is_raw only_main) (idx + 1) fs j e in
      let here : (idx == j) ≡ false = ground (arith, later) in
      let stays : after U C final_url only_main (some j) doc body idx f (some body) ≡ some body =
        rw here (ground arith) in
      subst (λ b. Kept U C final_url only_main (some j) doc body (idx + 1) fs b) (sym stays) k

  -- The body is moved at the last of them, if it is moved at all.
  Kept-rposition :
      (idx : ℕ) (fs : List Text)
      → AllRaw fs
      → Kept U C final_url only_main
          (rposition (is_raw only_main) idx fs)
          doc
          body
          idx
          fs
          (some body)
  unfolding rposition
  Kept-rposition idx [] a = tt
  Kept-rposition idx (f ∷ fs) a = (
    λ _. refl,
    moved_rest idx f fs a (rposition (is_raw only_main) (idx + 1) fs) refl
        (Kept-rposition (idx + 1) fs a.1),
  )

raw-All :
    (only_main : Bool) (fs : List Text)
    → (only_main && any is_html fs) ≡ false
    → All (λ f. uses_body f ≡ true → is_raw only_main f ≡ true) fs
raw-All only_main [] h = tt
raw-All only_main (f ∷ fs) h = (λ u. ground (arith, h, u), raw-All only_main fs (ground (arith, h)))

known-All : (fs : List Text) → checked_formats fs ≡ ok tt → All (λ f. is_known f ≡ true) fs
unfolding checked_formats checked_format
known-All [] h = tt
known-All (f ∷ fs) h = elim (Bool-cases (is_known f)) [
  | inl known ↦ (known, known-All fs (rw known at h))
  | inr unknown ↦ ground (arith, h, unknown)
]

-- A document that one of the formats needs is parsed.
parsed-All :
    (p : Text → Bool) (d : Bool) (fs : List Text)
    → (any p fs ≡ true → d ≡ true)
    → All (λ f. p f ≡ true → d ≡ true) fs
parsed-All p d [] h = tt
parsed-All p d (f ∷ fs) h =
    (λ e. h (ground (arith, e)), parsed-All p d fs (λ e. h (ground (arith, e))))

-- Only the first arm can be none.
only_first :
    (a b c : Bool) (o : Option Text) (s t u : Text)
    → (if a then o else if b then some s else if c then some t else some u) ≡ none
    → o ≡ none
only_first true b c o s t u h = h
only_first false true c o s t u h = cc
only_first false false true o s t u h = cc
only_first false false false o s t u h = cc

one_missing :
    (o : Option Text) (r : Option (List Text))
    → and_then o (λ s. and_then r (λ rest. some (s ∷ rest))) ≡ none
    → (o ≡ none) ⊎ (r ≡ none)
one_missing none r h = inl refl
one_missing (some s) none h = inr refl
one_missing (some s) (some rest) h = cc

module _ (U : UrlLib) (C : Crates) (only_main : Bool) (final_url : U.Url) (body : Text) where
  markdown-Panics :
      (main : Bool) (d : Nodes)
      → (if main
          then main_to_markdown C.collapse_whitespace C.select_main d
          else dom_to_markdown C.collapse_whitespace d)
        ≡ none
      → Panics C.collapse_whitespace
  markdown-Panics true d e = main_to_markdown-Panics C.collapse_whitespace C.select_main d e
  markdown-Panics false d e = dom_to_markdown-Panics C.collapse_whitespace d e

  -- A section is missing only where the conversion panics.
  shown_section-Panics :
      (fmt : Text)
      → shown_section U C final_url only_main body fmt ≡ none
      → Panics C.collapse_whitespace
  shown_section-Panics fmt h =
      markdown-Panics only_main (C.parse_document body)
        (only_first (is_converted fmt) (is_html fmt && only_main) (uses_body fmt) _ _ _ _ h)

  each-Panics :
      (fs : List Text)
      → each (shown_section U C final_url only_main body) fs ≡ none
      → Panics C.collapse_whitespace
  each-Panics [] h = cc
  each-Panics (f ∷ fs) h =
      elim (one_missing (shown_section U C final_url only_main body f)
        (each (shown_section U C final_url only_main body) fs) h) [
          | inl e ↦ shown_section-Panics f e
          | inr e ↦ each-Panics fs e
        ]

  Ready-All :
      (d : Bool) (fs : List Text)
      → All (λ f. is_known f ≡ true) fs
      → All (λ f. needs only_main f ≡ true → d ≡ true) fs
      → All
          (Ready U C final_url only_main none
            (if d then some (C.parse_document body) else none)
            body)
          fs
  Ready-All d [] k p = tt
  Ready-All d (f ∷ fs) k p = ((k.0, λ e. rw (p.0 e) refl), Ready-All d fs k.1 p.1)

  Kept-all :
      (formats : List Text)
      → Kept U C final_url only_main
          (last_raw only_main formats)
          (if needs_dom only_main formats then some (C.parse_document body) else none)
          body
          0
          formats
          (some body)
  Kept-all formats = elim (Bool-cases (only_main && any is_html formats)) [
    | inl borrowed ↦
        Kept-always U C final_url only_main (last_raw only_main formats) none body 0 formats
          (rw borrowed refl)
    | inr free ↦ rw free (
        Kept-rposition U C final_url only_main none body 0 formats (raw-All only_main formats free))
  ]

  -- For formats that pass the check, the sections of `web_scrape` are, one for each format, those of
  -- the whole page: moving the body into the last section that shows it and parsing only where a
  -- format needs it change nothing. Its closure panics only where `collapse_whitespace` does at some
  -- text, so on aarch64 and the other targets than x86_64 never.
  pub sections-shown_section :
      (formats : List Text)
      → checked_formats formats ≡ ok tt
      → (sections U C only_main formats final_url body
          ≡ each (shown_section U C final_url only_main body) formats)
        × (sections U C only_main formats final_url body ≡ none → Panics C.collapse_whitespace)
  unfolding sections
  sections-shown_section formats h =
      let same =
        sections_from_lem U C final_url only_main (last_raw only_main formats) _ body 0 formats
          (some body)
          (Ready-All (needs_dom only_main formats) formats (known-All formats h)
            (parsed-All (needs only_main) (needs_dom only_main formats) formats (λ e. e)))
          (Kept-all formats) in
      (same, λ e. each-Panics formats (sym same ∙ e))
