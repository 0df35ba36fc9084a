-- ===== src/Sitemap/Reading.antt =====
-- The reader of a sitemap in `web_sitemap` of src/actions/fetch.rs. It leaves a `loc` at the end of
-- any element, takes texts as they are, and stops taking them at the limit.
use mcp_web_search.Sitemap.Locs.{events_of, IsSitemap, IsOutside, outside, texts_then, loc}
use mcp_web_search.Sitemap.Locs.{Part}
use mcp_web_search.Sitemap.{otherwise, stopped, characters, finish, empty, is_loc, start, Event}
use mcp_web_search.Base.{
  zero, append-nil, length-append, append_assoc, inr, arith, text_eq, refl, sym, inl, suc, lit, ap,
  Bool-cases, ◌<◌, ltb, length, ◌&&◌, ◌∙◌, ◌-◌, unwrap_or, take, is_empty, [], not, true, ◌≡◌, ◌++◌,
  false, ◌∷◌, if◌then◌else◌, Text, Bool, Option, List, ℕ,
}

-- `t.unescape().unwrap_or_default()`, pushed unless it is empty or the limit is reached.
abbrev pub push_text : ℕ → Option Text → List Text → List Text
push_text limit text out =
    if not (is_empty (unwrap_or text [])) && ltb (length out) limit
    then out ++ (unwrap_or text [] ∷ [])
    else out

unfoldable pub read_from : ℕ → Bool → List Text → List Event → List Text
read_from limit in_loc out [] = out
read_from limit in_loc out (start name ∷ more) =
    read_from limit (if is_loc name then true else in_loc) out more
read_from limit in_loc out (empty name ∷ more) =
    read_from limit (if is_loc name then true else in_loc) out more
read_from limit in_loc out (finish name ∷ more) = read_from limit false out more
read_from limit true out (characters text ∷ more) =
    read_from limit true (push_text limit text out) more
read_from limit false out (characters text ∷ more) = read_from limit false out more
read_from limit in_loc out (stopped ∷ more) = out
read_from limit in_loc out (otherwise ∷ more) = read_from limit in_loc out more

unfoldable pub read_sitemap : ℕ → List Event → List Text
read_sitemap limit events = read_from limit false [] events

-- The texts of the `loc` elements that are not empty.
abbrev pub plain_texts : List (Option Text) → List Text
plain_texts [] = []
plain_texts (text ∷ texts) =
    (if is_empty (unwrap_or text []) then [] else unwrap_or text [] ∷ []) ++ plain_texts texts

abbrev pub plain_urls : List Part → List Text
plain_urls [] = []
plain_urls (loc texts ∷ more) = plain_texts texts ++ plain_urls more
plain_urls (outside event ∷ more) = plain_urls more

-- What is pushed while there is room.
abbrev pushed : ℕ → List Text → List Text → List Text
pushed limit out texts = out ++ take (limit - length out) texts

take_nil : (n : ℕ) → take {A = Text} n [] ≡ []
take_nil zero = refl
take_nil (suc n) = refl

pushed_one :
    (limit : ℕ) (t : Text) (texts out : List Text)
    → length out < limit
    → pushed limit (out ++ (t ∷ [])) texts ≡ pushed limit out (t ∷ texts)
pushed_one limit t texts out h =
    let e : limit - length out ≡ suc (limit - length (out ++ (t ∷ []))) =
      omega (arith, length-append out (t ∷ [])) in
    rw e (append_assoc out (t ∷ []) (take (limit - length (out ++ (t ∷ []))) texts))

push_text-pushed :
    (limit : ℕ) (text : Option Text) (texts out : List Text)
    → pushed limit (push_text limit text out) texts
      ≡ pushed limit out
          ((if is_empty (unwrap_or text []) then [] else unwrap_or text [] ∷ []) ++ texts)
push_text-pushed limit text texts out = elim (Bool-cases (is_empty (unwrap_or text []))) [
  | inl blank ↦ rw blank refl
  | inr shown ↦ elim (Bool-cases (ltb (length out) limit)) [
    | inl room ↦
        rw (shown, room) (pushed_one limit (unwrap_or text []) texts out (ground (arith, room)))
    | inr full ↦
        let e : limit - length out ≡ 0 = ground (arith, full) in rw (shown, full) (rw e refl)
  ]
]

read_from-texts :
    (limit : ℕ) (texts : List (Option Text)) (out : List Text) (more : List Event)
    (urls : List Text)
    → ((out' : List Text) → read_from limit true out' more ≡ pushed limit out' urls)
    → read_from limit true out (texts_then texts more)
      ≡ pushed limit out (plain_texts texts ++ urls)
unfolding read_from
read_from-texts limit [] out more urls h = h out
read_from-texts limit (text ∷ texts) out more urls h =
    read_from-texts limit texts (push_text limit text out) more urls h
    ∙ push_text-pushed limit text (plain_texts texts ++ urls) out
    ∙ ap (pushed limit out) (
        sym (
          append_assoc (if is_empty (unwrap_or text []) then [] else unwrap_or text [] ∷ [])
            (plain_texts texts) urls))

read_from-outside :
    (limit : ℕ) (event : Event) (out : List Text) (more : List Event)
    → IsOutside event
    → read_from limit false out (event ∷ more) ≡ read_from limit false out more
unfolding read_from
read_from-outside limit (start name) out more h = rw h refl
read_from-outside limit (empty name) out more h = rw h refl
read_from-outside limit (finish name) out more h = refl
read_from-outside limit (characters text) out more h = refl
read_from-outside limit stopped out more h = elim h [ ]
read_from-outside limit otherwise out more h = refl

read_from-urls :
    (limit : ℕ) (parts : List Part) (out : List Text)
    → IsSitemap parts
    → read_from limit false out (events_of parts) ≡ pushed limit out (plain_urls parts)
unfolding read_from lit text_eq
read_from-urls limit [] out h =
    sym (ap (λ l. out ++ l) (take_nil (limit - length out)) ∙ append-nil out)
read_from-urls limit (loc texts ∷ more) out h =
    read_from-texts limit texts out (finish (lit "loc") ∷ events_of more) (plain_urls more)
      (λ out'. read_from-urls limit more out' h)
read_from-urls limit (outside event ∷ more) out (o, h) =
    read_from-outside limit event out (events_of more) o ∙ read_from-urls limit more out h

-- Of a sitemap whose `loc` elements have texts only, so no CDATA and no elements, and are not written
-- `<loc/>`,
-- `web_sitemap` reads the texts of those elements that are not empty, in their order, up to the
-- limit.
pub read_sitemap-urls :
    (limit : ℕ) (parts : List Part)
    → IsSitemap parts
    → read_sitemap limit (events_of parts) ≡ take limit (plain_urls parts)
unfolding read_sitemap
read_sitemap-urls limit parts h =
    let e : limit - 0 ≡ limit = omega arith in
    read_from-urls limit parts [] h ∙ ap (λ n. take n (plain_urls parts)) e
