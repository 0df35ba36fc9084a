-- ===== src/Scrape/Links/Once.antt =====
-- What `collect_links` of src/actions/scrape.rs returns.
use mcp_web_search.Net.{UrlLib}
use mcp_web_search.Base.{
  sym, ◌∙◌, Bool-cases, text_eq_sound, ap, inr, inl, ◌&&◌, refl, none, not, [], text_eq_iff, some,
  ◌∷◌, any, arith, ◌||◌, false, true, ◌≡◌, text_eq, ◌++◌, Option, Bool, Text, List,
}
use mcp_web_search.Scrape.Links.{insert, contains, absolute, links_from, collect_links}

-- No text stands twice.
abbrev pub distinct : List Text → Bool
distinct [] = true
distinct (s ∷ ts) = not (contains s ts) && distinct ts

-- Whether a link leads to `s`.
abbrev pub leads_to : Text → Option Text → Bool
leads_to s none = false
leads_to s (some t) = text_eq t s

pub contains-append :
    (s : Text) (ts us : List Text) → contains s (ts ++ us) ≡ (contains s ts || contains s us)
contains-append s [] us = refl
contains-append s (t ∷ ts) us = ground (arith, contains-append s ts us)

text_eq_comm : (s t : Text) → text_eq s t ≡ text_eq t s
text_eq_comm s t = ground (arith, text_eq_iff s t, text_eq_iff t s)

pub distinct-append :
    (ts : List Text) (s : Text)
    → contains s ts ≡ false
    → distinct ts ≡ true
    → distinct (ts ++ (s ∷ [])) ≡ true
distinct-append [] s h k = refl
distinct-append (t ∷ ts) s h k =
    ground (arith, h, k, distinct-append ts s, contains-append t ts (s ∷ []), text_eq_comm s t)

contains-eq : (s t : Text) (ts : List Text) → text_eq s t ≡ true → contains s ts ≡ contains t ts
contains-eq s t ts h = ap (λ r. contains r ts) (text_eq_sound s t h)

insert-contains :
    (o : Option Text) (seen out : List Text)
    → ((s : Text) → contains s seen ≡ contains s out)
    → (s : Text) → contains s (insert o seen out).1 ≡ (contains s out || leads_to s o)
unfolding insert
insert-contains none seen out same s = ground arith
insert-contains (some t) seen out same s = elim (Bool-cases (contains t seen)) [
  | inl e ↦ rw e (ground (arith, e, same t, contains-eq t s out))
  | inr e ↦ rw e (contains-append s out (t ∷ []) ∙ ground arith)
]

insert-same :
    (o : Option Text) (seen out : List Text)
    → ((s : Text) → contains s seen ≡ contains s out)
    → (s : Text) → contains s (insert o seen out).0 ≡ contains s (insert o seen out).1
unfolding insert
insert-same none seen out same s = same s
insert-same (some t) seen out same s = elim (Bool-cases (contains t seen)) [
  | inl e ↦ rw e (same s)
  | inr e ↦ rw e (ground (arith, same s, contains-append s out (t ∷ [])))
]

insert-distinct :
    (o : Option Text) (seen out : List Text)
    → ((s : Text) → contains s seen ≡ contains s out)
    → distinct out ≡ true
    → distinct (insert o seen out).1 ≡ true
unfolding insert
insert-distinct none seen out same once = once
insert-distinct (some t) seen out same once = elim (Bool-cases (contains t seen)) [
  | inl e ↦ rw e once
  | inr e ↦ rw e (distinct-append out t (sym (same t) ∙ e) once)
]

module _ (U : UrlLib) (base : U.Url) where
  -- The links that lead to `s`.
  abbrev pub is_target : Text → List Text → Bool
  is_target s hrefs = any (λ href. leads_to s (absolute U base (U.join base href))) hrefs

  links_from_lem :
      (seen out hrefs : List Text)
      → ((s : Text) → contains s seen ≡ contains s out)
      → distinct out ≡ true
      → (distinct (links_from U base seen out hrefs) ≡ true)
        × ((s : Text)
            → contains s (links_from U base seen out hrefs) ≡ (contains s out || is_target s hrefs))
  unfolding links_from
  links_from_lem seen out [] same once = (once, λ s. ground arith)
  links_from_lem seen out (href ∷ hrefs) same once =
      let o = absolute U base (U.join base href) in
      let next = insert o seen out in
      let rest =
        links_from_lem next.0 next.1 hrefs (insert-same o seen out same)
          (insert-distinct o seen out same once) in
      (rest.0, λ s. rest.1 s ∙ rw (insert-contains o seen out same s) (ground arith))

  -- The links of a document are each target that some link has, and no target twice.
  pub collect_links-distinct :
      (hrefs : List Text)
      → (distinct (collect_links U base hrefs) ≡ true)
        × ((s : Text) → contains s (collect_links U base hrefs) ≡ is_target s hrefs)
  unfolding collect_links
  collect_links-distinct hrefs = links_from_lem [] [] hrefs (λ s. refl) refl
