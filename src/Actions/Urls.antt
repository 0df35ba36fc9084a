-- ===== src/Actions/Urls.antt =====
-- The list of URLs that `web_extract` of src/actions/extract.rs and `web_check_links` of
-- src/actions/fetch.rs take.
use mcp_web_search.Actions.{get_str_array}
use mcp_web_search.Net.Logic.{OnOk}
use mcp_web_search.Json.{Value}
use mcp_web_search.Base.{
  arith, inr, inl, Bool-cases, show_nat, ok, ◌++◌, ltb, ◌<◌, lit, [], ◌≤◌, ◌∷◌, length, ok_or, none,
  some, Text, List, ℕ, Option,
}
use mcp_web_search.Errors.{refuse_if, invalid_params, WebSearchError, WsResult, ◌>>=◌, ◌>>◌}

-- `Option::filter` on a list.
abbrev pub nonempty_list : {A : Type 0} → Option (List A) → Option (List A)
nonempty_list none = none
nonempty_list (some []) = none
nonempty_list (some (x ∷ xs)) = some (x ∷ xs)

unfoldable pub urls_given : Option Value → ℕ → WsResult (List Text)
urls_given args max_urls = do
  urls ←
      ok_or (nonempty_list (get_str_array args (lit "urls")))
        (invalid_params (lit "Missing 'urls' parameter"))
  refuse_if (ltb max_urls (length urls)) (
      invalid_params (
        lit "Too many URLs: provided "
        ++ (show_nat (length urls) ++ (lit ", maximum is " ++ show_nat max_urls))))
  ok urls

counted-bound :
    (max_urls : ℕ) (x : Text) (xs : List Text) (e : WebSearchError)
    → OnOk
        (λ urls. (length urls ≤ max_urls) × (0 < length urls))
        (refuse_if (ltb max_urls (length (x ∷ xs))) e >> ok (x ∷ xs))
counted-bound max_urls x xs e = elim (Bool-cases (ltb max_urls (length (x ∷ xs)))) [
  | inl over ↦ rw over tt
  | inr within ↦ rw within (ground arith, omega arith)
]

given-bound :
    (max_urls : ℕ) (o : Option (List Text)) (e : WebSearchError) (f : List Text → WebSearchError)
    → OnOk
        (λ urls. (length urls ≤ max_urls) × (0 < length urls))
        (ok_or (nonempty_list o) e >>= λ urls.
          refuse_if (ltb max_urls (length urls)) (f urls) >> ok urls)
given-bound max_urls none e f = tt
given-bound max_urls (some []) e f = tt
given-bound max_urls (some (x ∷ xs)) e f = counted-bound max_urls x xs (f (x ∷ xs))

-- A list that is accepted has a URL, and no more than the limit.
pub urls_given-bound :
    (args : Option Value) (max_urls : ℕ)
    → OnOk (λ urls. (length urls ≤ max_urls) × (0 < length urls)) (urls_given args max_urls)
unfolding urls_given
urls_given-bound args max_urls =
    given-bound max_urls (get_str_array args (lit "urls")) _ (λ urls. _)
