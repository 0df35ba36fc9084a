-- ===== src/Actions/Content.antt =====
-- The shape of what a tool returns, as `text_content` of src/actions/mod.rs and the tools of
-- src/actions/browser.rs build it and `handle_tools_call` of src/server.rs passes it on.
use mcp_web_search.Errors.{WsResult}
use mcp_web_search.Net.Logic.{Runs-any, Runs-bind, OnOk, Runs}
use mcp_web_search.Base.{
  none, refl, ◌⊎◌, All, ◌∷◌, err, inl, ok, [], some, text_eq, ◌≡◌, lit, List, Text,
}
use mcp_web_search.Net.{on_ok, ◌>>=◌, bind, Io, Task, UrlLib}
use mcp_web_search.Actions.{text_content}
use mcp_web_search.Json.{array, str, get, Value}

-- A block of content: a text, or a picture in base64.
abbrev pub IsTextBlock : Value → Type 0
IsTextBlock v =
    (text : Text) × (get v (lit "type") ≡ some (str (lit "text")))
    × (get v (lit "text") ≡ some (str text))

abbrev pub IsImageBlock : Value → Type 0
IsImageBlock v =
    (data_text : Text) × (get v (lit "type") ≡ some (str (lit "image")))
    × (get v (lit "data") ≡ some (str data_text))
    × (get v (lit "mimeType") ≡ some (str (lit "image/png")))

-- Blocks of content, one at least.
abbrev pub HasBlocks : Value → Type 0
HasBlocks v =
    (b : Value) × (bs : List Value) × (get v (lit "content") ≡ some (array (b ∷ bs)))
    × All (λ w. IsTextBlock w ⊎ IsImageBlock w) (b ∷ bs)

-- What a tool returns.
abbrev pub IsContent : Value → Type 0
IsContent v = HasBlocks v × (get v (lit "isError") ≡ none)

pub text_content-IsContent : (text : Text) → IsContent (text_content text)
unfolding text_content get lit text_eq
text_content-IsContent text = ((_, [], refl, (inl (text, refl, refl), tt)), refl)

module _ {U : UrlLib} where
  -- Every success of a task meets `R`, whatever the world answers.
  abbrev pub Returns : {A : Type 0} → (A → Type 0) → Task U A → Type 0
  Returns R m = Runs (λ _. Unit {0}) (OnOk R) m

  -- What comes last decides.
  pub Returns-bind :
      {A B : Type 0} (R : B → Type 0) (m : Io U A) (f : A → Task U B)
      → ((a : A) → Returns R (f a))
      → Returns R (bind m f)
  Returns-bind R m f h =
      Runs-bind (λ _. Unit {0}) (λ _. Unit {0}) (OnOk R) m f (Runs-any m) (λ a _. h a)

  returned_on_ok :
      {A B : Type 0} (R : B → Type 0) (f : A → Task U B)
      → ((a : A) → Returns R (f a))
      → (r : WsResult A) → Returns R (on_ok f r)
  returned_on_ok R f h (ok a) = h a
  returned_on_ok R f h (err e) = tt

  pub Returns->>= :
      {A B : Type 0} (R : B → Type 0) (m : Task U A) (f : A → Task U B)
      → ((a : A) → Returns R (f a))
      → Returns R (m >>= f)
  Returns->>= R m f h = Returns-bind R m (on_ok f) (returned_on_ok R f h)
