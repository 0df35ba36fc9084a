-- ===== src/Client/Body.antt =====
-- The body of a response, read under a cap: `read_capped` of src/client.rs.
use mcp_web_search.Base.{
  is_ok, refl, ◌∙◌, length-from_utf8_lossy, false, true, min, leb→le, inr, append_assoc, inl,
  Bool-cases, ◌*◌, arith, append-nil, [], err, ◌++◌, from_utf8_lossy, leb, length-append,
  if◌then◌else◌, ◌+◌, ◌≡◌, ◌∷◌, ok, ◌≤◌, concat, map, ◌<◌, length, Result, ℕ, Text, List,
}
use mcp_web_search.Errors.{WsResult}
use mcp_web_search.Client.{read_from, read_capped, too_large, usize_max}
use mcp_web_search.Net.Logic.{OnOk}

-- The chunks of a body that arrives whole.
abbrev pub arrived : List Text → List (Result Text Text)
arrived = map (λ chunk. ok chunk)

module _ (cap total : ℕ) (buf c : Text) (chunks : List (Result Text Text)) where
  min-small : (n : ℕ) → cap < usize_max → n ≤ cap → min n usize_max ≡ n
  min-small n small le = omega arith

  read_from-fits :
      cap < usize_max
      → leb (total + length c) cap ≡ true
      → read_from cap total buf (ok c ∷ chunks) ≡ read_from cap (total + length c) (buf ++ c) chunks
  unfolding read_from
  read_from-fits small e =
      rw (min-small (total + length c) small (leb→le (total + length c) cap e)) (ground arith)

  read_from-over :
      leb (total + length c) cap ≡ false
      → cap < usize_max
      → read_from cap total buf (ok c ∷ chunks) ≡ err (too_large cap)
  unfolding read_from
  read_from-over e small = ground arith

read_from-arrived :
    (cap total : ℕ) (buf : Text) (cs : List Text)
    → cap < usize_max
    → total ≤ cap
    → read_from cap total buf (arrived cs) ≡ (
        if leb (total + length (concat cs)) cap
        then ok (from_utf8_lossy (buf ++ concat cs))
        else err (too_large cap))
unfolding read_from
read_from-arrived cap total buf [] small fits = rw (append-nil buf) (ground arith)
read_from-arrived cap total buf (c ∷ cs) small fits =
    elim (Bool-cases (leb (total + length c) cap)) [
      | inl e ↦
          rw (length-append c (concat cs), ← append_assoc buf c (concat cs))
            (ground (
              arith,
              read_from-arrived cap (total + length c) (buf ++ c) cs small
                  (leb→le (total + length c) cap e),
            ))
      | inr e ↦ rw (length-append c (concat cs)) (ground arith)
    ]

-- However a body is cut into chunks, it is decoded whole where it has at most `cap` bytes, and
-- refused otherwise.
pub read_capped-arrived :
    (cap : ℕ) (cs : List Text)
    → cap < usize_max
    → read_capped (arrived cs) cap ≡ (
        if leb (length (concat cs)) cap
        then ok (from_utf8_lossy (concat cs))
        else err (too_large cap))
unfolding read_capped
read_capped-arrived cap cs small = read_from-arrived cap 0 [] cs small (omega arith) ∙ ground arith

read_from-stops :
    (cap total : ℕ) (buf : Text) → read_from cap total buf [] ≡ ok (from_utf8_lossy buf)
unfolding read_from
read_from-stops cap total buf = refl

read_from-breaks :
    (cap total : ℕ) (buf e : Text) (chunks : List (Result Text Text))
    → is_ok (read_from cap total buf (err e ∷ chunks)) ≡ false
unfolding read_from
read_from-breaks cap total buf e chunks = refl

OnOk-failed : (P : Text → Type 0) (r : WsResult Text) → is_ok r ≡ false → OnOk P r
OnOk-failed P (ok a) h = cc
OnOk-failed P (err e) h = tt

read_from_bound :
    (cap total : ℕ) (buf : Text) (chunks : List (Result Text Text))
    → cap < usize_max
    → length buf ≤ total
    → total ≤ cap
    → OnOk (λ body. length body ≤ 3 * cap) (read_from cap total buf chunks)
read_from_bound cap total buf [] small h fits =
    rw (read_from-stops cap total buf) (omega (arith, length-from_utf8_lossy buf))
read_from_bound cap total buf (err e ∷ chunks) small h fits =
    OnOk-failed _ (read_from cap total buf (err e ∷ chunks))
      (read_from-breaks cap total buf e chunks)
read_from_bound cap total buf (ok c ∷ chunks) small h fits =
    elim (Bool-cases (leb (total + length c) cap)) [
      | inl e ↦ rw (read_from-fits cap total buf c chunks small e) (
          read_from_bound cap (total + length c) (buf ++ c) chunks small
            (omega (arith, h, length-append buf c)) (leb→le (total + length c) cap e))
      | inr e ↦ rw (read_from-over cap total buf c chunks e small) tt
    ]

-- A body that is returned has at most three times `cap` bytes, whatever chunks and errors arrive: a
-- byte that is not UTF-8 becomes a replacement character of three.
pub read_capped_bound :
    (cap : ℕ) (chunks : List (Result Text Text))
    → cap < usize_max
    → OnOk (λ body. length body ≤ 3 * cap) (read_capped chunks cap)
unfolding read_capped
read_capped_bound cap chunks small =
    read_from_bound cap 0 [] chunks small (omega arith) (omega arith)
