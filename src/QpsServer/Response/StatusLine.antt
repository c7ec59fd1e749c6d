-- ===== src/QpsServer/Response/StatusLine.antt =====
-- The first line of a response.
use Prim.Native.String.{String}
use wander.Base.{
  ℕ, ◌≡◌, ◌⊎◌, inl, inr, refl, ◌∙◌, ap, Bool, true, ◌&&◌, List, [], ◌∷◌, ◌++◌, arith, length, drop,
  ◌==◌, Bool-cases,
}
use wander.Base.Bytes.{Bytes, codes, has_prefix}
use wander.Base.Decimal.{itoa}
use wander.QpsServer.Status.{http_status_text}
use wander.QpsServer.Response.{text_of, status_text}

-- A blank, the number, and a blank: what the text of a status begins with.
abbrev pub numbered : ℕ → Bytes
numbered code = b' ' ∷ (itoa code ++ b' ' ∷ [])

abbrev pub IsNumbered : ℕ → Bytes → Type 0
IsNumbered code text = (reason : Bytes) × (text ≡ numbered code ++ reason)

all_numbered : List (ℕ × String) → Bool
all_numbered [] = true
all_numbered ((code, text) ∷ rest) = has_prefix (codes text) (numbered code) && all_numbered rest

prefix_rest : (s p : Bytes) → has_prefix s p ≡ true → s ≡ p ++ drop (length p) s
prefix_rest s [] h = refl
prefix_rest [] (b ∷ p) h = absurd (ground arith)
prefix_rest (c ∷ s) (b ∷ p) h = ground (arith, prefix_rest s p)

text_of-IsNumbered :
    (code : ℕ) (table : List (ℕ × String))
    → all_numbered table ≡ true
    → (text_of code table ≡ []) ⊎ IsNumbered code (text_of code table)
unfolding all_numbered
text_of-IsNumbered code [] h = inl refl
text_of-IsNumbered code ((c, text) ∷ rest) h = elim (Bool-cases (c == code)) [
  | inl e ↦ rw e (
      inr (
        drop (length (numbered code)) (codes text),
        prefix_rest (codes text) (numbered code)
            (ap (λ d. has_prefix (codes text) (numbered d)) (same e) ∙ (both h).0),
      ))
  | inr e ↦ rw e (text_of-IsNumbered code rest (both h).1)
]
  where
    same : (c == code) ≡ true → code ≡ c
    same k = ground arith

    both : {a b : Bool} → (a && b) ≡ true → (a ≡ true) × (b ≡ true)
    both {a} {b} k = ground arith

table_numbered : all_numbered http_status_text ≡ true
unfolding all_numbered itoa
table_numbered = refl

-- The text of a status is a blank, the number of the status in decimal, a blank and a reason, or it
-- is empty, for a number that the table lacks.
pub status_text-IsNumbered :
    (code : ℕ) → (status_text code ≡ []) ⊎ IsNumbered code (status_text code)
unfolding status_text
status_text-IsNumbered code = text_of-IsNumbered code http_status_text table_numbered
