-- ===== src/Base/Bytes.antt =====
-- Byte slices as lists of numbers: literals, Go's slice expressions and searches, and lines.
use Prim.Native.Char.{code}
use Prim.Native.String.{String}
use wander.Base.{
  ℕ, suc, ◌-◌, ◌≡◌, refl, List, [], ◌∷◌, ◌++◌, length, take, drop, All, ◌≢◌, Bool, true, false,
  ◌&&◌, ◌==◌, if◌then◌else◌, Option, none, some, arith,
}

abbrev pub Bytes : Type 0
Bytes = List ℕ

-- The code points of a literal: its bytes, if it is ASCII.
abbrev pub codes : String → Bytes
codes String.[] = []
codes (String.◌∷◌ c s) = code c ∷ codes s

abbrev pub Lacks : ℕ → Bytes → Type 0
Lacks b = All (λ c. c ≢ b)

module _ {ℓ} {A : Type ℓ} where
  -- `s[i:j]`
  abbrev pub slice : List A → ℕ → ℕ → List A
  slice s i j = take (j - i) (drop i s)

  pub drop-append : (xs ys : List A) → drop (length xs) (xs ++ ys) ≡ ys
  drop-append [] ys = refl
  drop-append (x ∷ xs) ys = drop-append xs ys

  pub take-append : (xs ys : List A) → take (length xs) (xs ++ ys) ≡ xs
  take-append [] ys = refl
  take-append (x ∷ xs) ys = ap_cons x (take-append xs ys)
    where
      ap_cons : (y : A) {us vs : List A} → us ≡ vs → y ∷ us ≡ y ∷ vs
      ap_cons y p = λ i. y ∷ p i

abbrev pub newline : ℕ
newline = 10

-- `bytes.IndexByte`, with `none` for -1.
unfoldable pub index_byte : Bytes → ℕ → Option ℕ
index_byte [] b = none
index_byte (c ∷ s) b =
    if c == b then some 0 else elim (index_byte s b) [ none ↦ none | some i ↦ some (suc i) ]

-- `bytes.HasPrefix`
abbrev pub has_prefix : Bytes → Bytes → Bool
has_prefix s [] = true
has_prefix [] (p ∷ ps) = false
has_prefix (c ∷ s) (p ∷ ps) = c == p && has_prefix s ps

abbrev pub unlines : List Bytes → Bytes
unlines [] = []
unlines (l ∷ ls) = l ++ (newline ∷ unlines ls)

pub index_byte-line :
    (l rest : Bytes)
    → Lacks newline l
    → index_byte (l ++ (newline ∷ rest)) newline ≡ some (length l)
unfolding index_byte
index_byte-line [] rest h = refl
index_byte-line (c ∷ l) rest h = ground (arith, index_byte-line l rest)

pub index_byte-none : (s : Bytes) → Lacks newline s → index_byte s newline ≡ none
unfolding index_byte
index_byte-none [] h = refl
index_byte-none (c ∷ s) h = ground (arith, index_byte-none s)
