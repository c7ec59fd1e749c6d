-- ===== src/FileParse/Split.antt =====
-- `SplitBytes` of go-vs-php-file-parse/parser.go.
pub mod Fields
pub mod Laws
use wander.Base.{
  ℕ, zero, suc, ◌+◌, ◌-◌, ◌<◌, ◌≤◌, ◌≡◌, refl, Bool, true, false, ◌&&◌, List, [], ◌∷◌, ◌++◌, arith,
  length, drop, ltb, ◌==◌, if◌then◌else◌,
}
use wander.Base.Int.{ℤ, pos, negsuc, ltb_ℤ, eqb_ℤ, ◌-ℤ◌}
use wander.Base.Bytes.{Bytes, codes, slice}

-- The last test of the function: the rest behind the last separator, if there is one.
abbrev keep_rest : Bytes → ℕ → List Bytes → List Bytes
keep_rest s start out = if ltb start (length s) then out ++ drop start s ∷ [] else out

module _ (s : Bytes) (sep : ℕ) (n : ℤ) where
  -- The `for idx, char := range s` loop; the first argument is what is left of `s`.
  split_loop : Bytes → ℕ → ℕ → ℕ → List Bytes → List Bytes
  split_loop [] idx rcnt start out = keep_rest s start out
  split_loop (char ∷ rest) idx rcnt start out = elim (char == sep) [
    | true ↦ elim (ltb_ℤ (pos 0) n && ltb_ℤ n (pos (rcnt + 1))) [
      | true ↦ keep_rest s (length s) (out ++ drop start s ∷ [])
      | false ↦ split_loop rest (idx + 1) (rcnt + 1) (idx + 1) (out ++ slice s start idx ∷ [])
    ]
    | false ↦ split_loop rest (idx + 1) rcnt start out
  ]

-- `result` is the caller's buffer: its contents are returned only if `n` is zero.
unfoldable pub split_bytes : Bytes → ℕ → ℤ → List Bytes → List Bytes
unfolding split_loop ◌-ℤ◌
split_bytes s sep n result =
    if eqb_ℤ n (pos 0)
    then result
    else split_loop s sep (if ltb_ℤ (pos 0) n then n -ℤ pos 1 else n) s 0 0 0 []

split_four :
    split_bytes (codes "a b  c") b' ' (negsuc 0) [] ≡ codes "a" ∷ codes "b" ∷ [] ∷ codes "c" ∷ []
unfolding split_bytes
split_four = refl

split_two : split_bytes (codes "a b  c") b' ' (pos 2) [] ≡ codes "a" ∷ codes "b  c" ∷ []
unfolding split_bytes
split_two = refl
