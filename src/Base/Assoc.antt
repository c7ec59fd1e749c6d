-- ===== src/Base/Assoc.antt =====
-- Go maps keyed by numbers, as association lists.
use wander.Base.{ℕ, ◌≡◌, List, [], ◌∷◌, Option, none, some, arith, ◌==◌, if◌then◌else◌}

module _ {ℓ} {V : Type ℓ} where
  unfoldable pub lookup : ℕ → List (ℕ × V) → Option V
  lookup n [] = none
  lookup n ((key, value) ∷ entries) =
      let behind = lookup n entries in if n == key then some value else behind

  -- `delete(m, n)`
  unfoldable pub erase : ℕ → List (ℕ × V) → List (ℕ × V)
  erase n [] = []
  erase n ((key, value) ∷ entries) =
      let rest = erase n entries in if n == key then rest else (key, value) ∷ rest

  -- `m[n] = x`
  unfoldable pub insert : ℕ → V → List (ℕ × V) → List (ℕ × V)
  insert n x [] = (n, x) ∷ []
  insert n x ((key, value) ∷ entries) =
      let rest = insert n x entries in if n == key then (n, x) ∷ entries else (key, value) ∷ rest

  pub lookup-erase :
      (n i : ℕ) (m : List (ℕ × V)) → lookup i (erase n m) ≡ (if n == i then none else lookup i m)
  unfolding lookup erase
  lookup-erase n i [] = ground arith
  lookup-erase n i ((key, value) ∷ entries) = ground (arith, lookup-erase n i entries)

  pub lookup-insert :
      (n i : ℕ) (x : V) (m : List (ℕ × V))
      → lookup i (insert n x m) ≡ (if n == i then some x else lookup i m)
  unfolding lookup insert
  lookup-insert n i x [] = ground arith
  lookup-insert n i x ((key, value) ∷ entries) = ground (arith, lookup-insert n i x entries)
