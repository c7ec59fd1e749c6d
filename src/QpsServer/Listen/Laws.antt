-- ===== src/QpsServer/Listen/Laws.antt =====
-- Which address comes of which text.
use wander.Base.{
  ℕ, zero, suc, ◌+◌, ◌≡◌, refl, ◌∙◌, ap, false, [], ◌∷◌, ◌++◌, arith, length, get_elem?, none, some,
  length-append,
}
use wander.Base.Bytes.{Bytes, Lacks}
use wander.QpsServer.Listen.{is_byte, last_loop, last}

get_at : (xs ys : Bytes) (c : ℕ) → get_elem? (xs ++ (c ∷ ys)) (length xs) ≡ some c
get_at [] ys c = refl
get_at (x ∷ xs) ys c = get_at xs ys c

-- `k` more than `n`.
abbrev plus : ℕ → ℕ → ℕ
plus zero n = n
plus (suc k) n = suc (plus k n)

plus_lem : (k n : ℕ) → plus k n ≡ k + n
plus_lem zero n = omega arith
plus_lem (suc k) n = omega (arith, plus_lem k n)

get_behind :
    (xs ys : Bytes) (c k : ℕ)
    → get_elem? (xs ++ (c ∷ ys)) (plus k (suc (length xs))) ≡ get_elem? ys k
get_behind [] ys c k = ap (λ i. get_elem? (c ∷ ys) i) (one_more k)
  where
    one_more : (j : ℕ) → plus j 1 ≡ suc j
    one_more j = omega (arith, plus_lem j 1)
get_behind (x ∷ xs) ys c k =
    ap (λ i. get_elem? (x ∷ (xs ++ (c ∷ ys))) i) (one_out k) ∙ get_behind xs ys c k
  where
    one_out : (j : ℕ) → plus j (suc (suc (length xs))) ≡ suc (plus j (suc (length xs)))
    one_out j = omega (arith, plus_lem j (suc (suc (length xs))), plus_lem j (suc (length xs)))

is_byte-Lacks : (s : Bytes) (b i : ℕ) → Lacks b s → is_byte b (get_elem? s i) ≡ false
is_byte-Lacks [] b i h = refl
is_byte-Lacks (c ∷ s) b zero h = ground arith
is_byte-Lacks (c ∷ s) b (suc i) h = is_byte-Lacks s b i h.1

last_loop-none : (s : Bytes) (b i : ℕ) → Lacks b s → last_loop s b i ≡ none
unfolding last_loop
last_loop-none s b zero h = refl
last_loop-none s b (suc i) h = rw (is_byte-Lacks s b i h) (last_loop-none s b i h)

-- No such byte.
pub last-none : (s : Bytes) (b : ℕ) → Lacks b s → last s b ≡ none
unfolding last
last-none s b h = last_loop-none s b (length s) h

last_loop_at :
    (xs ys : Bytes) (b k : ℕ)
    → Lacks b ys
    → last_loop (xs ++ (b ∷ ys)) b (plus k (suc (length xs))) ≡ some (length xs)
unfolding last_loop
last_loop_at xs ys b zero h = rw (get_at xs ys b) (ground arith)
last_loop_at xs ys b (suc k) h =
    rw (get_behind xs ys b k, is_byte-Lacks ys b k h) (last_loop_at xs ys b k h)

-- The last such byte.
pub last_at : (xs ys : Bytes) (b : ℕ) → Lacks b ys → last (xs ++ (b ∷ ys)) b ≡ some (length xs)
unfolding last
last_at xs ys b h =
    ap (λ n. last_loop (xs ++ (b ∷ ys)) b n)
      (omega (arith, length-append xs (b ∷ ys), plus_lem (length ys) (suc (length xs))))
    ∙ last_loop_at xs ys b (length ys) h
