-- ===== src/FileParse/Parser/Lines.antt =====
-- What `parser` of go-vs-php-file-parse/parser.go makes of a file, line by line.
use wander.Base.{
  ℕ, zero, suc, ◌+◌, ◌≤◌, ◌<◌, ◌≡◌, ◌≢◌, refl, sym, ◌∙◌, Bool, true, false, List, [], ◌∷◌, ◌++◌,
  append_assoc, arith, All, ltb, ◌==◌, if◌then◌else◌, length, length-append, Bool-cases, inl, inr,
  ◌⊎◌,
}
use wander.Base.Bytes.{Bytes, Lacks, newline}
use wander.Base.Int.{pos}
use wander.FileParse.Split.{split_bytes}
use wander.FileParse.Split.Fields.{split_bytes-fields}
use wander.FileParse.Split.Laws.{terminated}
use wander.FileParse.Atoi.{ato_int_of_bytes, u64}
use wander.FileParse.Parser.{
  Stat, Read, line, eof, buffer_full, cons_line, read_slice, field_eight, size_or_zero, count_line,
  Outcome, returned, fatal, out_of_fuel, parser_loop, no_stat, parser,
}

-- A line in front of more text is read whole, with its newline, if it fits the buffer.
read_slice_line :
    (size : ℕ) (l rest : Bytes)
    → Lacks newline l
    → length l < size
    → read_slice size (l ++ newline ∷ rest) ≡ line (l ++ newline ∷ []) rest
unfolding read_slice
read_slice_line zero l rest h lt = absurd (omega arith)
read_slice_line (suc size) [] rest h lt = ground arith
read_slice_line (suc size) (c ∷ l) rest (hc, h) lt = ground (arith, read_slice_line size l rest h)

read_slice_eof :
    (size : ℕ) (tail : Bytes) → Lacks newline tail → length tail < size → read_slice size tail ≡ eof
unfolding read_slice
read_slice_eof zero tail h lt = absurd (omega arith)
read_slice_eof (suc size) [] h lt = refl
read_slice_eof (suc size) (c ∷ tail) (hc, h) lt = ground (arith, read_slice_eof size tail h)

-- The size that a line adds: what its ninth field spells, if it has one that is a number.
pub size_of : Bytes → ℕ
size_of l =
    let fields = split_bytes (l ++ newline ∷ []) b' ' (pos 10) [] in
    if ltb (length fields) 9 then 0 else size_or_zero (ato_int_of_bytes (field_eight fields))

pub sum_sizes : List Bytes → ℕ
sum_sizes [] = 0
sum_sizes (l ∷ ls) = size_of l + sum_sizes ls

unfoldable pub sum_lengths : List Bytes → ℕ
sum_lengths [] = 0
sum_lengths (l ∷ ls) = length l + 1 + sum_lengths ls

same_fields :
    (l : Bytes) (slice : List Bytes)
    → split_bytes l b' ' (pos 10) slice ≡ split_bytes l b' ' (pos 10) []
same_fields l slice =
    split_bytes-fields l b' ' (pos 10) slice (cc) ∙ sym (split_bytes-fields l b' ' (pos 10) [] (cc))

-- The counters after lines of `b` bytes, `k` lines and sizes that sum to `z`.
abbrev pub totals : ℕ → ℕ → ℕ → Bool → Stat
totals b k z done = record { lines = u64 k; bytes = u64 b; sizes = u64 z; done = done }

-- What the buffer of the last line holds does not matter.
count_line_lem :
    (l : Bytes) (slice : List Bytes) (b k z : ℕ)
    → (count_line (l ++ newline ∷ []) slice (totals b k z false)).0
      ≡ totals (b + (length l + 1)) (k + 1) (z + size_of l) false
unfolding count_line size_of
count_line_lem l slice b k z =
    rw (same_fields (l ++ newline ∷ []) slice)
      (elim (Bool-cases (ltb (length (split_bytes (l ++ newline ∷ []) b' ' (pos 10) [])) 9)) [
        | inl e ↦ rw e (ground (arith, length-append l (newline ∷ [])))
        | inr e ↦ rw e (ground (arith, length-append l (newline ∷ [])))
      ])

abbrev pub IsLine : ℕ → Bytes → Type 0
IsLine size l = Lacks newline l × (length l < size)

loop_line :
    (fuel size b k z : ℕ) (l rest : Bytes) (slice : List Bytes)
    → IsLine size l
    → let fields = (count_line (l ++ newline ∷ []) slice (totals b k z false)).1 in
      parser_loop (suc fuel) size (l ++ newline ∷ rest) slice (totals b k z false)
      ≡ parser_loop fuel size rest fields
          (totals (b + (length l + 1)) (k + 1) (z + size_of l) false)
unfolding parser_loop
loop_line fuel size b k z l rest slice (h, fits) =
    ground (arith, read_slice_line size l rest h fits, count_line_lem l slice b k z)

loop_end :
    (fuel size : ℕ) (tail : Bytes) (slice : List Bytes) (r : Stat)
    → IsLine size tail
    → parser_loop (suc fuel) size tail slice r ≡ returned (record r { done = true })
unfolding parser_loop
loop_end fuel size tail slice r (h, fits) = ground (arith, read_slice_eof size tail h fits)

loop-lines :
    (ls : List Bytes) (tail : Bytes) (fuel size b k z : ℕ) (slice : List Bytes)
    → length ls < fuel
    → All (IsLine size) ls
    → IsLine size tail
    → parser_loop fuel size (terminated newline ls ++ tail) slice (totals b k z false)
      ≡ returned (totals (b + sum_lengths ls) (k + length ls) (z + sum_sizes ls) true)
unfolding terminated sum_lengths sum_sizes
loop-lines ls tail zero size b k z slice lt hs ht = absurd (omega arith)
loop-lines [] tail (suc fuel) size b k z slice lt hs ht =
    loop_end fuel size tail slice (totals b k z false) ht ∙ ground arith
loop-lines (l ∷ ls) tail (suc fuel) size b k z slice lt (hl, hs) ht =
    let fields = (count_line (l ++ newline ∷ []) slice (totals b k z false)).1 in
    ground (
      arith,
      append_assoc l (newline ∷ terminated newline ls) tail,
      loop_line fuel size b k z l (terminated newline ls ++ tail) slice hl,
      loop-lines ls tail fuel size (b + (length l + 1)) (k + 1) (z + size_of l) fields,
    )

length-le-terminated : (ls : List Bytes) → length ls ≤ length (terminated newline ls)
unfolding terminated
length-le-terminated [] = omega arith
length-le-terminated (l ∷ ls) =
    omega (arith, length-append l (newline ∷ terminated newline ls), length-le-terminated ls)

-- A file of lines that fit the read buffer, with a tail that has no newline and fits it too, is
-- parsed to its end: the counters are the number of lines, the number of their bytes and the sum of
-- their sizes, each modulo 2 ^ 64. The tail is not counted.
pub parser-lines :
    (ls : List Bytes) (tail : Bytes) (size : ℕ)
    → All (IsLine size) ls
    → IsLine size tail
    → parser size (terminated newline ls ++ tail)
      ≡ returned (totals (sum_lengths ls) (length ls) (sum_sizes ls) true)
unfolding parser
parser-lines ls tail size hs ht =
    loop-lines ls tail (suc (length (terminated newline ls ++ tail))) size 0 0 0 []
      (omega (arith, length-append (terminated newline ls) tail, length-le-terminated ls)) hs ht
    ∙ ground arith

cons_line_inv :
    (c : ℕ) (r : Read) {l rest : Bytes}
    → cons_line c r ≡ line l rest
    → (l' : Bytes) × (r ≡ line l' rest)
cons_line_inv c (line l' rest') h = (l', cc)
cons_line_inv c eof h = cc
cons_line_inv c buffer_full h = cc

rest_shrinks :
    (size : ℕ) (s : Bytes) {l rest : Bytes}
    → read_slice size s ≡ line l rest
    → length rest < length s
unfolding read_slice
rest_shrinks zero s h = cc
rest_shrinks (suc size) [] h = cc
rest_shrinks (suc size) (c ∷ s) {l} {rest} h = elim (Bool-cases (c == newline)) [
  | inl e ↦ ground arith
  | inr e ↦
      let (l', deeper) = cons_line_inv c (read_slice size s) (rw e at h) in
      omega (arith, rest_shrinks size s deeper)
]

read_cases :
    (r : Read)
    → ((l : Bytes) × (rest : Bytes) × (r ≡ line l rest)) ⊎ ((r ≡ eof) ⊎ (r ≡ buffer_full))
read_cases (line l rest) = inl (l, rest, refl)
read_cases eof = inr (inl refl)
read_cases buffer_full = inr (inr refl)

loop_total :
    (fuel size : ℕ) (s : Bytes) (slice : List Bytes) (r : Stat)
    → length s < fuel
    → parser_loop fuel size s slice r ≢ out_of_fuel
unfolding parser_loop
loop_total zero size s slice r h = absurd (omega arith)
loop_total (suc fuel) size s slice r h = elim (read_cases (read_slice size s)) [
  | inl (l, rest, e) ↦ ground (
    arith,
    rest_shrinks size s e,
    loop_total fuel size rest (count_line l slice r).1 (count_line l slice r).0,
  )
  | inr (inl e) ↦ ground arith
  | inr (inr e) ↦ ground arith
]

outcome_cases : (o : Outcome) → o ≢ out_of_fuel → ((r : Stat) × (o ≡ returned r)) ⊎ (o ≡ fatal)
outcome_cases (returned r) h = inl (r, refl)
outcome_cases fatal h = inr refl
outcome_cases out_of_fuel h = absurd (h refl)

-- Whatever the file holds and whatever the size of the buffer, `parser` ends: it returns a result or
-- stops at a line that does not fit the buffer.
pub parser_total :
    (size : ℕ) (s : Bytes) → ((r : Stat) × (parser size s ≡ returned r)) ⊎ (parser size s ≡ fatal)
parser_total size s =
    outcome_cases (parser size s)
      (unfold parser in loop_total (suc (length s)) size s [] no_stat (omega arith))
