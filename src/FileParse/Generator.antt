-- ===== src/FileParse/Generator.antt =====
-- The generator of input files in `main` of go-vs-php-file-parse/parser.go.
use wander.Base.{
  ℕ, zero, suc, ◌+◌, ◌-◌, ◌*◌, ◌≤◌, ◌<◌, ◌≡◌, refl, sym, ap, ◌∙◌, List, [], ◌∷◌, ◌++◌, append_assoc,
  append-nil, arith, All, length, length-take, length-drop, take, drop, leb, ltb, if◌then◌else◌,
  true,
}
use wander.Base.Bytes.{Bytes, Lacks, slice, newline}
use wander.FileParse.Split.Laws.{terminated}
use wander.FileParse.Parser.{returned, parser}
use wander.FileParse.Parser.Lines.{IsLine, totals, sum_sizes, sum_lengths, parser-lines}

-- `linebuf[i] = ' '`
unfoldable pub put_space : ℕ → Bytes → Bytes
put_space i [] = []
put_space zero (c ∷ s) = b' ' ∷ s
put_space (suc i) (c ∷ s) = c ∷ put_space i s

-- `for i := 4; i < 49; i = i + 5 { … }`, in nine rounds.
unfoldable pub put_spaces : ℕ → ℕ → Bytes → Bytes
unfolding put_space
put_spaces zero i s = s
put_spaces (suc left) i s = put_spaces left (i + 5) (put_space i s)

-- The first 49 bytes of `linebuf`; the last one is the newline.
unfoldable pub line_at : Bytes → ℕ → Bytes
unfolding put_spaces
line_at seed_buf seekpos = put_spaces 9 4 (slice seed_buf seekpos (seekpos + 49))

pub record Position : Type 0 where
  pub seekpos : ℕ
  pub shift : ℕ

-- "move buffer position"
unfoldable pub advance : Bytes → Position → Position
advance seed_buf p =
    let maxpos = length seed_buf - 50 in
    let maxshift = length seed_buf - 100 in
    let seekpos = p.seekpos + 50 in
    let shift = if leb maxshift (p.shift + 1) then 0 else p.shift + 1 in
    if ltb maxpos seekpos
    then record { seekpos = shift; shift = shift }
    else record p { seekpos = seekpos }

-- The loop over the lines of the file.
unfoldable pub gen_loop : Bytes → ℕ → Position → Bytes
gen_loop seed_buf zero p = []
gen_loop seed_buf (suc left) p =
    (line_at seed_buf p.seekpos ++ newline ∷ []) ++ gen_loop seed_buf left (advance seed_buf p)

unfoldable pub generate : Bytes → ℕ → Bytes
unfolding gen_loop
generate seed_buf totalline = gen_loop seed_buf totalline (record { seekpos = 0; shift = 0 })

-- The lines without their newlines.
pub gen_lines : Bytes → ℕ → Position → List Bytes
gen_lines seed_buf zero p = []
gen_lines seed_buf (suc left) p =
    line_at seed_buf p.seekpos ∷ gen_lines seed_buf left (advance seed_buf p)

pub lines_of : Bytes → ℕ → List Bytes
lines_of seed_buf totalline = gen_lines seed_buf totalline (record { seekpos = 0; shift = 0 })

gen_loop-terminated :
    (seed_buf : Bytes) (left : ℕ) (p : Position)
    → gen_loop seed_buf left p ≡ terminated newline (gen_lines seed_buf left p)
unfolding gen_loop terminated gen_lines
gen_loop-terminated seed_buf zero p = refl
gen_loop-terminated seed_buf (suc left) p =
    append_assoc (line_at seed_buf p.seekpos) (newline ∷ [])
      (gen_loop seed_buf left (advance seed_buf p))
    ∙ ap (λ s. line_at seed_buf p.seekpos ++ newline ∷ s)
        (gen_loop-terminated seed_buf left (advance seed_buf p))

generate-terminated :
    (seed_buf : Bytes) (totalline : ℕ)
    → generate seed_buf totalline ≡ terminated newline (lines_of seed_buf totalline)
unfolding generate lines_of
generate-terminated seed_buf totalline = gen_loop-terminated seed_buf totalline _

length-put_space : (i : ℕ) (s : Bytes) → length (put_space i s) ≡ length s
unfolding put_space
length-put_space i [] = refl
length-put_space zero (c ∷ s) = refl
length-put_space (suc i) (c ∷ s) = ap suc (length-put_space i s)

put_space-Lacks : (i : ℕ) (s : Bytes) → Lacks newline s → Lacks newline (put_space i s)
unfolding put_space
put_space-Lacks i [] h = tt
put_space-Lacks zero (c ∷ s) (hc, h) = ((cc), h)
put_space-Lacks (suc i) (c ∷ s) (hc, h) = (hc, put_space-Lacks i s h)

-- As long as `s`, and without a newline.
abbrev IsLong : ℕ → Bytes → Type 0
IsLong n s = (length s ≡ n) × Lacks newline s

put_spaces-IsLong : (left i n : ℕ) (s : Bytes) → IsLong n s → IsLong n (put_spaces left i s)
unfolding put_spaces
put_spaces-IsLong zero i n s h = h
put_spaces-IsLong (suc left) i n s (e, h) =
    put_spaces-IsLong left (i + 5) n (put_space i s)
      (length-put_space i s ∙ e, put_space-Lacks i s h)

Lacks-drop : (n : ℕ) (s : Bytes) → Lacks newline s → Lacks newline (drop n s)
Lacks-drop zero s h = h
Lacks-drop (suc n) [] h = tt
Lacks-drop (suc n) (c ∷ s) (hc, h) = Lacks-drop n s h

Lacks-take : (n : ℕ) (s : Bytes) → Lacks newline s → Lacks newline (take n s)
Lacks-take zero s h = tt
Lacks-take (suc n) [] h = tt
Lacks-take (suc n) (c ∷ s) (hc, h) = (hc, Lacks-take n s h)

module _ (seed_buf : Bytes) (enough : 100 ≤ length seed_buf)
    (no_newline : Lacks newline seed_buf) where
  -- The slice of the next line is inside the seed.
  abbrev IsInside : Position → Type 0
  IsInside p = (p.seekpos + 50 ≤ length seed_buf) × (p.shift + 50 ≤ length seed_buf)

  advance-IsInside : (p : Position) → IsInside p → IsInside (advance seed_buf p)
  unfolding advance
  advance-IsInside p (h, k) = ground arith

  line_at-IsLong : (p : Position) → IsInside p → IsLong 49 (line_at seed_buf p.seekpos)
  unfolding line_at
  line_at-IsLong p (h, k) =
      let rest = drop p.seekpos seed_buf in
      let n = p.seekpos + 49 - p.seekpos in
      put_spaces-IsLong 9 4 49 (slice seed_buf p.seekpos (p.seekpos + 49)) (
        omega (arith, length-take n rest, length-drop p.seekpos seed_buf),
        Lacks-take n rest (Lacks-drop p.seekpos seed_buf no_newline),
      )

  -- Of each of the lines.
  record AllLines (size left : ℕ) (ls : List Bytes) : Type 0 where
    pub lines : All (IsLine size) ls
    pub number : length ls ≡ left
    pub bytes : sum_lengths ls ≡ 50 * left

  gen_lines-AllLines :
      (size left : ℕ) (p : Position)
      → 49 < size
      → IsInside p
      → AllLines size left (gen_lines seed_buf left p)
  unfolding gen_lines sum_lengths
  gen_lines-AllLines size zero p h i = record { lines = tt; number = refl; bytes = refl }
  gen_lines-AllLines size (suc left) p h i =
      let rest = gen_lines-AllLines size left (advance seed_buf p) h (advance-IsInside p i) in
      let (long, lacks) = line_at-IsLong p i in
      record {
        lines = ((lacks, omega (arith, long)), rest.lines);
        number = ap suc rest.number;
        bytes = omega (arith, long, rest.bytes);
      }

  lines_of-AllLines :
      (size totalline : ℕ) → 49 < size → AllLines size totalline (lines_of seed_buf totalline)
  unfolding lines_of
  lines_of-AllLines size totalline big =
      gen_lines-AllLines size totalline (record { seekpos = 0; shift = 0 }) big
        (omega arith, omega arith)

-- A generated file is parsed to its end with any buffer that `main` admits: all of its lines are
-- counted, and 50 bytes for each. The seed must have 100 bytes and no newline.
pub parser-generate :
    (seed_buf : Bytes) (totalline size : ℕ)
    → 100 ≤ length seed_buf
    → Lacks newline seed_buf
    → 512 ≤ size
    → parser size (generate seed_buf totalline)
      ≡ returned (totals (50 * totalline) totalline (sum_sizes (lines_of seed_buf totalline)) true)
parser-generate seed_buf totalline size enough no_newline big =
    let ls = lines_of seed_buf totalline in
    let all = lines_of-AllLines seed_buf enough no_newline size totalline (omega arith) in
    ap (parser size)
      (generate-terminated seed_buf totalline ∙ sym (append-nil (terminated newline ls)))
    ∙ parser-lines ls [] size all.lines (tt, omega arith)
    ∙ ap (λ b. returned (totals b (length ls) (sum_sizes ls) true)) all.bytes
    ∙ ap (λ k. returned (totals (50 * totalline) k (sum_sizes ls) true)) all.number
