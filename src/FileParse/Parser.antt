-- ===== src/FileParse/Parser.antt =====
-- `parser` of go-vs-php-file-parse/parser.go, over the bytes of the input file.
pub mod Lines
use wander.Base.{
  ℕ, zero, suc, ◌+◌, ◌-◌, ◌*◌, ◌/◌, ◌%◌, ◌^◌, ◌≤◌, ◌<◌, ◌≡◌, ◌≢◌, refl, sym, ◌∙◌, Bool, true, false,
  ◌&&◌, ◌||◌, List, [], ◌∷◌, arith, All, ltb, leb, ◌==◌, if◌then◌else◌, length, Option, none, some,
  get_elem?,
}
use wander.Base.Bytes.{Bytes, codes, newline}
use wander.Base.Int.{ℤ, pos, negsuc}
use wander.FileParse.Split.{split_bytes}
use wander.FileParse.Atoi.{ato_int_of_bytes, IntResult, ok, invalid, u64}

-- The fields `done` and `err` are set together when the file ends; `err` is nil then.
pub record Stat : Type 0 where
  pub lines : ℕ
  pub bytes : ℕ
  pub sizes : ℕ
  pub done : Bool

-- `bufio.Reader.ReadSlice('\n')` on a reader with a buffer of `size` bytes: the next line with its
-- newline, the end of the file (the bytes in front of it are dropped by the caller), or an error
-- when the buffer is full and holds no newline.
pub data Read : Type 0 where
  line : Bytes → Bytes → Read
  eof : Read
  buffer_full : Read

abbrev pub cons_line : ℕ → Read → Read
cons_line c (line l rest) = line (c ∷ l) rest
cons_line c eof = eof
cons_line c buffer_full = buffer_full

unfoldable pub read_slice : ℕ → Bytes → Read
read_slice zero s = buffer_full
read_slice (suc size) [] = eof
read_slice (suc size) (c ∷ s) =
    let more = cons_line c (read_slice size s) in if c == newline then line (c ∷ []) s else more

-- `slice[8]`, read only behind the test of the length.
abbrev pub field_eight : List Bytes → Bytes
field_eight fields = elim (get_elem? fields 8) [ none ↦ [] | some f ↦ f ]

-- `if err != nil { size = 0 }`
abbrev pub size_or_zero : IntResult → ℕ
size_or_zero (ok size) = size
size_or_zero (invalid s) = 0

-- The body of the loop behind the read: the counters and the size in field 8. A size that is no
-- number counts as 0, and so does a line of less than 9 fields, which is skipped.
unfoldable pub count_line : Bytes → List Bytes → Stat → Stat × List Bytes
count_line l slice result =
    let counted = record result {
      bytes = u64 (result.bytes + length l);
      lines = u64 (result.lines + 1);
    } in
    let fields = split_bytes l b' ' (pos 10) slice in
    (
      if ltb (length fields) 9 then counted else record counted {
        sizes = u64 (counted.sizes + size_or_zero (ato_int_of_bytes (field_eight fields)));
      },
      fields,
    )

-- How `parser` ends: it returns its result, or `Fatalf` ends the program. `out_of_fuel` is no
-- outcome of the program.
pub data Outcome : Type 0 where
  returned : Stat → Outcome
  fatal : Outcome
  out_of_fuel : Outcome

unfoldable pub parser_loop : ℕ → ℕ → Bytes → List Bytes → Stat → Outcome
parser_loop zero size s slice result = out_of_fuel
parser_loop (suc fuel) size s slice result = elim (read_slice size s) [
  | line l rest ↦
      parser_loop fuel size rest (count_line l slice result).1 (count_line l slice result).0
  | eof ↦ returned (record result { done = true })
  | buffer_full ↦ fatal
]

abbrev pub no_stat : Stat
no_stat = record { lines = 0; bytes = 0; sizes = 0; done = false }

-- Every round takes a byte at least, so the length of the file is fuel enough.
unfoldable pub parser : ℕ → Bytes → Outcome
unfolding parser_loop
parser size s = parser_loop (suc (length s)) size s [] no_stat

abbrev two_lines : Bytes
two_lines = codes "a b c d e f g h 12 j\na b c d e f g h x j\nrest"

parser_runs :
    parser 512 two_lines ≡ returned (record { lines = 2; bytes = 41; sizes = 12; done = true })
unfolding parser read_slice count_line split_bytes ato_int_of_bytes
parser_runs = refl

parser_stops : parser 16 two_lines ≡ fatal
unfolding parser read_slice count_line split_bytes ato_int_of_bytes
parser_stops = refl
