-- ===== src/FileParse/Tests.antt =====
-- Runs of the functions of go-vs-php-file-parse/parser.go on which the theorems about them apply.
use wander.Base.{refl, ◌*◌, true, ◌≡◌, List, [], ◌∷◌, ◌++◌, arith, length}
use wander.Base.Bytes.{Lacks, Bytes, codes, newline}
use wander.Base.Int.{pos}
use wander.FileParse.Split.{split_bytes}
use wander.FileParse.Split.Fields.{fields, cuts_of, last_field, split_bytes-fields}
use wander.FileParse.Split.Laws.{terminated, Spells, split_bytes-Spells, split_bytes-terminated}
use wander.FileParse.Atoi.{ato_int_of_bytes, signed_number, ato_int-signed_number}
use wander.FileParse.Generator.{generate, line_at, advance, lines_of, parser-generate}
use wander.FileParse.Parser.{returned, parser}
use wander.FileParse.Parser.Lines.{sum_sizes, sum_lengths, totals, parser-lines}

abbrev three_fields : Bytes
three_fields = codes "ab c  d"

split_bytes-fields_example :
    split_bytes three_fields b' ' (pos 2) [] ≡ fields b' ' (cuts_of (pos 2)) [] three_fields
split_bytes-fields_example = split_bytes-fields three_fields b' ' (pos 2) [] (cc)

split_bytes-Spells_example : Spells b' ' (split_bytes three_fields b' ' (pos 10) []) three_fields
split_bytes-Spells_example = split_bytes-Spells three_fields b' ' (pos 10) [] (cc)

abbrev two_fields : List Bytes
two_fields = codes "ab" ∷ codes "c" ∷ []

split_bytes-terminated_example :
    split_bytes (terminated b' ' two_fields ++ codes "d") b' ' (pos 4) []
    ≡ two_fields ++ last_field (codes "d")
split_bytes-terminated_example =
    split_bytes-terminated two_fields (codes "d") b' ' (pos 4) [] (cc) (ground arith) (ground arith)
      (ground arith)

ato_int-signed_number_example : ato_int_of_bytes (codes "-52") ≡ signed_number (codes "-52")
ato_int-signed_number_example = ato_int-signed_number (codes "-52")

abbrev two_lines : List Bytes
two_lines = codes "a b c d e f g h 12 j" ∷ codes "a b" ∷ []

parser-lines_example :
    parser 32 (terminated newline two_lines ++ codes "rest")
    ≡ returned (totals (sum_lengths two_lines) (length two_lines) (sum_sizes two_lines) true)
parser-lines_example = parser-lines two_lines (codes "rest") 32 (ground arith) (ground arith)

-- The seed of the source, to its 108th byte.
abbrev seed : Bytes
seed = codes (
    "314159265358979323846264338327950288419716939937510582097494459230781640628620899862803482534211706798214808")

generate_runs :
    generate seed 2
    ≡ codes
        "3141 9265 5897 3238 6264 3832 9502 8419 1693 9375\n0582 9749 4592 0781 4062 6208 9862 0348 5342 1706\n"
unfolding generate line_at advance
generate_runs = refl

seed-Lacks : Lacks newline seed
seed-Lacks = ground arith

parser-generate_example :
    parser 512 (generate seed 3) ≡ returned (totals (50 * 3) 3 (sum_sizes (lines_of seed 3)) true)
parser-generate_example = parser-generate seed 3 512 (omega arith) seed-Lacks (omega arith)
