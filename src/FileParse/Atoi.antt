-- ===== src/FileParse/Atoi.antt =====
-- `AtoIntOfBytes` of go-vs-php-file-parse/parser.go. An `int` is its 64-bit pattern, a number below
-- 2 ^ 64: this is what `uint64(size)` makes of it.
use wander.Base.{
  ℕ, ◌+◌, ◌-◌, ◌*◌, ◌%◌, ◌^◌, ◌<◌, ◌≡◌, refl, ◌∙◌, Bool, true, false, ◌&&◌, ◌||◌, [], ◌∷◌, arith,
  All, ltb, ◌==◌, if◌then◌else◌,
}
use wander.Base.Bytes.{Bytes, codes}
use wander.Base.Decimal.{all_digits, all_digits_of, IsDigit, value, itoa, value-itoa, itoa-IsDigit}

-- An `int` with a nil error, or the error with the text that it quotes.
pub data IntResult : Type 0 where
  ok : ℕ → IntResult
  invalid : Bytes → IntResult

abbrev pub u64 : ℕ → ℕ
u64 n = n % 2 ^ 64

-- `-res`
abbrev pub negate : ℕ → ℕ
negate res = u64 (2 ^ 64 - res)

-- The `for idx, char := range s` loop, and the sign behind it.
unfoldable pub atoi_loop : Bytes → Bytes → ℕ → ℕ → Bool → IntResult
atoi_loop s [] idx res isnav = ok (if isnav then negate res else res)
atoi_loop s (char ∷ rest) idx res isnav = elim (idx == 0 && char == b'-') [
  | true ↦ atoi_loop s rest (idx + 1) res true
  | false ↦ elim (ltb char b'0' || ltb b'9' char) [
    | true ↦ invalid s
    | false ↦ atoi_loop s rest (idx + 1) (u64 (res * 10 + char - b'0')) isnav
  ]
]

unfoldable pub ato_int_of_bytes : Bytes → IntResult
unfolding atoi_loop
ato_int_of_bytes s = atoi_loop s s 0 0 false

atoi_tests :
    (ato_int_of_bytes (codes "5678") ≡ ok 5678)
    × (ato_int_of_bytes (codes "-1") ≡ ok (2 ^ 64 - 1))
    × (ato_int_of_bytes (codes "1-") ≡ invalid (codes "1-"))
    × (ato_int_of_bytes [] ≡ ok 0)
unfolding ato_int_of_bytes
atoi_tests = (refl, refl, refl, refl)

-- What the function should return for the text `s` whose sign has been taken off.
abbrev pub number : Bytes → Bool → Bytes → IntResult
number s isnav digits =
    if all_digits digits
    then ok (if isnav then negate (u64 (value 0 digits)) else u64 (value 0 digits))
    else invalid s

loop-value :
    (s rest : Bytes) (idx n res : ℕ) (isnav : Bool)
    → 0 < idx
    → res ≡ u64 n
    → atoi_loop s rest idx res isnav ≡ (
        if all_digits rest
        then ok (if isnav then negate (u64 (value n rest)) else u64 (value n rest))
        else invalid s)
unfolding atoi_loop all_digits
loop-value s [] idx n res isnav h e = ground arith
loop-value s (c ∷ rest) idx n res isnav h e =
    ground
      (arith, loop-value s rest (idx + 1) (n * 10 + (c - b'0')) (u64 (res * 10 + c - b'0')) isnav)

-- The sign is a leading minus; what is behind it must be digits, perhaps none.
abbrev pub signed_number : Bytes → IntResult
signed_number [] = ok 0
signed_number (c ∷ s) = if c == b'-' then number (c ∷ s) true s else number (c ∷ s) false (c ∷ s)

-- On every text the result is the number that the digits behind an optional minus spell, reduced to
-- 64 bits, and it is the error that quotes the text if another byte stands there. No digits, with
-- or without a minus, are the number 0.
pub ato_int-signed_number : (s : Bytes) → ato_int_of_bytes s ≡ signed_number s
unfolding ato_int_of_bytes all_digits
ato_int-signed_number [] = refl
ato_int-signed_number (c ∷ s) = ground (
  arith,
  loop-value (c ∷ s) s 1 0 0 true,
  loop-value (c ∷ s) s 1 (c - b'0') (u64 (0 * 10 + c - b'0')) false,
)

signed_number_digits :
    (s : Bytes) (n : ℕ)
    → All IsDigit s
    → value 0 s ≡ n
    → n < 2 ^ 63
    → (signed_number s ≡ ok n) × (signed_number (b'-' ∷ s) ≡ ok (negate n))
signed_number_digits [] n h e lt = ground (arith, all_digits_of [] h)
signed_number_digits (c ∷ s) n h e lt = ground (arith, all_digits_of (c ∷ s) h)

-- Decimal numbers below 2 ^ 63 and their negations are read back from their print.
pub ato_int-itoa :
    (n : ℕ)
    → n < 2 ^ 63
    → (ato_int_of_bytes (itoa n) ≡ ok n) × (ato_int_of_bytes (b'-' ∷ itoa n) ≡ ok (negate n))
ato_int-itoa n lt =
    let (plus, minus) = signed_number_digits (itoa n) n (itoa-IsDigit n) (value-itoa n) lt in
    (ato_int-signed_number (itoa n) ∙ plus, ato_int-signed_number (b'-' ∷ itoa n) ∙ minus)
