-- ===== src/Base/Decimal.antt =====
-- Decimal text: Go's `strconv.Itoa` on numbers that are not negative, and the number that digits
-- spell.
use wander.Base.{
  ℕ, zero, suc, ◌+◌, ◌-◌, ◌*◌, ◌/◌, ◌%◌, ◌≤◌, ◌<◌, ◌≡◌, ◌≢◌, ap, length, length-append, refl, Bool,
  true, false, ◌&&◌, [], ◌∷◌, ◌++◌, arith, All, All-append, ltb, leb,
}
use wander.Base.Bytes.{Bytes, codes}

abbrev pub is_digit : ℕ → Bool
is_digit c = leb b'0' c && leb c b'9'

abbrev pub IsDigit : ℕ → Type 0
IsDigit c = (b'0' ≤ c) × (c ≤ b'9')

unfoldable pub all_digits : Bytes → Bool
all_digits [] = true
all_digits (c ∷ s) = is_digit c && all_digits s

pub all_digits_of : (s : Bytes) → All IsDigit s → all_digits s ≡ true
unfolding all_digits
all_digits_of [] h = refl
all_digits_of (c ∷ s) h = ground (arith, all_digits_of s)

-- The number that digits spell behind `n`, with no bound.
abbrev pub value : ℕ → Bytes → ℕ
value n [] = n
value n (c ∷ s) = value (n * 10 + (c - b'0')) s

-- Each round divides by ten; `n` rounds are more than enough.
unfoldable pub digits_of : ℕ → ℕ → Bytes
digits_of zero n = (b'0' + n % 10) ∷ []
digits_of (suc fuel) n = elim (ltb n 10) [
  | true ↦ (b'0' + n) ∷ []
  | false ↦ digits_of fuel (n / 10) ++ (b'0' + n % 10) ∷ []
]

unfoldable pub itoa : ℕ → Bytes
unfolding digits_of
itoa n = digits_of n n

itoa_runs : itoa 8535 ≡ codes "8535"
unfolding itoa
itoa_runs = refl

pub value-append : (n : ℕ) (s t : Bytes) → value n (s ++ t) ≡ value (value n s) t
value-append n [] t = refl
value-append n (c ∷ s) t = value-append (n * 10 + (c - b'0')) s t

value-digits_of : (fuel n : ℕ) → n ≤ fuel → value 0 (digits_of fuel n) ≡ n
unfolding digits_of
value-digits_of zero n h = omega arith
value-digits_of (suc fuel) n h = ground (
  arith,
  value-append 0 (digits_of fuel (n / 10)) ((b'0' + n % 10) ∷ []),
  value-digits_of fuel (n / 10),
)

digits_of-IsDigit : (fuel n : ℕ) → All IsDigit (digits_of fuel n)
unfolding digits_of
digits_of-IsDigit zero n = omega arith
digits_of-IsDigit (suc fuel) n = ground (
  arith,
  digits_of-IsDigit fuel (n / 10),
  All-append IsDigit (digits_of fuel (n / 10)) ((b'0' + n % 10) ∷ []),
)

pub value-itoa : (n : ℕ) → value 0 (itoa n) ≡ n
unfolding itoa
value-itoa n = value-digits_of n n (omega arith)

pub itoa-IsDigit : (n : ℕ) → All IsDigit (itoa n)
unfolding itoa
itoa-IsDigit n = digits_of-IsDigit n n

digits_of_pos : (fuel n : ℕ) → 0 < length (digits_of fuel n)
unfolding digits_of
digits_of_pos zero n = omega arith
digits_of_pos (suc fuel) n =
    ground (arith, length-append (digits_of fuel (n / 10)) ((b'0' + n % 10) ∷ []))

pub itoa-ne : (n : ℕ) → itoa n ≢ []
unfolding itoa
itoa-ne n e = omega (arith, digits_of_pos n n, ap length e)
