-- ===== src/TcpEngine/Hosts.antt =====
-- `ResolveHostList`, `ResolveHostPortList` and `addressParse` of tcpengine/tcpengine.go. The texts
-- are ASCII. A map from each host to itself is the list of its keys, in the order of insertion.
pub mod Text
pub mod Ranges
pub mod Whole
pub mod Ports
pub mod Locals
use wander.Base.{
  ℕ, zero, suc, ◌+◌, ◌-◌, ◌*◌, ◌^◌, ◌≡◌, refl, Bool, true, false, ◌&&◌, List, [], ◌∷◌, ◌++◌, map,
  Option, none, some, arith, ltb, leb, ◌==◌, if◌then◌else◌,
}
use wander.Base.Bytes.{Bytes, codes}
use wander.Base.Int.{ℤ, pos, negsuc, ltb_ℤ, int64, ◌+ℤ◌, ◌-ℤ◌}
use wander.Base.Decimal.{all_digits, value, itoa}

abbrev pub cons_cut : ℕ → Option (Bytes × Bytes) → Option (Bytes × Bytes)
cons_cut c none = none
cons_cut c (some (p, q)) = some (c ∷ p, q)

-- The slices in front of and behind the first byte `b`, as `strings.Index` finds it.
unfoldable pub first_cut : ℕ → Bytes → Option (Bytes × Bytes)
first_cut b [] = none
first_cut b (c ∷ s) =
    let later = cons_cut c (first_cut b s) in if c == b then some ([], s) else later

-- `strings.LastIndex`
unfoldable pub last_cut : ℕ → Bytes → Option (Bytes × Bytes)
last_cut b [] = none
last_cut b (c ∷ s) = elim (last_cut b s) [
  | some (p, q) ↦ some (c ∷ p, q)
  | none ↦ if c == b then some ([], s) else none
]

abbrev starts_scheme : Bytes → Bool
starts_scheme (c ∷ d ∷ e ∷ s) = c == b':' && (d == b'/' && e == b'/')
starts_scheme _ = false

-- `val = val[:shptr]`, if "://" is found.
unfoldable pub cut_scheme : Bytes → Bytes
cut_scheme [] = []
cut_scheme (c ∷ s) = let rest = cut_scheme s in if starts_scheme (c ∷ s) then [] else c ∷ rest

-- `strings.ToLower`
abbrev pub lower_byte : ℕ → ℕ
lower_byte c = if leb b'A' c && leb c b'Z' then c + 32 else c

-- `strings.Replace(list, ",", " ", -1)`
abbrev pub comma_to_space : ℕ → ℕ
comma_to_space c = if c == b',' then b' ' else c

-- `strings.Replace(list, "  ", " ", -1)`: the pairs from the left, once.
unfoldable pub squeeze : Bytes → Bytes
squeeze [] = []
squeeze (c ∷ []) = c ∷ []
squeeze (c ∷ d ∷ s) =
    let pair = squeeze s in
    let single = squeeze (d ∷ s) in if c == b' ' && d == b' ' then b' ' ∷ pair else c ∷ single

abbrev pub cons_first : ℕ → List Bytes → List Bytes
cons_first c [] = (c ∷ []) ∷ []
cons_first c (p ∷ ps) = (c ∷ p) ∷ ps

-- `strings.Split(list, " ")`, which is never empty.
unfoldable pub split_spaces : Bytes → List Bytes
split_spaces [] = [] ∷ []
split_spaces (c ∷ s) =
    let rest = split_spaces s in if c == b' ' then [] ∷ rest else cons_first c rest

unfoldable pub entries : Bytes → List Bytes
unfolding squeeze split_spaces
entries list = split_spaces (squeeze (map comma_to_space list))

-- `strconv.Atoi`: digits behind an optional sign, and the range of an `int`.
abbrev unsigned : Bytes → Option ℕ
unsigned [] = none
unsigned (c ∷ s) = if all_digits (c ∷ s) then some (value 0 (c ∷ s)) else none

abbrev positive : Option ℕ → Option ℤ
positive none = none
positive (some n) = if ltb n (2 ^ 63) then some (pos n) else none

abbrev negative : Option ℕ → Option ℤ
negative none = none
negative (some zero) = some (pos 0)
negative (some (suc n)) = if ltb n (2 ^ 63) then some (negsuc n) else none

unfoldable pub atoi : Bytes → Option ℤ
atoi [] = none
atoi (c ∷ s) =
    if c == b'-'
    then negative (unsigned s)
    else positive (unsigned (if c == b'+' then s else c ∷ s))

-- `strconv.Itoa`
abbrev pub itoa_ℤ : ℤ → Bytes
itoa_ℤ (pos n) = itoa n
itoa_ℤ (negsuc n) = b'-' ∷ itoa (suc n)

unfoldable pub same : Bytes → Bytes → Bool
same [] [] = true
same [] (d ∷ t) = false
same (c ∷ s) [] = false
same (c ∷ s) (d ∷ t) = let rest = same s t in c == d && rest

unfoldable pub has : Bytes → List Bytes → Bool
has h [] = false
has h (k ∷ ks) = let rest = has h ks in if same h k then true else rest

-- `iplist[h] = h`
unfoldable pub put : Bytes → List Bytes → List Bytes
put h ks = if has h ks then ks else ks ++ h ∷ []

-- `for idx := firstint; idx <= endint; idx++`; no fuel left is no outcome of the program.
unfoldable pub range_loop : ℕ → Bytes → ℤ → ℤ → List Bytes → Option (List Bytes)
range_loop zero prefix idx endint ks = none
range_loop (suc fuel) prefix idx endint ks =
    let more =
      range_loop fuel prefix (int64 (idx +ℤ pos 1)) endint (put (prefix ++ b'.' ∷ itoa_ℤ idx) ks) in
    if ltb_ℤ endint idx then some ks else more

-- The two numbers are put in order, and the loop starts behind the first.
abbrev pub range_of : ℕ → Bytes → Option ℤ → Option ℤ → List Bytes → Option (List Bytes)
range_of fuel prefix none endint ks = some ks
range_of fuel prefix (some firstint) none ks = some ks
range_of fuel prefix (some firstint) (some endint) ks =
    if ltb_ℤ endint firstint
    then range_loop fuel prefix (int64 (endint +ℤ pos 1)) firstint ks
    else range_loop fuel prefix (int64 (firstint +ℤ pos 1)) endint ks

-- Behind the "-": `val` is already in the map.
abbrev pub dotted : ℕ → Option (Bytes × Bytes) → Bytes → List Bytes → Option (List Bytes)
dotted fuel none tail ks = some ks
dotted fuel (some (prefix, first)) tail ks = range_of fuel prefix (atoi first) (atoi tail) ks

abbrev pub dashed : ℕ → Bytes → Option (Bytes × Bytes) → List Bytes → Option (List Bytes)
dashed fuel val none ks = some (put val ks)
dashed fuel val (some (front, tail)) ks = dotted fuel (last_cut b'.' front) tail (put front ks)

-- The body of the loop of `ResolveHostList`.
unfoldable pub resolve_entry : ℕ → Bytes → List Bytes → Option (List Bytes)
unfolding range_loop put first_cut last_cut atoi
resolve_entry fuel entry ks =
    let val = cut_scheme (map lower_byte entry) in dashed fuel val (first_cut b'-' val) ks

unfoldable pub resolve_all : ℕ → List Bytes → List Bytes → Option (List Bytes)
resolve_all fuel [] ks = some ks
resolve_all fuel (e ∷ es) ks = elim (resolve_entry fuel e ks) [
  | none ↦ none
  | some ks' ↦ resolve_all fuel es ks'
]

unfoldable pub resolve_host_list : ℕ → Bytes → Option (List Bytes)
resolve_host_list fuel list = resolve_all fuel (entries list) []
