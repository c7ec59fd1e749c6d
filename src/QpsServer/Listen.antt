-- ===== src/QpsServer/Listen.antt =====
-- `last` and `netListenStringFormat`: the address to listen at. `strconv.Atoi`, whose error is
-- ignored, and `net.SplitHostPort` are the standard library's.
pub mod Laws
pub mod Formats
use wander.Base.{
  ℕ, zero, suc, ◌+◌, ◌-◌, ◌*◌, ◌^◌, ◌≡◌, refl, Bool, true, false, ◌&&◌, ◌||◌, List, [], ◌∷◌, ◌++◌,
  length, take, drop, get_elem?, ltb, leb, ◌==◌, if◌then◌else◌, Option, none, some,
}
use wander.Base.Bytes.{Bytes, codes, slice, index_byte}
use wander.Base.Decimal.{is_digit}

abbrev pub is_byte : ℕ → Option ℕ → Bool
is_byte b none = false
is_byte b (some c) = c == b

-- The loop of `last`: `i` is the index behind the next one. `none` stands for -1.
unfoldable pub last_loop : Bytes → ℕ → ℕ → Option ℕ
last_loop s b zero = none
last_loop s b (suc i) =
    let before = last_loop s b i in if is_byte b (get_elem? s i) then some i else before

unfoldable pub last : Bytes → ℕ → Option ℕ
unfolding last_loop
last s b = last_loop s b (length s)

abbrev pub contains : Bytes → ℕ → Bool
contains [] b = false
contains (c ∷ s) b = c == b || contains s b

-- Whether `strconv.Atoi` gives a number above 0, also with the error that it is out of range.
abbrev pub scan_digits : ℕ → Bytes → Bool
scan_digits n [] = ltb 0 n
scan_digits n (c ∷ s) =
    let m = n * 10 + (c - b'0') in
    let rest = scan_digits m s in
    if is_digit c then (if leb (2 ^ 64) m then true else rest) else false

abbrev pub is_positive : Bytes → Bool
is_positive [] = false
is_positive (c ∷ s) = scan_digits 0 (if c == b'+' then s else c ∷ s)

abbrev pub starts_bracket : Bytes → Bool
starts_bracket [] = false
starts_bracket (c ∷ s) = c == b'['

-- The host, and the rests in which no '[' and no ']' may stand. The second argument is where the
-- first ']' is.
abbrev pub bracket_part : Bytes → Option ℕ → ℕ → Option (Bytes × Bytes × Bytes)
bracket_part hostport none i = none
bracket_part hostport (some end) i =
    if end + 1 == i
    then some (slice hostport 1 end, drop 1 hostport, drop (end + 1) hostport)
    else none

abbrev pub host_part : Bytes → ℕ → Option (Bytes × Bytes × Bytes)
host_part hostport i =
    if starts_bracket hostport
    then bracket_part hostport (index_byte hostport b']') i
    else let host = take i hostport in
      if contains host b':' then none else some (host, hostport, hostport)

abbrev pub port_part : Bytes → ℕ → Option (Bytes × Bytes × Bytes) → Option (Bytes × Bytes)
port_part hostport i none = none
port_part hostport i (some (host, j, k)) =
    if contains j b'[' || contains k b']' then none else some (host, drop (i + 1) hostport)

abbrev pub split_at : Bytes → Option ℕ → Option (Bytes × Bytes)
split_at hostport none = none
split_at hostport (some i) = port_part hostport i (host_part hostport i)

-- `net.SplitHostPort`; `none` is an error.
unfoldable pub split_host_port : Bytes → Option (Bytes × Bytes)
unfolding last index_byte
split_host_port hostport = split_at hostport (last hostport b':')

abbrev pub or_zero : Option ℕ → ℕ
or_zero none = 0
or_zero (some i) = i

-- A missing host or port is added.
unfoldable pub complete : Bytes → Bytes
unfolding last
complete listenstring =
    if contains (drop (or_zero (last listenstring b']')) listenstring) b':'
    then listenstring
    else if is_positive listenstring
    then b':' ∷ listenstring
    else listenstring ++ codes ":8080"

abbrev pub joined : Option (Bytes × Bytes) → Option Bytes
joined none = none
joined (some (host, port)) = some (host ++ (b':' ∷ port))

-- `none` is the error, with the empty text.
unfoldable pub net_listen_string_format : Bytes → Option Bytes
unfolding complete split_host_port
net_listen_string_format listenstring = joined (split_host_port (complete listenstring))

all_hosts : net_listen_string_format (codes "8080") ≡ some (codes ":8080")
unfolding net_listen_string_format
all_hosts = refl

bracketed : net_listen_string_format (codes "[::1]:80") ≡ some (codes "::1:80")
unfolding net_listen_string_format
bracketed = refl
