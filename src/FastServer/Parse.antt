-- ===== src/FastServer/Parse.antt =====
-- The three parsers of fasthttpserver/fasthttpserver.go: `httpMethodParser`, `httpKeepAliveParse`
-- and `httpURIParser`.
pub mod Lines
use wander.Base.{
  ℕ, zero, suc, ◌+◌, ◌-◌, ◌≡◌, refl, Bool, true, false, ◌&&◌, ◌||◌, List, [], ◌∷◌, map, length,
  take, drop, get_elem?, ltb, leb, ◌==◌, if◌then◌else◌, Option, none, some,
}
use wander.Base.Bytes.{Bytes, codes, has_prefix, index_byte, newline}

-- `HTTP_MINI_HEADER_SIZE`
abbrev pub mini_header_size : ℕ
mini_header_size = 6

-- `HttpIntMethodT`
pub data HttpIntMethod : Type 0 where
  method_unset : HttpIntMethod
  method_get : HttpIntMethod
  method_head : HttpIntMethod
  method_post : HttpIntMethod
  method_needmore : HttpIntMethod
  method_noallow : HttpIntMethod
  method_invalid : HttpIntMethod

-- `iota`
abbrev pub method_number : HttpIntMethod → ℕ
method_number method_unset = 0
method_number method_get = 1
method_number method_head = 2
method_number method_post = 3
method_number method_needmore = 4
method_number method_noallow = 5
method_number method_invalid = 6

abbrev has_first : Bytes → ℕ → Bool
has_first [] b = false
has_first (c ∷ s) b = c == b

unfoldable pub http_method_parser : Bytes → HttpIntMethod
http_method_parser buf =
    if ltb (length buf) mini_header_size
    then method_needmore
    else if has_first buf 71 || (has_first buf 80 || has_first buf 72)
    then if has_prefix buf (codes "GET /")
      then method_get
      else if has_prefix buf (codes "HEAD /")
      then method_head
      else if has_prefix buf (codes "POST /")
      then method_post
      else method_noallow
    else method_invalid

-- `bytes.Index(…) >= 0`
unfoldable pub contains : Bytes → Bytes → Bool
contains [] sep = has_prefix [] sep
contains (c ∷ s) sep = has_prefix (c ∷ s) sep || contains s sep

abbrev pub to_lower : ℕ → ℕ
to_lower b = if leb b 90 && leb 65 b then b + 32 else b

-- `cmpbuf[:len(rbuf)]`: as much of the request as `cmpbuf` has room for.
abbrev pub lowered : Bytes → ℕ → Bytes
lowered buf cmp_len = map to_lower (take cmp_len buf)

unfoldable pub http_keep_alive_parse : Bytes → ℕ → Bool
http_keep_alive_parse buf cmp_len =
    if contains (lowered buf cmp_len) (codes "connection: close")
    then false
    else if contains (lowered buf cmp_len) (codes "connection: keep-alive")
    then true
    else contains (lowered buf cmp_len) (codes "http/1.1")

-- The codes of `httpURIParser`: 0, 1 and 2.
pub data Code : Type 0 where
  found : Code
  read_more : Code
  bad_request : Code

abbrev pub holds : ℕ → Option ℕ → Bool
holds b none = false
holds b (some c) = c == b

-- `buf[i] == b`
abbrev pub is_byte : Bytes → ℕ → ℕ → Bool
is_byte buf i b = holds b (get_elem? buf i)

-- The newline at `ptr`; `next` is the next round, on `buf[ptr+1:]`. That one is never empty, since
-- `ptr + 1 >= buflen` comes first.
unfoldable pub at_newline : Bytes → ℕ → Option Code → Option Code
at_newline buf ptr next =
    if ltb ptr mini_header_size
    then some bad_request
    else if leb (length buf) (ptr + 1)
    then some read_more
    else if is_byte buf (ptr + 1) newline
    then some found
    else if leb (length buf) (ptr + 2)
    then some read_more
    else if is_byte buf (ptr - 1) 13 && (is_byte buf (ptr + 1) 13 && is_byte buf (ptr + 2) newline)
    then some found
    else next

-- The loop, with `none` when it is out of fuel.
unfoldable pub uri_loop : ℕ → Bytes → Option Code
uri_loop zero buf = none
uri_loop (suc fuel) buf =
    let next = uri_loop fuel in
    elim (index_byte buf newline) [
      | none ↦ some read_more
      | some ptr ↦ at_newline buf ptr (next (drop (suc ptr) buf))
    ]

-- Every round but the last takes a byte away.
unfoldable pub http_uri_parser : Bytes → Option Code
http_uri_parser buf = uri_loop (suc (length buf)) buf
