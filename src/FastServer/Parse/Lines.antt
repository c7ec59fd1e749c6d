-- ===== src/FastServer/Parse/Lines.antt =====
-- `httpURIParser` on a text that is given as lines.
use wander.Base.{
  ℕ, zero, suc, ◌+◌, ◌-◌, ◌<◌, ◌≤◌, ◌≡◌, refl, ◌∙◌, ap, Bool, true, false, ◌&&◌, List, [], ◌∷◌,
  ◌++◌, arith, length, drop, get_elem?, ltb, ◌==◌, if◌then◌else◌, Option, none, some, append_assoc,
  length-append, All, Bool-cases, inl, inr,
}
use wander.Base.Bytes.{Bytes, Lacks, index_byte-line, index_byte-none, newline, unlines}
use wander.FastServer.Parse.{
  Code, found, read_more, bad_request, mini_header_size, holds, is_byte, at_newline, uri_loop,
  http_uri_parser,
}

-- The line behind `l` shows that `l` is the last line of the header: it is empty, or both end with
-- a carriage return and it has nothing else.
abbrev pub is_last : Bytes → List Bytes → Bool
is_last l [] = false
is_last l ([] ∷ ls) = true
is_last l ((c ∷ []) ∷ ls) = is_byte l (length l - 1) 13 && c == 13
is_last l ((c ∷ d ∷ s) ∷ ls) = false

-- The lines in their order: one that is too short is an error, the last one of the header is what
-- is looked for, and any other is passed.
abbrev pub describe : List Bytes → Code
describe [] = read_more
describe (l ∷ ls) =
    if ltb (length l) mini_header_size
    then bad_request
    else if is_last l ls
    then found
    else describe ls

get_elem?-append : (l t : Bytes) (k i : ℕ) → i ≡ length l + k → get_elem? (l ++ t) i ≡ get_elem? t k
get_elem?-append [] t k i e = ap (get_elem? t) (omega (arith, e))
get_elem?-append (c ∷ l) t k zero e = absurd (omega (arith, e))
get_elem?-append (c ∷ l) t k (suc i) e = get_elem?-append l t k i (omega (arith, e))

get_elem?-append_lt : (l t : Bytes) (i : ℕ) → i < length l → get_elem? (l ++ t) i ≡ get_elem? l i
get_elem?-append_lt [] t i h = absurd (omega arith)
get_elem?-append_lt (c ∷ l) t zero h = refl
get_elem?-append_lt (c ∷ l) t (suc i) h = get_elem?-append_lt l t i (omega arith)

-- What the code looks at behind the newline.
abbrev behind : Bytes → Bytes → Option Code → Option Code
behind l [] next = some read_more
behind l (c ∷ []) next = if c == newline then some found else some read_more
behind l (c ∷ d ∷ s) next =
    if c == newline
    then some found
    else if is_byte l (length l - 1) 13 && (c == 13 && d == newline)
    then some found
    else next

is_byte-append : (l t : Bytes) (k b : ℕ) → is_byte (l ++ t) (length l + k) b ≡ is_byte t k b
is_byte-append l t k b = ap (holds b) (get_elem?-append l t k (length l + k) refl)

is_byte-append_lt : (l t : Bytes) (i b : ℕ) → i < length l → is_byte (l ++ t) i b ≡ is_byte l i b
is_byte-append_lt l t i b h = ap (holds b) (get_elem?-append_lt l t i h)

at_newline_lem :
    (l s : Bytes) (next : Option Code)
    → at_newline (l ++ (newline ∷ s)) (length l) next
      ≡ (if ltb (length l) mini_header_size then some bad_request else behind l s next)
unfolding at_newline
at_newline_lem l [] next = ground (arith, length-append l (newline ∷ []))
at_newline_lem l (c ∷ []) next =
    rw (is_byte-append l (newline ∷ c ∷ []) 1 newline)
      (ground (arith, length-append l (newline ∷ c ∷ [])))
at_newline_lem l (c ∷ d ∷ s) next =
    rw
      (
        is_byte-append l (newline ∷ c ∷ d ∷ s) 1 newline,
        is_byte-append l (newline ∷ c ∷ d ∷ s) 1 13,
        is_byte-append l (newline ∷ c ∷ d ∷ s) 2 newline,
      )
      (elim (Bool-cases (ltb (length l) mini_header_size)) [
        | inl short ↦ rw short refl
        | inr long ↦
            rw
              (
                long,
                is_byte-append_lt l (newline ∷ c ∷ d ∷ s) (length l - 1) 13 (ground (arith, long)),
              )
              (ground (arith, length-append l (newline ∷ c ∷ d ∷ s)))
      ])

-- A round of the loop, with what the search for a newline finds.
abbrev at_index : Bytes → ℕ → Option ℕ → Option Code
at_index buf fuel o = elim o [
  | none ↦ some read_more
  | some ptr ↦ at_newline buf ptr (uri_loop fuel (drop (suc ptr) buf))
]

uri_loop-line :
    (f : ℕ) (l s : Bytes)
    → Lacks newline l
    → uri_loop (suc f) (l ++ (newline ∷ s))
      ≡ (if ltb (length l) mini_header_size then some bad_request else behind l s (uri_loop f s))
unfolding uri_loop
uri_loop-line f l s h =
    ap (at_index (l ++ (newline ∷ s)) f) (index_byte-line l s h)
    ∙ (at_newline_lem l s _
        ∙ ap
            (λ t.
              if ltb (length l) mini_header_size
              then some bad_request
              else behind l s (uri_loop f t))
            (rest l))
  where
    rest : (k : Bytes) → drop (suc (length k)) (k ++ (newline ∷ s)) ≡ s
    rest [] = refl
    rest (c ∷ k) = rest k

uri_loop-rest : (f : ℕ) (rest : Bytes) → Lacks newline rest → uri_loop (suc f) rest ≡ some read_more
unfolding uri_loop
uri_loop-rest f rest h = ap (at_index rest f) (index_byte-none rest h)

-- What the code looks at is what the description looks at.
behind-lines :
    (l : Bytes) (ls : List Bytes) (rest : Bytes) (next : Option Code)
    → All (Lacks newline) ls
    → Lacks newline rest
    → next ≡ some (describe ls)
    → behind l (unlines ls ++ rest) next ≡ some (if is_last l ls then found else describe ls)
behind-lines l [] [] next hs h e = refl
behind-lines l [] (c ∷ []) next hs h e = ground arith
behind-lines l [] (c ∷ d ∷ rest) next hs h e = ground arith
behind-lines l ([] ∷ []) [] next hs h e = refl
behind-lines l ([] ∷ []) (c ∷ rest) next hs h e = refl
behind-lines l ([] ∷ [] ∷ ls) rest next hs h e = refl
behind-lines l ([] ∷ (c ∷ k) ∷ ls) rest next hs h e = refl
behind-lines l ((c ∷ []) ∷ ls) rest next hs h e = ground arith
behind-lines l ((c ∷ d ∷ s) ∷ ls) rest next hs h e = ground arith

uri_loop_lem :
    (f : ℕ) (ls : List Bytes) (rest : Bytes)
    → All (Lacks newline) ls
    → Lacks newline rest
    → length ls < f
    → uri_loop f (unlines ls ++ rest) ≡ some (describe ls)
uri_loop_lem zero ls rest hs h lt = absurd (omega arith)
uri_loop_lem (suc f) [] rest hs h lt = uri_loop-rest f rest h
uri_loop_lem (suc f) (l ∷ ls) rest (hl, hs) h lt =
    ap (uri_loop (suc f)) (append_assoc l (newline ∷ unlines ls) rest)
    ∙ (uri_loop-line f l (unlines ls ++ rest) hl
        ∙ rw
            (behind-lines l ls rest (uri_loop f (unlines ls ++ rest)) hs h
              (uri_loop_lem f ls rest hs h (omega arith)))
            (ground arith))

length-unlines : (ls : List Bytes) (rest : Bytes) → length ls ≤ length (unlines ls ++ rest)
length-unlines [] rest = omega arith
length-unlines (l ∷ ls) rest = omega (
  arith,
  length-unlines ls rest,
  length-append (unlines ls) rest,
  length-append (l ++ (newline ∷ unlines ls)) rest,
  length-append l (newline ∷ unlines ls),
)

-- On a text of lines `ls`, each with its newline, and a rest without one, the parser of the header
-- returns, and with the code of the description by lines: it goes through them in their order; the
-- first that has less than six bytes makes it an error, even in a header that goes on; the first
-- that an empty line follows, or that ends with a carriage return and is followed by a carriage
-- return alone, makes it found; and if there is neither, it wants to read more.
pub http_uri_parser-describe :
    (ls : List Bytes) (rest : Bytes)
    → All (Lacks newline) ls
    → Lacks newline rest
    → http_uri_parser (unlines ls ++ rest) ≡ some (describe ls)
unfolding http_uri_parser
http_uri_parser-describe ls rest hs h =
    uri_loop_lem _ ls rest hs h (omega (arith, length-unlines ls rest))
