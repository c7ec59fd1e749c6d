-- ===== src/QpsServer/Request/FirstLine.antt =====
-- The first read of a request, and its first line.
use wander.Base.{
  ℕ, ◌+◌, ◌-◌, ◌≤◌, ◌≡◌, ◌∙◌, ap, Bool, true, false, ◌∷◌, ◌++◌, arith, length, take, ltb,
  if◌then◌else◌, Option, none, some,
}
use wander.Base.Bytes.{
  Bytes, codes, slice, take-append, has_prefix, index_byte, index_byte-line, newline,
}
use wander.QpsServer.Status.{status_method_not_allowed}
use wander.QpsServer.Conn.{Info}
use wander.QpsServer.Header.{
  Seek, is_empty_line, proceed, reject, found_method, protocol_line, find_method,
}
use wander.QpsServer.Header.Laws.{IsLine, is_empty_line-blank}

some-injective : {A : Type 0} {a b : A} → some a ≡ some b → a ≡ b
some-injective e = cc e

-- The method that a request begins with.
abbrev pub method_of : Bytes → Option Bytes
method_of t =
    if has_prefix t (codes "GET /")
    then some (codes "GET")
    else if has_prefix t (codes "POST /")
    then some (codes "POST")
    else none

abbrev pub protocol : Bytes → Bytes → Info → Info
protocol l method info = record info { read_procotol_stream = l; method = method }

choose :
    (g q : Bool) (method : Bytes) (n : ℕ) (info : Info) (seek : Seek)
    → (if g then some (codes "GET") else if q then some (codes "POST") else none) ≡ some method
    → (if g
        then found_method (codes "GET") n info seek
        else if q
        then found_method (codes "POST") n info seek
        else reject status_method_not_allowed info)
      ≡ found_method method n info seek
choose true q method n info seek e = ap (λ m. found_method m n info seek) (some-injective e)
choose false true method n info seek e = ap (λ m. found_method m n info seek) (some-injective e)
choose false false method n info seek e = absurd (ground arith)

module _ (l rest method : Bytes) (line : IsLine l)
    (names : method_of (l ++ (newline ∷ rest)) ≡ some method) where
  -- The first line is taken with its method.
  pub find_method-line :
      (info : Info) (n : ℕ)
      → info.read_raw_stream ≡ l ++ (newline ∷ rest)
      → 16 ≤ n
      → find_method info (record { pos = 0; method_ok = false; header_start = 0; total = n })
        ≡ proceed (protocol l method info) (record {
          pos = length l + 1;
          method_ok = true;
          header_start = length l + 1;
          total = n;
        })
  unfolding find_method
  find_method-line info n e h =
      rw
        (
          ap (λ raw. index_byte raw newline) e ∙ index_byte-line l rest line.0,
          ap (λ raw. is_empty_line raw (length l)) e ∙ (is_empty_line-blank l rest line.0 ∙ line.1),
          long,
        )
        (found ∙ sym_end)
    where
      seek : Seek
      seek = record { pos = 0; method_ok = false; header_start = 0; total = n }

      long : ltb n 16 ≡ false
      long = ground arith

      found :
          protocol_line (length l) info seek
          ≡ found_method method
              (length l)
              (record info { read_procotol_stream = slice info.read_raw_stream 0 (0 + length l) })
              seek
      found =
          choose (has_prefix info.read_raw_stream (codes "GET /"))
            (has_prefix info.read_raw_stream (codes "POST /")) method (length l)
            (record info { read_procotol_stream = slice info.read_raw_stream 0 (0 + length l) })
            seek (ap method_of e ∙ names)

      cut_line : slice info.read_raw_stream 0 (0 + length l) ≡ l
      cut_line =
          ap (λ k. take k info.read_raw_stream) no_shift
          ∙ (ap (λ raw. take (length l) raw) e ∙ take-append l (newline ∷ rest))
        where
          no_shift : 0 + length l - 0 ≡ length l
          no_shift = omega arith

      sym_end :
          found_method method
            (length l)
            (record info { read_procotol_stream = slice info.read_raw_stream 0 (0 + length l) })
            seek
          ≡ proceed (protocol l method info) (record {
            pos = length l + 1;
            method_ok = true;
            header_start = length l + 1;
            total = n;
          })
      sym_end = λ i.
          proceed (protocol (cut_line i) method info)
            (record { pos = pos_eq i; method_ok = true; header_start = length l + 1; total = n })
        where
          pos_eq : 0 + length l + 1 ≡ length l + 1
          pos_eq = omega arith
