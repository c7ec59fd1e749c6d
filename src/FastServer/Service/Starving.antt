-- ===== src/FastServer/Service/Starving.antt =====
-- A request whose end the parser does not find.
use mathlib.Core.Path.{subst}
use wander.Base.{
  some, ltb→lt, length-take, ◌+◌, ◌-◌, ◌≤◌, ◌≡◌, refl, ◌∙◌, sym, ap, true, false, List, [], ◌∷◌,
  ◌++◌, length, take, ltb, leb, take_all, arith, inl, inr, if_case, ◌⊎◌, All,
}
use wander.Base.Bytes.{Bytes, Lacks, newline, unlines}
use wander.FastServer.Parse.{bad_request, mini_header_size, http_method_parser, http_uri_parser}
use wander.FastServer.Parse.Lines.{describe, http_uri_parser-describe}
use wander.FastServer.State.{
  init_header_size, max_header_read_size, max_empty_io, read_req_header, read_closed, Round,
  Service, new_service, goto, is_found,
}
use wander.FastServer.Receiving.{
  not_found, parse_header, is_allowed, parse_method, got_bytes, got_nothing, read, next_request,
}
use wander.FastServer.Service.{by_state, step, is_exit, service_loop, tiny_http_service}

-- Nothing is written yet, and the machine waits for more of the header or is at its end.
record Waits (s : Service) : Type 0 where
  unwritten : s.wire ≡ []
  waits : (s.state ≡ read_req_header) ⊎ (s.state ≡ read_closed)

abbrev IsQuiet : Round → Type 0
IsQuiet round = round.input ≡ []

read-Waits :
    (round : Round) (s : Service)
    → IsQuiet round
    → Waits s
    → s.state ≡ read_req_header
    → Waits (read round s)
unfolding read got_nothing
read-Waits round s q h e =
    if_case Waits (ltb 0 (length (take (s.size - length s.buf) round.input)))
      (λ some. absurd (
        omega (
          arith,
          ltb→lt 0 (length (take (s.size - length s.buf) round.input)) some,
          length-take (s.size - length s.buf) round.input,
          ap length q,
        )))
      (λ _.
        if_case Waits round.read_fails (λ _. closed)
          (λ _.
            if_case Waits (leb max_empty_io s.emptyio) (λ _. closed)
              (λ _. record { unwritten = h.unwritten; waits = inl e })))
  where
    closed : Waits (goto read_closed s)
    closed = record { unwritten = h.unwritten; waits = inr refl }

step-Waits : (round : Round) (s : Service) → IsQuiet round → Waits s → Waits (step round s)
unfolding step
step-Waits round s q h = elim h.waits [
  | inl e ↦ subst (λ st. Waits (by_state st round s)) (sym e) (read-Waits round s q h e)
  | inr e ↦ subst (λ st. Waits (by_state st round s)) (sym e) h
]

service_loop-Waits :
    (rounds : List Round) (s : Service)
    → All IsQuiet rounds
    → Waits s
    → Waits (service_loop rounds s)
unfolding service_loop
service_loop-Waits [] s qs h = h
service_loop-Waits (r ∷ rs) s (q, qs) h =
    if_case Waits (is_exit s.state) (λ _. h)
      (λ _. service_loop-Waits rs (step r s) qs (step-Waits r s q h))

module _ (text : Bytes) (round : Round) (all : round.input ≡ text)
    (allowed : is_allowed (http_method_parser text) ≡ true)
    (unfound : is_found (http_uri_parser text) ≡ false) where
  unfound-Waits : (s : Service) → s.wire ≡ [] → s.buf ≡ text → Waits (parse_header round s)
  unfolding parse_header not_found
  unfound-Waits s w b =
      if_case Waits (is_found (http_uri_parser s.buf))
        (λ yes. absurd (ground (arith, yes, ap (λ t. is_found (http_uri_parser t)) b, unfound)))
        (λ _.
          if_case Waits round.read_fails (λ _. closed)
            (λ _.
              if_case Waits (leb max_header_read_size s.requestbytes) (λ _. closed)
                (λ _. record { unwritten = w; waits = inl refl })))
    where
      closed : Waits (goto read_closed s)
      closed = record { unwritten = w; waits = inr refl }

  method-Waits : (s : Service) → s.wire ≡ [] → s.buf ≡ text → Waits (parse_method round s)
  unfolding parse_method
  method-Waits s w b =
      if_case Waits (is_allowed (http_method_parser s.buf))
        (λ _.
          if_case Waits (is_found (http_uri_parser s.buf))
            (λ yes. absurd (ground (arith, yes, ap (λ t. is_found (http_uri_parser t)) b, unfound)))
            (λ _. unfound-Waits _ w b))
        (λ _. record { unwritten = w; waits = inr refl })

  first-Waits :
      mini_header_size ≤ length text
      → length text ≤ init_header_size
      → Waits (step round new_service)
  unfolding step next_request read got_bytes
  first-Waits some_read fits =
      if_case Waits (ltb 0 (length (take init_header_size round.input)))
        (λ _.
          if_case Waits (ltb (0 + length (take init_header_size round.input)) mini_header_size)
            (λ few. absurd (
              omega (
                arith,
                ltb→lt (0 + length (take init_header_size round.input)) 6 few,
                ap length whole,
                some_read,
              )))
            (λ _. method-Waits _ refl whole))
        (λ none. absurd (ground (arith, none, ap length whole, some_read)))
    where
      whole : take init_header_size round.input ≡ text
      whole = ap (take init_header_size) all ∙ take_all init_header_size text fits

-- A client sends a request of at most 48 bytes with a method that is served, whose lines come to
-- one of less than six bytes before their end, as a short line of a header is; it is read at
-- once, and the client then waits. Whatever `Read` and `Write` answer from then on, with
-- nothing more to read, the server never writes a byte: the parser says that the request is
-- bad, and the machine waits for more of it.
pub short_line_starves :
    (ls : List Bytes) (rest : Bytes) (round : Round) (rounds : List Round)
    → All (Lacks newline) ls
    → Lacks newline rest
    → describe ls ≡ bad_request
    → is_allowed (http_method_parser (unlines ls ++ rest)) ≡ true
    → mini_header_size ≤ length (unlines ls ++ rest)
    → length (unlines ls ++ rest) ≤ init_header_size
    → round.input ≡ unlines ls ++ rest
    → All IsQuiet rounds
    → (tiny_http_service (round ∷ rounds)).written ≡ []
unfolding tiny_http_service service_loop
short_line_starves ls rest round rounds hs h bad allowed some_read fits all quiet =
    (service_loop-Waits rounds (step round new_service) quiet
      (first-Waits (unlines ls ++ rest) round all allowed unfound some_read fits)).unwritten
  where
    unfound : is_found (http_uri_parser (unlines ls ++ rest)) ≡ false
    unfound = ap is_found (http_uri_parser-describe ls rest hs h ∙ ap some bad)
