-- ===== src/FastServer/Service/Answering.antt =====
-- A request that one read delivers.
use mathlib.Core.Path.{subst}
use wander.Base.{
  ℕ, ◌+◌, ◌≤◌, ◌<◌, ◌≡◌, refl, ◌∙◌, sym, ap, Bool, true, false, List, [], ◌∷◌, ◌++◌, length, take,
  ltb, leb, take_all, arith, if_case, ltb→lt, All, some,
}
use wander.Base.Bytes.{Bytes, Lacks, newline, unlines}
use wander.FastServer.Parse.{
  found, mini_header_size, http_method_parser, http_keep_alive_parse, http_uri_parser,
}
use wander.FastServer.Parse.Lines.{describe, http_uri_parser-describe}
use wander.FastServer.State.{
  max_header_size, init_header_size, read_req_done, Round, Service, new_service, is_found, response,
}
use wander.FastServer.Sending.{wrote, send, begin_response, report_requests, request_done}
use wander.FastServer.Receiving.{is_allowed, parse_method, got_bytes, read, next_request}
use wander.FastServer.Service.{by_state, step, is_exit, service_loop, tiny_http_service}

-- The length of the longer response.
abbrev longest : ℕ
longest = 64

response_short : (b : Bool) → (0 < length (response b)) × (length (response b) ≤ longest)
response_short true = (omega arith, omega arith)
response_short false = (omega arith, omega arith)

-- `Write` takes the whole response.
begin_response-whole :
    (round : Round) (s : Service)
    → s.wire ≡ []
    → longest ≤ round.takes
    → (begin_response round s).wire ≡ response s.is_keep_alive
unfolding begin_response send wrote
begin_response-whole round s w h =
    if_case (λ (r : Service). r.wire ≡ out) (ltb 0 (length (take round.takes out)))
      (λ _.
        if_case (λ (r : Service). r.wire ≡ out) round.write_fails (λ _. written)
          (λ _.
            if_case (λ (r : Service). r.wire ≡ out)
              (leb (length out) (0 + length (take round.takes out))) (λ _. written) (λ _. written)))
      (λ none. absurd (ground (arith, none, ap length all, (response_short s.is_keep_alive).0)))
  where
    out : Bytes
    out = response s.is_keep_alive

    all : take round.takes out ≡ out
    all = take_all round.takes out (omega (arith, h, (response_short s.is_keep_alive).1))

    written : s.wire ++ take (length (take round.takes out)) out ≡ out
    written =
        ap (λ v. v ++ take (length (take round.takes out)) out) w
        ∙ take_all (length (take round.takes out)) out (omega (arith, ap length all))

-- A request is found, and nothing was written.
record IsFound (text : Bytes) (s : Service) : Type 0 where
  state : s.state ≡ read_req_done
  whole : s.buf ≡ text
  unwritten : s.wire ≡ []

report_requests-keeps :
    (s : Service) → ((report_requests s).buf ≡ s.buf) × ((report_requests s).wire ≡ s.wire)
unfolding report_requests
report_requests-keeps s =
    if_case (λ (r : Service). (r.buf ≡ s.buf) × (r.wire ≡ s.wire)) (leb 1000 s.reqoutcount)
      (λ _. (refl, refl)) (λ _. (refl, refl))

step-answers :
    (text : Bytes) (round : Round) (s : Service)
    → IsFound text s
    → longest ≤ round.takes
    → (step round s).wire ≡ response (http_keep_alive_parse text max_header_size)
unfolding step request_done
step-answers text round s h takes =
    subst (λ st. (by_state st round s).wire ≡ response (http_keep_alive_parse text max_header_size))
      (sym h.state)
      (begin_response-whole round _ (kept.1 ∙ h.unwritten) takes
        ∙ ap (λ b. response (http_keep_alive_parse b max_header_size)) (kept.0 ∙ h.whole))
  where
    counted : Service
    counted = record s { totalrequest = s.totalrequest + 1; reqoutcount = s.reqoutcount + 1 }

    kept : ((report_requests counted).buf ≡ s.buf) × ((report_requests counted).wire ≡ s.wire)
    kept = report_requests-keeps counted

module _ (text : Bytes) (round : Round) (all : round.input ≡ text)
    (allowed : is_allowed (http_method_parser text) ≡ true)
    (yes : is_found (http_uri_parser text) ≡ true) where
  method-IsFound : (s : Service) → s.wire ≡ [] → s.buf ≡ text → IsFound text (parse_method round s)
  unfolding parse_method
  method-IsFound s w b =
      if_case (IsFound text) (is_allowed (http_method_parser s.buf))
        (λ _.
          if_case (IsFound text) (is_found (http_uri_parser s.buf))
            (λ _. record { state = refl; whole = b; unwritten = w })
            (λ no. absurd (ground (arith, no, ap (λ t. is_found (http_uri_parser t)) b, yes))))
        (λ no. absurd (ground (arith, no, ap (λ t. is_allowed (http_method_parser t)) b, allowed)))

  first-IsFound :
      mini_header_size ≤ length text
      → length text ≤ init_header_size
      → IsFound text (step round new_service)
  unfolding step next_request read got_bytes
  first-IsFound some_read fits =
      if_case (IsFound text) (ltb 0 (length (take init_header_size round.input)))
        (λ _.
          if_case (IsFound text)
            (ltb (0 + length (take init_header_size round.input)) mini_header_size)
            (λ few. absurd (
              omega (
                arith,
                ltb→lt (0 + length (take init_header_size round.input)) mini_header_size few,
                ap length whole,
                some_read,
              )))
            (λ _. method-IsFound _ refl whole))
        (λ none. absurd (ground (arith, none, ap length whole, some_read)))
    where
      whole : take init_header_size round.input ≡ text
      whole = ap (take init_header_size) all ∙ take_all init_header_size text fits

-- A request of at most 48 bytes with a method that is served, whose lines have the end of a header
-- and no line too short before it, and which one read delivers: in the next round, if `Write` takes the
-- whole of it, the server writes the one response that the header of the connection asks for.
pub service_answers :
    (ls : List Bytes) (rest : Bytes) (first second : Round)
    → All (Lacks newline) ls
    → Lacks newline rest
    → describe ls ≡ found
    → is_allowed (http_method_parser (unlines ls ++ rest)) ≡ true
    → mini_header_size ≤ length (unlines ls ++ rest)
    → length (unlines ls ++ rest) ≤ init_header_size
    → first.input ≡ unlines ls ++ rest
    → longest ≤ second.takes
    → (tiny_http_service (first ∷ second ∷ [])).written
      ≡ response (http_keep_alive_parse (unlines ls ++ rest) max_header_size)
unfolding tiny_http_service service_loop
service_answers ls rest first second hs h ends allowed some_read fits all takes =
    let ready =
      first-IsFound (unlines ls ++ rest) first all allowed
        (ap is_found (http_uri_parser-describe ls rest hs h ∙ ap some ends)) some_read fits in
    if_case
      (λ (r : Service).
        r.wire ≡ response (http_keep_alive_parse (unlines ls ++ rest) max_header_size))
      (is_exit (step first new_service).state)
      (λ over. absurd (ground (arith, over, ap is_exit ready.state)))
      (λ _. step-answers (unlines ls ++ rest) second (step first new_service) ready takes)
