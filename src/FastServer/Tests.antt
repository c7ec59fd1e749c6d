-- ===== src/FastServer/Tests.antt =====
-- Tests of the server and its theorems at concrete inputs.
use wander.Base.{◌<◌, ◌≡◌, refl, true, false, List, [], ◌∷◌, ◌++◌, length, arith, some}
use wander.Base.Bytes.{Bytes, codes, index_byte, unlines}
use wander.FastServer.Parse.{
  found, method_noallow, http_method_parser, contains, http_keep_alive_parse, uri_loop, at_newline,
  http_uri_parser,
}
use wander.FastServer.Parse.Lines.{describe, http_uri_parser-describe}
use wander.FastServer.State.{Round, http_200_keepalive, response, new_service}
use wander.FastServer.Sending.{wrote, send, begin_response, report_requests, request_done}
use wander.FastServer.Receiving.{
  reuse, not_found, parse_header, parse_method, got_bytes, read, next_request,
}
use wander.FastServer.Service.{step, service_loop, tiny_http_service}
use wander.FastServer.Service.Outcome.{IsServed, tiny_http_service-IsServed, service_loop-room}
use wander.FastServer.Service.Answering.{service_answers}
use wander.FastServer.Service.Starving.{short_line_starves}
use wander.FastServer.Worker.{
  connection, timeout, failure, Turn, new_worker, flush, worker, accepted_conns,
}
use wander.FastServer.Worker.Batches.{IsBatched, worker-IsBatched}

-- A header with a field of three letters.
abbrev short_lines : List Bytes
short_lines = codes "GET / HTTP/1.1\r" ∷ codes "A: b\r" ∷ codes "\r" ∷ []

abbrev plain_lines : List Bytes
plain_lines = codes "GET / HTTP/1.1\r" ∷ codes "Host: x\r" ∷ codes "\r" ∷ []

abbrev asks : Bytes → Round
asks text = record { input = text; read_fails = false; takes = 100; write_fails = false }

plain_found : describe plain_lines ≡ found
plain_found = refl

mixed_case_refused : http_method_parser (codes "Get / HTTP/1.0") ≡ method_noallow
unfolding http_method_parser
mixed_case_refused = refl

close_wins :
    http_keep_alive_parse (codes "HTTP/1.1 Connection: Close Connection: Keep-Alive") 128 ≡ false
unfolding http_keep_alive_parse contains
close_wins = refl

-- The response is written behind the request, in the round in which it is found or in the next.
plain_answered :
    (tiny_http_service (asks (unlines plain_lines) ∷ asks [] ∷ [])).written ≡ http_200_keepalive
unfolding tiny_http_service service_loop step next_request read got_bytes parse_method
    http_method_parser http_uri_parser uri_loop index_byte at_newline parse_header request_done
    report_requests begin_response send wrote http_keep_alive_parse contains
plain_answered = refl

http_uri_parser-describe_example :
    http_uri_parser (unlines plain_lines ++ codes "more") ≡ some found
http_uri_parser-describe_example =
    http_uri_parser-describe plain_lines (codes "more") (ground arith) (ground arith)

short_line_starves_example :
    (tiny_http_service (asks (unlines short_lines ++ []) ∷ asks [] ∷ asks [] ∷ [])).written ≡ []
unfolding http_method_parser
short_line_starves_example =
    short_line_starves short_lines [] (asks (unlines short_lines ++ [])) (asks [] ∷ asks [] ∷ [])
      (ground arith) tt refl refl (omega arith) (omega arith) refl (refl, (refl, tt))

tiny_http_service-IsServed_example :
    IsServed (tiny_http_service (asks (unlines plain_lines) ∷ asks [] ∷ []))
tiny_http_service-IsServed_example =
    tiny_http_service-IsServed (asks (unlines plain_lines) ∷ asks [] ∷ [])

service_loop-room_example :
    length (service_loop (asks (codes "GET / HTTP/1.1") ∷ []) new_service).buf
    < (service_loop (asks (codes "GET / HTTP/1.1") ∷ []) new_service).size
unfolding service_loop step next_request read got_bytes parse_method http_method_parser
    http_uri_parser uri_loop index_byte at_newline parse_header not_found reuse
service_loop-room_example = service_loop-room (asks (codes "GET / HTTP/1.1") ∷ []) refl

abbrev some_turns : List Turn
some_turns =
    record { ticked = false; accept = connection 7 }
    ∷ record { ticked = false; accept = connection 8 }
    ∷ record { ticked = true; accept = timeout }
    ∷ record { ticked = false; accept = connection 9 }
    ∷ record { ticked = false; accept = failure }
    ∷ []

-- The last connection is never served.
left_over : (worker 3 some_turns new_worker).conn_batch ≡ 9 ∷ []
unfolding worker flush
left_over = refl

worker-IsBatched_example :
    IsBatched 3 new_worker (accepted_conns some_turns) (worker 3 some_turns new_worker)
worker-IsBatched_example = worker-IsBatched 3 some_turns new_worker (omega arith) refl (omega arith)

service_answers_example :
    (tiny_http_service (asks (unlines plain_lines ++ []) ∷ asks [] ∷ [])).written
    ≡ response (http_keep_alive_parse (unlines plain_lines ++ []) 128)
unfolding http_method_parser
service_answers_example =
    service_answers plain_lines [] (asks (unlines plain_lines ++ [])) (asks []) (ground arith) tt
      refl refl (omega arith) (omega arith) refl (omega arith)
