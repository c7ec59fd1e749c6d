-- ===== src/QpsServer/Tests.antt =====
-- Tests of the server and its theorems at concrete inputs.
use wander.Base.{ℕ, ◌≡◌, refl, true, [], ◌∷◌, ◌++◌, arith, none, some}
use wander.Base.Bytes.{Bytes, codes, index_byte, newline}
use wander.Base.Decimal.{itoa}
use wander.Base.Int.{negsuc}
use wander.QpsServer.Event.{Event}
use wander.QpsServer.Conn.{
  got, took_all, Conn, Info, done, pending, spins, After, notify_conn, http_connection_init,
}
use wander.QpsServer.Stream.{http_read_raw_stream, read_loop, http_write_responser, write_loop}
use wander.QpsServer.Response.{
  Mode, readlonly, short, keepalive, ServerConfig, status_text, http_send_response, add_body,
  body_tail, add_header, response_head, answer, send_text, header_written, send_body, body_written,
}
use wander.QpsServer.Response.Laws.{Responded, http_send_response-Responded}
use wander.QpsServer.Header.{Seek, find_method, find_end}
use wander.QpsServer.Header.Laws.{at}
use wander.QpsServer.Header.Shape.{shape, outcome}
use wander.QpsServer.Header.Outcome.{find_end-outcome}
use wander.QpsServer.Request.{
  http_read_request, request_loop, after_read, checked, check_read, search_stream, searched,
}
use wander.QpsServer.Request.Found.{asking}
use wander.QpsServer.Request.Parse.{IsParsed, http_read_request-IsParsed, http_read_request-spins}
use wander.QpsServer.Handler.{
  keepalive_loop, serve_request, serve_mode, respond, after_request, http_connection_handler,
}
use wander.QpsServer.Handler.Laws.{IsClosedOnce, handler-IsClosedOnce}
use wander.QpsServer.Handler.Leak.{answers, IsLeaked, readlonly_leaks}
use wander.QpsServer.Handler.Serve.{first_reply, handler-Replies}
use wander.QpsServer.Server.{Main, start, accept, accepted, Reach, begin, next}
use wander.QpsServer.Server.Limit.{IsCounted, Reach-IsCounted}
use wander.QpsServer.Server.Admission.{Admits, desk, Reach-Admits}
use wander.QpsServer.Server.Deadlock.{Later, deadlock_reachable}
use wander.QpsServer.Server.{telling}
use wander.QpsServer.Listen.{split_host_port, net_listen_string_format}
use wander.QpsServer.Listen.Formats.{brackets_lost}

abbrev no_date : ℕ → Bytes
no_date n = codes "now"

abbrev server : Mode → ServerConfig
server mode = record {
  mode = mode;
  net_timeout = 15;
  net_keepalive_timeout = 5;
  read_delay = negsuc 0;
  write_delay = negsuc 0;
}

abbrev new_conn : Conn
new_conn = record {
  incoming = [];
  sent = [];
  reads = [];
  writes = took_all ∷ took_all ∷ [];
  closed = 0;
  events = [];
  ticks = 0;
}

abbrev first_line : Bytes
first_line = codes "GET / HTTP/1.0" ++ 13 ∷ []

abbrev host_line : Bytes
host_line = codes "Host: a" ++ 13 ∷ []

-- A line of the header, an empty line, and no body.
abbrev behind : Bytes
behind = host_line ++ (newline ∷ (13 ∷ newline ∷ []))

abbrev whole_request : Bytes
whole_request = first_line ++ (newline ∷ behind)

-- A header that breaks off.
abbrev broken_off : Bytes
broken_off = codes "Ho"

abbrev client : Conn
client = asking 99 [] whole_request [] new_conn

-- With keep-alive the connection waits for another request, and is closed at the end of the stream.
kept_alive :
    (c : Conn) × (http_connection_handler no_date
        (server keepalive)
        []
        100
        (asking 99 (got 0 ∷ []) whole_request [] new_conn)
      ≡ done c)
    × (c.closed ≡ 1)
unfolding http_connection_handler keepalive_loop after_request serve_request serve_mode respond
    http_read_request request_loop after_read checked check_read search_stream searched
    http_read_raw_stream read_loop notify_conn find_method index_byte find_end http_send_response
    add_body body_tail add_header response_head status_text answer send_text header_written
    send_body body_written http_write_responser write_loop itoa
kept_alive = (_, refl, refl)

handler-Replies_example :
    (c : Conn) × (http_connection_handler no_date (server short) (codes "m") 100 client ≡ done c)
    × (c.sent ≡ [] ++ first_reply no_date (codes "m") new_conn)
    × IsClosedOnce client c
handler-Replies_example =
    handler-Replies no_date (server short) (codes "m") refl first_line behind [] (codes "GET") 99 []
      new_conn (host_line ∷ []) (13 ∷ []) [] (omega arith, refl) ((omega arith, refl), tt)
      (omega arith) refl refl refl (omega arith) refl (omega arith) [] refl 100 refl

handler-IsClosedOnce_example :
    After (IsClosedOnce client) (http_connection_handler no_date (server keepalive) [] 503 client)
handler-IsClosedOnce_example =
    handler-IsClosedOnce no_date (server keepalive) [] 503 client (λ e. cc)

-- The info of a connection behind a request.
abbrev asked : Info
asked = record (http_connection_init 200 (codes "m") new_conn 1) { state = Event.pase_done }

http_send_response-Responded_example :
    After (Responded no_date short asked) (http_send_response no_date (server short) asked)
http_send_response-Responded_example =
    http_send_response-Responded no_date (server short) asked (λ e. cc)

-- The info behind the first line of a request.
abbrev lined : Info
lined = record asked { state = Event.read_header; read_raw_stream = whole_request }

abbrev behind_first : Seek
behind_first = record { pos = 16; method_ok = true; header_start = 16; total = 27 }

find_end-outcome_example :
    find_end 13 lined (at behind_first 16)
    ≡ outcome lined behind_first (first_line ++ newline ∷ []) behind (shape behind)
find_end-outcome_example =
    find_end-outcome lined behind_first refl refl refl 13 (first_line ++ newline ∷ []) behind
      (shape behind) refl (omega arith)

http_read_request-IsParsed_example :
    (r : Info) × (http_read_request no_date (server short) (http_connection_init 10 [] client 1)
      ≡ done r)
    × IsParsed first_line (codes "GET") (host_line ++ newline ∷ 13 ∷ []) [] [] [] [] 1 new_conn r
http_read_request-IsParsed_example =
    http_read_request-IsParsed no_date (server short) first_line (codes "GET") [] [] [] 1 new_conn
      (host_line ∷ []) ((omega arith, refl), tt) behind 99 (omega arith, refl) refl (omega arith)
      refl (omega arith) (13 ∷ []) [] (omega arith) refl refl 10

http_read_request-spins_example :
    http_read_request no_date (server short) (
      http_connection_init 10 []
        (asking 17 [] (first_line ++ (newline ∷ broken_off)) (codes "st") new_conn)
        1)
    ≡ spins
http_read_request-spins_example =
    http_read_request-spins no_date (server short) first_line (codes "GET") (codes "st") [] [] 1
      new_conn [] tt broken_off 17 (omega arith, refl) refl (omega arith) refl (omega arith)
      broken_off (omega arith) (omega arith) refl 10

-- The client sends two bytes in two reads, and then the connection breaks.
abbrev chatting : Conn
chatting = record new_conn { incoming = codes "ab"; reads = answers (0 ∷ 0 ∷ []) [] }

readlonly_leaks_example :
    (d : Conn) × (after_request no_date
        (server readlonly)
        []
        (λ c. pending)
        (record asked { conn = chatting })
      ≡ done d)
    × IsLeaked chatting [] [] d
readlonly_leaks_example =
    readlonly_leaks no_date (server readlonly) [] (λ c. pending) (record asked { conn = chatting })
      (0 ∷ 0 ∷ []) [] refl refl refl ((λ e. cc), ((λ e. cc), tt))

abbrev one_accepted : Main
one_accepted = record (start 1) { acceptor = accepted }

Reach-one_accepted : Reach short 1 one_accepted
unfolding start
Reach-one_accepted = next begin (accept (start 1) refl)

Reach-IsCounted_example : IsCounted 1 one_accepted
Reach-IsCounted_example = Reach-IsCounted Reach-one_accepted

Reach-Admits_example : Admits short 1 (desk (start 1)) (desk one_accepted)
unfolding start
Reach-Admits_example = Reach-Admits {mode = short} {max = 1} begin (accept (start 1) refl)

deadlock_reachable_example :
    (s : Main) × Reach keepalive 10240 s
    × ((t : Main) → Later keepalive 10240 s t → (t.counter ≡ telling) × (t.channel ≡ s.channel))
deadlock_reachable_example = deadlock_reachable keepalive 10240

brackets_lost_example :
    (split_host_port (codes "[f:1]:80") ≡ some (codes "f:1", codes "80"))
    × (out : Bytes) × (net_listen_string_format (codes "[f:1]:80") ≡ some out)
    × (split_host_port out ≡ none)
brackets_lost_example =
    brackets_lost (codes "f") (codes "1") (codes "80") (omega arith) (omega arith) (omega arith)
