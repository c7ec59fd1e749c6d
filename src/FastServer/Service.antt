-- ===== src/FastServer/Service.antt =====
-- `tinyhttpservice`: the state machine of a connection. The deadlines that it sets are not modelled:
-- to the machine a deadline is an error of `Read` or `Write`.
pub mod Invariant
pub mod Laws
pub mod Outcome
pub mod Starving
pub mod Answering
use wander.Base.{
  ℕ, zero, suc, ◌+◌, ◌-◌, ◌≡◌, refl, Bool, true, false, ◌&&◌, ◌||◌, List, [], ◌∷◌, ◌++◌, length,
  take, drop, ltb, leb, ◌==◌, if◌then◌else◌, Option, none, some,
}
use wander.Base.Bytes.{Bytes, codes}
use wander.FastServer.Parse.{
  HttpIntMethod, method_number, mini_header_size, http_method_parser, http_keep_alive_parse, Code,
  found, http_uri_parser,
}
use wander.FastServer.State.{
  Round, Service, State, goto, http_200_close, http_200_keepalive, init_header_size, is_found,
  keepalive, keepalive_closed, max_empty_io, max_header_read_size, max_header_size, new_service,
  parse_req_body, parse_req_header, read_closed, read_req_body, read_req_done, read_req_header,
  read_req_method, response, send_body, send_header, tail_header_size, write_closed,
}
use wander.FastServer.Sending.{
  begin_response, report_requests, request_done, send, taken, wrote, wrote_nothing,
}
use wander.FastServer.Receiving.{
  got_bytes, got_nothing, is_allowed, next_request, not_found, parse_header, parse_method, read,
  reuse,
}

abbrev pub by_state : State → Round → Service → Service
by_state keepalive = next_request
by_state read_req_method = read
by_state read_req_header = read
by_state read_req_done = request_done
by_state parse_req_header = request_done
by_state read_req_body = begin_response
by_state parse_req_body = begin_response
by_state send_header = send
by_state send_body = send
by_state read_closed = λ _ s. s
by_state write_closed = λ _ s. s
by_state keepalive_closed = λ _ s. s

-- The `switch`.
unfoldable pub step : Round → Service → Service
step round s = by_state s.state round s

-- `exitState`, which the three last states set.
abbrev pub is_exit : State → Bool
is_exit read_closed = true
is_exit write_closed = true
is_exit keepalive_closed = true
is_exit _ = false

-- The loop; at the end of the list `exitSignaled` is set.
unfoldable pub service_loop : List Round → Service → Service
service_loop [] s = s
service_loop (r ∷ rs) s =
    let rest = service_loop rs (step r s) in if is_exit s.state then s else rest

-- What the other goroutines and the peer see of a connection in the end.
pub record Served : Type 0 where
  pub written : Bytes
  pub requests : List ℕ
  pub closed : List ℕ
  pub last : Service

abbrev finish : Service → Served
finish s = record {
  written = s.wire;
  requests = s.requests_ch ++ s.reqoutcount ∷ [];
  closed = 1 ∷ [];
  last = s;
}

unfoldable pub tiny_http_service : List Round → Served
tiny_http_service rounds = finish (service_loop rounds new_service)
