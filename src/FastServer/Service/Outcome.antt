-- ===== src/FastServer/Service/Outcome.antt =====
-- What a connection comes to in the end, and the room in its buffer.
use wander.Base.{
  sum-append, ℕ, ◌<◌, ◌≡◌, refl, Bool, true, false, List, [], ◌∷◌, length, arith, inl, inr, ◌⊎◌,
  sum,
}
use wander.FastServer.State.{
  response, State, keepalive, read_req_method, read_req_header, read_req_done, parse_req_header,
  read_req_body, parse_req_body, send_header, send_body, read_closed, write_closed,
  keepalive_closed, Round, Service, new_service,
}
use wander.FastServer.Service.{service_loop, Served, tiny_http_service}
use wander.FastServer.Service.Invariant.{replies, IsReplied, IsCut, ByState}
use wander.FastServer.Service.Laws.Reading.{at_method, at_header, reading-room}
use wander.FastServer.Service.Laws.Loop.{service_loop-Sound, new_service-Sound}

-- How a connection ends: the numbers sent to the channel of requests add up to the requests that were found; and what
-- was written is one whole response that keeps the connection for each of them, or for each but
-- the last and the beginning of one response, of either kind, for the last.
pub record IsServed (r : Served) : Type 0 where
  pub counted : sum r.requests ≡ r.last.totalrequest
  pub answered :
      (r.written ≡ replies r.last.totalrequest)
      ⊎ ((kept : Bool) × ((k : ℕ) × IsCut r.written r.last.totalrequest (response kept) k))

answered_at :
    (s : Service) (st : State)
    → ByState st s
    → IsReplied s ⊎ ((kept : Bool) × ((k : ℕ) × IsCut s.wire s.totalrequest (response kept) k))
answered_at s keepalive (inl (e, w)) = inl w
answered_at s keepalive (inr cut) = inr (s.is_keep_alive, (length (response s.is_keep_alive), cut))
answered_at s read_req_method h = inl h.replied
answered_at s read_req_header h = inl h.replied
answered_at s read_req_done h = inl h
answered_at s parse_req_header h = absurd h
answered_at s read_req_body h = absurd h
answered_at s parse_req_body h = absurd h
answered_at s send_header h = absurd h
answered_at s send_body h = inr (s.is_keep_alive, (s.sent, h.cut))
answered_at s read_closed h = inl h
answered_at s write_closed (k, cut) = inr (s.is_keep_alive, (k, cut))
answered_at s keepalive_closed (cut, e) =
    inr (s.is_keep_alive, (length (response s.is_keep_alive), cut))

-- Whatever is read and however much of a response is taken at a time, and whenever the signal to
-- exit comes: the requests that `tinyhttpservice` reports add up to those that it found, and what
-- it writes is, in their order, one whole response for each of them, or for each but the last and
-- the beginning of one for the last; only the last can be the one that closes the connection.
pub tiny_http_service-IsServed : (rounds : List Round) → IsServed (tiny_http_service rounds)
unfolding tiny_http_service
tiny_http_service-IsServed rounds =
    let s = service_loop rounds new_service in
    let h = service_loop-Sound rounds new_service new_service-Sound in
    record {
      counted = omega (arith, h.tallied.tally, sum-append s.requests_ch (s.reqoutcount ∷ []));
      answered = answered_at s s.state h.stands;
    }

-- A state in which the loop calls `Read` without making the buffer empty first.
abbrev pub is_read_state : State → Bool
is_read_state read_req_method = true
is_read_state read_req_header = true
is_read_state _ = false

room_at :
    (s : Service) (st : State)
    → s.state ≡ st
    → ByState st s
    → is_read_state st ≡ true
    → length s.buf < s.size
room_at s read_req_method e h r = reading-room s (at_method e h)
room_at s read_req_header e h r = reading-room s (at_header e h)
room_at s keepalive e h r = absurd (ground (arith, r))
room_at s read_req_done e h r = absurd (ground (arith, r))
room_at s parse_req_header e h r = absurd h
room_at s read_req_body e h r = absurd h
room_at s parse_req_body e h r = absurd h
room_at s send_header e h r = absurd h
room_at s send_body e h r = absurd (ground (arith, r))
room_at s read_closed e h r = absurd (ground (arith, r))
room_at s write_closed e h r = absurd (ground (arith, r))
room_at s keepalive_closed e h r = absurd (ground (arith, r))

-- After any rounds of the loop, if it is in one of the two states that go on reading, then the
-- buffer has room: `Read` never gets an empty slice, in the small buffer or in the large one.
pub service_loop-room :
    (rounds : List Round)
    → is_read_state (service_loop rounds new_service).state ≡ true
    → length (service_loop rounds new_service).buf < (service_loop rounds new_service).size
service_loop-room rounds h =
    let s = service_loop rounds new_service in
    room_at s s.state refl (service_loop-Sound rounds new_service new_service-Sound).stands h
