-- ===== src/FastServer/Service/Laws/Reading.antt =====
-- The invariant of a connection where it reads.
use wander.Base.{
  ◌+◌, ◌-◌, ◌≤◌, ◌<◌, ◌≡◌, refl, true, ◌++◌, length, take, drop, ltb, leb, length-append,
  length-take, length-drop, arith, if_case, leb→le,
}
use wander.Base.Bytes.{Bytes}
use wander.FastServer.Parse.{mini_header_size, http_method_parser, http_uri_parser}
use wander.FastServer.State.{
  max_header_size, init_header_size, max_header_read_size, max_empty_io, read_req_method,
  read_req_header, read_closed, Round, Service, goto, is_found,
}
use wander.FastServer.Receiving.{
  reuse, not_found, parse_header, is_allowed, parse_method, got_bytes, got_nothing, read,
}
use wander.FastServer.Service.Invariant.{
  IsReplied, AtMethod, AtHeader, IsTallied, Sound, known_state,
}
use wander.FastServer.Service.Laws.{request_done-Sound}

-- What was read is in the buffer, which may be full.
pub record Got (s : Service) : Type 0 where
  pub replied : IsReplied s
  pub size : s.size ≡ max_header_size
  pub known : s.method_ok ≡ true
  pub some_read : mini_header_size ≤ s.requestbytes
  pub fits : length s.buf ≤ max_header_size

read_closed-Sound : (s : Service) → IsTallied s → IsReplied s → Sound (goto read_closed s)
read_closed-Sound s t w = record { tallied = record { tally = t.tally; few = t.few }; stands = w }

reuse-room : (buf : Bytes) → length buf ≤ max_header_size → length (reuse buf) < max_header_size
unfolding reuse
reuse-room buf h =
    if_case (λ b. length b < max_header_size) (leb max_header_size (length buf))
      {x = drop (length buf - 4) buf} {y = buf}
      (λ full.
        omega (arith, length-drop (length buf - 4) buf, leb→le max_header_size (length buf) full))
      (λ room. ground (arith, room))

not_found-Sound : (round : Round) (s : Service) → IsTallied s → Got s → Sound (not_found round s)
unfolding not_found
not_found-Sound round s t h =
    if_case Sound round.read_fails (λ _. read_closed-Sound s t h.replied)
      (λ _.
        if_case Sound (leb max_header_read_size s.requestbytes)
          (λ _. read_closed-Sound s t h.replied)
          (λ under. record {
            tallied = record { tally = t.tally; few = t.few };
            stands = record {
              replied = h.replied;
              size = h.size;
              known = h.known;
              some_read = h.some_read;
              room = reuse-room s.buf h.fits;
              limited = ground (arith, under);
            };
          }))

parse_header-Sound :
    (round : Round) (s : Service) → IsTallied s → Got s → Sound (parse_header round s)
unfolding parse_header
parse_header-Sound round s t h =
    if_case Sound (is_found (http_uri_parser s.buf)) (λ _. request_done-Sound round s t h.replied)
      (λ _. not_found-Sound round s t h)

parse_method-Sound :
    (round : Round) (s : Service)
    → IsTallied s
    → IsReplied s
    → mini_header_size ≤ s.requestbytes
    → length s.buf ≤ init_header_size
    → Sound (parse_method round s)
unfolding parse_method
parse_method-Sound round s t w some_read fits =
    if_case Sound (is_allowed (http_method_parser s.buf))
      (λ _.
        if_case Sound (is_found (http_uri_parser s.buf))
          (λ _. record { tallied = record { tally = t.tally; few = t.few }; stands = w })
          (λ _.
            parse_header-Sound round _ (record { tally = t.tally; few = t.few })
              (record {
                replied = w;
                size = refl;
                known = refl;
                some_read = some_read;
                fits = omega (arith, fits);
              })))
      (λ _. read_closed-Sound s t w)

-- The two states that read, with the buffer the invariant gives them.
pub data IsReading (s : Service) : Type 0 where
  at_method : s.state ≡ read_req_method → AtMethod s → IsReading s
  at_header : s.state ≡ read_req_header → AtHeader s → IsReading s

reading-IsReplied : (s : Service) → IsReading s → IsReplied s
reading-IsReplied s (at_method e h) = h.replied
reading-IsReplied s (at_header e h) = h.replied

reading-Sound : (s : Service) → IsTallied s → IsReading s → Sound s
reading-Sound s t (at_method e h) = known_state s read_req_method t e h
reading-Sound s t (at_header e h) = known_state s read_req_header t e h

-- A state that reads never gives `Read` an empty slice.
pub reading-room : (s : Service) → IsReading s → length s.buf < s.size
reading-room s (at_method e h) = omega (arith, h.size, h.all_read, h.few)
reading-room s (at_header e h) = omega (arith, h.size, h.room)

abbrev with_got : Bytes → Service → Service
with_got got s = record s { buf = s.buf ++ got; requestbytes = s.requestbytes + length got }

got_bytes-Sound :
    (round : Round) (s : Service) (got : Bytes)
    → IsTallied s
    → IsReading s
    → length got ≤ s.size - length s.buf
    → Sound (got_bytes round (with_got got s))
unfolding got_bytes
got_bytes-Sound round s got t (at_method e h) le =
    if_case Sound (ltb (s.requestbytes + length got) mini_header_size)
      (λ few.
        if_case Sound round.read_fails
          (λ _.
            read_closed-Sound (with_got got s) (record { tally = t.tally; few = t.few }) h.replied)
          (λ _.
            known_state (with_got got s) read_req_method (record { tally = t.tally; few = t.few }) e
              (record {
                replied = h.replied;
                size = h.size;
                unknown = h.unknown;
                all_read = omega (arith, h.all_read, length-append s.buf got);
                few = ground (arith, few);
              })))
      (λ enough.
        if_case Sound s.method_ok (λ known. absurd (ground (arith, known, h.unknown)))
          (λ _.
            parse_method-Sound round (with_got got s) (record { tally = t.tally; few = t.few })
              h.replied (ground (arith, enough))
              (omega (arith, h.size, h.few, h.all_read, le, length-append s.buf got))))
got_bytes-Sound round s got t (at_header e h) le =
    if_case Sound (ltb (s.requestbytes + length got) mini_header_size)
      (λ few. absurd (ground (arith, few, h.some_read)))
      (λ enough.
        if_case Sound s.method_ok
          (λ known.
            parse_header-Sound round (with_got got s) (record { tally = t.tally; few = t.few })
              (record {
                replied = h.replied;
                size = h.size;
                known = h.known;
                some_read = ground (arith, enough);
                fits = omega (arith, h.size, h.room, le, length-append s.buf got);
              }))
          (λ unknown. absurd (ground (arith, h.known, unknown))))

got_nothing-Sound :
    (round : Round) (s : Service) → IsTallied s → IsReading s → Sound (got_nothing round s)
unfolding got_nothing
got_nothing-Sound round s t h =
    if_case Sound round.read_fails (λ _. closed)
      (λ _. if_case Sound (leb max_empty_io s.emptyio) (λ _. closed) (λ _. again h))
  where
    closed : Sound (goto read_closed s)
    closed = read_closed-Sound s t (reading-IsReplied s h)

    again : IsReading s → Sound (record s { emptyio = s.emptyio + 1 })
    again (at_method e r) =
        known_state _ read_req_method (record { tally = t.tally; few = t.few }) e
          (record {
            replied = r.replied;
            size = r.size;
            unknown = r.unknown;
            all_read = r.all_read;
            few = r.few;
          })
    again (at_header e r) =
        known_state _ read_req_header (record { tally = t.tally; few = t.few }) e
          (record {
            replied = r.replied;
            size = r.size;
            known = r.known;
            some_read = r.some_read;
            room = r.room;
            limited = r.limited;
          })

pub read-Sound : (round : Round) (s : Service) → IsTallied s → IsReading s → Sound (read round s)
unfolding read
read-Sound round s t h =
    if_case Sound (ltb 0 (length (take (s.size - length s.buf) round.input)))
      (λ _.
        got_bytes-Sound round s (take (s.size - length s.buf) round.input) t h
          (omega (arith, length-take (s.size - length s.buf) round.input)))
      (λ _. got_nothing-Sound round s t h)
