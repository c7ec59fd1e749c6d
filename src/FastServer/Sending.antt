-- ===== src/FastServer/Sending.antt =====
-- `tinyhttpservice` from `HTTP_STATE_READREQDONE` to `HTTP_STATE_SENDBODY`: a request is counted and
-- answered.
use wander.Base.{ℕ, ◌+◌, Bool, [], ◌∷◌, ◌++◌, length, take, drop, ltb, leb, if◌then◌else◌}
use wander.FastServer.Parse.{http_keep_alive_parse}
use wander.FastServer.State.{
  Round, Service, goto, keepalive, max_empty_io, max_header_size, response, send_body, write_closed,
}

-- `HTTP_STATE_SENDBODY`, with `n` bytes taken by `Write`.
unfoldable pub wrote : Bool → ℕ → Service → Service
wrote fails n s =
    let next = record s { sent = s.sent + n; wire = s.wire ++ take n (drop s.sent s.outbuf) } in
    if fails
    then goto write_closed next
    else if leb (length s.outbuf) (s.sent + n)
    then goto keepalive next
    else next

unfoldable pub wrote_nothing : Bool → Service → Service
wrote_nothing fails s =
    if fails
    then goto write_closed s
    else if ltb s.emptyio max_empty_io
    then record s { emptyio = s.emptyio + 1 }
    else goto write_closed s

-- `Write` takes no more than it is given.
abbrev pub taken : Round → Service → ℕ
taken round s = length (take round.takes (drop s.sent s.outbuf))

unfoldable pub send : Round → Service → Service
send round s =
    if ltb 0 (taken round s)
    then wrote round.write_fails (taken round s) s
    else wrote_nothing round.write_fails s

-- `HTTP_STATE_PARSEREQBODY`
unfoldable pub begin_response : Round → Service → Service
begin_response round s =
    send round
      (record s { sent = 0; emptyio = 0; state = send_body; outbuf = response s.is_keep_alive })

-- `if reqoutcount >= 1000 { … }`
unfoldable pub report_requests : Service → Service
report_requests s =
    if leb 1000 s.reqoutcount
    then record s { requests_ch = s.requests_ch ++ s.reqoutcount ∷ []; reqoutcount = 0 }
    else s

-- `HTTP_STATE_PARSEREQHEADER`
unfoldable pub request_done : Round → Service → Service
request_done round s =
    let counted =
      report_requests
        (record s { totalrequest = s.totalrequest + 1; reqoutcount = s.reqoutcount + 1 }) in
    begin_response round
      (record counted { is_keep_alive = http_keep_alive_parse counted.buf max_header_size })
