-- ===== src/FastServer/Receiving.antt =====
-- `tinyhttpservice` from `HTTP_STATE_KEEPALIVE` to `HTTP_STATE_READREQHEADER`: a request is read.
use wander.Base.{
  ◌+◌, ◌-◌, Bool, true, false, ◌&&◌, ◌||◌, [], ◌++◌, length, take, drop, ltb, leb, ◌==◌,
  if◌then◌else◌,
}
use wander.Base.Bytes.{Bytes}
use wander.FastServer.Parse.{
  HttpIntMethod, method_number, mini_header_size, http_method_parser, http_uri_parser,
}
use wander.FastServer.State.{
  Round, Service, goto, init_header_size, is_found, keepalive_closed, max_empty_io,
  max_header_read_size, max_header_size, read_closed, read_req_done, read_req_header,
  read_req_method, tail_header_size,
}
use wander.FastServer.Sending.{request_done}

-- A full buffer is used again, with its last bytes first.
unfoldable pub reuse : Bytes → Bytes
reuse buf =
    if leb max_header_size (length buf) then drop (length buf - tail_header_size) buf else buf

-- The end of the header is not found: any code of the parser but 0 means to read more.
unfoldable pub not_found : Round → Service → Service
not_found round s =
    if round.read_fails
    then goto read_closed s
    else if leb max_header_read_size s.requestbytes
    then goto read_closed s
    else record s { buf = reuse s.buf; state = read_req_header }

unfoldable pub parse_header : Round → Service → Service
parse_header round s =
    if is_found (http_uri_parser s.buf) then request_done round s else not_found round s

abbrev pub is_allowed : HttpIntMethod → Bool
is_allowed m = leb 1 (method_number m) && leb (method_number m) 3

-- `if methodok == false { … }`; the bytes read go on in the larger buffer.
unfoldable pub parse_method : Round → Service → Service
parse_method round s =
    if is_allowed (http_method_parser s.buf)
    then if is_found (http_uri_parser s.buf)
      then goto read_req_done s
      else parse_header round (record s { method_ok = true; size = max_header_size })
    else goto read_closed s

unfoldable pub got_bytes : Round → Service → Service
got_bytes round s =
    if ltb s.requestbytes mini_header_size
    then if round.read_fails then goto read_closed s else s
    else if s.method_ok
    then parse_header round s
    else parse_method round s

unfoldable pub got_nothing : Round → Service → Service
got_nothing round s =
    if round.read_fails
    then goto read_closed s
    else if leb max_empty_io s.emptyio
    then goto read_closed s
    else record s { emptyio = s.emptyio + 1 }

-- `HTTP_STATE_READREQHEADER`
unfoldable pub read : Round → Service → Service
read round s =
    let got = take (s.size - length s.buf) round.input in
    if ltb 0 (length got)
    then got_bytes round
        (record s { buf = s.buf ++ got; requestbytes = s.requestbytes + length got })
    else got_nothing round s

-- `HTTP_STATE_KEEPALIVE`
unfoldable pub next_request : Round → Service → Service
next_request round s =
    let fresh = record s {
      buf = [];
      size = init_header_size;
      emptyio = 0;
      requestbytes = 0;
      method_ok = false;
    } in
    if s.totalrequest == 0 || s.is_keep_alive
    then read round (goto read_req_method fresh)
    else goto keepalive_closed fresh
