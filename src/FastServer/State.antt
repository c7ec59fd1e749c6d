-- ===== src/FastServer/State.antt =====
-- The constants, the states and the local variables of `tinyhttpservice`.
use wander.Base.{ℕ, Bool, true, false, List, [], Option, some}
use wander.Base.Bytes.{Bytes, codes}
use wander.FastServer.Parse.{Code, found}

-- `HTTP_MAX_HEADER_SIZE`, `HTTP_INIT_HEADER_SIZE`, `HTTP_MAX_HEADER_READ_SIZE`,
-- `HTTP_TAIL_HEADER_SIZE`
abbrev pub max_header_size : ℕ
max_header_size = 128

abbrev pub init_header_size : ℕ
init_header_size = 48

abbrev pub max_header_read_size : ℕ
max_header_read_size = 131072

abbrev pub tail_header_size : ℕ
tail_header_size = 4

-- `MAX_EMPTY_IO`
abbrev pub max_empty_io : ℕ
max_empty_io = 2

abbrev pub http_200_keepalive : Bytes
http_200_keepalive = codes "HTTP/1.0 200 OK\r\nContent-Length: 0\r\nConnection: keep-alive\r\n\r\n"

abbrev pub http_200_close : Bytes
http_200_close = codes "HTTP/1.0 200 OK\r\nContent-Length: 0\r\nConnection: close\r\n\r\n"

-- The `HTTP_STATE_` constants.
pub data State : Type 0 where
  keepalive : State
  read_req_method : State
  read_req_header : State
  read_req_done : State
  parse_req_header : State
  read_req_body : State
  parse_req_body : State
  send_header : State
  send_body : State
  read_closed : State
  write_closed : State
  keepalive_closed : State

-- What `Read` and `Write` answer in a round of the loop, if it calls them: the bytes there are to
-- read, how many bytes are taken, and whether there is an error with it.
pub record Round : Type 0 where
  pub input : Bytes
  pub read_fails : Bool
  pub takes : ℕ
  pub write_fails : Bool

-- The local variables. `buf` is `iobuf[:bufiobytes]` and `size` is `len(iobuf)`; `sent` is
-- `bufiobytes` while a response is written. `wire` is what was written to the connection, and
-- `requests_ch` what was sent to the channel of that name.
pub record Service : Type 0 where
  pub state : State
  pub buf : Bytes
  pub size : ℕ
  pub sent : ℕ
  pub outbuf : Bytes
  pub emptyio : ℕ
  pub requestbytes : ℕ
  pub totalrequest : ℕ
  pub reqoutcount : ℕ
  pub method_ok : Bool
  pub is_keep_alive : Bool
  pub wire : Bytes
  pub requests_ch : List ℕ

abbrev pub new_service : Service
new_service = record {
  state = keepalive;
  buf = [];
  size = init_header_size;
  sent = 0;
  outbuf = [];
  emptyio = 0;
  requestbytes = 0;
  totalrequest = 0;
  reqoutcount = 0;
  method_ok = false;
  is_keep_alive = false;
  wire = [];
  requests_ch = [];
}

abbrev pub goto : State → Service → Service
goto state s = record s { state = state }

abbrev pub is_found : Option Code → Bool
is_found (some found) = true
is_found _ = false

abbrev pub response : Bool → Bytes
response true = http_200_keepalive
response false = http_200_close
