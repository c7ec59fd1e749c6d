-- ===== src/QpsServer/Response.antt =====
-- `httpSendResponse`: the text of a response and the two writes that send it. What
-- `time.Now().UTC().Format(HttpTimeFormat)` gives at each call is a parameter.
pub mod Keeps
pub mod Laws
pub mod StatusLine
pub mod Whole
use Prim.Native.String.{String}
use wander.Base.{
  ℕ, ◌+◌, ◌≡◌, refl, Bool, true, false, List, [], ◌∷◌, ◌++◌, length, ltb, ◌==◌, if◌then◌else◌,
}
use wander.Base.Bytes.{Bytes, codes}
use wander.Base.Decimal.{itoa}
use wander.Base.Int.{ℤ, pos, ltb_ℤ}
use wander.QpsServer.Event.{
  Event, is_write_done, is_write_time_out, write_header_done, write_header_time_out,
  write_header_error, write_waiting, write_body, write_body_done, write_body_time_out,
  write_body_error, total_conn_response,
}
use wander.QpsServer.Status.{http_status_text, status_bad_request}
use wander.QpsServer.Conn.{Info, Run, done, ◌>>=◌, notify, set_state}
use wander.QpsServer.Stream.{http_write_responser}

-- `srv_cfg_mode`: "readlonly", "short", or any other text.
pub data Mode : Type 0 where
  readlonly : Mode
  short : Mode
  keepalive : Mode

pub record ServerConfig : Type 0 where
  pub mode : Mode
  pub net_timeout : ℕ
  pub net_keepalive_timeout : ℕ
  pub read_delay : ℤ
  pub write_delay : ℤ

abbrev pub text_of : ℕ → List (ℕ × String) → Bytes
text_of code [] = []
text_of code ((c, text) ∷ rest) = if c == code then codes text else text_of code rest

-- `httpStatusText[code]`
unfoldable pub status_text : ℕ → Bytes
status_text code = text_of code http_status_text

abbrev pub crlf : Bytes
crlf = 13 ∷ 10 ∷ []

abbrev pub line : String → Bytes
line text = codes text ++ crlf

-- The protocol's version and whether the connection is kept, on the first two lines.
abbrev pub keeps : Mode → ℕ → Bool
keeps short status = false
keeps readlonly status = ltb status status_bad_request
keeps keepalive status = ltb status status_bad_request

abbrev version : Mode → Bytes
version short = codes "HTTP/1.0"
version _ = codes "HTTP/1.1"

abbrev connection_line : Bool → Bytes
connection_line true = line "Connection: keep-alive"
connection_line false = line "Connection: close"

abbrev pub length_line : ℕ → Bytes
length_line n = codes "Content-Length: " ++ (itoa n ++ crlf)

abbrev pub head_start : Mode → ℕ → Bytes
head_start mode status =
    version mode
    ++ (status_text status
        ++ (crlf
            ++ (connection_line (keeps mode status)
                ++ (line "Cache-Control: no-cache, must-revalidate"
                    ++ (line "Content-Type: text/plain; charset=UTF-8"
                        ++ line "Pragma: no-cache")))))

abbrev pub head_end : Bytes → Bytes
head_end date =
    codes "Date: "
    ++ (date
        ++ (crlf
            ++ (line "Expires: Fri, 01 Jan 1990 00: 00: 00 GMT"
                ++ (line "Server: Wheelcomplex-Go-Qps-Server v1.0" ++ crlf))))

unfoldable pub response_head : Mode → ℕ → ℕ → Bytes → Bytes
response_head mode status body_length date =
    head_start mode status ++ (length_line body_length ++ head_end date)

-- What is added to the text of the body: "/date/count\r\n".
unfoldable pub body_tail : Bytes → ℕ → Bytes
body_tail date request_count = b'/' ∷ (date ++ (b'/' ∷ (itoa request_count ++ crlf)))

module _ (date : ℕ → Bytes) where
  -- `append(responseBodyText, …)`
  unfoldable pub add_body : Info → Info
  add_body info = record info {
    response_body_text =
        info.response_body_text ++ body_tail (date info.conn.ticks) info.request_count;
    conn = record info.conn { ticks = info.conn.ticks + 1 };
  }

  -- The two branches of the switch that answer, and the lines that follow it.
  unfoldable pub add_header : Mode → Info → Info
  add_header mode info = record info {
    keepalive = keeps mode info.response_status_code;
    response_header_text =
        info.response_header_text
        ++ response_head mode info.response_status_code (length info.response_body_text)
            (date info.conn.ticks);
    conn = record info.conn { ticks = info.conn.ticks + 1 };
  }

-- The last switch of the function.
unfoldable pub body_written : Info → Info
body_written info =
    if is_write_done info.state
    then notify total_conn_response (set_state write_body_done info)
    else set_state (if is_write_time_out info.state then write_body_time_out else write_body_error)
        info

unfoldable pub send_body : ServerConfig → Info → Run Info
send_body cfg info =
    let waited = if ltb_ℤ (pos 0) cfg.write_delay then set_state write_waiting info else info in
    http_write_responser info.response_body_text cfg.net_timeout (set_state write_body waited)
    >>= λ written. done (body_written written)

-- The switch behind the first write.
unfoldable pub header_written : ServerConfig → Info → Run Info
header_written cfg info =
    if is_write_done info.state
    then send_body cfg (set_state write_header_done info)
    else done (
        set_state
          (if is_write_time_out info.state then write_header_time_out else write_header_error) info)

-- From the first write on.
unfoldable pub send_text : ServerConfig → Info → Run Info
send_text cfg info =
    http_write_responser info.response_header_text cfg.net_timeout info >>= header_written cfg

-- The switch on the mode, and what follows it.
unfoldable pub answer : (ℕ → Bytes) → ServerConfig → Mode → Info → Run Info
answer date cfg readlonly info = done info
answer date cfg short info = send_text cfg (add_header date short info)
answer date cfg keepalive info = send_text cfg (add_header date keepalive info)

unfoldable pub http_send_response : (ℕ → Bytes) → ServerConfig → Info → Run Info
http_send_response date cfg info = answer date cfg cfg.mode (add_body date info)
