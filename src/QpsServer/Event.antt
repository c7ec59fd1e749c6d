-- ===== src/QpsServer/Event.antt =====
-- The events of qps-http-app-server/qps-http-app-server.go, which are also the states of a request.
use Prim.Native.String.{String}
use wander.Base.{ℕ, Bool, true, false}

pub data Event : Type 0 where
  event_start : Event
  total_time_esp : Event
  total_conn_max : Event
  total_conn_running : Event
  total_conn_idle : Event
  total_conn_init : Event
  total_conn_keepalive : Event
  total_conn_request : Event
  total_conn_response : Event
  total_conn_closed : Event
  read_init : Event
  read_waiting : Event
  read_header : Event
  read_body : Event
  pase_error : Event
  read_header_error : Event
  read_header_time_out : Event
  read_body_error : Event
  pase_done : Event
  write_init : Event
  write_header : Event
  write_header_done : Event
  write_header_error : Event
  write_header_time_out : Event
  write_waiting : Event
  write_body : Event
  write_body_done : Event
  write_body_error : Event
  write_body_time_out : Event
  raw_proxy : Event
  raw_proxy_read_error : Event
  raw_proxy_write_error : Event
  finished : Event
  keepalive : Event
  destroyed : Event
  invalid : Event
  read_time_out : Event
  read_error : Event
  read_done : Event
  write_time_out : Event
  write_error : Event
  write_done : Event
  event_last : Event

-- The numbers that `iota` gives.
abbrev pub event_number : Event → ℕ
event_number event_start = 0
event_number total_time_esp = 1
event_number total_conn_max = 2
event_number total_conn_running = 3
event_number total_conn_idle = 4
event_number total_conn_init = 5
event_number total_conn_keepalive = 6
event_number total_conn_request = 7
event_number total_conn_response = 8
event_number total_conn_closed = 9
event_number read_init = 10
event_number read_waiting = 11
event_number read_header = 12
event_number read_body = 13
event_number pase_error = 14
event_number read_header_error = 15
event_number read_header_time_out = 16
event_number read_body_error = 17
event_number pase_done = 18
event_number write_init = 19
event_number write_header = 20
event_number write_header_done = 21
event_number write_header_error = 22
event_number write_header_time_out = 23
event_number write_waiting = 24
event_number write_body = 25
event_number write_body_done = 26
event_number write_body_error = 27
event_number write_body_time_out = 28
event_number raw_proxy = 29
event_number raw_proxy_read_error = 30
event_number raw_proxy_write_error = 31
event_number finished = 32
event_number keepalive = 33
event_number destroyed = 34
event_number invalid = 35
event_number read_time_out = 36
event_number read_error = 37
event_number read_done = 38
event_number write_time_out = 39
event_number write_error = 40
event_number write_done = 41
event_number event_last = 42

-- `EventChangeString`
abbrev pub event_change_string : Event → String
event_change_string event_start = "event cont start"
event_change_string total_time_esp = "time esp secondss"
event_change_string total_conn_max = "maximum connections"
event_change_string total_conn_running = "connections running"
event_change_string total_conn_idle = "idle connections"
event_change_string total_conn_init = "new connections"
event_change_string total_conn_keepalive = "keepalive requests"
event_change_string total_conn_request = "total requests"
event_change_string total_conn_response = "total response"
event_change_string total_conn_closed = "connections closed"
event_change_string read_init = "http read init"
event_change_string read_waiting = "http read waiting"
event_change_string read_header = "http read header"
event_change_string read_body = "http read body"
event_change_string pase_error = "http parse error"
event_change_string read_header_error = "http read header error"
event_change_string read_header_time_out = "http read header time out"
event_change_string read_body_error = "http read header error"
event_change_string pase_done = "http parse done "
event_change_string write_init = "http write init"
event_change_string write_header = "http write header"
event_change_string write_header_done = "http write header done"
event_change_string write_header_error = "http write header error"
event_change_string write_header_time_out = "http write header time out"
event_change_string write_waiting = "http write waiting"
event_change_string write_body = "http write body"
event_change_string write_body_done = "http write body done"
event_change_string write_body_error = "http write body error"
event_change_string write_body_time_out = "http write body timeout "
event_change_string raw_proxy = "raw proxy"
event_change_string raw_proxy_read_error = "raw proxy read error"
event_change_string raw_proxy_write_error = "raw proxy write error"
event_change_string finished = "http finished"
event_change_string keepalive = "http keepalive"
event_change_string destroyed = "http destroyed"
event_change_string invalid = "http invalid"
event_change_string read_time_out = "http read timeout "
event_change_string read_error = "http read error "
event_change_string read_done = "http read done "
event_change_string write_time_out = "http write timeout "
event_change_string write_error = "http write error "
event_change_string write_done = "http write done "
event_change_string event_last = "event cont last"

abbrev pub is_destroyed : Event → Bool
is_destroyed destroyed = true
is_destroyed _ = false

abbrev pub is_read_done : Event → Bool
is_read_done read_done = true
is_read_done _ = false

abbrev pub is_read_time_out : Event → Bool
is_read_time_out read_time_out = true
is_read_time_out _ = false

abbrev pub is_write_done : Event → Bool
is_write_done write_done = true
is_write_done _ = false

abbrev pub is_write_time_out : Event → Bool
is_write_time_out write_time_out = true
is_write_time_out _ = false

abbrev pub is_pase_done : Event → Bool
is_pase_done pase_done = true
is_pase_done _ = false

abbrev pub is_total_conn_closed : Event → Bool
is_total_conn_closed total_conn_closed = true
is_total_conn_closed _ = false

abbrev pub is_write_body_done : Event → Bool
is_write_body_done write_body_done = true
is_write_body_done _ = false
