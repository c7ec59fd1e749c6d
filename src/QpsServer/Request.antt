-- ===== src/QpsServer/Request.antt =====
-- `httpReadRequest`: the rounds of reading and searching.
pub mod Keeps
pub mod FirstLine
pub mod Parse
pub mod Closing
pub mod Found
use wander.Base.{
  ℕ, zero, suc, ◌+◌, ◌-◌, ◌≡◌, refl, Bool, true, false, ◌&&◌, ◌||◌, List, [], ◌∷◌, ◌++◌, length,
  ltb, ◌==◌, if◌then◌else◌,
}
use wander.Base.Bytes.{Bytes}
use wander.Base.Int.{pos, ltb_ℤ}
use wander.QpsServer.Event.{
  is_read_done, is_read_time_out, is_pase_done, read_init, read_waiting, read_header, pase_error,
  read_header_error, read_header_time_out, total_conn_request,
}
use wander.QpsServer.Conn.{Info, Run, done, pending, no_fuel, ◌>>=◌, notify, set_state}
use wander.QpsServer.Stream.{http_read_raw_stream}
use wander.QpsServer.Response.{ServerConfig, http_send_response}
use wander.QpsServer.Header.{Seek, Search, proceed, reject, find_method, find_end}

-- A response with an error: the state is set with no event.
abbrev pub send_error : (ℕ → Bytes) → ServerConfig → ℕ → Info → Run Info
send_error date cfg status info =
    http_send_response date cfg (record info { state = pase_error; response_status_code = status })

-- Whether the switch behind a read returns, and in which state. `last` is the test
-- `io_try_count == readTimeOut`.
pub data Checked : Type 0 where
  give_up : Info → Checked
  go_on : Info → Checked

unfoldable pub check_read : Bool → ℕ → Info → Checked
check_read last total info =
    if is_read_done info.state
    then go_on (set_state read_header info)
    else if is_read_time_out info.state
    then if ltb total 16 && last
      then give_up (set_state read_header_time_out info)
      else go_on (set_state read_header info)
    else if ltb total 16 || last
    then give_up (set_state read_header_error info)
    else go_on (set_state read_header info)

-- The fuel of the search for the end of the header: one round for each byte, and one.
abbrev pub end_fuel : Info → ℕ
end_fuel info = suc (suc (length info.read_raw_stream))

module _ (date : ℕ → Bytes) (cfg : ServerConfig) where
  -- The last test of a round. `next` is the next one.
  abbrev pub end_round : (Info → Seek → Run Info) → Info × Seek → Run Info
  end_round next (info, seek) =
      if is_pase_done info.state then done (notify total_conn_request info) else next info seek

  unfoldable pub searched : (Info → Seek → Run Info) → Search → Run Info
  searched next (reject status info) = send_error date cfg status info
  searched next (proceed info seek) = find_end (end_fuel info) info seek >>= end_round next

  -- The rest of a round, behind the switch.
  unfoldable pub search_stream : (Info → Seek → Run Info) → Info → Seek → Run Info
  search_stream next info seek = searched next (find_method info seek)

  unfoldable pub checked : (Info → Seek → Run Info) → Seek → Checked → Run Info
  checked next seek (give_up info) = done info
  checked next seek (go_on info) = search_stream next info seek

  -- A round, behind its read.
  unfoldable pub after_read : (Info → Seek → Run Info) → Bool → Seek → ℕ × Info → Run Info
  after_read next last seek r =
      let total = seek.total + r.0 in
      checked next (record seek { total = total }) (check_read last total r.1)

  -- `for ioError == nil && io_try_count < readTimeOut`; the first argument is
  -- `readTimeOut - io_try_count`.
  unfoldable pub request_loop : ℕ → Info → Seek → Run Info
  request_loop zero info seek = done info
  request_loop (suc left) info seek =
      let next = request_loop left in
      let round = http_read_raw_stream 1 info >>= after_read next (left == 0) seek in
      if info.io_error then done info else round

  abbrev pub first_seek : Seek
  first_seek = record { pos = 0; method_ok = false; header_start = 0; total = 0 }

  -- `readTimeOut`
  abbrev pub read_time_out_of : ℕ → ℕ
  read_time_out_of request_count =
      if ltb 1 request_count then cfg.net_keepalive_timeout else cfg.net_timeout

  abbrev pub begin_read : Info → Info
  begin_read info =
      let init = set_state read_init info in
      let waited = if ltb_ℤ (pos 0) cfg.read_delay then set_state read_waiting init else init in
      record (set_state read_header waited) { io_error = false }

  unfoldable pub http_read_request : Info → Run Info
  http_read_request info =
      request_loop (read_time_out_of info.request_count) (begin_read info) first_seek
