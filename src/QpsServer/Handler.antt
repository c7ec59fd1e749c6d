-- ===== src/QpsServer/Handler.antt =====
-- `httpConnectionHandler`: the life of one connection.
pub mod Laws
pub mod Serve
pub mod Leak
use wander.Base.{
  ℕ, zero, suc, ◌+◌, ◌≡◌, refl, Bool, true, false, List, [], ◌∷◌, ◌++◌, length, ltb, ◌==◌,
  if◌then◌else◌,
}
use wander.Base.Bytes.{Bytes}
use wander.QpsServer.Event.{
  event_number, is_read_done, is_pase_done, read_init, read_body_error, total_conn_keepalive,
}
use wander.QpsServer.Status.{status_ok, status_service_unavailable}
use wander.QpsServer.Conn.{
  Conn, Info, Run, done, pending, no_fuel, ◌>>=◌, notify, set_state, http_connection_init,
  http_connection_keepalive,
}
use wander.QpsServer.Stream.{http_read_raw_stream}
use wander.QpsServer.Response.{Mode, readlonly, short, keepalive, ServerConfig, http_send_response}
use wander.QpsServer.Request.{http_read_request}

-- The loop of the mode readlonly: it reads until a read fails. Its fuel is the number of answers.
unfoldable pub drain : ℕ → Info → Run Conn
drain zero info = no_fuel
drain (suc fuel) info =
    let next = drain fuel in
    http_read_raw_stream 0 info >>= λ r.
    if is_read_done r.1.state then next r.1 else done (set_state read_body_error r.1).conn

-- The end of a connection: `keepalive = false`, and `httpConnectionKeepalive`.
abbrev pub say_bye : Info → Conn
say_bye info = (http_connection_keepalive (record info { keepalive = false })).0.conn

module _ (date : ℕ → Bytes) (cfg : ServerConfig) (body_text : Bytes) where
  -- The branch for `httpStatusServiceUnavailable`.
  unfoldable pub serve_busy : ℕ → Conn → Run Conn
  serve_busy init_status_code conn =
      http_read_request date cfg (http_connection_init init_status_code body_text conn 1)
      >>= λ read.
          (if is_pase_done read.state then http_send_response date cfg read else done read)
          >>= λ info. done (say_bye info)

  -- `if httpConnectionKeepalive(…) == false { break }`, at the end of a round.
  abbrev pub continue_with : (Conn → Run Conn) → Info × Bool → Run Conn
  continue_with next (info, true) = next info.conn
  continue_with next (info, false) = done info.conn

  -- What is left in `read_body_stream` is not passed on to the next request.
  unfoldable pub respond : (Conn → Run Conn) → Info → Run Conn
  respond next info = http_send_response date cfg info >>= λ sent.
      continue_with next (http_connection_keepalive sent)

  unfoldable pub serve_mode : Mode → (Conn → Run Conn) → Info → Run Conn
  serve_mode readlonly next info = drain (suc (length info.conn.reads)) info
  serve_mode short next info = respond next info
  serve_mode keepalive next info = respond next info

  -- A request that was read.
  unfoldable pub serve_request : (Conn → Run Conn) → Info → Run Conn
  serve_request next read =
      let counted = if ltb 1 read.request_count then notify total_conn_keepalive read else read in
      serve_mode cfg.mode next (record counted { response_status_code = status_ok })

  unfoldable pub after_request : (Conn → Run Conn) → Info → Run Conn
  after_request next read =
      if is_pase_done read.state then serve_request next read else done (say_bye read)

  -- The loop over the requests of a connection.
  unfoldable pub keepalive_loop : ℕ → ℕ → Conn → Run Conn
  keepalive_loop zero request_count conn = no_fuel
  keepalive_loop (suc fuel) request_count conn =
      let count = suc request_count in
      http_read_request date cfg
        (http_connection_init (event_number read_init) body_text conn count)
      >>= after_request (keepalive_loop fuel count)

  -- One round of the loop needs an answer to a read at least.
  unfoldable pub http_connection_handler : ℕ → Conn → Run Conn
  http_connection_handler init_status_code conn =
      if init_status_code == status_service_unavailable
      then serve_busy init_status_code conn
      else keepalive_loop (suc (length conn.reads)) 0 conn
