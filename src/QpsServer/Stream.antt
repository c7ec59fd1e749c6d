-- ===== src/QpsServer/Stream.antt =====
-- `httpReadRawStream` and `httpWriteResponser`: the loops that read from a connection and write to
-- it. A time-out of 0 is none at all.
pub mod Keeps
pub mod Laws
pub mod Ends
use Prim.Native.Nat.{min}
use wander.Base.{
  ℕ, zero, suc, ◌+◌, ◌-◌, ◌≡◌, refl, Bool, true, false, ◌&&◌, List, [], ◌∷◌, ◌++◌, length, take,
  drop, ltb, leb, ◌==◌, if◌then◌else◌,
}
use wander.Base.Bytes.{Bytes, codes}
use wander.QpsServer.Event.{
  Event, read_time_out, read_error, read_done, write_time_out, write_error, write_done,
}
use wander.QpsServer.Conn.{
  ReadAnswer, got, read_again, read_broken, WriteAnswer, took_all, write_again, write_broken, Conn,
  Info, Run, done, pending, set_state, http_connection_init,
}

-- `RECV_BUF_LEN`
abbrev pub recv_buf_len : ℕ
recv_buf_len = 65536

-- The answers of the network that a call leaves for the next.
abbrev pub with_reads : List ReadAnswer → Info → Info
with_reads rest info = record info { conn = record info.conn { reads = rest } }

abbrev pub with_writes : List WriteAnswer → Info → Info
with_writes rest info = record info { conn = record info.conn { writes = rest } }

abbrev pub fail_io : Event → Info → Info
fail_io state info = record (set_state state info) { io_error = true }

-- How many bytes the answer `got k` delivers.
abbrev pub read_count : ℕ → Bytes → ℕ
read_count k incoming = min (suc k) (min recv_buf_len (length incoming))

-- `append(ReadRawStream, ReadBuffer[:in_bytes]...)`
abbrev pub receive : ℕ → Info → Info
receive n info = record info {
  read_raw_stream = info.read_raw_stream ++ take n info.conn.incoming;
  conn = record info.conn { incoming = drop n info.conn.incoming };
}

-- The `for in_bytes == 0 && ioError == nil` loop; the second argument is `io_try_count`.
unfoldable pub read_loop : ℕ → ℕ → List ReadAnswer → Info → Run (ℕ × Info)
read_loop io_time_out tries [] info = pending
read_loop io_time_out tries (got k ∷ rest) info =
    let n = read_count k info.conn.incoming in
    if n == 0
    then done (0, fail_io read_error (with_reads rest info))
    else done (n, set_state read_done (receive n (with_reads rest info)))
read_loop io_time_out tries (read_again ∷ rest) info =
    let retry = read_loop io_time_out (suc tries) rest info in
    if ltb 0 io_time_out
    then if leb 5 (suc tries) then done (0, fail_io read_time_out (with_reads rest info)) else retry
    else done (0, fail_io read_error (with_reads rest info))
read_loop io_time_out tries (read_broken ∷ rest) info =
    done (0, fail_io read_error (with_reads rest info))

unfoldable pub http_read_raw_stream : ℕ → Info → Run (ℕ × Info)
http_read_raw_stream io_time_out info =
    read_loop io_time_out 0 info.conn.reads (record info { io_error = false })

-- How many of the bytes left the answer takes.
abbrev pub write_count : WriteAnswer → Bytes → ℕ
write_count took_all text = length text
write_count (write_again k) text = min k (length text)
write_count (write_broken k) text = min k (length text)

-- The error of a round: the state that it sets, and `ioError`.
abbrev pub write_failure : ℕ → ℕ → WriteAnswer → Info → Info
write_failure io_time_out tries took_all info = info
write_failure io_time_out tries (write_again k) info =
    if ltb 0 io_time_out
    then if leb 5 tries then fail_io write_time_out info else info
    else fail_io write_error info
write_failure io_time_out tries (write_broken k) info = fail_io write_error info

abbrev pub transmit : Bytes → Info → Info
transmit bytes info = record info { conn = record info.conn { sent = info.conn.sent ++ bytes } }

-- The `for ioError == nil` loop; the third and the fourth argument are `io_try_count` and what
-- `write_total_bytes` leaves of the text.
unfoldable pub write_loop : ℕ → ℕ → Bytes → List WriteAnswer → Info → Run Info
write_loop io_time_out tries text [] info = pending
write_loop io_time_out tries text (a ∷ rest) info =
    let n = write_count a text in
    let failed = write_failure io_time_out (suc tries) a (with_writes rest info) in
    let info' = transmit (take n text) failed in
    let more = write_loop io_time_out (suc tries) (drop n text) rest info' in
    if n == length text
    then done (set_state write_done info')
    else if info'.io_error
    then done info'
    else more

unfoldable pub http_write_responser : Bytes → ℕ → Info → Run Info
http_write_responser text_body io_time_out info =
    write_loop io_time_out 0 text_body info.conn.writes (record info { io_error = false })
