-- ===== src/QpsServer/Request/Found.antt =====
-- The request that is read when one read brings its header.
use wander.Base.{
  ℕ, zero, suc, ◌+◌, ◌≤◌, ◌<◌, ◌≡◌, refl, ◌∙◌, ap, Bool, true, false, List, [], ◌∷◌, ◌++◌, arith,
  length, ◌==◌, if◌then◌else◌, some,
}
use wander.Base.Bytes.{Bytes, drop-append, take-append, newline}
use wander.Base.Int.{pos, ltb_ℤ}
use wander.QpsServer.Event.{read_init, read_waiting, is_pase_done, read_done, read_header}
use wander.QpsServer.Conn.{
  ReadAnswer, got, Conn, Info, Run, done, ◌>>=◌, notify_conn, set_state, http_connection_init,
}
use wander.QpsServer.Stream.{read_count, receive, read_loop, http_read_raw_stream}
use wander.QpsServer.Response.{ServerConfig}
use wander.QpsServer.Header.{Seek, find_end}
use wander.QpsServer.Header.Laws.{IsLine}
use wander.QpsServer.Request.{
  check_read, end_fuel, end_round, searched, search_stream, checked, after_read, request_loop,
  first_seek, read_time_out_of, http_read_request,
}
use wander.QpsServer.Request.FirstLine.{method_of, protocol, find_method-line}

-- Behind the first line of a request.
abbrev pub behind_line : Bytes → ℕ → Seek
behind_line l n = record {
  pos = length l + 1;
  method_ok = true;
  header_start = length l + 1;
  total = n;
}

-- The connection on which a text and `more` are to come, and the answer that delivers a part.
abbrev pub asking : ℕ → List ReadAnswer → Bytes → Bytes → Conn → Conn
asking k later text more d = record d { incoming = text ++ more; reads = got k ∷ later }

-- The search for the end of the header that `httpReadRequest` comes to, on the info `info`.
pub record Found (date : ℕ → Bytes) (cfg : ServerConfig) (l behind more method text : Bytes)
    (later : List ReadAnswer) (count : ℕ) (d : Conn) (run : Run Info) : Type 0 where
  pub info : Info
  pub next : Info → Seek → Run Info
  pub runs : run ≡ (
      find_end (end_fuel info) info (behind_line l (length (l ++ (newline ∷ behind))))
      >>= end_round date cfg next)
  pub raw : info.read_raw_stream ≡ l ++ (newline ∷ behind)
  pub unended : is_pase_done info.state ≡ false
  pub named : info.method ≡ method
  pub lined : info.read_procotol_stream ≡ l
  pub left : info.conn.incoming ≡ more
  pub kept : info.conn.reads ≡ later
  pub counted : info.request_count ≡ count
  pub bodied : info.response_body_text ≡ text
  pub headless : info.response_header_text ≡ []
  pub sent : info.conn.sent ≡ d.sent
  pub clock : info.conn.ticks ≡ d.ticks
  pub writes : info.conn.writes ≡ d.writes

module _ (l behind more : Bytes) (k : ℕ) (later : List ReadAnswer)
    (long : 16 ≤ length (l ++ (newline ∷ behind)))
    (whole : read_count k ((l ++ (newline ∷ behind)) ++ more)
      ≡ length (l ++ (newline ∷ behind))) where
  abbrev request : Bytes
  request = l ++ (newline ∷ behind)

  -- The info behind the read.
  abbrev received : Info → Info
  received info = set_state read_done (record info {
    read_raw_stream = request;
    io_error = false;
    conn = record info.conn { incoming = more; reads = later };
  })

  read_lem :
      (info : Info)
      → http_read_raw_stream 1 (record info {
        read_raw_stream = [];
        conn = asking k later (l ++ (newline ∷ behind)) more info.conn;
      })
        ≡ done (length request, received info)
  unfolding http_read_raw_stream read_loop
  read_lem info = rw (whole, some_read) (λ i. done (length request, set_state read_done (taken i)))
    where
      some_read : (length request == 0) ≡ false
      some_read = ground arith

      taken :
          receive (length request) (record info {
            read_raw_stream = [];
            io_error = false;
            conn = record info.conn { incoming = request ++ more; reads = later };
          })
          ≡ record info {
            read_raw_stream = request;
            io_error = false;
            conn = record info.conn { incoming = more; reads = later };
          }
      taken = λ i. record info {
        read_raw_stream = take-append request more i;
        io_error = false;
        conn = record info.conn { incoming = drop-append request more i; reads = later };
      }

  module _ (date : ℕ → Bytes) (cfg : ServerConfig) (method : Bytes) (line : IsLine l)
      (names : method_of (l ++ (newline ∷ behind)) ≡ some method) where
    abbrev searching : Info → Info
    searching info = protocol l method (set_state read_header (received info))

    after_read-found :
        (next : Info → Seek → Run Info) (last : Bool) (info : Info)
        → after_read date cfg next last (first_seek date cfg) (length request, received info) ≡ (
            find_end (end_fuel (searching info)) (searching info) (behind_line l (length request))
            >>= end_round date cfg next)
    unfolding after_read check_read checked search_stream searched
    after_read-found next last info =
        ap
          (λ n.
            search_stream date cfg next (set_state read_header (received info))
              (record { pos = 0; method_ok = false; header_start = 0; total = n }))
          none_before
        ∙ rw
            (find_method-line l behind method line names (set_state read_header (received info))
              (length request) refl long)
            refl
      where
        none_before : 0 + length request ≡ length request
        none_before = omega arith

    request_loop-found :
        (left : ℕ) (info : Info)
        → request_loop date cfg
            (suc left)
            (record info {
              read_raw_stream = [];
              io_error = false;
              conn = asking k later (l ++ (newline ∷ behind)) more info.conn;
            })
            (first_seek date cfg)
          ≡ (find_end (end_fuel (searching info)) (searching info) (behind_line l (length request))
              >>= end_round date cfg (request_loop date cfg left))
    unfolding request_loop
    request_loop-found left info =
        rw (read_lem (record info { io_error = false }))
          (after_read-found (request_loop date cfg left) (left == 0) info)

    -- What `begin_read` makes of a new connection, with and without a delay.
    begun : Bool → Info → Info
    begun b info =
        let init = set_state read_init info in
        record (set_state read_header (if b then set_state read_waiting init else init)) {
          io_error = false;
        }

    found_at :
        (info : Info) (text : Bytes) (count left : ℕ) (d : Conn)
        → info.request_count ≡ count
        → info.response_body_text ≡ text
        → info.response_header_text ≡ []
        → info.conn.sent ≡ d.sent
        → info.conn.ticks ≡ d.ticks
        → info.conn.writes ≡ d.writes
        → Found date cfg l behind more method text later count d (
            request_loop date cfg
              (suc left)
              (record info {
                read_raw_stream = [];
                io_error = false;
                conn = asking k later (l ++ (newline ∷ behind)) more info.conn;
              })
              (first_seek date cfg))
    unfolding notify_conn
    found_at info text count left d e b h s t w = record {
      info = searching info;
      next = request_loop date cfg left;
      runs = request_loop-found left info;
      raw = refl;
      unended = refl;
      named = refl;
      lined = refl;
      left = refl;
      kept = refl;
      counted = e;
      bodied = b;
      headless = h;
      sent = s;
      clock = t;
      writes = w;
    }

    begun-found :
        (status count : ℕ) (text : Bytes) (d : Conn) (b : Bool) (left : ℕ)
        → 0 < left
        → Found date cfg l behind more method text later count d (
            request_loop date cfg left
              (begun b (
                http_connection_init status text
                  (asking k later (l ++ (newline ∷ behind)) more d)
                  count))
              (first_seek date cfg))
    unfolding begun notify_conn
    begun-found status count text d b zero h = absurd (omega arith)
    begun-found status count text d true (suc left) h =
        found_at
          (begun true (
            http_connection_init status text (asking k later (l ++ (newline ∷ behind)) more d)
              count))
          text count left d refl refl refl refl refl refl
    begun-found status count text d false (suc left) h =
        found_at
          (begun false (
            http_connection_init status text (asking k later (l ++ (newline ∷ behind)) more d)
              count))
          text count left d refl refl refl refl refl refl

    pub http_read_request-Found :
        (status count : ℕ) (text : Bytes) (d : Conn)
        → 0 < read_time_out_of date cfg count
        → Found date cfg l behind more method text later count d (
            http_read_request date cfg (
              http_connection_init status text
                (asking k later (l ++ (newline ∷ behind)) more d)
                count))
    unfolding http_read_request begun
    http_read_request-Found status count text d h =
        begun-found status count text d (ltb_ℤ (pos 0) cfg.read_delay)
          (read_time_out_of date cfg count) h
