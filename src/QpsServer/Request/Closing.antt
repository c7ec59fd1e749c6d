-- ===== src/QpsServer/Request/Closing.antt =====
-- What reading a request leaves as it was.
use wander.Base.{ℕ, zero, suc, ◌+◌, ◌≡◌, refl, Bool, arith, ◌==◌}
use wander.Base.Bytes.{Bytes}
use wander.Base.Int.{pos, ltb_ℤ}
use wander.QpsServer.Event.{is_pase_done, pase_error, total_conn_request, read_init, read_waiting}
use wander.QpsServer.Conn.{
  Conn, Info, Run, After, After->>=, After-map, After-if, After-both, set_state,
}
use wander.QpsServer.Stream.Laws.{IsRead, http_read_raw_stream-IsRead}
use wander.QpsServer.Stream.Keeps.{
  Keeps, Keeps-refl, Keeps-trans, KeepsInfo, if_holds, notify_conn-Keeps,
  http_read_raw_stream-Keeps,
}
use wander.QpsServer.Response.{ServerConfig}
use wander.QpsServer.Response.Keeps.{http_send_response-Keeps}
use wander.QpsServer.Header.{Seek, Search, proceed, reject, find_method}
use wander.QpsServer.Request.{
  send_error, Checked, give_up, go_on, check_read, end_fuel, searched, search_stream, checked,
  after_read, request_loop, first_seek, begin_read, read_time_out_of, http_read_request,
}
use wander.QpsServer.Request.Keeps.{
  IsRequest, Searched, find_method-Searched, find_end-conn, Took, Took-IsRequest, notify-Took,
  moved, Handed, check_read-Handed,
}

module _ (date : ℕ → Bytes) (cfg : ServerConfig) (c : Conn) where
  send_error-Keeps :
      (status : ℕ) (info : Info)
      → Keeps c info.conn
      → After (KeepsInfo c) (send_error date cfg status info)
  send_error-Keeps status info k =
      http_send_response-Keeps date cfg c
        (record info { state = pase_error; response_status_code = status }) k

  send_error-IsRequest :
      (status : ℕ) (info : Info)
      → Took c info
      → After (IsRequest c) (send_error date cfg status info)
  send_error-IsRequest status info (k, lt) =
      After-map (KeepsInfo info.conn) (IsRequest c) (send_error date cfg status info)
        (http_send_response-Keeps date cfg info.conn
          (record info { state = pase_error; response_status_code = status })
          (Keeps-refl info.conn))
        (λ after k'. record { kept = Keeps-trans k k'; took = λ _. omega (arith, k'.reads) })

  module _ (next : Info → Seek → Run Info)
      (goes : (info : Info) (seek : Seek)
        → Took c info
        → After (IsRequest c) (next info seek)) where
    searched-IsRequest :
        (info : Info) (x : Search)
        → Took c info
        → Searched info x
        → After (IsRequest c) (searched date cfg next x)
    unfolding searched
    searched-IsRequest info (reject status info') k e =
        send_error-IsRequest status info' (moved info info' k e)
    searched-IsRequest info (proceed info' seek') k (e, _) =
        After->>= (λ r. r.0.conn ≡ info.conn) (IsRequest c) _ _
          (find_end-conn (end_fuel info') info.conn info' seek' e)
          (λ r e'.
            if_holds (After (IsRequest c)) (is_pase_done r.0.state)
              (Took-IsRequest c _ (notify-Took total_conn_request c r.0 refl (moved info r.0 k e')))
              (goes r.0 r.1 (moved info r.0 k e')))

    checked-IsRequest :
        (seek : Seek) (x : Checked)
        → Handed c x
        → After (IsRequest c) (checked date cfg next seek x)
    unfolding checked search_stream
    checked-IsRequest seek (give_up info) k = Took-IsRequest c info k
    checked-IsRequest seek (go_on info) k =
        searched-IsRequest info (find_method info seek) k (find_method-Searched info seek)

    after_read-IsRequest :
        (last : Bool) (seek : Seek) (r : ℕ × Info)
        → Took c r.1
        → After (IsRequest c) (after_read date cfg next last seek r)
    unfolding after_read
    after_read-IsRequest last seek r k =
        checked-IsRequest (record seek { total = seek.total + r.0 })
          (check_read last (seek.total + r.0) r.1)
          (check_read-Handed last (seek.total + r.0) c r.1 k)

  request_loop-IsRequest :
      (left : ℕ) (info : Info) (seek : Seek)
      → IsRequest c info
      → After (IsRequest c) (request_loop date cfg left info seek)
  unfolding request_loop
  request_loop-IsRequest zero info seek k = k
  request_loop-IsRequest (suc left) info seek k =
      After-if (IsRequest c) info.io_error _ _ (λ _. k)
        (λ _.
          After->>= (λ r. Took c r.1) (IsRequest c) _ _
            (After-map (λ r. Keeps c r.1.conn × IsRead info r.0 r.1) (λ r. Took c r.1) _
              (After-both (λ r. Keeps c r.1.conn) (λ r. IsRead info r.0 r.1) _
                (http_read_raw_stream-Keeps 1 c info k.kept) (http_read_raw_stream-IsRead 1 info))
              (λ r (kept, read). (kept, omega (arith, k.kept.reads, read.answers))))
            (after_read-IsRequest (request_loop date cfg left)
              (λ info' seek' k'.
                request_loop-IsRequest left info' seek' (Took-IsRequest c info' k'))
              (left == 0) seek))

  begin_read-IsRequest : (info : Info) → Keeps c info.conn → IsRequest c (begin_read date cfg info)
  begin_read-IsRequest info k = record {
    kept = notify_conn-Keeps _ refl (
        if_holds (KeepsInfo c) (ltb_ℤ (pos 0) cfg.read_delay)
          {x = set_state read_waiting (set_state read_init info)}
          (notify_conn-Keeps _ refl (notify_conn-Keeps _ refl k)) (notify_conn-Keeps _ refl k));
    took = λ h. absurd (ground arith);
  }

  pub http_read_request-IsRequest :
      (info : Info) → Keeps c info.conn → After (IsRequest c) (http_read_request date cfg info)
  unfolding http_read_request
  http_read_request-IsRequest info k =
      request_loop-IsRequest (read_time_out_of date cfg info.request_count)
        (begin_read date cfg info) (first_seek date cfg) (begin_read-IsRequest info k)
