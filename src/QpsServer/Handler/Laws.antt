-- ===== src/QpsServer/Handler/Laws.antt =====
-- How a connection ends.
use wander.Base.{ℕ, zero, suc, ◌+◌, ◌<◌, ◌≡◌, ◌≢◌, refl, true, arith, length, ltb, ◌==◌}
use wander.Base.Bytes.{Bytes}
use wander.QpsServer.Event.{event_number, is_pase_done, read_init, total_conn_keepalive, destroyed}
use wander.QpsServer.Status.{status_service_unavailable}
use wander.QpsServer.Conn.{
  Conn, Info, Run, After, After->>=, After-map, After-if, notify_conn, notify, http_connection_init,
}
use wander.QpsServer.Stream.Keeps.{
  destroyed_count, destroyed_count-append, Keeps, Keeps-refl, KeepsInfo, if_holds,
  notify_conn-Keeps,
}
use wander.QpsServer.Response.{Mode, readlonly, short, keepalive, ServerConfig}
use wander.QpsServer.Response.Keeps.{http_send_response-Keeps}
use wander.QpsServer.Request.Keeps.{IsRequest}
use wander.QpsServer.Request.Closing.{http_read_request-IsRequest}
use wander.QpsServer.Handler.{
  say_bye, serve_busy, continue_with, respond, serve_mode, serve_request, after_request,
  keepalive_loop, http_connection_handler,
}

-- The connection is closed once more, and one more event says so.
pub record IsClosedOnce (c d : Conn) : Type 0 where
  pub closed : d.closed ≡ c.closed + 1
  pub told : destroyed_count d.events ≡ destroyed_count c.events + 1

-- What came before does not count.
later : {b c d : Conn} → Keeps b c → IsClosedOnce c d → IsClosedOnce b d
later k e = omega arith

say_bye-IsClosedOnce : (c : Conn) (info : Info) → Keeps c info.conn → IsClosedOnce c (say_bye info)
unfolding notify_conn
say_bye-IsClosedOnce c info k = ground (arith, destroyed_count-append info.conn.events destroyed)

init-Keeps :
    (status : ℕ) (text : Bytes) (c : Conn) (count : ℕ)
    → KeepsInfo c (http_connection_init status text c count)
init-Keeps status text c count = notify_conn-Keeps _ refl (Keeps-refl c)

module _ (date : ℕ → Bytes) (cfg : ServerConfig) (text : Bytes) where
  serve_busy-IsClosedOnce :
      (status : ℕ) (c : Conn) → After (IsClosedOnce c) (serve_busy date cfg text status c)
  unfolding serve_busy
  serve_busy-IsClosedOnce status c =
      After->>= (IsRequest c) (IsClosedOnce c) _ _
        (http_read_request-IsRequest date cfg c _ (init-Keeps status text c 1))
        (λ read k.
          After->>= (KeepsInfo c) (IsClosedOnce c) _ _
            (if_holds (After (KeepsInfo c)) (is_pase_done read.state)
              (http_send_response-Keeps date cfg c read k.kept) k.kept)
            (say_bye-IsClosedOnce c))

  respond-IsClosedOnce :
      (c : Conn) (next : Conn → Run Conn) (info : Info)
      → ((d : Conn) → Keeps c d → After (IsClosedOnce c) (next d))
      → Keeps c info.conn
      → After (IsClosedOnce c) (respond date cfg text next info)
  unfolding respond
  respond-IsClosedOnce c next info goes k =
      After->>= (KeepsInfo c) (IsClosedOnce c) _ _ (http_send_response-Keeps date cfg c info k)
        (λ sent k'.
          if_holds (λ r. After (IsClosedOnce c) (continue_with date cfg text next r)) sent.keepalive
            (goes sent.conn k') (say_bye-IsClosedOnce c sent k'))

  serve_mode-IsClosedOnce :
      (mode : Mode) (c : Conn) (next : Conn → Run Conn) (info : Info)
      → mode ≢ readlonly
      → ((d : Conn) → Keeps c d → After (IsClosedOnce c) (next d))
      → Keeps c info.conn
      → After (IsClosedOnce c) (serve_mode date cfg text mode next info)
  unfolding serve_mode
  serve_mode-IsClosedOnce readlonly c next info h goes k = absurd (h refl)
  serve_mode-IsClosedOnce short c next info h goes k = respond-IsClosedOnce c next info goes k
  serve_mode-IsClosedOnce keepalive c next info h goes k = respond-IsClosedOnce c next info goes k

  after_request-IsClosedOnce :
      (next : Conn → Run Conn) (read : Info)
      → cfg.mode ≢ readlonly
      → (is_pase_done read.state ≡ true
          → (d : Conn) → Keeps read.conn d
          → After (IsClosedOnce read.conn) (next d))
      → After (IsClosedOnce read.conn) (after_request date cfg text next read)
  unfolding after_request serve_request
  after_request-IsClosedOnce next read h goes =
      After-if (IsClosedOnce read.conn) (is_pase_done read.state) _ _
        (λ ok. serve_mode-IsClosedOnce cfg.mode read.conn next _ h (goes ok) (
          if_holds (KeepsInfo read.conn) (ltb 1 read.request_count)
            {x = notify total_conn_keepalive read} (notify_conn-Keeps _ refl (Keeps-refl read.conn))
            (Keeps-refl read.conn)))
        (λ _. say_bye-IsClosedOnce read.conn read (Keeps-refl read.conn))

  keepalive_loop-IsClosedOnce :
      (fuel count : ℕ) (c : Conn)
      → cfg.mode ≢ readlonly
      → length c.reads < fuel
      → After (IsClosedOnce c) (keepalive_loop date cfg text fuel count c)
  unfolding keepalive_loop
  keepalive_loop-IsClosedOnce zero count c h lt = absurd (omega arith)
  keepalive_loop-IsClosedOnce (suc fuel) count c h lt =
      After->>= (IsRequest c) (IsClosedOnce c) _ _
        (http_read_request-IsRequest date cfg c _
          (init-Keeps (event_number read_init) text c (suc count)))
        (λ read k.
          After-map (IsClosedOnce read.conn) (IsClosedOnce c) _
            (after_request-IsClosedOnce (keepalive_loop date cfg text fuel (suc count)) read h
              (λ ok d kd.
                After-map (IsClosedOnce d) (IsClosedOnce read.conn) _
                  (keepalive_loop-IsClosedOnce fuel (suc count) d h
                    (omega (arith, k.took ok, kd.reads)))
                  (λ _ e. later kd e)))
            (λ _ e. later k.kept e))

  -- In the modes short and keepalive, with any status and whatever the network answers: the loop
  -- over the requests never goes on when no answer is left, so its fuel is enough; and when the
  -- handler returns it has closed the connection once and said so once.
  pub handler-IsClosedOnce :
      (status : ℕ) (c : Conn)
      → cfg.mode ≢ readlonly
      → After (IsClosedOnce c) (http_connection_handler date cfg text status c)
  unfolding http_connection_handler
  handler-IsClosedOnce status c h =
      if_holds (After (IsClosedOnce c)) (status == status_service_unavailable)
        (serve_busy-IsClosedOnce status c)
        (keepalive_loop-IsClosedOnce (suc (length c.reads)) 0 c h (omega arith))
