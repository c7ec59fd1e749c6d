-- ===== src/QpsServer/Response/Keeps.antt =====
-- Sending a response neither closes the connection nor says so.
use wander.Base.{ℕ, refl, arith}
use wander.Base.Bytes.{Bytes}
use wander.Base.Int.{pos, ltb_ℤ}
use wander.QpsServer.Event.{is_write_done, is_write_time_out, write_waiting, write_header_done}
use wander.QpsServer.Conn.{Conn, Info, After, After->>=, After-if, set_state}
use wander.QpsServer.Stream.Keeps.{
  Keeps, KeepsInfo, NotLast, if_holds, notify_conn-Keeps, http_write_responser-Keeps,
}
use wander.QpsServer.Response.{
  Mode, readlonly, short, keepalive, ServerConfig, add_body, add_header, body_written, send_body,
  header_written, send_text, answer, http_send_response,
}

body_written-Keeps : (c : Conn) (info : Info) → Keeps c info.conn → KeepsInfo c (body_written info)
unfolding body_written
body_written-Keeps c info k =
    if_holds (KeepsInfo c) (is_write_done info.state)
      (notify_conn-Keeps _ refl (notify_conn-Keeps _ refl k))
      (notify_conn-Keeps _ (if_holds NotLast (is_write_time_out info.state) refl refl) k)

send_body-Keeps :
    (cfg : ServerConfig) (c : Conn) (info : Info)
    → Keeps c info.conn
    → After (KeepsInfo c) (send_body cfg info)
unfolding send_body
send_body-Keeps cfg c info k =
    After->>= (KeepsInfo c) (KeepsInfo c) _ _
      (http_write_responser-Keeps info.response_body_text cfg.net_timeout c _ (
        notify_conn-Keeps _ refl (
          if_holds (KeepsInfo c) (ltb_ℤ (pos 0) cfg.write_delay) {x = set_state write_waiting info}
            (notify_conn-Keeps _ refl k) k)))
      (body_written-Keeps c)

header_written-Keeps :
    (cfg : ServerConfig) (c : Conn) (info : Info)
    → Keeps c info.conn
    → After (KeepsInfo c) (header_written cfg info)
unfolding header_written
header_written-Keeps cfg c info k =
    After-if (KeepsInfo c) (is_write_done info.state) _ _
      (λ _. send_body-Keeps cfg c (set_state write_header_done info) (notify_conn-Keeps _ refl k))
      (λ _. notify_conn-Keeps _ (if_holds NotLast (is_write_time_out info.state) refl refl) k)

send_text-Keeps :
    (cfg : ServerConfig) (c : Conn) (info : Info)
    → Keeps c info.conn
    → After (KeepsInfo c) (send_text cfg info)
unfolding send_text
send_text-Keeps cfg c info k =
    After->>= (KeepsInfo c) (KeepsInfo c) _ _
      (http_write_responser-Keeps info.response_header_text cfg.net_timeout c info k)
      (header_written-Keeps cfg c)

add_body-Keeps :
    (date : ℕ → Bytes) (c : Conn) (info : Info)
    → Keeps c info.conn
    → KeepsInfo c (add_body date info)
unfolding add_body
add_body-Keeps date c info k = omega arith

add_header-Keeps :
    (date : ℕ → Bytes) (mode : Mode) (c : Conn) (info : Info)
    → Keeps c info.conn
    → KeepsInfo c (add_header date mode info)
unfolding add_header
add_header-Keeps date mode c info k = omega arith

answer-Keeps :
    (date : ℕ → Bytes) (cfg : ServerConfig) (mode : Mode) (c : Conn) (info : Info)
    → Keeps c info.conn
    → After (KeepsInfo c) (answer date cfg mode info)
unfolding answer
answer-Keeps date cfg readlonly c info k = k
answer-Keeps date cfg short c info k =
    send_text-Keeps cfg c (add_header date short info) (add_header-Keeps date short c info k)
answer-Keeps date cfg keepalive c info k =
    send_text-Keeps cfg c (add_header date keepalive info)
      (add_header-Keeps date keepalive c info k)

pub http_send_response-Keeps :
    (date : ℕ → Bytes) (cfg : ServerConfig) (c : Conn) (info : Info)
    → Keeps c info.conn
    → After (KeepsInfo c) (http_send_response date cfg info)
unfolding http_send_response
http_send_response-Keeps date cfg c info k =
    answer-Keeps date cfg cfg.mode c (add_body date info) (add_body-Keeps date c info k)
