-- ===== src/QpsServer/Response/Whole.antt =====
-- A response that the network takes whole.
use wander.Base.{
  ℕ, ◌≡◌, ◌≢◌, refl, ◌∙◌, ap, Bool, true, false, List, ◌∷◌, arith, length, take, ◌==◌,
  if◌then◌else◌,
}
use wander.Base.Bytes.{Bytes}
use wander.Base.Int.{pos, ltb_ℤ}
use wander.QpsServer.Event.{
  is_write_body_done, write_done, write_header_done, write_waiting, write_body,
}
use wander.QpsServer.Conn.{WriteAnswer, took_all, Info, Run, done, ◌>>=◌, notify_conn, set_state}
use wander.QpsServer.Stream.{with_writes, transmit, write_loop, http_write_responser}
use wander.QpsServer.Response.{
  Mode, readlonly, short, keepalive, ServerConfig, add_body, add_header, body_written, send_body,
  header_written, send_text, answer, http_send_response,
}

same_length : (n : ℕ) → (n == n) ≡ true
same_length n = ground arith

-- What the write leaves behind.
abbrev wrote : Bytes → List WriteAnswer → Info → Info
wrote text rest info =
    set_state write_done
      (transmit (take (length text) text) (with_writes rest (record info { io_error = false })))

-- One answer is enough.
write_whole :
    (text : Bytes) (t : ℕ) (info : Info) (rest : List WriteAnswer)
    → info.conn.writes ≡ took_all ∷ rest
    → http_write_responser text t info ≡ done (wrote text rest info)
unfolding http_write_responser write_loop
write_whole text t info rest e =
    ap (λ w. write_loop t 0 text w (record info { io_error = false })) e
    ∙ rw (same_length (length text)) refl

-- A call that ends with the whole response sent.
abbrev pub EndsSent : Run Info → Type 0
EndsSent run = (r : Info) × (run ≡ done r) × (is_write_body_done r.state ≡ true)

body_whole :
    (cfg : ServerConfig) (info : Info) (rest : List WriteAnswer)
    → info.conn.writes ≡ took_all ∷ rest
    → EndsSent (send_body cfg info)
unfolding send_body body_written notify_conn
body_whole cfg info rest e = (
  _,
  ap (λ run. run >>= λ written. done (body_written written))
      (write_whole info.response_body_text cfg.net_timeout
        (set_state write_body (if wait then set_state write_waiting info else info)) rest
        (writes_of wait ∙ e)),
  refl,
)
  where
    wait : Bool
    wait = ltb_ℤ (pos 0) cfg.write_delay

    writes_of :
        (b : Bool)
        → (set_state write_body (if b then set_state write_waiting info else info)).conn.writes
          ≡ info.conn.writes
    writes_of true = refl
    writes_of false = refl

text_whole :
    (cfg : ServerConfig) (info : Info) (rest : List WriteAnswer)
    → info.conn.writes ≡ took_all ∷ took_all ∷ rest
    → EndsSent (send_text cfg info)
unfolding send_text header_written notify_conn
text_whole cfg info rest e =
    let (r, runs, sent) =
      body_whole cfg
        (set_state write_header_done (wrote info.response_header_text (took_all ∷ rest) info)) rest
        refl in
    (
      r,
      ap (λ run. run >>= header_written cfg)
            (write_whole info.response_header_text cfg.net_timeout info (took_all ∷ rest) e)
          ∙ runs,
      sent,
    )

answer_whole :
    (date : ℕ → Bytes) (cfg : ServerConfig) (mode : Mode) (info : Info) (rest : List WriteAnswer)
    → mode ≢ readlonly
    → info.conn.writes ≡ took_all ∷ took_all ∷ rest
    → EndsSent (answer date cfg mode info)
unfolding answer add_header
answer_whole date cfg readlonly info rest h e = absurd (h refl)
answer_whole date cfg short info rest h e = text_whole cfg (add_header date short info) rest e
answer_whole date cfg keepalive info rest h e =
    text_whole cfg (add_header date keepalive info) rest e

-- In a mode that answers, two writes that take all send the whole response.
pub http_send_response-whole :
    (date : ℕ → Bytes) (cfg : ServerConfig) (info : Info) (rest : List WriteAnswer)
    → cfg.mode ≢ readlonly
    → info.conn.writes ≡ took_all ∷ took_all ∷ rest
    → EndsSent (http_send_response date cfg info)
unfolding http_send_response add_body
http_send_response-whole date cfg info rest h e =
    answer_whole date cfg cfg.mode (add_body date info) rest h e
