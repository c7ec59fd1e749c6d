-- ===== src/QpsServer/Response/Laws.antt =====
-- The bytes of a response.
use wander.Base.{
  ℕ, ◌+◌, ◌≡◌, ◌↔◌, ◌≢◌, refl, ◌∙◌, sym, ap, Bool, true, [], ◌∷◌, ◌++◌, arith, length,
  if◌then◌else◌, append_assoc, append-nil, All,
}
use wander.Base.Bytes.{Bytes, codes}
use wander.Base.Decimal.{itoa, value, value-itoa, itoa-IsDigit, IsDigit}
use wander.Base.Int.{pos, ltb_ℤ}
use wander.QpsServer.Event.{
  is_write_body_done, is_write_done, write_header_done, write_body, write_waiting,
}
use wander.QpsServer.Conn.{Info, After, After->>=, After-map, After-if, notify_conn, set_state}
use wander.QpsServer.Stream.Laws.{Written, http_write_responser-Written}
use wander.QpsServer.Response.{
  Mode, readlonly, short, keepalive, ServerConfig, crlf, keeps, head_start, head_end, response_head,
  body_tail, add_body, add_header, body_written, send_body, header_written, send_text, answer,
  http_send_response,
}

-- What sending `text` leaves behind: all but `left` was sent, and the state tells whether that
-- is all of it.
pub record IsSent (before : Info) (text left : Bytes) (after : Info) : Type 0 where
  pub whole : after.conn.sent ++ left ≡ before.conn.sent ++ text
  pub tells : (is_write_body_done after.state ≡ true) ↔ (left ≡ [])
  pub kept : after.conn.reads ≡ before.conn.reads
  pub unread : after.conn.incoming ≡ before.conn.incoming
  pub keep : after.keepalive ≡ before.keepalive

abbrev pub Sent : Info → Bytes → Info → Type 0
Sent before text after = (left : Bytes) × IsSent before text left after

body_written-state :
    (info : Info) → is_write_body_done (body_written info).state ≡ is_write_done info.state
unfolding body_written
body_written-state info = ground arith

body_written-conn :
    (info : Info)
    → ((body_written info).conn.sent ≡ info.conn.sent)
      × ((body_written info).conn.reads ≡ info.conn.reads)
      × ((body_written info).conn.incoming ≡ info.conn.incoming)
      × ((body_written info).keepalive ≡ info.keepalive)
unfolding body_written notify_conn
body_written-conn info = ground arith

-- Two infos that differ in what the client does not see.
pub record IsAlike (c d : Info) : Type 0 where
  pub sent : c.conn.sent ≡ d.conn.sent
  pub reads : c.conn.reads ≡ d.conn.reads
  pub incoming : c.conn.incoming ≡ d.conn.incoming
  pub keep : c.keepalive ≡ d.keepalive

body_written-Sent :
    (before start : Info) (text : Bytes) (info : Info)
    → IsAlike start before
    → Written start text info
    → Sent before text (body_written info)
body_written-Sent before start text info same (left, w) =
    let (sent, reads, incoming, keep) = body_written-conn info in
    (
      left,
      record {
        whole = ap (λ s. s ++ left) sent ∙ (w.whole ∙ ap (λ s. s ++ text) same.sent);
        tells = (
          λ h. w.tells.0 (sym (body_written-state info) ∙ h),
          λ h. body_written-state info ∙ w.tells.1 h,
        );
        kept = reads ∙ (w.kept ∙ same.reads);
        unread = incoming ∙ (w.unread ∙ same.incoming);
        keep = keep ∙ (w.keep ∙ same.keep);
      },
    )

waited-IsAlike :
    (b : Bool) (info : Info)
    → IsAlike (set_state write_body (if b then set_state write_waiting info else info)) info
unfolding notify_conn
waited-IsAlike b info = ground arith

send_body-Sent :
    (cfg : ServerConfig) (info : Info)
    → After (Sent info info.response_body_text) (send_body cfg info)
unfolding send_body
send_body-Sent cfg info =
    let start = set_state write_body (if wait then set_state write_waiting info else info) in
    After->>= (Written start info.response_body_text) (Sent info info.response_body_text) _ _
      (http_write_responser-Written info.response_body_text cfg.net_timeout start)
      (λ after w.
        body_written-Sent info start info.response_body_text after (waited-IsAlike wait info) w)
  where
    wait : Bool
    wait = ltb_ℤ (pos 0) cfg.write_delay

append-ne_nil : (xs ys : Bytes) → xs ≢ [] → xs ++ ys ≢ []
append-ne_nil [] ys h e = h refl
append-ne_nil (x ∷ xs) ys h e = cc

-- The second write follows the first.
header_written-Sent :
    (cfg : ServerConfig) (before info : Info) (head : Bytes)
    → Written before head info
    → After (Sent before (head ++ info.response_body_text)) (header_written cfg info)
unfolding header_written notify_conn
header_written-Sent cfg before info head (left, w) =
    After-if (Sent before (head ++ body)) (is_write_done info.state) _ _
      (λ all.
        After-map (Sent header_done body) (Sent before (head ++ body)) _
          (send_body-Sent cfg header_done)
          (λ after (rest, sent). (
            rest,
            record {
              whole =
                  sent.whole
                  ∙ (ap (λ s. s ++ body) (all_sent all) ∙ append_assoc before.conn.sent head body);
              tells = sent.tells;
              kept = sent.kept ∙ w.kept;
              unread = sent.unread ∙ w.unread;
              keep = sent.keep ∙ w.keep;
            },
          )))
      (λ part. (
        left ++ body,
        record {
          whole =
              sym (append_assoc info.conn.sent left body)
              ∙ (ap (λ s. s ++ body) w.whole ∙ append_assoc before.conn.sent head body);
          tells = (
            λ h. absurd (ground arith),
            λ h. absurd (append-ne_nil left body (λ e. ground (arith, w.tells.1 e)) h),
          );
          kept = w.kept;
          unread = w.unread;
          keep = w.keep;
        },
      ))
  where
    body : Bytes
    body = info.response_body_text

    header_done : Info
    header_done = set_state write_header_done info

    all_sent : is_write_done info.state ≡ true → info.conn.sent ≡ before.conn.sent ++ head
    all_sent h =
        sym (append-nil info.conn.sent)
        ∙ (ap (λ l. info.conn.sent ++ l) (sym (w.tells.0 h)) ∙ w.whole)

-- The bytes of a response to `info`: the header, and the body, whose length it names.
abbrev pub body_of : (ℕ → Bytes) → Info → Bytes
body_of date info = info.response_body_text ++ body_tail (date info.conn.ticks) info.request_count

abbrev pub response_of : (ℕ → Bytes) → Mode → Info → Bytes
response_of date mode info =
    (info.response_header_text
      ++ response_head mode info.response_status_code (length (body_of date info))
          (date (info.conn.ticks + 1)))
    ++ body_of date info

-- What a response leaves behind.
abbrev pub Responded : (ℕ → Bytes) → Mode → Info → Info → Type 0
Responded date mode before after =
    (left : Bytes) × (after.conn.sent ++ left ≡ before.conn.sent ++ response_of date mode before)
    × ((is_write_body_done after.state ≡ true) ↔ (left ≡ []))
    × (after.keepalive ≡ keeps mode before.response_status_code)
    × (after.conn.reads ≡ before.conn.reads)
    × (after.conn.incoming ≡ before.conn.incoming)

send_text-Responded :
    (date : ℕ → Bytes) (cfg : ServerConfig) (mode : Mode) (info : Info)
    → After (Responded date mode info) (send_text cfg (add_header date mode (add_body date info)))
unfolding send_text add_header add_body
send_text-Responded date cfg mode info =
    After->>= (Written start start.response_header_text) (Responded date mode info) _ _
      (http_write_responser-Written start.response_header_text cfg.net_timeout start)
      (λ written w.
        After-map (Sent start (start.response_header_text ++ written.response_body_text))
          (Responded date mode info) _
          (header_written-Sent cfg start written start.response_header_text w)
          (λ after (left, s). (
            left,
            s.whole ∙ ap (λ body. start.conn.sent ++ (start.response_header_text ++ body)) w.1.body,
            s.tells,
            s.keep,
            s.kept,
            s.unread,
          )))
  where
    start : Info
    start = add_header date mode (add_body date info)

answer-Responded :
    (date : ℕ → Bytes) (cfg : ServerConfig) (mode : Mode) (info : Info)
    → mode ≢ readlonly
    → After (Responded date mode info) (answer date cfg mode (add_body date info))
unfolding answer
answer-Responded date cfg readlonly info h = absurd (h refl)
answer-Responded date cfg short info h = send_text-Responded date cfg short info
answer-Responded date cfg keepalive info h = send_text-Responded date cfg keepalive info

-- In a mode that answers, when the call returns: the client got the header and the body of the
-- response, in this order and up to a point, and the state is WriteBodyDone exactly when it got
-- all of it. The connection is kept exactly when the header says so, and nothing was read.
pub http_send_response-Responded :
    (date : ℕ → Bytes) (cfg : ServerConfig) (info : Info)
    → cfg.mode ≢ readlonly
    → After (Responded date cfg.mode info) (http_send_response date cfg info)
unfolding http_send_response
http_send_response-Responded date cfg info h = answer-Responded date cfg cfg.mode info h

-- The header names the length of the body in decimal, on a line of its own.
pub response_head-length :
    (mode : Mode) (status body_length : ℕ) (date : Bytes)
    → (digits : Bytes) × (response_head mode status body_length date
        ≡ head_start mode status
          ++ ((codes "Content-Length: " ++ (digits ++ crlf)) ++ head_end date))
      × All IsDigit digits
      × (value 0 digits ≡ body_length)
unfolding response_head
response_head-length mode status body_length date =
    (itoa body_length, refl, itoa-IsDigit body_length, value-itoa body_length)
