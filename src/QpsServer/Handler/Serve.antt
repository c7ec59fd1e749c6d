-- ===== src/QpsServer/Handler/Serve.antt =====
-- A connection of the mode short, from its first byte to its end.
use mathlib.Core.Path.{subst}
use wander.Base.{
  ℕ, suc, ◌+◌, ◌≤◌, ◌<◌, ◌≡◌, ◌≢◌, refl, ◌∙◌, sym, ap, Bool, true, false, List, [], ◌∷◌, ◌++◌,
  arith, length, ltb, ◌==◌, if◌then◌else◌, All, some, append-nil,
}
use wander.Base.Bytes.{Bytes, Lacks, newline, unlines}
use wander.QpsServer.Event.{
  event_number, is_pase_done, pase_done, read_init, total_conn_keepalive, destroyed,
}
use wander.QpsServer.Status.{status_ok, status_service_unavailable}
use wander.QpsServer.Conn.{
  ReadAnswer, WriteAnswer, took_all, Conn, Info, Run, done, After, ◌>>=◌, notify_conn, notify,
  set_state, close_conn, http_connection_keepalive,
}
use wander.QpsServer.Stream.{read_count}
use wander.QpsServer.Response.{readlonly, short, ServerConfig, keeps, response_head, body_tail}
use wander.QpsServer.Response.Laws.{response_of, Responded, http_send_response-Responded}
use wander.QpsServer.Response.Whole.{http_send_response-whole}
use wander.QpsServer.Header.Laws.{is_blank, IsLine}
use wander.QpsServer.Request.FirstLine.{method_of}
use wander.QpsServer.Request.Found.{asking}
use wander.QpsServer.Request.Parse.{http_read_request-IsParsed}
use wander.QpsServer.Handler.{
  say_bye, continue_with, respond, serve_mode, serve_request, after_request, keepalive_loop,
  http_connection_handler,
}
use wander.QpsServer.Handler.Laws.{IsClosedOnce, handler-IsClosedOnce}

-- The body of the first response on a connection, and all its bytes.
abbrev pub first_body : (ℕ → Bytes) → Bytes → Conn → Bytes
first_body date text d = text ++ body_tail (date d.ticks) 1

abbrev pub first_reply : (ℕ → Bytes) → Bytes → Conn → Bytes
first_reply date text d =
    response_head short status_ok (length (first_body date text d)) (date (d.ticks + 1))
    ++ first_body date text d

if_false : {A : Type 0} (b : Bool) (x y : A) → b ≡ false → (if b then x else y) ≡ y
if_false true x y e = absurd (ground arith)
if_false false x y e = refl

module _ (date : ℕ → Bytes) (cfg : ServerConfig) (text : Bytes) (answers : cfg.mode ≡ short) where
  closes :
      (next : Conn → Run Conn) (sent : Info)
      → sent.keepalive ≡ false
      → continue_with date cfg text next (http_connection_keepalive sent)
        ≡ done (notify_conn destroyed (close_conn sent.conn))
  closes next sent e =
      ap
        (λ b. continue_with date cfg text next (
          if b
          then (sent, true)
          else (set_state destroyed (record sent { conn = close_conn sent.conn }), false)))
        e

  -- A call that ends with the response sent, and nothing else.
  abbrev Replies : Conn → Run Conn → Type 0
  Replies d run = (c : Conn) × (run ≡ done c) × (c.sent ≡ d.sent ++ first_reply date text d)

  respond-Replies :
      (next : Conn → Run Conn) (d : Conn) (info : Info) (rest : List WriteAnswer)
      → info.response_status_code ≡ status_ok
      → info.response_body_text ≡ text
      → info.response_header_text ≡ []
      → info.request_count ≡ 1
      → info.conn.sent ≡ d.sent
      → info.conn.ticks ≡ d.ticks
      → info.conn.writes ≡ took_all ∷ took_all ∷ rest
      → Replies d (respond date cfg text next info)
  unfolding respond notify_conn
  respond-Replies next d info rest st b h n s t w =
      let (sent, runs, all) = http_send_response-whole date cfg info rest speaks w in
      let (left, whole, tells, keep, _, _) =
        subst (After (Responded date cfg.mode info)) runs
          (http_send_response-Responded date cfg info speaks) in
      (
        notify_conn destroyed (close_conn sent.conn),
        ap (λ run. run >>= λ x. continue_with date cfg text next (http_connection_keepalive x)) runs
            ∙ closes next sent (keep ∙ ap (λ m. keeps m info.response_status_code) answers),
        sym (append-nil sent.conn.sent)
            ∙ (ap (λ l. sent.conn.sent ++ l) (sym (tells.0 all)) ∙ (whole ∙ bytes)),
      )
    where
      speaks : cfg.mode ≢ readlonly
      speaks e = cc (answers, e)

      bytes : info.conn.sent ++ response_of date cfg.mode info ≡ d.sent ++ first_reply date text d
      bytes = λ i.
          let body = b i ++ body_tail (date (t i)) (n i) in
          s i ++ ((h i ++ response_head (answers i) (st i) (length body) (date (t i + 1))) ++ body)

  after_request-respond :
      (next : Conn → Run Conn) (r : Info)
      → r.state ≡ pase_done
      → r.request_count ≡ 1
      → after_request date cfg text next r
        ≡ respond date cfg text next (record r { response_status_code = status_ok })
  unfolding after_request serve_request serve_mode
  after_request-respond next r s n =
      ap (λ e. if is_pase_done e then served r.request_count else done (say_bye r)) s
      ∙ (ap (λ k. served k) n
          ∙ ap
              (λ m. serve_mode date cfg text m next (record r { response_status_code = status_ok }))
              answers)
    where
      served : ℕ → Run Conn
      served k =
          serve_mode date cfg text cfg.mode next
            (record (if ltb 1 k then notify total_conn_keepalive r else r) {
              response_status_code = status_ok;
            })

  module _ (l behind more method : Bytes) (k : ℕ) (later : List ReadAnswer) (d : Conn)
      (ls : List Bytes) (blank body : Bytes) (line : IsLine l) (lines : All IsLine ls)
      (lacks : Lacks newline blank) (empty : is_blank blank ≡ true)
      (e : behind ≡ unlines ls ++ (blank ++ (newline ∷ body)))
      (names : method_of (l ++ (newline ∷ behind)) ≡ some method)
      (long : 16 ≤ length (l ++ (newline ∷ behind)))
      (whole : read_count k ((l ++ (newline ∷ behind)) ++ more) ≡ length (l ++ (newline ∷ behind)))
      (tries : 0 < cfg.net_timeout) (rest : List WriteAnswer)
      (takes : d.writes ≡ took_all ∷ took_all ∷ rest) where
    abbrev asked : Conn
    asked = asking k later (l ++ (newline ∷ behind)) more d

    keepalive_loop-Replies :
        (fuel : ℕ) → Replies d (keepalive_loop date cfg text (suc fuel) 0 asked)
    unfolding keepalive_loop
    keepalive_loop-Replies fuel =
        let (r, runs, p) =
          http_read_request-IsParsed date cfg l method more text later 1 d ls lines behind k line
            names long whole tries blank body lacks empty e (event_number read_init) in
        let (c, ends, sent) =
          respond-Replies (keepalive_loop date cfg text fuel 1) d
            (record r { response_status_code = status_ok }) rest refl p.body_text p.header_text
            p.request_count p.sent p.ticks (p.writes ∙ takes) in
        (
          c,
          ap (λ run. run >>= after_request date cfg text (keepalive_loop date cfg text fuel 1)) runs
              ∙ (after_request-respond (keepalive_loop date cfg text fuel 1) r p.state
                    p.request_count
                  ∙ ends),
          sent,
        )

    -- In the mode short, on a connection whose first read delivers a whole request of GET or POST,
    -- of 16 bytes or more, and whose client takes what is written: the handler returns, the client
    -- was sent the header and the body of one response 200 and nothing else, and the connection is
    -- closed once.
    pub handler-Replies :
        (status : ℕ)
        → (status == status_service_unavailable) ≡ false
        → (c : Conn) × (http_connection_handler date cfg text status asked ≡ done c)
          × (c.sent ≡ d.sent ++ first_reply date text d)
          × IsClosedOnce asked c
    unfolding http_connection_handler
    handler-Replies status ok =
        let (c, ends, sent) = keepalive_loop-Replies (length asked.reads) in
        let run : http_connection_handler date cfg text status asked ≡ done c = rw ok ends in
        (
          c,
          run,
          sent,
          subst (After (IsClosedOnce asked)) run
              (handler-IsClosedOnce date cfg text status asked (λ silent. cc (answers, silent))),
        )
