-- ===== src/QpsServer/Handler/Leak.antt =====
-- The end of a connection in the mode readlonly.
use mathlib.Core.Path.{subst}
use wander.Base.{
  if_case, ℕ, zero, suc, ◌+◌, ◌<◌, ◌≡◌, ◌≢◌, refl, ◌∙◌, sym, ap, true, false, List, [], ◌∷◌, ◌++◌,
  map, arith, length, drop, ltb, ◌==◌, if◌then◌else◌,
}
use wander.Base.Bytes.{Bytes}
use wander.QpsServer.Event.{
  is_read_done, is_pase_done, total_conn_keepalive, read_body_error, read_done, read_error,
}
use wander.QpsServer.Conn.{
  ReadAnswer, got, read_broken, Conn, Info, Run, done, After, ◌>>=◌, notify_conn, notify, set_state,
}
use wander.QpsServer.Stream.{
  read_count, with_reads, fail_io, receive, read_loop, http_read_raw_stream,
}
use wander.QpsServer.Stream.Keeps.{
  destroyed_count, Keeps, Keeps-refl, KeepsInfo, notify_conn-Keeps, http_read_raw_stream-Keeps,
}
use wander.QpsServer.Status.{status_ok}
use wander.QpsServer.Response.{readlonly, ServerConfig}
use wander.QpsServer.Handler.{drain, serve_mode, serve_request, after_request}

-- The client still has something to send at each of the reads.
abbrev pub Delivers : List ℕ → Bytes → Type 0
Delivers [] s = Unit
Delivers (k ∷ ks) s = (s ≢ []) × Delivers ks (drop (read_count k s) s)

-- What the reads leave of it.
abbrev pub left_by : List ℕ → Bytes → Bytes
left_by [] s = s
left_by (k ∷ ks) s = left_by ks (drop (read_count k s) s)

-- What the network answers: reads that deliver bytes, and one that fails.
abbrev pub answers : List ℕ → List ReadAnswer → List ReadAnswer
answers ks later = map got ks ++ read_broken ∷ later

count_pos : (k : ℕ) (s : Bytes) → s ≢ [] → (read_count k s == 0) ≡ false
count_pos k [] h = absurd (h refl)
count_pos k (c ∷ s) h = ground arith

abbrev took : ℕ → List ReadAnswer → Info → Info
took k rest info =
    set_state read_done (
      receive (read_count k info.conn.incoming)
        (with_reads rest (record info { io_error = false })))

read_good :
    (k : ℕ) (rest : List ReadAnswer) (info : Info)
    → info.conn.reads ≡ got k ∷ rest
    → info.conn.incoming ≢ []
    → http_read_raw_stream 0 info ≡ done (read_count k info.conn.incoming, took k rest info)
unfolding http_read_raw_stream read_loop
read_good k rest info e ne =
    ap (λ rs. read_loop 0 0 rs (record info { io_error = false })) e
    ∙ ap
        (λ b.
          if b
          then done (0, fail_io read_error (with_reads rest (record info { io_error = false })))
          else done (read_count k info.conn.incoming, took k rest info))
        (count_pos k info.conn.incoming ne)

abbrev broke : List ReadAnswer → Info → Info
broke rest info = fail_io read_error (with_reads rest (record info { io_error = false }))

read_bad :
    (rest : List ReadAnswer) (info : Info)
    → info.conn.reads ≡ read_broken ∷ rest
    → http_read_raw_stream 0 info ≡ done (0, broke rest info)
unfolding http_read_raw_stream read_loop
read_bad rest info e = ap (λ rs. read_loop 0 0 rs (record info { io_error = false })) e

-- The connection as it was, but for what was read.
pub record IsLeaked (c : Conn) (rest : Bytes) (more : List ReadAnswer) (d : Conn) : Type 0 where
  pub closed : d.closed ≡ c.closed
  pub untold : destroyed_count d.events ≡ destroyed_count c.events
  pub unread : d.incoming ≡ rest
  pub later : d.reads ≡ more

-- A round of the loop, with what the read returns.
abbrev drained : (Info → Run Conn) → Run (ℕ × Info) → Run Conn
drained next run = run >>= λ r.
    if is_read_done r.1.state then next r.1 else done (set_state read_body_error r.1).conn

event_Keeps :
    (c : Conn) (info : Info) (n : ℕ) (r : Info)
    → http_read_raw_stream 0 info ≡ done (n, r)
    → Keeps c info.conn
    → Keeps c r.conn
event_Keeps c info n r e k =
    subst (After (λ x. KeepsInfo c x.1)) e (http_read_raw_stream-Keeps 0 c info k)

drain-IsLeaked :
    (fuel : ℕ) (ks : List ℕ) (later : List ReadAnswer) (c : Conn) (info : Info)
    → Keeps c info.conn
    → info.conn.reads ≡ answers ks later
    → Delivers ks info.conn.incoming
    → length ks < fuel
    → (d : Conn) × (drain fuel info ≡ done d) × IsLeaked c (left_by ks info.conn.incoming) later d
unfolding drain notify_conn
drain-IsLeaked zero ks later c info k e h lt = absurd (omega arith)
drain-IsLeaked (suc fuel) [] later c info k e h lt =
    let runs = read_bad later info e in
    let kept =
      notify_conn-Keeps read_body_error refl (event_Keeps c info 0 (broke later info) runs k) in
    (
      (set_state read_body_error (broke later info)).conn,
      ap (drained (drain fuel)) runs,
      record { closed = kept.closed; untold = kept.destroyed; unread = refl; later = refl },
    )
drain-IsLeaked (suc fuel) (j ∷ ks) later c info k e (ne, h) lt =
    let rest = answers ks later in
    let runs = read_good j rest info e ne in
    let kept = event_Keeps c info (read_count j info.conn.incoming) (took j rest info) runs k in
    let (d, goes, leaked) =
      drain-IsLeaked fuel ks later c (took j rest info) kept refl h (omega (arith, lt)) in
    (d, ap (drained (drain fuel)) runs ∙ goes, leaked)

-- In the mode readlonly, behind a request that was read, and when the network answers the reads with
-- bytes as long as it is told to, and then with an error: the handler takes exactly these answers,
-- and every byte that comes with them, and returns; it has not closed the connection, and no event
-- says that it is destroyed.
pub readlonly_leaks :
    (date : ℕ → Bytes) (cfg : ServerConfig) (text : Bytes) (next : Conn → Run Conn) (read : Info)
    (ks : List ℕ) (later : List ReadAnswer)
    → cfg.mode ≡ readlonly
    → is_pase_done read.state ≡ true
    → read.conn.reads ≡ answers ks later
    → Delivers ks read.conn.incoming
    → (d : Conn) × (after_request date cfg text next read ≡ done d)
      × IsLeaked read.conn (left_by ks read.conn.incoming) later d
unfolding after_request serve_request serve_mode
readlonly_leaks date cfg text next read ks later e h reads delivers =
    rw (h, e)
      (if_case Leaks (ltb 1 read.request_count) {x = notify total_conn_keepalive read} {y = read}
        (λ _.
          leaks (notify total_conn_keepalive read) (notify_conn-Keeps _ refl (Keeps-refl read.conn))
            (unfold notify_conn in reads) (unfold notify_conn in refl))
        (λ _. leaks read (Keeps-refl read.conn) reads refl))
  where
    Leaks : Info → Type 0
    Leaks info =
        (d : Conn) × (drain (suc (length info.conn.reads))
            (record info { response_status_code = status_ok })
          ≡ done d)
        × IsLeaked read.conn (left_by ks read.conn.incoming) later d

    long_enough : length (answers ks later) ≡ length ks + suc (length later)
    long_enough = count ks
      where
        count : (js : List ℕ) → length (answers js later) ≡ length js + suc (length later)
        count [] = omega arith
        count (j ∷ js) = omega (arith, count js)

    leaks :
        (info : Info)
        → Keeps read.conn info.conn
        → info.conn.reads ≡ answers ks later
        → info.conn.incoming ≡ read.conn.incoming
        → Leaks info
    leaks info k r i =
        let (d, runs, leaked) =
          drain-IsLeaked (suc (length info.conn.reads)) ks later read.conn
            (record info { response_status_code = status_ok }) k r
            (subst (Delivers ks) (sym i) delivers) (omega (arith, ap length r, long_enough)) in
        (d, runs, subst (λ s. IsLeaked read.conn (left_by ks s) later d) i leaked)
