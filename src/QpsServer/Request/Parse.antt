-- ===== src/QpsServer/Request/Parse.antt =====
-- A request whose header ends in the first read, and one whose header breaks off there.
use wander.Base.{
  ℕ, ◌+◌, ◌≤◌, ◌<◌, ◌≡◌, refl, ◌∙◌, sym, ap, true, false, List, [], ◌∷◌, ◌++◌, arith, length, drop,
  some, append_assoc, length-append, All,
}
use wander.Base.Bytes.{Bytes, Lacks, drop-append, newline, unlines}
use wander.QpsServer.Event.{is_pase_done, pase_done, total_conn_request}
use wander.QpsServer.Conn.{
  ReadAnswer, Conn, Info, Run, done, spins, ◌>>=◌, notify_conn, notify, http_connection_init,
}
use wander.QpsServer.Stream.{read_count}
use wander.QpsServer.Response.{ServerConfig}
use wander.QpsServer.Header.{find_end}
use wander.QpsServer.Header.Laws.{is_blank, IsLine, at}
use wander.QpsServer.Header.Shape.{Shape, ended, cut, outcome}
use wander.QpsServer.Header.Outcome.{find_end-outcome}
use wander.QpsServer.Request.{end_fuel, end_round, read_time_out_of, http_read_request}
use wander.QpsServer.Request.FirstLine.{method_of}
use wander.QpsServer.Request.Found.{behind_line, asking, Found, http_read_request-Found}

module _ (l behind : Bytes) (info : Info) (e : info.read_raw_stream ≡ l ++ (newline ∷ behind))
    (unended : is_pase_done info.state ≡ false) where
  abbrev first : Bytes
  first = l ++ newline ∷ []

  pos_eq : length l + 1 ≡ length first
  pos_eq = omega (arith, length-append l (newline ∷ []))

  -- The search behind the first line, by the shape of what is there.
  find_end-behind :
      (x : Shape behind)
      → find_end (end_fuel info) info (behind_line l (length (l ++ (newline ∷ behind))))
        ≡ outcome info (behind_line l (length (l ++ (newline ∷ behind)))) first behind x
  find_end-behind x =
      ap
        (λ p.
          find_end (end_fuel info) info (at (behind_line l (length (l ++ (newline ∷ behind)))) p))
        pos_eq
      ∙ find_end-outcome info (behind_line l (length (l ++ (newline ∷ behind)))) refl unended
          (ap length (sym e)) (end_fuel info) first behind x
          (e ∙ sym (append_assoc l (newline ∷ []) behind))
          (omega (arith, ap length e, length-append l (newline ∷ behind)))

-- What a request that is found leaves behind.
pub record IsParsed (l name head rest more text : Bytes) (later : List ReadAnswer) (count : ℕ)
    (d : Conn) (r : Info) : Type 0 where
  pub state : r.state ≡ pase_done
  pub method : r.method ≡ name
  pub line : r.read_procotol_stream ≡ l
  pub header : r.read_header_stream ≡ head
  pub body : r.read_body_stream ≡ rest
  pub incoming : r.conn.incoming ≡ more
  pub reads : r.conn.reads ≡ later
  pub request_count : r.request_count ≡ count
  pub body_text : r.response_body_text ≡ text
  pub header_text : r.response_header_text ≡ []
  pub sent : r.conn.sent ≡ d.sent
  pub ticks : r.conn.ticks ≡ d.ticks
  pub writes : r.conn.writes ≡ d.writes

module _ (date : ℕ → Bytes) (cfg : ServerConfig) (l method more text : Bytes)
    (later : List ReadAnswer) (count : ℕ) (d : Conn) (ls : List Bytes) (lines : All IsLine ls) where
  Found-IsParsed :
      (blank body : Bytes)
      → Lacks newline blank
      → is_blank blank ≡ true
      → (run : Run Info)
      → Found date cfg l
          (unlines ls ++ (blank ++ (newline ∷ body)))
          more
          method
          text
          later
          count
          d
          run
      → (r : Info) × (run ≡ done r)
        × IsParsed l method (unlines ls ++ blank) body more text later count d r
  unfolding notify_conn
  Found-IsParsed blank body lacks empty run f = (
    notify total_conn_request end,
    f.runs
        ∙ ap (λ x. x >>= end_round date cfg f.next)
            (find_end-behind l behind f.info f.raw f.unended
              (ended ls blank body lines lacks empty refl)),
    record {
      state = refl;
      method = f.named;
      line = f.lined;
      header = header;
      body = refl;
      incoming = f.left;
      reads = f.kept;
      request_count = f.counted;
      body_text = f.bodied;
      header_text = f.headless;
      sent = f.sent;
      ticks = f.clock;
      writes = f.writes;
    },
  )
    where
      behind : Bytes
      behind = unlines ls ++ (blank ++ (newline ∷ body))

      end : Info
      end = record (f.info) {
        state = pase_done;
        read_header_stream = drop (length l + 1) ((l ++ newline ∷ []) ++ (unlines ls ++ blank));
        read_body_stream = body;
      }

      header :
          drop (length l + 1) ((l ++ newline ∷ []) ++ (unlines ls ++ blank)) ≡ unlines ls ++ blank
      header =
          ap (λ n. drop n ((l ++ newline ∷ []) ++ (unlines ls ++ blank)))
            (omega (arith, length-append l (newline ∷ [])))
          ∙ drop-append (l ++ newline ∷ []) (unlines ls ++ blank)

  found-spins :
      (tail : Bytes)
      → Lacks newline tail
      → 0 < length tail
      → (run : Run Info) → Found date cfg l (unlines ls ++ tail) more method text later count d run
      → run ≡ spins
  found-spins tail lacks some_left run f =
      f.runs
      ∙ ap (λ x. x >>= end_round date cfg f.next)
          (find_end-behind l (unlines ls ++ tail) f.info f.raw f.unended
            (cut ls tail lines lacks some_left refl))

  -- What the first read delivers: the first line, which names a method, and `behind`.
  module _ (behind : Bytes) (k : ℕ) (line : IsLine l)
      (names : method_of (l ++ (newline ∷ behind)) ≡ some method)
      (long : 16 ≤ length (l ++ (newline ∷ behind)))
      (whole : read_count k ((l ++ (newline ∷ behind)) ++ more) ≡ length (l ++ (newline ∷ behind)))
      (tries : 0 < read_time_out_of date cfg count) where
    -- A request that the first read delivers: a line of GET or POST, lines of a header, an empty
    -- line and a body, of 16 bytes or more. It is parsed: its parts are the line, the lines of the
    -- header with the empty one, and the body; one answer was taken, and what the client sends
    -- behind it is unread.
    pub http_read_request-IsParsed :
        (blank body : Bytes)
        → Lacks newline blank
        → is_blank blank ≡ true
        → behind ≡ unlines ls ++ (blank ++ (newline ∷ body))
        → (status : ℕ)
        → (r : Info) × (http_read_request date cfg (
              http_connection_init status text
                (asking k later (l ++ (newline ∷ behind)) more d)
                count)
            ≡ done r)
          × IsParsed l method (unlines ls ++ blank) body more text later count d r
    http_read_request-IsParsed blank body lacks empty e status =
        Found-IsParsed blank body lacks empty
          (http_read_request date cfg (
            http_connection_init status text (asking k later (l ++ (newline ∷ behind)) more d)
              count))
          (rw (← e) (
            http_read_request-Found l behind more k later long whole date cfg method line names
              status count text d tries))

    -- A request whose header breaks off in the middle of a line when the first read ends: the
    -- function goes round for ever, whatever else the client sends and the network answers.
    pub http_read_request-spins :
        (tail : Bytes)
        → Lacks newline tail
        → 0 < length tail
        → behind ≡ unlines ls ++ tail
        → (status : ℕ)
        → http_read_request date cfg (
            http_connection_init status text
              (asking k later (l ++ (newline ∷ behind)) more d)
              count)
          ≡ spins
    http_read_request-spins tail lacks some_left e status =
        found-spins tail lacks some_left
          (http_read_request date cfg (
            http_connection_init status text (asking k later (l ++ (newline ∷ behind)) more d)
              count))
          (rw (← e) (
            http_read_request-Found l behind more k later long whole date cfg method line names
              status count text d tries))
