-- ===== src/QpsServer/Request/Keeps.antt =====
-- Reading a request neither closes the connection nor says so; a request that is read takes an answer.
use wander.Base.{
  ℕ, zero, suc, ◌+◌, ◌&&◌, ◌||◌, ◌<◌, ◌≡◌, refl, Bool, true, length, drop, ltb, if◌then◌else◌,
  Option, none, some,
}
use wander.Base.Bytes.{Bytes, codes, has_prefix, index_byte, newline}
use wander.QpsServer.Event.{Event, is_pase_done, is_read_done, is_read_time_out}
use wander.QpsServer.Conn.{Conn, Info, After, After-if, notify_conn, notify}
use wander.QpsServer.Stream.Keeps.{Keeps, NotLast, if_holds, notify_conn-Keeps}
use wander.QpsServer.Header.{
  Seek, Search, proceed, reject, at_newline, is_empty_line, is_open, end_header, find_method,
  find_end,
}
use wander.QpsServer.Request.{Checked, give_up, go_on, check_read}

-- What `httpReadRequest` does to the connection: a request that was read took an answer.
pub record IsRequest (c : Conn) (info : Info) : Type 0 where
  pub kept : Keeps c info.conn
  pub took : is_pase_done info.state ≡ true → length info.conn.reads < length c.reads

-- The search for the method leaves the connection alone, and the state.
abbrev pub Searched : Info → Search → Type 0
Searched info (proceed info' seek) = (info'.conn ≡ info.conn) × (info'.state ≡ info.state)
Searched info (reject status info') = info'.conn ≡ info.conn

at_newline-Searched : (n : ℕ) (info : Info) (seek : Seek) → Searched info (at_newline n info seek)
at_newline-Searched n info seek =
    if_holds (Searched info) (is_empty_line rest n)
      (if_holds (Searched info) (ltb 14 seek.pos) refl (refl, refl))
      (if_holds (Searched info) (ltb seek.total 16) refl (
        if_holds (Searched info) (has_prefix rest (codes "GET /")) (refl, refl)
          (if_holds (Searched info) (has_prefix rest (codes "POST /")) (refl, refl) refl)))
  where
    rest : Bytes
    rest = drop seek.pos info.read_raw_stream

pub find_method-Searched : (info : Info) (seek : Seek) → Searched info (find_method info seek)
unfolding find_method
find_method-Searched info seek =
    if_holds (Searched info) seek.method_ok (refl, refl)
      (at_index (index_byte (drop seek.pos info.read_raw_stream) newline))
  where
    at_index :
        (i : Option ℕ)
        → Searched info (elim i [
          | none ↦ proceed info seek
          | some return_pos ↦ at_newline return_pos info seek
        ])
    at_index none = (refl, refl)
    at_index (some return_pos) = at_newline-Searched return_pos info seek

pub find_end-conn :
    (f : ℕ) (c : Conn) (info : Info) (seek : Seek)
    → info.conn ≡ c
    → After (λ r. r.0.conn ≡ c) (find_end f info seek)
unfolding find_end
find_end-conn zero c info seek e = tt
find_end-conn (suc f) c info seek e =
    After-if _ (is_open info seek) _ _
      (λ _.
        at_index (index_byte (drop seek.pos info.read_raw_stream) newline)
          (λ info' seek' e'. find_end-conn f c info' seek' e'))
      (λ _. e)
  where
    at_index :
        (i : Option ℕ)
        → ((info' : Info) (seek' : Seek)
            → info'.conn ≡ c
            → After (λ r. r.0.conn ≡ c) (find_end f info' seek'))
        → After
            (λ r. r.0.conn ≡ c)
            (elim i [
              | none ↦ find_end f info seek
              | some return_pos ↦
                  if is_empty_line (drop seek.pos info.read_raw_stream) return_pos
                  then find_end f (end_header return_pos info seek) seek
                  else find_end f info (record seek { pos = seek.pos + return_pos + 1 })
            ])
    at_index none again = again info seek e
    at_index (some return_pos) again =
        if_holds (After (λ r. r.0.conn ≡ c))
          (is_empty_line (drop seek.pos info.read_raw_stream) return_pos)
          (again (end_header return_pos info seek) seek e)
          (again info (record seek { pos = seek.pos + return_pos + 1 }) e)

-- An answer was taken.
abbrev pub Took : Conn → Info → Type 0
Took c info = Keeps c info.conn × (length info.conn.reads < length c.reads)

pub Took-IsRequest : (c : Conn) (info : Info) → Took c info → IsRequest c info
Took-IsRequest c info (k, lt) = record { kept = k; took = λ _. lt }

pub notify-Took :
    (e : Event) (c : Conn) (info : Info) → NotLast e → Took c info → Took c (notify e info)
unfolding notify_conn
notify-Took e c info h (k, lt) = (notify_conn-Keeps e h k, lt)

-- The same connection.
pub moved : {c : Conn} (info info' : Info) → Took c info → info'.conn ≡ info.conn → Took c info'
moved info info' k e = rw e k

-- A check that hands on what it is given.
abbrev pub Handed : Conn → Checked → Type 0
Handed c (give_up info) = Took c info
Handed c (go_on info) = Took c info

pub check_read-Handed :
    (last : Bool) (total : ℕ) (c : Conn) (info : Info)
    → Took c info
    → Handed c (check_read last total info)
unfolding check_read
check_read-Handed last total c info k =
    if_holds (Handed c) (is_read_done info.state) (notify-Took _ c info refl k) (
      if_holds (Handed c) (is_read_time_out info.state)
        (if_holds (Handed c) (ltb total 16 && last) (notify-Took _ c info refl k)
          (notify-Took _ c info refl k))
        (if_holds (Handed c) (ltb total 16 || last) (notify-Took _ c info refl k)
          (notify-Took _ c info refl k)))
