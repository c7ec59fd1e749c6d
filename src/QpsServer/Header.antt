-- ===== src/QpsServer/Header.antt =====
-- The two searches of `httpReadRequest` in what was read: for the line of the protocol, and for
-- the empty line at the end of the header.
pub mod Laws
pub mod Shape
pub mod Outcome
use wander.Base.{
  ℕ, zero, suc, ◌+◌, ◌-◌, ◌≡◌, refl, Bool, true, false, ◌&&◌, ◌||◌, List, [], ◌∷◌, ◌++◌, length,
  take, drop, ltb, ◌==◌, if◌then◌else◌, Option, none, some,
}
use wander.Base.Bytes.{Bytes, codes, slice, has_prefix, index_byte, newline}
use wander.QpsServer.Event.{is_pase_done, pase_done}
use wander.QpsServer.Status.{status_bad_request, status_method_not_allowed}
use wander.QpsServer.Conn.{Info, Run, done, spins}

-- The local variables of the function: `RawStreamSeekPos`, `http_method_ok`,
-- `http_header_startPos` (of use only when the method is found) and `TotalReadBytes`.
pub record Seek : Type 0 where
  pub pos : ℕ
  pub method_ok : Bool
  pub header_start : ℕ
  pub total : ℕ

abbrev starts_with : Bytes → ℕ → Bool
starts_with [] b = false
starts_with (c ∷ s) b = c == b

-- `returnPos == 0`, or `returnPos == 1` behind a '\r': the line is empty.
abbrev pub is_empty_line : Bytes → ℕ → Bool
is_empty_line rest return_pos = return_pos == 0 || return_pos == 1 && starts_with rest 13

-- What the search for the line of the protocol does: it goes on, or a response with an error
-- is sent and the function returns.
pub data Search : Type 0 where
  proceed : Info → Seek → Search
  reject : ℕ → Info → Search

abbrev pub found_method : Bytes → ℕ → Info → Seek → Search
found_method method return_pos info seek =
    proceed (record info { method = method })
      (record seek {
        method_ok = true;
        header_start = return_pos + 1;
        pos = seek.pos + return_pos + 1;
      })

-- The `switch` on the method.
abbrev pub protocol_line : ℕ → Info → Seek → Search
protocol_line return_pos info seek =
    let rest = drop seek.pos info.read_raw_stream in
    let info' = record info {
      read_procotol_stream = slice info.read_raw_stream seek.pos (seek.pos + return_pos);
    } in
    if has_prefix rest (codes "GET /")
    then found_method (codes "GET") return_pos info' seek
    else if has_prefix rest (codes "POST /")
    then found_method (codes "POST") return_pos info' seek
    else reject status_method_not_allowed info'

-- The cases with a newline at `returnPos`.
abbrev pub at_newline : ℕ → Info → Seek → Search
at_newline return_pos info seek =
    if is_empty_line (drop seek.pos info.read_raw_stream) return_pos
    then if ltb 14 seek.pos
      then reject status_bad_request info
      else proceed info (record seek { pos = seek.pos + return_pos + 1 })
    else if ltb seek.total 16
    then reject status_bad_request info
    else protocol_line return_pos info seek

-- `if http_method_ok == false { … }`
unfoldable pub find_method : Info → Seek → Search
find_method info seek =
    if seek.method_ok
    then proceed info seek
    else elim (index_byte (drop seek.pos info.read_raw_stream) newline) [
      | none ↦ proceed info seek
      | some return_pos ↦ at_newline return_pos info seek
    ]

-- The empty line at `returnPos` ends the header.
abbrev pub end_header : ℕ → Info → Seek → Info
end_header return_pos info seek = record info {
  state = pase_done;
  read_header_stream = slice info.read_raw_stream seek.header_start (seek.pos + return_pos);
  read_body_stream = drop (seek.pos + return_pos + 1) info.read_raw_stream;
}

-- `http_method_ok && RawStreamSeekPos < TotalReadBytes && state != HttpRequestStatePaseDone`
abbrev pub is_open : Info → Seek → Bool
is_open info seek =
    seek.method_ok && (ltb seek.pos seek.total && (if is_pase_done info.state then false else true))

-- `for http_method_ok && … { … }`. A round that finds no newline leaves everything as it is; to be
-- out of fuel is to go round for ever.
unfoldable pub find_end : ℕ → Info → Seek → Run (Info × Seek)
find_end zero info seek = spins
find_end (suc fuel) info seek =
    let same = find_end fuel info seek in
    let round : Run (Info × Seek) = elim (index_byte (drop seek.pos info.read_raw_stream) newline) [
      | none ↦ same
      | some return_pos ↦
          let next = find_end fuel info (record seek { pos = seek.pos + return_pos + 1 }) in
          let last = find_end fuel (end_header return_pos info seek) seek in
          if is_empty_line (drop seek.pos info.read_raw_stream) return_pos then last else next
    ] in
    if is_open info seek then round else done (info, seek)
