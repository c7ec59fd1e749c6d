-- ===== src/QpsServer/Conn.antt =====
-- `httpConnectionInfo_t` and the functions that set it up, change its state and close it. What the
-- network answers to the reads and writes of a connection is a list that the environment chooses.
use wander.Base.{
  ℕ, ◌+◌, ◌≡◌, refl, Bool, true, false, List, [], ◌∷◌, ◌++◌, Option, none, some, if◌then◌else◌,
}
use wander.Base.Bytes.{Bytes}
use wander.QpsServer.Event.{Event, event_start, read_init, destroyed, invalid}

-- One answer to `conn.Read`: up to `k + 1` bytes of what the client sends, or the end of the stream
-- when nothing is left of that; a `net.Error` that is a time-out or temporary; another error.
pub data ReadAnswer : Type 0 where
  got : ℕ → ReadAnswer
  read_again : ReadAnswer
  read_broken : ReadAnswer

-- One answer to `conn.Write`: all bytes are taken; or at most `k` of them, with an error that is a
-- time-out or temporary, or with another.
pub data WriteAnswer : Type 0 where
  took_all : WriteAnswer
  write_again : ℕ → WriteAnswer
  write_broken : ℕ → WriteAnswer

-- A connection and the channel of events: what the client still sends, what it was sent, the
-- answers to come, how often it was closed, and the events in the order in which they were sent.
pub record Conn : Type 0 where
  pub incoming : Bytes
  pub sent : Bytes
  pub reads : List ReadAnswer
  pub writes : List WriteAnswer
  pub closed : ℕ
  pub events : List Event
  pub ticks : ℕ

-- The fields of `httpConnectionInfo_t` that the program uses. `io_error` says whether `ioError` is
-- set.
pub record Info : Type 0 where
  pub conn : Conn
  pub io_error : Bool
  pub read_raw_stream : Bytes
  pub read_procotol_stream : Bytes
  pub read_header_stream : Bytes
  pub read_body_stream : Bytes
  pub method : Bytes
  pub state : Event
  pub keepalive : Bool
  pub request_count : ℕ
  pub response_status_code : ℕ
  pub response_header_text : Bytes
  pub response_body_text : Bytes

-- What a call leaves behind: its result, or nothing. `pending` is a call that waits for an answer
-- which the list does not hold; `spins` is a loop that goes on without changing anything; `no_fuel`
-- is no outcome of the program.
pub data Run {ℓ} (A : Type ℓ) : Type ℓ where
  done : A → Run A
  pending : Run A
  spins : Run A
  no_fuel : Run A

-- What holds of a call when it returns; and it is not out of fuel.
abbrev pub After : {A : Type 0} → (A → Type 0) → Run A → Type 0
After P (done a) = P a
After P pending = Unit
After P spins = Unit
After P no_fuel = ⊥

infixl 5 ◌>>=◌
abbrev pub ◌>>=◌ {ℓ κ} : {A : Type ℓ} {B : Type κ} → Run A → (A → Run B) → Run B
done a >>= f = f a
pending >>= f = pending
spins >>= f = spins
no_fuel >>= f = no_fuel

-- `eventNotifyChannel <- event`
unfoldable pub notify_conn : Event → Conn → Conn
notify_conn event c = record c { events = c.events ++ event ∷ [] }

abbrev pub notify : Event → Info → Info
notify event info = record info { conn = notify_conn event info.conn }

abbrev pub set_state : Event → Info → Info
set_state new_state info = record (notify new_state info) { state = new_state }

-- `httpConnectionSetState`, with the old state that it returns; `none` is the null pointer, which
-- no caller passes.
abbrev pub http_connection_set_state : Option Info → Event → Option Info × Event
http_connection_set_state none new_state = (none, invalid)
http_connection_set_state (some info) new_state = (some (set_state new_state info), info.state)

abbrev pub http_connection_init : ℕ → Bytes → Conn → ℕ → Info
http_connection_init init_status_code body_text conn request_count =
    let fresh : Info = record {
      conn = conn;
      io_error = false;
      read_raw_stream = [];
      read_procotol_stream = [];
      read_header_stream = [];
      read_body_stream = [];
      method = [];
      state = event_start;
      keepalive = false;
      request_count = 0;
      response_status_code = 0;
      response_header_text = [];
      response_body_text = [];
    } in
    record (set_state read_init fresh) {
      response_body_text = body_text;
      response_status_code = init_status_code;
      request_count = request_count;
    }

-- `conn.Close()`
abbrev pub close_conn : Conn → Conn
close_conn c = record c { closed = c.closed + 1 }

abbrev pub http_connection_keepalive : Info → Info × Bool
http_connection_keepalive info =
    if info.keepalive
    then (info, true)
    else (set_state destroyed (record info { conn = close_conn info.conn }), false)

pub After->>= :
    {A B : Type 0} (P : A → Type 0) (Q : B → Type 0) (r : Run A) (f : A → Run B)
    → After P r
    → ((a : A) → P a → After Q (f a))
    → After Q (r >>= f)
After->>= P Q (done a) f h k = k a h
After->>= P Q pending f h k = tt
After->>= P Q spins f h k = tt
After->>= P Q no_fuel f h k = h

pub After-map :
    {A : Type 0} (P Q : A → Type 0) (r : Run A) → After P r → ((a : A) → P a → Q a) → After Q r
After-map P Q (done a) h k = k a h
After-map P Q pending h k = tt
After-map P Q spins h k = tt
After-map P Q no_fuel h k = h

pub After-if :
    {A : Type 0} (P : A → Type 0) (b : Bool) (x y : Run A)
    → (b ≡ true → After P x)
    → (b ≡ false → After P y)
    → After P (if b then x else y)
After-if P true x y h k = h refl
After-if P false x y h k = k refl

pub After-both :
    {A : Type 0} (P Q : A → Type 0) (r : Run A) → After P r → After Q r → After (λ a. P a × Q a) r
After-both P Q (done a) h k = (h, k)
After-both P Q pending h k = tt
After-both P Q spins h k = tt
After-both P Q no_fuel h k = h
