-- ===== src/TcpEngine/Client.antt =====
-- The connecting side of the engine: one connector with its channel of local addresses
-- (`eng.laddrPool[idx]`), and the handles of its connections.
pub mod Addresses
pub mod Race
use wander.Base.{
  ℕ, zero, suc, ◌+◌, ◌-◌, ◌≡◌, refl, Bool, true, false, ◌&&◌, not, List, [], ◌∷◌, ◌++◌, Option,
  none, some, arith, ◌==◌, if◌then◌else◌,
}
use wander.TcpEngine.Engine.{
  Config, Engine, Place, top, connecting, left, Worker, locked_section, limit_reached, spawned,
  leave_conn, forget_conn, count_round,
}

-- A client handle counts its connection off, gives its address back, and only then deletes its entry.
pub data Phase : Type 0 where
  running uncounted returned : Phase

pub record Handle : Type 0 where
  pub connidx : ℕ
  pub conn : ℕ
  pub phase : Phase

-- `dialling` is set from the receive of an address to the result of the dial.
pub record Client : Type 0 where
  pub eng : Engine
  pub pool : List ℕ
  pub worker : Worker
  pub dialling : Bool
  pub handles : List Handle

-- What `DialTCPTimeout` returns, as far as the connector tells errors apart.
pub data Dial : Type 0 where
  connected : ℕ → Dial
  in_use timeout other_error : Dial

abbrev pub spawn : Option (ℕ × ℕ) → List Handle → List Handle
spawn none hs = hs
spawn (some (idx, c)) hs = record { connidx = idx; conn = c; phase = running } ∷ hs

-- The locked section. A new connection that the limit refuses gives its address back.
abbrev pub after_turn : Config → Client → Client
after_turn conf s =
    let (e, w) = locked_section conf s.worker s.eng in
    let refused = not s.eng.closing && (limit_reached conf s.eng && s.worker.newconn) in
    record s {
      eng = e;
      worker = w;
      pool = if refused then s.pool ++ s.worker.connidx ∷ [] else s.pool;
      handles = spawn (spawned conf s.worker s.eng) s.handles;
    }

-- `connidx = <-eng.laddrPool[idx]`
abbrev pub after_receive : ℕ → List ℕ → Client → Client
after_receive a rest s = record s {
  pool = rest;
  worker = record (s.worker) { connidx = a };
  dialling = true;
}

abbrev pub after_dial : Dial → Client → Client
after_dial (connected c) s = record s {
  eng = record (s.eng) { new_count = s.eng.new_count + 1 };
  worker = record (s.worker) { newconn = true; conn = c; place = top };
  dialling = false;
}
after_dial in_use s = record s { worker = record (s.worker) { place = top }; dialling = false }
after_dial timeout s = record s { worker = record (s.worker) { place = top }; dialling = false }
after_dial other_error s = record s {
  eng = record (s.eng) { closing = true };
  worker = record (s.worker) { place = left };
  dialling = false;
}

abbrev pub after_leave : List Handle → List Handle → Handle → Client → Client
after_leave before after h s = record s {
  eng = leave_conn h.conn s.eng;
  handles = before ++ record h { phase = uncounted } ∷ after;
}

-- `eng.laddrPool[idx] <- connidx`
abbrev pub after_return : List Handle → List Handle → Handle → Client → Client
after_return before after h s = record s {
  pool = s.pool ++ h.connidx ∷ [];
  handles = before ++ record h { phase = returned } ∷ after;
}

abbrev pub after_forget : Config → List Handle → List Handle → Handle → Client → Client
after_forget conf before after h s = record s {
  eng = forget_conn conf h.connidx s.eng;
  handles = before ++ after;
}

pub data Step (conf : Config) (s t : Client) : Type 0 where
  turn : s.worker.place ≡ top → t ≡ after_turn conf s → Step conf s t
  receive :
      (a : ℕ) (rest : List ℕ)
      → s.worker.place ≡ connecting
      → s.dialling ≡ false
      → s.pool ≡ a ∷ rest
      → t ≡ after_receive a rest s
      → Step conf s t
  dial :
      (d : Dial)
      → s.worker.place ≡ connecting
      → s.dialling ≡ true
      → t ≡ after_dial d s
      → Step conf s t
  round : t ≡ record s { eng = count_round s.eng } → Step conf s t
  leave :
      (before after : List Handle) (h : Handle)
      → s.handles ≡ before ++ h ∷ after
      → h.phase ≡ running
      → t ≡ after_leave before after h s
      → Step conf s t
  give_back :
      (before after : List Handle) (h : Handle)
      → s.handles ≡ before ++ h ∷ after
      → h.phase ≡ uncounted
      → t ≡ after_return before after h s
      → Step conf s t
  forget :
      (before after : List Handle) (h : Handle)
      → s.handles ≡ before ++ h ∷ after
      → h.phase ≡ returned
      → t ≡ after_forget conf before after h s
      → Step conf s t
  stop : t ≡ record s { eng = record (s.eng) { closing = true } } → Step conf s t

pub data Reach (conf : Config) (s : Client) : Client → Type 0 where
  here : Reach conf s s
  next : {t u : Client} → Reach conf s t → Step conf t u → Reach conf s u

-- `Start` with the addresses of this connector. Without a limit the work load is on.
abbrev pub started : Config → List ℕ → Client
started conf addresses = record {
  eng = record {
    closing = false;
    workloadon = conf.max_concurrent == 0;
    switch_closes = if conf.max_concurrent == 0 then 1 else 0;
    alive_count = 0;
    new_count = 0;
    rw_count = 0;
    conns = [];
    closed_conns = [];
  };
  pool = addresses;
  worker = record { place = top; newconn = false; conn = 0; connidx = 0 };
  dialling = false;
  handles = [];
}
