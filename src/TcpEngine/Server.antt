-- ===== src/TcpEngine/Server.antt =====
-- The listening side of the engine: its acceptors and the handles of its connections, any number of
-- each, in any interleaving of their locked and atomic sections.
pub mod Invariant
pub mod Indexes
pub mod Entries
pub mod Shut
use wander.Base.{
  ℕ, zero, suc, ◌+◌, ◌≤◌, ◌<◌, ◌≡◌, refl, Bool, true, false, ◌&&◌, List, [], ◌∷◌, ◌++◌, Option,
  none, some, arith, ltb, All, ◌==◌, if◌then◌else◌,
}
use wander.TcpEngine.Engine.{
  Config, Engine, Place, top, connecting, left, Worker, locked_section, spawned, accepted,
  accept_failed, leave_conn, forget_conn, count_round, close_connections,
}

-- A handle is counted as alive, or it has been counted off and its entry is still to be deleted.
pub data Phase : Type 0 where
  running uncounted : Phase

pub record Handle : Type 0 where
  pub connidx : ℕ
  pub conn : ℕ
  pub phase : Phase

-- Where `Start` and, behind it, `workerWait` stand: before the test of the limit; between closing the
-- switch and `workloadon = true`, without a limit; waiting for the workers; behind the last of the
-- closings.
pub data Stage : Type 0 where
  starting loading waiting ending : Stage

pub record Server : Type 0 where
  pub stage : Stage
  pub eng : Engine
  pub workers : List Worker
  pub handles : List Handle

-- `go eng.serverHandle(connidx, conn)`
abbrev pub spawn : Option (ℕ × ℕ) → List Handle → List Handle
spawn none hs = hs
spawn (some (idx, c)) hs = record { connidx = idx; conn = c; phase = running } ∷ hs

abbrev pub after_turn : Config → List Worker → List Worker → Worker → Server → Server
after_turn conf before after w s =
    let (e, w') = locked_section conf w s.eng in
    record {
      stage = s.stage;
      eng = e;
      workers = before ++ w' ∷ after;
      handles = spawn (spawned conf w s.eng) s.handles;
    }

abbrev pub after_accept : ℕ → List Worker → List Worker → Worker → Server → Server
after_accept c before after w s =
    let (e, w') = accepted c w s.eng in record s { eng = e; workers = before ++ w' ∷ after }

abbrev pub after_failure : List Worker → List Worker → Worker → Server → Server
after_failure before after w s =
    let (e, w') = accept_failed w s.eng in record s { eng = e; workers = before ++ w' ∷ after }

abbrev pub after_leave : List Handle → List Handle → Handle → Server → Server
after_leave before after h s = record s {
  eng = leave_conn h.conn s.eng;
  handles = before ++ record h { phase = uncounted } ∷ after;
}

abbrev pub after_forget : Config → List Handle → List Handle → Handle → Server → Server
after_forget conf before after h s = record s {
  eng = forget_conn conf h.connidx s.eng;
  handles = before ++ after;
}

-- `if eng.conf.maxConcurrent > 0 { … } else { close(eng.workswitch) … }`, where `maxUnlock` only
-- wakes who waits.
abbrev pub after_limit : Config → Server → Server
after_limit conf s = if ltb 0 conf.max_concurrent then record s { stage = waiting } else record s {
  stage = loading;
  eng = record (s.eng) { switch_closes = s.eng.switch_closes + 1 };
}

-- `eng.workloadon = true`
abbrev pub after_load : Server → Server
after_load s = record s { stage = waiting; eng = record (s.eng) { workloadon = true } }

-- `workerWait`, when every worker has left.
abbrev pub after_shut : Server → Server
after_shut s = record s { stage = ending; eng = close_connections s.eng }

abbrev pub HasLeft : Worker → Type 0
HasLeft w = w.place ≡ left

-- One step of one goroutine. `stop` is a signal, `Close`, or the end of the run time.
pub data Step (conf : Config) (s t : Server) : Type 0 where
  turn :
      (before after : List Worker) (w : Worker)
      → s.workers ≡ before ++ w ∷ after
      → w.place ≡ top
      → t ≡ after_turn conf before after w s
      → Step conf s t
  accept :
      (c : ℕ) (before after : List Worker) (w : Worker)
      → s.workers ≡ before ++ w ∷ after
      → w.place ≡ connecting
      → t ≡ after_accept c before after w s
      → Step conf s t
  fail :
      (before after : List Worker) (w : Worker)
      → s.workers ≡ before ++ w ∷ after
      → w.place ≡ connecting
      → t ≡ after_failure before after w s
      → Step conf s t
  round : t ≡ record s { eng = count_round s.eng } → Step conf s t
  leave :
      (before after : List Handle) (h : Handle)
      → s.handles ≡ before ++ h ∷ after
      → h.phase ≡ running
      → t ≡ after_leave before after h s
      → Step conf s t
  forget :
      (before after : List Handle) (h : Handle)
      → s.handles ≡ before ++ h ∷ after
      → h.phase ≡ uncounted
      → t ≡ after_forget conf before after h s
      → Step conf s t
  stop : t ≡ record s { eng = record (s.eng) { closing = true } } → Step conf s t
  test_limit : s.stage ≡ starting → t ≡ after_limit conf s → Step conf s t
  load : s.stage ≡ loading → t ≡ after_load s → Step conf s t
  shut : s.stage ≡ waiting → All HasLeft s.workers → t ≡ after_shut s → Step conf s t

pub data Reach (conf : Config) (s : Server) : Server → Type 0 where
  here : Reach conf s s
  next : {t u : Server} → Reach conf s t → Step conf t u → Reach conf s u

abbrev pub fresh_worker : Worker
fresh_worker = record { place = top; newconn = false; conn = 0; connidx = 0 }

abbrev pub workers_of : ℕ → List Worker
workers_of zero = []
workers_of (suc n) = fresh_worker ∷ workers_of n

-- `Start` in listen mode, where the acceptors have been started: they run on beside it.
abbrev pub started : ℕ → Server
started cpus = record {
  stage = starting;
  eng = record {
    closing = false;
    workloadon = false;
    switch_closes = 0;
    alive_count = 0;
    new_count = 0;
    rw_count = 0;
    conns = [];
    closed_conns = [];
  };
  workers = workers_of cpus;
  handles = [];
}
