-- ===== src/TcpEngine/Server/Shut.antt =====
-- What the shutdown of the listening side, the end of `workerWait`, leaves for the handles.
use mathlib.Core.Path.{subst}
use wander.Base.{
  ℕ, ◌<◌, ◌≡◌, ◌≢◌, refl, sym, ◌∙◌, true, false, List, [], ◌∷◌, ◌++◌, some, arith, ltb, All,
  All-append, All-split, if_case,
}
use wander.Base.Assoc.{lookup}
use wander.Base.Occurs.{times, times-append}
use wander.TcpEngine.Engine.{
  Config, Engine, leave_conn, forget_conn, count_round, accepted, accept_failed, conn_values,
  close_connections,
}
use wander.TcpEngine.Server.{
  uncounted, Handle, ending, Server, after_leave, after_forget, HasLeft, Step, turn, accept, fail,
  round, leave, forget, stop, test_limit, load, shut, Reach, here, next, started,
}
use wander.TcpEngine.Server.Invariant.{Switched, AllLeft, Counts, at_work, Reach-Counts}
use wander.TcpEngine.Server.Entries.{IsMapped, AllMapped, Reach-AllMapped}

lookup-conn_values :
    (idx conn : ℕ) (m : List (ℕ × ℕ)) → lookup idx m ≡ some conn → 0 < times conn (conn_values m)
unfolding lookup conn_values times
lookup-conn_values idx conn [] h = cc
lookup-conn_values idx conn ((i, c) ∷ m) h = ground (arith, lookup-conn_values idx conn m)

abbrev pub IsClosed : Engine → Handle → Type 0
IsClosed e h = 0 < times h.conn e.closed_conns

All-IsClosed :
    (e : Engine) (hs : List Handle)
    → All (IsMapped e.conns) hs
    → All (IsClosed (close_connections e)) hs
unfolding close_connections
All-IsClosed e [] h = tt
All-IsClosed e (h ∷ hs) (m, ms) = (
  omega (
    arith,
    lookup-conn_values h.connidx h.conn e.conns m,
    times-append h.conn (conn_values e.conns) e.closed_conns,
  ),
  All-IsClosed e hs ms,
)

-- Behind the shutdown the connection of every handle is closed.
abbrev pub IsShut : Server → Type 0
IsShut s = s.stage ≡ ending → All (IsClosed s.eng) s.handles × (s.eng.closing ≡ true)

more-IsClosed :
    (e e' : Engine) (hs : List Handle)
    → ((c : ℕ) → 0 < times c e.closed_conns → 0 < times c e'.closed_conns)
    → All (IsClosed e) hs
    → All (IsClosed e') hs
more-IsClosed e e' [] k h = tt
more-IsClosed e e' (j ∷ hs) k (h, hr) = (k j.conn h, more-IsClosed e e' hs k hr)

leave-IsShut :
    (s : Server) (before after : List Handle) (h : Handle)
    → s.handles ≡ before ++ h ∷ after
    → IsShut s
    → IsShut (after_leave before after h s)
unfolding leave_conn times
leave-IsShut s before after h e k at_end =
    let (closed, c) = k at_end in
    let (hb, (hh, ha)) =
      All-split (IsClosed s.eng) before (h ∷ after) (subst (All (IsClosed s.eng)) e closed) in
    (
      more-IsClosed s.eng (leave_conn h.conn s.eng)
          (before ++ record h { phase = uncounted } ∷ after) (λ n lt. omega (arith, lt))
          (All-append (IsClosed s.eng) before (record h { phase = uncounted } ∷ after) hb (hh, ha)),
      c,
    )

forget-IsShut :
    (conf : Config) (s : Server) (before after : List Handle) (h : Handle)
    → s.handles ≡ before ++ h ∷ after
    → conf.nomap ≡ false
    → IsShut s
    → IsShut (after_forget conf before after h s)
unfolding forget_conn
forget-IsShut conf s before after h e n k at_end =
    let (closed, c) = k at_end in
    let (hb, (hh, ha)) =
      All-split (IsClosed s.eng) before (h ∷ after) (subst (All (IsClosed s.eng)) e closed) in
    rw n (All-append (IsClosed s.eng) before after hb ha, c)

-- A step that only a worker takes, or `Start`, is not behind the shutdown.
not_ending-IsShut : (s : Server) → s.stage ≢ ending → (t : Server) → t.stage ≡ s.stage → IsShut t
not_ending-IsShut s ne t e at_end = absurd (ne (sym e ∙ at_end))

Step-IsShut :
    (conf : Config) (s t : Server)
    → Step conf s t
    → conf.nomap ≡ false
    → Counts conf s
    → AllMapped s
    → IsShut s
    → IsShut t
unfolding accepted accept_failed count_round
Step-IsShut conf s t (turn before after w e p q) n h m k =
    not_ending-IsShut s (at_work before after w e (λ l. absurd (ground (arith, p, l))) h) t
      (rw q refl)
Step-IsShut conf s t (accept c before after w e p q) n h m k =
    not_ending-IsShut s (at_work before after w e (λ l. absurd (ground (arith, p, l))) h) t
      (rw q refl)
Step-IsShut conf s t (fail before after w e p q) n h m k =
    not_ending-IsShut s (at_work before after w e (λ l. absurd (ground (arith, p, l))) h) t
      (rw q refl)
Step-IsShut conf s t (round q) n h m k = rw q k
Step-IsShut conf s t (leave before after j e p q) n h m k = rw q (leave-IsShut s before after j e k)
Step-IsShut conf s t (forget before after j e p q) n h m k =
    rw q (forget-IsShut conf s before after j e n k)
Step-IsShut conf s t (stop q) n h m k = rw q (λ at_end. ((k at_end).0, refl))
Step-IsShut conf s t (test_limit e q) n h m k = rw q (
    if_case IsShut (ltb 0 conf.max_concurrent) (λ _ at_end. absurd (ground (arith, at_end)))
      (λ _ at_end. absurd (ground (arith, at_end))))
Step-IsShut conf s t (load e q) n h m k = rw q (λ at_end. absurd (ground (arith, at_end)))
Step-IsShut conf s t (shut e l q) n h m k =
    rw q (λ _. (All-IsClosed s.eng s.handles m, unfold close_connections in refl))

Reach-IsShut :
    (conf : Config) (cpus : ℕ) {s : Server}
    → Reach conf (started cpus) s
    → conf.nomap ≡ false
    → IsShut s
Reach-IsShut conf cpus here n = λ at_end. absurd (ground (arith, at_end))
Reach-IsShut conf cpus (next {t = t} {u = u} r st) n =
    Step-IsShut conf t u st n (Reach-Counts conf cpus r) (Reach-AllMapped conf cpus r n)
      (Reach-IsShut conf cpus r n)

-- Unless the map is switched off, in every state that is reached behind the shutdown, with a limit
-- or without: the connection of every handle has been closed, so that its read fails; the switch that
-- the handles wait for has been closed once, and not twice, whoever of the acceptors, `Start` and
-- `workerWait` did it; the engine is closing; and no worker runs that could take another connection.
pub shutdown-IsClosed :
    (conf : Config) (cpus : ℕ) {s : Server}
    → Reach conf (started cpus) s
    → conf.nomap ≡ false
    → s.stage ≡ ending
    → All (IsClosed s.eng) s.handles
      × (s.eng.switch_closes ≡ 1)
      × (s.eng.closing ≡ true)
      × All HasLeft s.workers
shutdown-IsClosed conf cpus {s} r n at_end =
    let (closed, c) = Reach-IsShut conf cpus r n at_end in
    let h = Reach-Counts conf cpus r in
    (
      closed,
      subst (λ st. Switched conf st s.eng) at_end h.switched,
      c,
      subst (λ st. AllLeft st s.workers) at_end h.gone,
    )
