-- ===== src/TcpEngine/Server/Indexes.antt =====
-- The indexes under which tcpengine/tcpengine.go enters accepted connections into `conns`.
use wander.Base.{
  ℕ, zero, suc, ◌+◌, ◌≤◌, ◌<◌, ◌≡◌, refl, ◌&&◌, List, [], ◌∷◌, ◌++◌, arith, ◌==◌, if◌then◌else◌, ap,
  ltb, if_case,
}
use wander.TcpEngine.Engine.{
  Config, Worker, locked_section, spawned, accepted, accept_failed, leave_conn, forget_conn,
  count_round, close_connections,
}
use wander.TcpEngine.Server.{
  uncounted, Handle, loading, waiting, Server, after_turn, after_accept, after_failure, after_leave,
  after_forget, Step, turn, accept, fail, round, leave, forget, stop, test_limit, load, shut, Reach,
  here, next, workers_of, started,
}

-- How often an index is in use: by a connection that an acceptor holds, and by a handle.
abbrev new_use : ℕ → Worker → ℕ
new_use k w = if w.newconn && w.connidx == k then 1 else 0

abbrev handle_use : ℕ → Handle → ℕ
handle_use k h = if h.connidx == k then 1 else 0

unfoldable pub new_uses : ℕ → List Worker → ℕ
new_uses k [] = 0
new_uses k (w ∷ ws) = new_use k w + new_uses k ws

unfoldable pub handle_uses : ℕ → List Handle → ℕ
handle_uses k [] = 0
handle_uses k (h ∷ hs) = handle_use k h + handle_uses k hs

unfoldable pub uses : ℕ → Server → ℕ
uses k s = new_uses k s.workers + handle_uses k s.handles

pub new_uses-append :
    (k : ℕ) (ws vs : List Worker) → new_uses k (ws ++ vs) ≡ new_uses k ws + new_uses k vs
unfolding new_uses
new_uses-append k [] vs = omega arith
new_uses-append k (w ∷ ws) vs = omega (arith, new_uses-append k ws vs)

pub handle_uses-append :
    (k : ℕ) (hs js : List Handle) → handle_uses k (hs ++ js) ≡ handle_uses k hs + handle_uses k js
unfolding handle_uses
handle_uses-append k [] js = omega arith
handle_uses-append k (h ∷ hs) js = omega (arith, handle_uses-append k hs js)

-- No index is used twice, and none above the counter is used.
pub record IsUnique (s : Server) : Type 0 where
  pub once : (k : ℕ) → uses k s ≤ 1
  pub issued : (k : ℕ) → 0 < uses k s → k ≤ s.eng.new_count

-- Uses after each kind of step, for each index.
module _ (conf : Config) (s : Server) (k : ℕ) where
  turn_uses :
      (before after : List Worker) (w : Worker)
      → s.workers ≡ before ++ w ∷ after
      → uses k (after_turn conf before after w s) ≤ uses k s
  unfolding uses new_uses handle_uses locked_section spawned
  turn_uses before after w e = ground (
    arith,
    new_uses-append k before (w ∷ after),
    ap (new_uses k) e,
    new_uses-append k before ((locked_section conf w s.eng).1 ∷ after),
  )

  accept_uses :
      (c : ℕ) (before after : List Worker) (w : Worker)
      → s.workers ≡ before ++ w ∷ after
      → uses k (after_accept c before after w s)
        ≤ uses k s + (if s.eng.new_count + 1 == k then 1 else 0)
  unfolding uses new_uses handle_uses accepted
  accept_uses c before after w e = ground (
    arith,
    new_uses-append k before (w ∷ after),
    ap (new_uses k) e,
    new_uses-append k before ((accepted c w s.eng).1 ∷ after),
  )

  fail_uses :
      (before after : List Worker) (w : Worker)
      → s.workers ≡ before ++ w ∷ after
      → uses k (after_failure before after w s) ≡ uses k s
  unfolding uses new_uses handle_uses accept_failed
  fail_uses before after w e = ground (
    arith,
    new_uses-append k before (w ∷ after),
    ap (new_uses k) e,
    new_uses-append k before ((accept_failed w s.eng).1 ∷ after),
  )

  leave_uses :
      (before after : List Handle) (h : Handle)
      → s.handles ≡ before ++ h ∷ after
      → uses k (after_leave before after h s) ≡ uses k s
  unfolding uses new_uses handle_uses
  leave_uses before after h e = ground (
    arith,
    handle_uses-append k before (h ∷ after),
    ap (handle_uses k) e,
    handle_uses-append k before (record h { phase = uncounted } ∷ after),
  )

  forget_uses :
      (before after : List Handle) (h : Handle)
      → s.handles ≡ before ++ h ∷ after
      → uses k (after_forget conf before after h s) ≤ uses k s
  unfolding uses new_uses handle_uses
  forget_uses before after h e = ground (
    arith,
    handle_uses-append k before (h ∷ after),
    ap (handle_uses k) e,
    handle_uses-append k before after,
  )

-- A step uses no index more often, but for the one that an accept has just counted out.
IsUnique-of_le :
    (s t : Server)
    → ((k : ℕ) → uses k t ≤ uses k s)
    → s.eng.new_count ≤ t.eng.new_count
    → IsUnique s
    → IsUnique t
IsUnique-of_le s t le n u = record {
  once = λ k. omega (arith, le k, u.once k);
  issued = λ k p. omega (arith, le k, u.issued k (omega (arith, le k)));
}

Step-IsUnique : (conf : Config) (s t : Server) → Step conf s t → IsUnique s → IsUnique t
Step-IsUnique conf s t (turn before after w e p q) u = rw q (
    IsUnique-of_le s _ (λ k. turn_uses conf s k before after w e)
      (unfold locked_section in ground arith) u)
Step-IsUnique conf s t (accept c before after w e p q) u = rw q (record {
  once = λ k. ground (arith, accept_uses conf s k c before after w e, u.once k, u.issued k);
  issued =
      λ k h. unfold accepted in ground (arith, accept_uses conf s k c before after w e, u.issued k);
})
Step-IsUnique conf s t (fail before after w e p q) u = rw q (
    IsUnique-of_le s _ (λ k. omega (arith, fail_uses conf s k before after w e))
      (unfold accept_failed in omega arith) u)
Step-IsUnique conf s t (round q) u =
    rw q
      (IsUnique-of_le s _ (λ k. unfold uses in omega arith) (unfold count_round in omega arith) u)
Step-IsUnique conf s t (leave before after h e p q) u = rw q (
    IsUnique-of_le s _ (λ k. omega (arith, leave_uses conf s k before after h e))
      (unfold leave_conn in omega arith) u)
Step-IsUnique conf s t (forget before after h e p q) u = rw q (
    IsUnique-of_le s _ (λ k. forget_uses conf s k before after h e)
      (unfold forget_conn in ground arith) u)
Step-IsUnique conf s t (stop q) u =
    rw q (IsUnique-of_le s _ (λ k. unfold uses in omega arith) (omega arith) u)
Step-IsUnique conf s t (test_limit e q) u = rw q (
    if_case IsUnique (ltb 0 conf.max_concurrent) {x = record s { stage = waiting }}
      {y = record s {
        stage = loading;
        eng = record (s.eng) { switch_closes = s.eng.switch_closes + 1 };
      }}
      (λ _. IsUnique-of_le s _ (λ k. unfold uses in omega arith) (omega arith) u)
      (λ _. IsUnique-of_le s _ (λ k. unfold uses in omega arith) (omega arith) u))
Step-IsUnique conf s t (load e q) u =
    rw q (IsUnique-of_le s _ (λ k. unfold uses in omega arith) (omega arith) u)
Step-IsUnique conf s t (shut e l q) u = rw q (
    IsUnique-of_le s _ (λ k. unfold uses in omega arith) (unfold close_connections in omega arith)
      u)

no_uses : (k cpus : ℕ) → new_uses k (workers_of cpus) ≡ 0
unfolding new_uses
no_uses k zero = refl
no_uses k (suc n) = omega (arith, no_uses k n)

started-IsUnique : (cpus : ℕ) → IsUnique (started cpus)
unfolding uses handle_uses
started-IsUnique cpus = record {
  once = λ k. omega (arith, no_uses k cpus);
  issued = λ k h. absurd (omega (arith, no_uses k cpus));
}

pub Reach-IsUnique :
    (conf : Config) (cpus : ℕ) {s : Server} → Reach conf (started cpus) s → IsUnique s
Reach-IsUnique conf cpus here = started-IsUnique cpus
Reach-IsUnique conf cpus (next {t = t} {u = u} r st) =
    Step-IsUnique conf t u st (Reach-IsUnique conf cpus r)
