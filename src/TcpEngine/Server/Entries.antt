-- ===== src/TcpEngine/Server/Entries.antt =====
-- The entries of `conns` in tcpengine/tcpengine.go, for the connections that are alive.
use wander.Base.{
  ℕ, ◌≡◌, ◌≢◌, true, false, List, [], ◌∷◌, ◌++◌, some, arith, All, All-append, All-split,
  Bool-cases, inl, inr, ap, ltb, if_case,
}
use wander.Base.Assoc.{lookup, insert, erase, lookup-insert, lookup-erase}
use wander.TcpEngine.Engine.{
  Config, Worker, locked_section, spawned, accepted, accept_failed, leave_conn, forget_conn,
  count_round, close_connections,
}
use wander.TcpEngine.Server.{
  uncounted, Handle, Server, after_turn, after_leave, after_forget, Step, turn, accept, fail, round,
  leave, forget, stop, test_limit, load, shut, Reach, here, next, started,
}
use wander.TcpEngine.Server.Indexes.{
  new_uses, handle_uses, uses, new_uses-append, handle_uses-append, IsUnique, Reach-IsUnique,
}

-- The entry of a handle is there.
abbrev pub IsMapped : List (ℕ × ℕ) → Handle → Type 0
IsMapped m h = lookup h.connidx m ≡ some h.conn

unused : (k : ℕ) (hs : List Handle) → handle_uses k hs ≡ 0 → All (λ h. h.connidx ≢ k) hs
unfolding handle_uses
unused k [] e = tt
unused k (h ∷ hs) e = (ground arith, unused k hs (ground arith))

IsMapped-insert :
    (k c : ℕ) (m : List (ℕ × ℕ)) (hs : List Handle)
    → All (λ h. h.connidx ≢ k) hs
    → All (IsMapped m) hs
    → All (IsMapped (insert k c m)) hs
IsMapped-insert k c m [] ne h = tt
IsMapped-insert k c m (j ∷ hs) (ne, nes) (h, hm) =
    (ground (arith, lookup-insert k j.connidx c m), IsMapped-insert k c m hs nes hm)

IsMapped-erase :
    (k : ℕ) (m : List (ℕ × ℕ)) (hs : List Handle)
    → All (λ h. h.connidx ≢ k) hs
    → All (IsMapped m) hs
    → All (IsMapped (erase k m)) hs
IsMapped-erase k m [] ne h = tt
IsMapped-erase k m (j ∷ hs) (ne, nes) (h, hm) =
    (ground (arith, lookup-erase k j.connidx m), IsMapped-erase k m hs nes hm)

abbrev pub AllMapped : Server → Type 0
AllMapped s = All (IsMapped s.eng.conns) s.handles

module _ (conf : Config) (s : Server) (mapping : conf.nomap ≡ false) (u : IsUnique s)
    (m : AllMapped s) where
  -- A connection that a worker brings has an index that no handle uses.
  fresh_index :
      (before after : List Worker) (w : Worker)
      → s.workers ≡ before ++ w ∷ after
      → w.newconn ≡ true
      → handle_uses w.connidx s.handles ≡ 0
  unfolding uses new_uses
  fresh_index before after w e new = ground (
    arith,
    u.once w.connidx,
    ap (new_uses w.connidx) e,
    new_uses-append w.connidx before (w ∷ after),
  )

  turn-AllMapped :
      (before after : List Worker) (w : Worker)
      → s.workers ≡ before ++ w ∷ after
      → AllMapped (after_turn conf before after w s)
  unfolding locked_section spawned
  turn-AllMapped before after w e = elim (Bool-cases w.newconn) [
    | inl new ↦
        let entered =
          IsMapped-insert w.connidx w.conn s.eng.conns s.handles
            (unused w.connidx s.handles (fresh_index before after w e new)) m in
        ground (arith, entered, lookup-insert w.connidx w.connidx w.conn s.eng.conns)
    | inr old ↦ ground arith
  ]

  leave-AllMapped :
      (before after : List Handle) (h : Handle)
      → s.handles ≡ before ++ h ∷ after
      → AllMapped (after_leave before after h s)
  unfolding leave_conn
  leave-AllMapped before after h e =
      let (mb, ma) = All-split (IsMapped s.eng.conns) before (h ∷ after) (rw e at m) in
      All-append (IsMapped s.eng.conns) before (record h { phase = uncounted } ∷ after) mb ma

  forget-AllMapped :
      (before after : List Handle) (h : Handle)
      → s.handles ≡ before ++ h ∷ after
      → AllMapped (after_forget conf before after h s)
  unfolding forget_conn uses handle_uses
  forget-AllMapped before after h e =
      let (mb, ma) = All-split (IsMapped s.eng.conns) before (h ∷ after) (rw e at m) in
      let none_else : handle_uses h.connidx (before ++ after) ≡ 0 = ground (
        arith,
        u.once h.connidx,
        ap (handle_uses h.connidx) e,
        handle_uses-append h.connidx before (h ∷ after),
        handle_uses-append h.connidx before after,
      ) in
      rw mapping (
        IsMapped-erase h.connidx s.eng.conns (before ++ after) (unused h.connidx _ none_else)
          (All-append (IsMapped s.eng.conns) before after mb ma.1))

Step-AllMapped :
    (conf : Config) (s t : Server)
    → Step conf s t
    → conf.nomap ≡ false
    → IsUnique s
    → AllMapped s
    → AllMapped t
Step-AllMapped conf s t (turn before after w e p q) n u m =
    rw q (turn-AllMapped conf s n u m before after w e)
Step-AllMapped conf s t (accept c before after w e p q) n u m = rw q (unfold accepted in m)
Step-AllMapped conf s t (fail before after w e p q) n u m = rw q (unfold accept_failed in m)
Step-AllMapped conf s t (round q) n u m = rw q (unfold count_round in m)
Step-AllMapped conf s t (leave before after h e p q) n u m =
    rw q (leave-AllMapped conf s n u m before after h e)
Step-AllMapped conf s t (forget before after h e p q) n u m =
    rw q (forget-AllMapped conf s n u m before after h e)
Step-AllMapped conf s t (stop q) n u m = rw q m
Step-AllMapped conf s t (test_limit e q) n u m =
    rw q (if_case AllMapped (ltb 0 conf.max_concurrent) (λ _. m) (λ _. m))
Step-AllMapped conf s t (load e q) n u m = rw q m
Step-AllMapped conf s t (shut e l q) n u m = rw q (unfold close_connections in m)

-- Unless the map is switched off, every handle of the listening side that has not deleted its entry
-- yet has it in `conns`, in every state that is reached: no other goroutine takes it out, and a
-- shutdown that closes the connections in the map closes every connection that is alive.
pub Reach-AllMapped :
    (conf : Config) (cpus : ℕ) {s : Server}
    → Reach conf (started cpus) s
    → conf.nomap ≡ false
    → AllMapped s
Reach-AllMapped conf cpus here n = tt
Reach-AllMapped conf cpus (next {t = t} {u = u} r st) n =
    Step-AllMapped conf t u st n (Reach-IsUnique conf cpus r) (Reach-AllMapped conf cpus r n)
