-- ===== src/TcpEngine/Server/Invariant.antt =====
-- The counters of the listening side of tcpengine/tcpengine.go, in the states that it reaches.
use mathlib.Core.Path.{subst}
use wander.Base.{
  ℕ, ◌+◌, ◌≤◌, ◌≡◌, ◌≢◌, refl, ◌∙◌, true, false, List, [], ◌∷◌, ◌++◌, arith, if◌then◌else◌, ◌⊎◌,
  ltb, All, All-split, if_case,
}
use wander.TcpEngine.Engine.{
  Config, Engine, left, Worker, locked_section, spawned, accepted, accept_failed, leave_conn,
  forget_conn, count_round, close_connections,
}
use wander.TcpEngine.Server.{
  Phase, running, uncounted, Handle, Stage, starting, loading, waiting, ending, Server, after_turn,
  after_leave, after_forget, after_limit, after_load, after_shut, HasLeft, Step, turn, accept, fail,
  round, leave, forget, stop, test_limit, load, shut, Reach, here, next, started,
}

abbrev running_of : Phase → ℕ
running_of running = 1
running_of uncounted = 0

pub running_count : List Handle → ℕ
running_count [] = 0
running_count (h ∷ hs) = running_of h.phase + running_count hs

running_count-append :
    (hs js : List Handle) → running_count (hs ++ js) ≡ running_count hs + running_count js
unfolding running_count
running_count-append [] js = omega arith
running_count-append (h ∷ hs) js = omega (arith, running_count-append hs js)

-- The closes of the switch, by the place where `Start` and `workerWait` stand.
abbrev pub Switched : Config → Stage → Engine → Type 0
Switched conf starting e =
    (e.switch_closes ≡ (if e.workloadon then 1 else 0))
    × ((conf.max_concurrent ≡ 0) → e.workloadon ≡ false)
Switched conf loading e = (conf.max_concurrent ≡ 0) × (e.switch_closes ≡ 1)
Switched conf waiting e =
    (e.switch_closes ≡ (if e.workloadon then 1 else 0))
    × ((conf.max_concurrent ≡ 0) → e.workloadon ≡ true)
Switched conf ending e = e.switch_closes ≡ 1

-- Behind the shutdown no worker runs.
abbrev pub AllLeft : Stage → List Worker → Type 0
AllLeft ending ws = All HasLeft ws
AllLeft _ ws = Unit

pub record Counts (conf : Config) (s : Server) : Type 0 where
  pub counted : s.eng.alive_count ≡ running_count s.handles
  pub limited : (conf.max_concurrent ≡ 0) ⊎ (s.eng.alive_count ≤ conf.max_concurrent)
  pub switched : Switched conf s.stage s.eng
  pub gone : AllLeft s.stage s.workers

-- A step of a worker is one before the shutdown.
not_ending :
    (st : Stage) (before after : List Worker) (w : Worker)
    → AllLeft st (before ++ w ∷ after)
    → w.place ≢ left
    → st ≢ ending
not_ending st before after w h p e =
    p (
      (All-split HasLeft before (w ∷ after) (subst (λ x. AllLeft x (before ++ w ∷ after)) e h)).1.0)

none_ending : (st : Stage) (ws : List Worker) → st ≢ ending → AllLeft st ws
none_ending starting ws h = tt
none_ending loading ws h = tt
none_ending waiting ws h = tt
none_ending ending ws h = absurd (h refl)

turn-Switched :
    (conf : Config) (st : Stage) (w : Worker) (e : Engine)
    → st ≢ ending
    → Switched conf st e
    → Switched conf st (locked_section conf w e).0
unfolding locked_section
turn-Switched conf starting w e ne h = ground arith
turn-Switched conf loading w e ne h = ground arith
turn-Switched conf waiting w e ne h = ground arith
turn-Switched conf ending w e ne h = absurd (ne refl)

-- An engine whose switch and load are the same.
same-Switched :
    (conf : Config) (st : Stage) (e e' : Engine)
    → e'.switch_closes ≡ e.switch_closes
    → e'.workloadon ≡ e.workloadon
    → Switched conf st e
    → Switched conf st e'
same-Switched conf starting e e' p q h = ground arith
same-Switched conf loading e e' p q h = ground arith
same-Switched conf waiting e e' p q h = ground arith
same-Switched conf ending e e' p q h = ground arith

pub at_work :
    {conf : Config} {s : Server} (before after : List Worker) (w : Worker)
    → s.workers ≡ before ++ w ∷ after
    → w.place ≢ left
    → Counts conf s
    → s.stage ≢ ending
at_work {s} before after w e p h =
    not_ending s.stage before after w (subst (AllLeft s.stage) e h.gone) p

-- The counters behind a turn of a worker.
turn_counted :
    (conf : Config) (s : Server) (before after : List Worker) (w : Worker)
    → Counts conf s
    → let t = after_turn conf before after w s in
      (t.eng.alive_count ≡ running_count t.handles)
      × ((conf.max_concurrent ≡ 0) ⊎ (t.eng.alive_count ≤ conf.max_concurrent))
unfolding locked_section spawned running_count
turn_counted conf s before after w h = ground (arith, h.counted, h.limited)

turn-Counts :
    (conf : Config) (s : Server) (before after : List Worker) (w : Worker)
    → s.stage ≢ ending
    → Counts conf s
    → Counts conf (after_turn conf before after w s)
turn-Counts conf s before after w ne h =
    let (counted, limited) = turn_counted conf s before after w h in
    record {
      counted = counted;
      limited = limited;
      switched = turn-Switched conf s.stage w s.eng ne h.switched;
      gone = none_ending s.stage _ ne;
    }

leave-Counts :
    (conf : Config) (s : Server) (before after : List Handle) (h : Handle)
    → s.handles ≡ before ++ h ∷ after
    → h.phase ≡ running
    → Counts conf s
    → Counts conf (after_leave before after h s)
unfolding leave_conn running_count
leave-Counts conf s before after h e p c =
    let n = running_count-append before (h ∷ after) in
    let m = running_count-append before (record h { phase = uncounted } ∷ after) in
    record {
      counted = ground (arith, c.counted, e, n, m);
      limited = ground (arith, c.limited);
      switched = same-Switched conf s.stage s.eng _ refl refl c.switched;
      gone = c.gone;
    }

forget-Counts :
    (conf : Config) (s : Server) (before after : List Handle) (h : Handle)
    → s.handles ≡ before ++ h ∷ after
    → h.phase ≡ uncounted
    → Counts conf s
    → Counts conf (after_forget conf before after h s)
unfolding forget_conn running_count
forget-Counts conf s before after h e p c =
    let n = running_count-append before (h ∷ after) in
    let m = running_count-append before after in
    record {
      counted = ground (arith, c.counted, e, n, m);
      limited = ground (arith, c.limited);
      switched =
          ground (
            arith,
            same-Switched conf s.stage s.eng (forget_conn conf h.connidx s.eng),
            c.switched,
          );
      gone = c.gone;
    }

-- A step that changes neither the counter nor the handles nor the switch.
quiet-Counts :
    (conf : Config) (s : Server) (e : Engine) (ws : List Worker)
    → e.alive_count ≡ s.eng.alive_count
    → e.switch_closes ≡ s.eng.switch_closes
    → e.workloadon ≡ s.eng.workloadon
    → AllLeft s.stage ws
    → Counts conf s
    → Counts conf (record s { eng = e; workers = ws })
quiet-Counts conf s e ws a b c gone h = record {
  counted = a ∙ h.counted;
  limited = ground (arith, h.limited);
  switched = same-Switched conf s.stage s.eng e b c h.switched;
  gone = gone;
}

limit-Counts :
    (conf : Config) (s : Server)
    → s.stage ≡ starting
    → Counts conf s
    → Counts conf (after_limit conf s)
limit-Counts conf s e h =
    let (closes, off) : Switched conf starting s.eng =
      subst (λ st. Switched conf st s.eng) e h.switched in
    if_case (Counts conf) (ltb 0 conf.max_concurrent)
      (λ some_limit. record {
        counted = h.counted;
        limited = h.limited;
        switched = (closes, λ none. absurd (ground (arith, some_limit, none)));
        gone = tt;
      })
      (λ no_limit. record {
        counted = h.counted;
        limited = h.limited;
        switched = (ground (arith, no_limit), ground (arith, no_limit, closes, off));
        gone = tt;
      })

load-Counts :
    (conf : Config) (s : Server) → s.stage ≡ loading → Counts conf s → Counts conf (after_load s)
load-Counts conf s e h =
    let (none, closes) : Switched conf loading s.eng =
      subst (λ st. Switched conf st s.eng) e h.switched in
    record { counted = h.counted; limited = h.limited; switched = (closes, λ _. refl); gone = tt }

shut-Counts :
    (conf : Config) (s : Server)
    → s.stage ≡ waiting
    → All HasLeft s.workers
    → Counts conf s
    → Counts conf (after_shut s)
unfolding close_connections
shut-Counts conf s e all_left h =
    let (closes, on) : Switched conf waiting s.eng =
      subst (λ st. Switched conf st s.eng) e h.switched in
    record {
      counted = h.counted;
      limited = h.limited;
      switched = ground (arith, closes);
      gone = all_left;
    }

pub Step-Counts : (conf : Config) (s t : Server) → Step conf s t → Counts conf s → Counts conf t
unfolding accepted accept_failed count_round
Step-Counts conf s t (turn before after w e p q) h = rw q (
    turn-Counts conf s before after w
      (at_work before after w e (λ l. absurd (ground (arith, p, l))) h) h)
Step-Counts conf s t (accept c before after w e p q) h = rw q (
    quiet-Counts conf s _ _ refl refl refl
      (none_ending s.stage _ (at_work before after w e (λ l. absurd (ground (arith, p, l))) h)) h)
Step-Counts conf s t (fail before after w e p q) h = rw q (
    quiet-Counts conf s _ _ refl refl refl
      (none_ending s.stage _ (at_work before after w e (λ l. absurd (ground (arith, p, l))) h)) h)
Step-Counts conf s t (round q) h = rw q (quiet-Counts conf s _ s.workers refl refl refl h.gone h)
Step-Counts conf s t (leave before after j e p q) h =
    rw q (leave-Counts conf s before after j e p h)
Step-Counts conf s t (forget before after j e p q) h =
    rw q (forget-Counts conf s before after j e p h)
Step-Counts conf s t (stop q) h = rw q (quiet-Counts conf s _ s.workers refl refl refl h.gone h)
Step-Counts conf s t (test_limit e q) h = rw q (limit-Counts conf s e h)
Step-Counts conf s t (load e q) h = rw q (load-Counts conf s e h)
Step-Counts conf s t (shut e l q) h = rw q (shut-Counts conf s e l h)

-- In every state that the listening side reaches, with a limit or without and by any interleaving of
-- the acceptors, the handles, `Start` and `workerWait`: the counter of alive connections is the number
-- of handles that are not counted off; it never passes the limit; the switch is closed at most once,
-- and behind the test of `Start` without a limit, and behind the shutdown, once; and behind the
-- shutdown no worker runs.
pub Reach-Counts :
    (conf : Config) (cpus : ℕ) {s : Server} → Reach conf (started cpus) s → Counts conf s
unfolding running_count
Reach-Counts conf cpus here = record {
  counted = refl;
  limited = ground arith;
  switched = (refl, λ _. refl);
  gone = tt;
}
Reach-Counts conf cpus (next {t = t} {u = u} r st) =
    Step-Counts conf t u st (Reach-Counts conf cpus r)
