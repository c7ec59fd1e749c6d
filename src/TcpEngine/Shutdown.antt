-- ===== src/TcpEngine/Shutdown.antt =====
-- The end of the engine: `sigHandle`, `Close` and `workerWait` of tcpengine/tcpengine.go.
use wander.Base.{
  ℕ, ◌+◌, ◌≤◌, ◌≡◌, Bool, true, false, ◌&&◌, List, [], ◌∷◌, ◌++◌, arith, ltb, ◌==◌, if◌then◌else◌,
  length, All,
}
use wander.TcpEngine.Engine.{Engine, close_connections}

-- The listeners that have been closed, and the flags of the engine.
pub record Manager : Type 0 where
  pub eng : Engine
  pub closed : Bool
  pub listenfds : List ℕ
  pub closed_fds : List ℕ
  pub broadcasts : ℕ
  pub exitcnt : ℕ

abbrev close_listeners : Manager → Manager
close_listeners m = record m { closed_fds = m.listenfds ++ m.closed_fds }

abbrev set_closing : Manager → Manager
set_closing m = record m { eng = record (m.eng) { closing = true } }

abbrev broadcast : Manager → Manager
broadcast m = record m { broadcasts = m.broadcasts + 1 }

unfoldable pub member : ℕ → List ℕ → Bool
member sig [] = false
member sig (x ∷ xs) = let rest = member sig xs in if x == sig then true else rest

abbrev pub net_force_exit : ℕ
net_force_exit = 5

-- `os.Exit(1)`, or the next round.
pub data Signalled : Type 0 where
  exits_process : Signalled
  goes_on : Manager → Signalled

-- The first half of a round: the signals of `conf.notifys` are printed only.
unfoldable pub take_signal : List ℕ → ℕ → Manager → Manager
unfolding member
take_signal exits sig m =
    if m.eng.closing
    then record m { exitcnt = m.exitcnt + 1 }
    else if member sig exits
    then broadcast (close_listeners (set_closing m))
    else m

-- One round of `sigHandle`.
unfoldable pub sig_handle : List ℕ → ℕ → Manager → Signalled
unfolding take_signal
sig_handle exits sig m =
    let m' = take_signal exits sig m in
    if m'.eng.closing && ltb net_force_exit m'.exitcnt then exits_process else goes_on m'

unfoldable pub sig_loop : List ℕ → List ℕ → Manager → Signalled
sig_loop exits [] m = goes_on m
sig_loop exits (sig ∷ sigs) m = elim (sig_handle exits sig m) [
  | exits_process ↦ exits_process
  | goes_on m' ↦ sig_loop exits sigs m'
]

-- `Close`; `false` is the error "engine already closed".
unfoldable pub close : Manager → Manager × Bool
close m = if m.closed then (m, false) else (set_closing (close_listeners m), true)

unfoldable pub worker_wait : Manager → Manager
unfolding close_connections
worker_wait m =
    let stopped = broadcast (close_listeners m) in
    record stopped { eng = close_connections stopped.eng }

-- The last loop: it ends when no connection is alive.
unfoldable pub finish_wait : Manager → Manager
finish_wait m = if m.eng.alive_count == 0 then record m { closed = true } else m

closing_loop :
    (exits sigs : List ℕ) (m : Manager)
    → m.eng.closing ≡ true
    → m.exitcnt ≤ net_force_exit
    → sig_loop exits sigs m ≡ (
        if ltb net_force_exit (m.exitcnt + length sigs)
        then exits_process
        else goes_on (record m { exitcnt = m.exitcnt + length sigs }))
unfolding sig_loop sig_handle take_signal
closing_loop exits [] m c le = ground arith
closing_loop exits (sig ∷ sigs) m c le =
    ground (arith, closing_loop exits sigs (record m { exitcnt = m.exitcnt + 1 }))

-- Signals that do not ask for the exit change nothing, however many come. The first that does closes
-- the engine and its listeners; five more signals of any kind are only counted, and the next one ends
-- the process.
pub sig_loop_lem :
    (exits quiet sigs : List ℕ) (sig : ℕ) (m : Manager)
    → m.eng.closing ≡ false
    → m.exitcnt ≡ 0
    → All (λ q. member q exits ≡ false) quiet
    → member sig exits ≡ true
    → sig_loop exits (quiet ++ sig ∷ sigs) m ≡ (
        if ltb net_force_exit (length sigs)
        then exits_process
        else goes_on
            (record (broadcast (close_listeners (set_closing m))) { exitcnt = length sigs }))
unfolding sig_loop sig_handle take_signal
sig_loop_lem exits [] sigs sig m o z h e =
    ground (arith, closing_loop exits sigs (broadcast (close_listeners (set_closing m))))
sig_loop_lem exits (q ∷ quiet) sigs sig m o z (hq, h) e =
    ground (arith, sig_loop_lem exits quiet sigs sig m o z h e)
