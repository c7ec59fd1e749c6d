-- ===== src/TcpEngine/Start.antt =====
-- `Start` of tcpengine/tcpengine.go: how the engine is set up, in either mode. The files of the
-- profiler, the tickers and the messages are left out.
use wander.Base.{
  ◌++◌, ℕ, zero, suc, ◌+◌, ◌/◌, ◌%◌, ◌≡◌, refl, Bool, true, false, List, [], ◌∷◌, Option, none,
  some, arith, length, ltb, ◌==◌, if◌then◌else◌,
}

-- `eng.conf.cpus`, behind its default: a half or a quarter of the processors, and one.
unfoldable pub worker_cpus : Bool → ℕ → ℕ → ℕ
worker_cpus listen_mode procs cpus =
    if cpus == 0 then (if listen_mode then procs / 4 + 1 else procs / 2 + 1) else cpus

-- `eng.laddrPool[i] <- connidx`, on a channel of `avglen` places; `none` is a send that blocks, with
-- no receiver yet, or an index out of range.
unfoldable pub send_to : ℕ → ℕ → ℕ → List (List ℕ) → Option (List (List ℕ))
send_to avglen i connidx [] = none
send_to avglen zero connidx (pool ∷ pools) =
    if ltb (length pool) avglen then some ((pool ++ connidx ∷ []) ∷ pools) else none
send_to avglen (suc i) connidx (pool ∷ pools) = elim (send_to avglen i connidx pools) [
  | none ↦ none
  | some pools' ↦ some (pool ∷ pools')
]

-- `for connidx, _ := range eng.laddrList { … }`
unfoldable pub preload : ℕ → ℕ → ℕ → ℕ → List (List ℕ) → Option (List (List ℕ))
preload cpus avglen zero connidx pools = some pools
preload cpus avglen (suc left) connidx pools =
    elim (send_to avglen (connidx % cpus) connidx pools) [
      | none ↦ none
      | some pools' ↦ preload cpus avglen left (connidx + 1) pools'
    ]

unfoldable pub empty_pools : ℕ → List (List ℕ)
empty_pools zero = []
empty_pools (suc n) = [] ∷ empty_pools n

-- The channels of addresses, one for each connector.
unfoldable pub laddr_pool : ℕ → ℕ → Option (List (List ℕ))
unfolding send_to preload empty_pools
laddr_pool cpus addresses = preload cpus (addresses / cpus + cpus) addresses 0 (empty_pools cpus)

-- The acceptors behind the first: each has a listener of its own, or shares the first one if no more
-- can be opened. `listen idx` is what `ListenTCP` returns.
unfoldable pub listen_loop : (ℕ → Option ℕ) → ℕ → ℕ → ℕ → List ℕ
listen_loop listen l zero idx = []
listen_loop listen l (suc left) idx =
    let rest = listen_loop listen l left (idx + 1) in
    elim (listen idx) [ none ↦ l ∷ rest | some nl ↦ nl ∷ rest ]

-- How `Start` ends: the address of the peer does not resolve; the process exits since there is no
-- local address; no listener can be opened; a send blocks; or the workers run, with their channels
-- or their listeners, and with the work load on or off.
pub data Startup : Type 0 where
  unresolved exits listen_failed blocks : Startup
  connecting : List (List ℕ) → Bool → Startup
  listening : List ℕ → Bool → Startup

-- The work load is off as long as a limit has not been reached.
abbrev pub workload_on : ℕ → Bool
workload_on max_concurrent = if ltb 0 max_concurrent then false else true

abbrev pub connectors : Option (List (List ℕ)) → ℕ → Startup
connectors none max_concurrent = blocks
connectors (some pools) max_concurrent = connecting pools (workload_on max_concurrent)

unfoldable pub start_connectors : ℕ → ℕ → ℕ → Startup
unfolding laddr_pool
start_connectors cpus addresses max_concurrent =
    if addresses == 0 then exits else connectors (laddr_pool cpus addresses) max_concurrent

abbrev pub other_acceptors : ℕ → ℕ
other_acceptors zero = 0
other_acceptors (suc n) = n

unfoldable pub start_acceptors : (ℕ → Option ℕ) → ℕ → ℕ → Startup
unfolding listen_loop
start_acceptors listen cpus max_concurrent = elim (listen 0) [
  | none ↦ listen_failed
  | some l ↦
      listening (l ∷ listen_loop listen l (other_acceptors cpus) 1) (workload_on max_concurrent)
]

-- `addresses` is the length of the list of `addressParse`, and `max_concurrent` the limit behind it.
unfoldable pub start : Bool → Bool → ℕ → ℕ → ℕ → (ℕ → Option ℕ) → ℕ → Startup
unfolding worker_cpus start_connectors start_acceptors
start resolves listen_mode procs cpus addresses listen max_concurrent =
    let workers = worker_cpus listen_mode procs cpus in
    if resolves
    then (if listen_mode
        then start_acceptors listen workers max_concurrent
        else start_connectors workers addresses max_concurrent)
    else unresolved

abbrev only_first : ℕ → Option ℕ
only_first zero = some 30
only_first (suc n) = none

start_runs :
    (start true false 4 2 5 only_first 0 ≡ connecting ((0 ∷ 2 ∷ 4 ∷ []) ∷ (1 ∷ 3 ∷ []) ∷ []) true)
    × (start true true 8 0 0 only_first 7 ≡ listening (30 ∷ 30 ∷ 30 ∷ []) false)
    × (start true false 4 2 0 only_first 0 ≡ exits)
unfolding start
start_runs = (refl, refl, refl)

length-listen_loop :
    (listen : ℕ → Option ℕ) (l left idx : ℕ) → length (listen_loop listen l left idx) ≡ left
unfolding listen_loop
length-listen_loop listen l zero idx = refl
length-listen_loop listen l (suc left) idx =
    ground (arith, length-listen_loop listen l left (idx + 1))
