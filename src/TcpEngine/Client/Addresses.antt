-- ===== src/TcpEngine/Client/Addresses.antt =====
-- Where the local addresses of a connector of tcpengine/tcpengine.go are.
use wander.Base.{
  ℕ, ◌+◌, ◌≡◌, ap, true, false, ◌&&◌, ◌||◌, List, [], ◌∷◌, ◌++◌, arith, ◌==◌, if◌then◌else◌,
}
use wander.Base.Occurs.{times, times-append}
use wander.TcpEngine.Engine.{Config, connecting, locked_section, spawned}
use wander.TcpEngine.Client.{
  uncounted, returned, Handle, Client, connected, in_use, timeout, other_error, Step, turn, receive,
  dial, round, leave, give_back, forget, stop, Reach, here, next, started,
}

-- The addresses that handles hold: until they are given back.
abbrev held_by : ℕ → Handle → ℕ
held_by k h = elim h.phase [ returned ↦ 0 | _ ↦ if h.connidx == k then 1 else 0 ]

pub held : ℕ → List Handle → ℕ
held k [] = 0
held k (h ∷ hs) = held_by k h + held k hs

held-append : (k : ℕ) (hs js : List Handle) → held k (hs ++ js) ≡ held k hs + held k js
unfolding held
held-append k [] js = omega arith
held-append k (h ∷ hs) js = omega (arith, held-append k hs js)

-- The address that the connector itself holds.
abbrev pub in_hand : ℕ → Client → ℕ
in_hand k s = if (s.dialling || s.worker.newconn) && s.worker.connidx == k then 1 else 0

pub known : ℕ → Client → ℕ
known k s = times k s.pool + in_hand k s + held k s.handles

-- A worker behind its locked section holds no connection but one that a closing engine left it.
pub record IsOrderly (s : Client) : Type 0 where
  pub dials : s.dialling ≡ true → (s.worker.place ≡ connecting) × (s.worker.newconn ≡ false)
  pub empty : s.worker.place ≡ connecting → s.worker.newconn ≡ false

Step-IsOrderly : (conf : Config) (s t : Client) → Step conf s t → IsOrderly s → IsOrderly t
unfolding locked_section
Step-IsOrderly conf s t (turn p q) o = rw q (ground arith)
Step-IsOrderly conf s t (receive a rest p d e q) o = rw q (ground arith)
Step-IsOrderly conf s t (dial (connected c) p d q) o = rw q (ground arith)
Step-IsOrderly conf s t (dial in_use p d q) o = rw q (ground arith)
Step-IsOrderly conf s t (dial timeout p d q) o = rw q (ground arith)
Step-IsOrderly conf s t (dial other_error p d q) o = rw q (ground arith)
Step-IsOrderly conf s t (round q) o = rw q (ground arith)
Step-IsOrderly conf s t (leave before after h e p q) o = rw q (ground arith)
Step-IsOrderly conf s t (give_back before after h e p q) o = rw q (ground arith)
Step-IsOrderly conf s t (forget before after h e p q) o = rw q (ground arith)
Step-IsOrderly conf s t (stop q) o = rw q (ground arith)

-- The step loses an address: the dial of `k` has failed.
abbrev pub lost : (conf : Config) {s t : Client} → Step conf s t → ℕ → ℕ
lost conf {s} (dial (connected c) p d q) k = 0
lost conf {s} (dial _ p d q) k = if s.worker.connidx == k then 1 else 0
lost conf _ k = 0

Step-known :
    (conf : Config) (s t : Client) (st : Step conf s t) (k : ℕ)
    → IsOrderly s
    → known k t + lost conf st k ≡ known k s
unfolding known locked_section spawned times held
Step-known conf s t (turn p q) k o =
    rw q (ground (arith, times-append k s.pool (s.worker.connidx ∷ [])))
Step-known conf s t (receive a rest p d e q) k o = rw q (ground (arith, ap (times k) e))
Step-known conf s t (dial (connected c) p d q) k o = rw q (ground arith)
Step-known conf s t (dial in_use p d q) k o = rw q (ground arith)
Step-known conf s t (dial timeout p d q) k o = rw q (ground arith)
Step-known conf s t (dial other_error p d q) k o = rw q (ground arith)
Step-known conf s t (round q) k o = rw q (ground arith)
Step-known conf s t (leave before after h e p q) k o = rw q (
    ground (
      arith,
      ap (held k) e,
      held-append k before (h ∷ after),
      held-append k before (record h { phase = uncounted } ∷ after),
    ))
Step-known conf s t (give_back before after h e p q) k o = rw q (
    ground (
      arith,
      ap (held k) e,
      held-append k before (h ∷ after),
      held-append k before (record h { phase = returned } ∷ after),
      times-append k s.pool (h.connidx ∷ []),
    ))
Step-known conf s t (forget before after h e p q) k o =
    rw q
      (ground (arith, ap (held k) e, held-append k before (h ∷ after), held-append k before after))
Step-known conf s t (stop q) k o = rw q (ground arith)

-- The addresses that the dials of a run have lost.
pub lost_by : (conf : Config) {s t : Client} → Reach conf s t → ℕ → ℕ
lost_by conf here k = 0
lost_by conf (next r st) k = lost_by conf r k + lost conf st k

Reach-IsOrderly :
    (conf : Config) (addresses : List ℕ) {s : Client}
    → Reach conf (started conf addresses) s
    → IsOrderly s
Reach-IsOrderly conf addresses here = ground arith
Reach-IsOrderly conf addresses (next {t = t} {u = u} r st) =
    Step-IsOrderly conf t u st (Reach-IsOrderly conf addresses r)

-- In every state that a connector reaches each of its addresses is in its channel, in its hand, or
-- with a handle that has not given it back, as often as it was there at the start, less the dials of
-- it that failed: a failed dial loses the address for good, be the failure a mere time-out.
pub Reach-known :
    (conf : Config) (addresses : List ℕ) {s : Client} (r : Reach conf (started conf addresses) s)
    (k : ℕ)
    → known k s + lost_by conf r k ≡ times k addresses
unfolding lost_by
Reach-known conf addresses here k = unfold known held in ground arith
Reach-known conf addresses (next {t = t} {u = u} r st) k = omega (
  arith,
  Reach-known conf addresses r k,
  Step-known conf t u st k (Reach-IsOrderly conf addresses r),
)
