-- ===== src/QpsServer/Server/Limit.antt =====
-- The counter of the connections, and the limit that it enforces.
use wander.Base.{ℕ, ◌+◌, ◌≤◌, ◌≡◌, ap, arith, if◌then◌else◌}
use wander.Base.Int.{pos, ◌+ℤ◌, ◌-ℤ◌}
use wander.QpsServer.Event.{
  is_destroyed, destroyed, total_conn_init, total_conn_closed, total_time_esp,
}
use wander.QpsServer.Response.{Mode}
use wander.QpsServer.Stream.Keeps.{destroyed_count, destroyed_count-append}
use wander.QpsServer.Server.{
  Acceptor, added, Counter, took, Main, start, spawn, raise, lower, count_event, report, Step,
  accept, accept_fails, announce, add, compare_counter, event, served, refused, leak, tick,
  take_event, took_destroyed, tell, took_other, count, display, Reach, begin, next,
}

abbrev is_added : Acceptor → ℕ
is_added added = 1
is_added _ = 0

abbrev pending_lower : Counter → ℕ
pending_lower (took e) = if is_destroyed e then 1 else 0
pending_lower _ = 0

-- Connections that are closed and not yet taken off the counter.
abbrev pub leaving : Main → ℕ
leaving s = destroyed_count s.channel + pending_lower s.counter

-- Connections that count against the limit.
abbrev pub held : Main → ℕ
held s = s.serving + s.refusing + s.leaked + leaving s

-- The counter is exact, up to the connection that the acceptor has in hand, and the handlers that
-- serve are within the limit.
pub record IsCounted (max : ℕ) (s : Main) : Type 0 where
  pub exact : s.conn_counter ≡ pos (held s + is_added s.acceptor)
  pub limited : s.serving + s.leaked ≤ max

start-IsCounted : (max : ℕ) → IsCounted max (start max)
unfolding start
start-IsCounted max = ground arith

Step-IsCounted :
    {mode : Mode} {max : ℕ} {s t : Main} → Step mode max s t → IsCounted max s → IsCounted max t
unfolding spawn raise lower count_event report ◌+ℤ◌ ◌-ℤ◌
Step-IsCounted (accept s a) c = ground arith
Step-IsCounted (accept_fails s a) c = ground arith
Step-IsCounted (announce s a r) c = ground (arith, destroyed_count-append s.channel total_conn_init)
Step-IsCounted (add s a) c = ground arith
Step-IsCounted (compare_counter s a) c = ground arith
Step-IsCounted (event s e h n r) c = ground (arith, destroyed_count-append s.channel e)
Step-IsCounted (served s n h r) c = ground (arith, destroyed_count-append s.channel destroyed)
Step-IsCounted (refused s n h r) c = ground (arith, destroyed_count-append s.channel destroyed)
Step-IsCounted (leak s n m h) c = ground arith
Step-IsCounted (tick s r) c = ground (arith, destroyed_count-append s.channel total_time_esp)
Step-IsCounted (take_event s e rest w q) c = ground (arith, ap destroyed_count q)
Step-IsCounted (took_destroyed s w) c = ground arith
Step-IsCounted (tell s w r) c = ground (arith, destroyed_count-append s.channel total_conn_closed)
Step-IsCounted (took_other s e w n) c = ground arith
Step-IsCounted (count s e w) c = ground arith
Step-IsCounted (display s) c = ground arith

-- In every reachable state the counter is the number of connections that are held, with the one
-- that the acceptor is about to place; and the handlers that serve are within the limit.
pub Reach-IsCounted : {mode : Mode} {max : ℕ} {s : Main} → Reach mode max s → IsCounted max s
Reach-IsCounted {max} begin = start-IsCounted max
Reach-IsCounted (next r st) = Step-IsCounted st (Reach-IsCounted r)
