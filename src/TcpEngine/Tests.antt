-- ===== src/TcpEngine/Tests.antt =====
-- Runs of the engine of tcpengine/tcpengine.go on which the theorems about it apply.
use wander.Base.{
  ◌++◌, All, ℕ, List, zero, suc, ◌<◌, ◌+◌, ◌≡◌, refl, Bool, true, false, take, length, [], ◌∷◌,
  arith, none, some,
}
use wander.Base.Assoc.{lookup, insert}
use wander.TcpEngine.Engine.{
  Config, top, connecting, Worker, locked_section, spawned, accepted, accept_failed,
  close_connections,
}
use wander.Base.Bytes.{Bytes, codes}
use wander.Base.Decimal.{all_digits, itoa}
use wander.Base.Int.{pos, int64, ◌+ℤ◌}
use wander.TcpEngine.Hosts.{
  entries, atoi, cut_scheme, has, same, resolve_entry, resolve_all, resolve_host_list,
}
use wander.TcpEngine.Hosts.Text.{comma, space, Between, single, double, separated}
use wander.TcpEngine.Hosts.Ranges.{put_all}
use wander.TcpEngine.Hosts.Whole.{
  Entry, host, hosts, behind_marks, all_meant, resolve_host_list-spelled,
}
use wander.TcpEngine.Hosts.Ports.{resolve_ports, resolve_port_entry, resolve_host_port_list}
use wander.TcpEngine.Hosts.Locals.{first_port, port_count, usable, usable_ports, address_parse}
use wander.TcpEngine.Hosts.Locals.Limit.{address_parse-take}
use wander.TcpEngine.Server
use wander.TcpEngine.Shutdown.{Manager, member}
use wander.TcpEngine.Server.Shut.{IsClosed, shutdown-IsClosed}
use wander.TcpEngine.Server.Invariant.{Counts, Reach-Counts}
use wander.TcpEngine.Server.Entries.{AllMapped, Reach-AllMapped}
use wander.TcpEngine.Client
use wander.Base.Occurs.{times}
use wander.TcpEngine.Client.Addresses.{known, lost_by, Reach-known}
use wander.TcpEngine.Client.Race.{unlimited, handle_of, alive_without_entry}
use wander.TcpEngine.Rate.{Rate}

abbrev one_at_most : Config
one_at_most = record { max_concurrent = 1; exitmax = false; nomap = false }

-- One acceptor accepts a connection and hands it to a handle.
abbrev at_accept : Server.Server
at_accept = Server.after_turn one_at_most [] [] Server.fresh_worker (Server.started 1)

abbrev accepting : Worker
accepting = record { place = connecting; newconn = false; conn = 0; connidx = 0 }

abbrev has_accepted : Server.Server
has_accepted = Server.after_accept 70 [] [] accepting at_accept

abbrev holding : Worker
holding = record { place = top; newconn = true; conn = 70; connidx = 1 }

abbrev one_alive : Server.Server
one_alive = Server.after_turn one_at_most [] [] holding has_accepted

Reach-one_alive : Server.Reach one_at_most (Server.started 1) one_alive
unfolding locked_section spawned accepted
Reach-one_alive =
    Server.next
      (Server.next (Server.next Server.here (Server.turn [] [] Server.fresh_worker refl refl refl))
        (Server.accept 70 [] [] accepting refl refl refl))
      (Server.turn [] [] holding refl refl refl)

one_is_alive : (one_alive.eng.alive_count ≡ 1) × (lookup 1 one_alive.eng.conns ≡ some 70)
unfolding locked_section spawned accepted lookup insert
one_is_alive = (refl, refl)

Reach-Counts_example : Counts one_at_most one_alive
Reach-Counts_example = Reach-Counts one_at_most 1 Reach-one_alive

Reach-AllMapped_example : AllMapped one_alive
Reach-AllMapped_example = Reach-AllMapped one_at_most 1 Reach-one_alive refl

-- A connector takes an address, and its dial times out.
abbrev dialling : Client.Client
dialling =
    Client.after_receive 5 (6 ∷ [])
      (Client.after_turn unlimited (Client.started unlimited (5 ∷ 6 ∷ [])))

abbrev timed_out : Client.Client
timed_out = Client.after_dial Client.timeout dialling

Reach-timed_out : Client.Reach unlimited (Client.started unlimited (5 ∷ 6 ∷ [])) timed_out
unfolding locked_section spawned
Reach-timed_out =
    Client.next
      (Client.next (Client.next Client.here (Client.turn refl refl))
        (Client.receive 5 (6 ∷ []) refl refl refl refl))
      (Client.dial Client.timeout refl refl refl)

Reach-known_example : known 5 timed_out + lost_by unlimited Reach-timed_out 5 ≡ times 5 (5 ∷ 6 ∷ [])
Reach-known_example = Reach-known unlimited (5 ∷ 6 ∷ []) Reach-timed_out 5

alive_without_entry_example :
    (s : Client.Client) × Client.Reach unlimited (Client.started unlimited (5 ∷ [])) s
    × (s.handles ≡ handle_of 5 70 71 71 ∷ [])
    × (s.eng.alive_count ≡ 1)
    × (lookup 5 s.eng.conns ≡ none)
alive_without_entry_example = alive_without_entry 5 70 71

-- Ranges of hosts, ports, and local addresses.
abbrev net : Bytes
net = codes "10.0.0"

resolve_runs :
    (resolve_host_list 9 (codes "10.0.0.7-9,WWW.x")
      ≡ some (codes "10.0.0.7" ∷ codes "10.0.0.8" ∷ codes "10.0.0.9" ∷ codes "www.x" ∷ []))
    × (resolve_host_port_list 9 (codes "a:81 b") ≡ some (codes "a:81" ∷ codes "b:80" ∷ []))
unfolding resolve_host_list resolve_host_port_list entries resolve_all resolve_ports resolve_entry
    resolve_port_entry cut_scheme all_digits itoa has same int64 ◌+ℤ◌
resolve_runs = (refl, refl)

abbrev behind_first : List (Between × Entry)
behind_first =
    (double comma space, hosts (codes "1.1.1") 7 9) ∷ (single space, host (codes "b")) ∷ []

resolve_host_list-spelled_example :
    resolve_host_list 9 (codes "a" ++ separated (behind_marks behind_first))
    ≡ some (
        put_all
          (all_meant (host (codes "a") ∷ hosts (codes "1.1.1") 7 9 ∷ host (codes "b") ∷ []))
          [])
resolve_host_list-spelled_example =
    resolve_host_list-spelled 9 (host (codes "a")) behind_first (ground arith) (ground arith)

is_81 : atoi (codes "81") ≡ some (pos 81)
unfolding atoi all_digits
is_81 = refl

abbrev all_resolve : Bytes → Bool
all_resolve s = true

abbrev none_resolves : Bytes → Bool
none_resolves s = false

abbrev one_host : List Bytes
one_host = codes "127.0.0.1" ∷ []

address_parse-take_example :
    (address_parse all_resolve one_host (pos 5)).0 ≡ take 10 (usable all_resolve one_host)
address_parse-take_example = address_parse-take all_resolve one_host 5 (omega arith)

no_usable_ports :
    (left : ℕ) (ip : Bytes) (lport : ℕ) → usable_ports none_resolves left ip lport ≡ []
unfolding usable_ports
no_usable_ports zero ip lport = refl
no_usable_ports (suc left) ip lport = no_usable_ports left ip (lport + 1)

no_usable : length (usable none_resolves one_host) < 500
unfolding usable
no_usable = rw (no_usable_ports port_count (codes "127.0.0.1") first_port) (omega arith)

-- The acceptor stops while its connection runs, `Start` passes its test, and `workerWait` closes.
abbrev stopping : Server.Server
stopping = record one_alive { eng = record (one_alive.eng) { closing = true } }

abbrev accepting_more : Worker
accepting_more = record { place = connecting; newconn = false; conn = 70; connidx = 1 }

abbrev stopped : Server.Server
stopped = Server.after_limit one_at_most (Server.after_failure [] [] accepting_more stopping)

abbrev shut_down : Server.Server
shut_down = Server.after_shut stopped

Reach-shut_down : Server.Reach one_at_most (Server.started 1) shut_down
unfolding locked_section spawned accepted accept_failed
Reach-shut_down =
    Server.next
      (Server.next
        (Server.next (Server.next Reach-one_alive (Server.stop refl))
          (Server.fail [] [] accepting_more refl refl refl))
        (Server.test_limit refl refl))
      (Server.shut refl (refl, tt) refl)

shutdown-IsClosed_example :
    All (IsClosed shut_down.eng) shut_down.handles
    × (shut_down.eng.switch_closes ≡ 1)
    × (shut_down.eng.closing ≡ true)
    × All Server.HasLeft shut_down.workers
unfolding accept_failed
shutdown-IsClosed_example = shutdown-IsClosed one_at_most 1 Reach-shut_down refl refl

-- Without a limit `Start` closes the switch, and the shutdown does not close it again.
abbrev no_limit : Config
no_limit = record { max_concurrent = 0; exitmax = false; nomap = false }

no_second_close :
    (Server.after_limit no_limit (Server.started 0)).eng.switch_closes
    ≡ (Server.after_shut
        (Server.after_load (Server.after_limit no_limit (Server.started 0)))).eng.switch_closes
unfolding close_connections
no_second_close = refl

abbrev manager : Manager
manager = record {
  eng = (Server.started 1).eng;
  closed = false;
  listenfds = 3 ∷ 4 ∷ [];
  closed_fds = [];
  broadcasts = 0;
  exitcnt = 0;
}

is_exit : (member 10 (2 ∷ []) ≡ false) × (member 2 (2 ∷ []) ≡ true)
unfolding member
is_exit = (refl, refl)
