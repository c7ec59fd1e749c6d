-- ===== src/TcpEngine/Engine.antt =====
-- The state that the goroutines of an `Engine` share, and what its workers and handles do to it in
-- one locked or atomic section. A connection is a number.
use wander.Base.{
  ℕ, ◌+◌, ◌-◌, Bool, true, false, ◌&&◌, not, List, ◌∷◌, Option, none, some, leb, ltb, [], ◌++◌,
  ◌==◌, if◌then◌else◌,
}
use wander.Base.Assoc.{insert, erase}

-- The options of `Config` that the workers read.
pub record Config : Type 0 where
  pub max_concurrent : ℕ
  pub exitmax : Bool
  pub nomap : Bool

-- `switch_closes` counts the calls of `close(eng.workswitch)`; a second one would panic.
pub record Engine : Type 0 where
  pub closing : Bool
  pub workloadon : Bool
  pub switch_closes : ℕ
  pub alive_count : ℕ
  pub new_count : ℕ
  pub rw_count : ℕ
  pub conns : List (ℕ × ℕ)
  pub closed_conns : List ℕ

-- Where a worker stands: at the top of its loop, at the accept or the dial, or behind the loop.
pub data Place : Type 0 where
  top connecting left : Place

pub record Worker : Type 0 where
  pub place : Place
  pub newconn : Bool
  pub conn : ℕ
  pub connidx : ℕ

-- `conn.Close()`
abbrev pub close_conn : ℕ → Engine → Engine
close_conn c e = record e { closed_conns = c ∷ e.closed_conns }

-- `if newconn { newconn = false; conn.Close() }`; the connector gives its address back as well.
abbrev pub drop_new : Worker → Engine → Engine × Worker
drop_new w e = if w.newconn then (close_conn w.conn e, record w { newconn = false }) else (e, w)

-- `if eng.workloadon == false { … }`
abbrev pub switch_on : Engine → Engine
switch_on e =
    if e.workloadon then e else record e { workloadon = true; switch_closes = e.switch_closes + 1 }

-- The limit has been reached: the worker leaves, or waits and looks again.
abbrev pub at_limit : Config → Worker → Engine → Engine × Worker
at_limit conf w e =
    let (e', w') = drop_new w e in
    if conf.exitmax
    then (record e' { closing = true }, record w' { place = left })
    else (switch_on e', record w' { place = top })

-- `if newconn { … }` below the limit: the connection is entered and counted.
abbrev pub enter_new : Config → Worker → Engine → Engine × Worker
enter_new conf w e =
    if w.newconn
    then (
      record e {
        conns = if conf.nomap then e.conns else insert w.connidx w.conn e.conns;
        alive_count = e.alive_count + 1;
      },
      record w { newconn = false; place = connecting },
    )
    else (e, record w { place = connecting })

abbrev pub limit_reached : Config → Engine → Bool
limit_reached conf e = ltb 0 conf.max_concurrent && leb conf.max_concurrent e.alive_count

-- The section of the loop of `acceptor` and `connector` that holds `maxLock`.
unfoldable pub locked_section : Config → Worker → Engine → Engine × Worker
locked_section conf w e =
    if e.closing
    then (e, record w { place = left })
    else if limit_reached conf e
    then at_limit conf w e
    else enter_new conf w e

-- The connection that the section hands to a new handle, if it does.
unfoldable pub spawned : Config → Worker → Engine → Option (ℕ × ℕ)
spawned conf w e =
    if not e.closing && (not (limit_reached conf e) && w.newconn)
    then some (w.connidx, w.conn)
    else none

-- `AcceptTCP` has returned a connection: the counter of all connections is its index.
unfoldable pub accepted : ℕ → Worker → Engine → Engine × Worker
accepted c w e =
    let n = e.new_count + 1 in
    (record e { new_count = n }, record w { newconn = true; conn = c; connidx = n; place = top })

-- `AcceptTCP` has failed: the engine closes.
unfoldable pub accept_failed : Worker → Engine → Engine × Worker
accept_failed w e = (record e { closing = true }, record w { place = left })

-- The end of a handle: the connection is closed and counted off; later its entry is deleted.
unfoldable pub leave_conn : ℕ → Engine → Engine
leave_conn c e = record (close_conn c e) { alive_count = e.alive_count - 1 }

unfoldable pub forget_conn : Config → ℕ → Engine → Engine
forget_conn conf idx e = if conf.nomap then e else record e { conns = erase idx e.conns }

-- One round of the read and write loop of a handle.
unfoldable pub count_round : Engine → Engine
count_round e = record e { rw_count = e.rw_count + 1 }

unfoldable pub conn_values : List (ℕ × ℕ) → List ℕ
conn_values [] = []
conn_values ((idx, conn) ∷ m) = conn ∷ conn_values m

-- What `workerWait` does to the connections and the switch when all workers have left: every
-- connection in the map is closed, and the switch too unless it is.
unfoldable pub close_connections : Engine → Engine
unfolding conn_values
close_connections e = record e {
  closing = true;
  closed_conns = conn_values e.conns ++ e.closed_conns;
  switch_closes = if e.switch_closes == 0 then 1 else e.switch_closes;
}
