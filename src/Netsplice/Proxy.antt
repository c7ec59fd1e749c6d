-- ===== src/Netsplice/Proxy.antt =====
-- `netFD`, `Proxy` and `Transfer` of netsplice-echo-proxy/splicetest/funny/proxy_linux.go. What the
-- kernel returns is an argument; the calls that reach it are a log.
pub mod Laws
pub mod Closings
pub mod Through
use wander.Base.{
  ℕ, ◌+◌, ◌≡◌, refl, Bool, true, false, ◌||◌, List, [], ◌∷◌, ◌++◌, Option, none, some, arith, ◌==◌,
  if◌then◌else◌,
}
use wander.Base.Assoc.{lookup, insert, erase}
use wander.Netsplice.Pipe.{Err, nil, epoll_error, is_nil}
use wander.Netsplice.NetPd.{Flag, free, closed, NetPd}
use wander.Netsplice.Splice.{first_err}

-- A `*netFD`: the descriptor, and the address of its `netPD`.
pub record NetFd : Type 0 where
  pub sysfd : ℕ
  pub addr : ℕ

pub data Syscall : Type 0 where
  epoll_add epoll_del close : ℕ → Syscall
  signal_read signal_write : ℕ → Syscall
  close_conn : ℕ → Syscall

pub record Proxy : Type 0 where
  pub conns : List (ℕ × NetFd)
  pub pds : List (ℕ × NetPd)
  pub next : ℕ
  pub calls : List Syscall

-- What `File`, `SetNonblock` and `EpollCtl` return for one connection.
pub record Kernel : Type 0 where
  pub sysfd : ℕ
  pub file : Err
  pub set_nonblock : Err
  pub epoll_ctl : Err

abbrev pub call : Syscall → Proxy → Proxy
call c p = record p { calls = p.calls ++ c ∷ [] }

unfoldable pub add_fd : NetFd → Proxy → Proxy
add_fd fd p = record p { conns = insert fd.sysfd fd p.conns }

-- Whatever stands under the number is deleted, if something does.
unfoldable pub del_fd : NetFd → Proxy → Proxy
del_fd fd p = record p { conns = erase fd.sysfd p.conns }

unfoldable pub get_fd : ℕ → Proxy → Option NetFd
get_fd n p = lookup n p.conns

abbrev pub new_pd : NetPd
new_pd = record { r_flag = free; w_flag = free; err = nil }

-- What `netPD.Close` leaves when its loops have ended.
abbrev pub closed_pd : NetPd
closed_pd = record { r_flag = closed; w_flag = closed; err = epoll_error }

unfoldable pub close_fd : NetFd → Proxy → Proxy
close_fd fd p = call (close fd.sysfd) (record p { pds = insert fd.addr closed_pd p.pds })

-- The error of each step ends the function; a failed registration takes the entry back.
unfoldable pub add_conn : Kernel → Proxy → Proxy × (Option NetFd × Err)
unfolding add_fd del_fd
add_conn k p =
    let fd : NetFd = record { sysfd = k.sysfd; addr = p.next } in
    let made = record p { pds = insert p.next new_pd p.pds; next = p.next + 1 } in
    let added = call (epoll_add k.sysfd) (add_fd fd made) in
    if is_nil k.file
    then if is_nil k.set_nonblock
      then if is_nil k.epoll_ctl
        then (added, (some fd, nil))
        else (del_fd fd added, (none, k.epoll_ctl))
      else (p, (none, k.set_nonblock))
    else (p, (none, k.file))

unfoldable pub del_conn : NetFd → Proxy → Proxy
unfolding del_fd close_fd
del_conn fd p = close_fd fd (del_fd fd (call (epoll_del fd.sysfd) p))

-- The events of one `EpollEvent` that the loop looks at.
pub record Events : Type 0 where
  pub fd : ℕ
  pub epollin : Bool
  pub epollout : Bool
  pub epollerr : Bool
  pub epollhup : Bool
  pub epollrdhup : Bool

abbrev on_events : Events → NetFd → Proxy → Proxy
on_events ev nfd p =
    let readable = if ev.epollin then call (signal_read nfd.addr) p else p in
    let writable = if ev.epollout then call (signal_write nfd.addr) readable else readable in
    writable

unfoldable pub handle_known : Events → NetFd → Proxy → Proxy
unfolding close_fd
handle_known ev nfd p =
    if ev.epollerr || (ev.epollhup || ev.epollrdhup) then close_fd nfd p else on_events ev nfd p

-- The body of the inner loop of `eventLoop`.
unfoldable pub handle_event : Events → Proxy → Proxy
unfolding handle_known
handle_event ev p = elim (get_fd ev.fd p) [ none ↦ p | some nfd ↦ handle_known ev nfd p ]

unfoldable pub event_batch : List Events → Proxy → Proxy
event_batch [] p = p
event_batch (ev ∷ evs) p = event_batch evs (handle_event ev p)

-- What a goroutine at the end of `Transfer` still has to do: the three parts of each `delConn`.
pub data Closing : Type 0 where
  deregister forget shut : NetFd → Closing

abbrev pub del_closings : NetFd → List Closing → List Closing
del_closings fd rest = deregister fd ∷ forget fd ∷ shut fd ∷ rest

unfoldable pub closing_step : Closing → Proxy → Proxy
unfolding del_fd close_fd
closing_step (deregister fd) p = call (epoll_del fd.sysfd) p
closing_step (forget fd) p = del_fd fd p
closing_step (shut fd) p = close_fd fd p

-- Both goroutines of `Transfer`, behind their splices, beside the other users of the proxy.
pub record Ending : Type 0 where
  pub proxy : Proxy
  pub caller : List Closing
  pub helper : List Closing

-- Who runs next: the caller, the goroutine it started, or another `addConn`.
pub data Turn : Type 0 where
  caller_runs helper_runs : Turn
  accepts : Kernel → Turn

abbrev pub run_caller : List Closing → Ending → Ending
run_caller [] e = e
run_caller (c ∷ cs) e = record e { proxy = closing_step c e.proxy; caller = cs }

abbrev pub run_helper : List Closing → Ending → Ending
run_helper [] e = e
run_helper (c ∷ cs) e = record e { proxy = closing_step c e.proxy; helper = cs }

unfoldable pub run_turn : Turn → Ending → Ending
unfolding closing_step add_conn
run_turn caller_runs e = run_caller e.caller e
run_turn helper_runs e = run_helper e.helper e
run_turn (accepts k) e = record e { proxy = (add_conn k e.proxy).0 }

unfoldable pub run_turns : List Turn → Ending → Ending
run_turns [] e = e
run_turns (t ∷ ts) e = run_turns ts (run_turn t e)

abbrev pub both_closings : NetFd → NetFd → List Closing
both_closings fd1 fd2 = del_closings fd1 (del_closings fd2 [])

abbrev pub unended : Proxy → Ending
unended p = record { proxy = p; caller = []; helper = [] }

-- The last part of `Transfer`, with the turns in which the goroutines run. The two splices return
-- `err` (of the caller) and `err2` (of the goroutine). `c1` and `c2` stand for the connections that
-- are handed in. `Transfer` returns when neither goroutine has anything left to do.
unfoldable pub transfer_second :
    List Turn → ℕ → Err → Err → NetFd → Proxy × (Option NetFd × Err) → Ending × Err
transfer_second turns c2 err err2 fd1 (p, (some fd2, e)) = (
  run_turns turns (record {
    proxy = call (close_conn c2) p;
    caller = both_closings fd1 fd2;
    helper = both_closings fd1 fd2;
  }),
  first_err err err2,
)
transfer_second turns c2 err err2 fd1 (p, (none, e)) = (unended p, e)

unfoldable pub transfer_first :
    List Turn → Kernel → ℕ → ℕ → Err → Err → Proxy × (Option NetFd × Err) → Ending × Err
unfolding transfer_second add_conn
transfer_first turns k2 c1 c2 err err2 (p, (some fd1, e)) =
    transfer_second turns c2 err err2 fd1 (add_conn k2 (call (close_conn c1) p))
transfer_first turns k2 c1 c2 err err2 (p, (none, e)) = (unended p, e)

unfoldable pub transfer : List Turn → Kernel → Kernel → ℕ → ℕ → Err → Err → Proxy → Ending × Err
unfolding transfer_first add_conn
transfer turns k1 k2 c1 c2 err err2 p = transfer_first turns k2 c1 c2 err err2 (add_conn k1 p)
