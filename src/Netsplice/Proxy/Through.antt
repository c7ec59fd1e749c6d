-- ===== src/Netsplice/Proxy/Through.antt =====
-- What `Transfer` leaves when its two goroutines are through.
use wander.Base.{ℕ, ◌+◌}
use wander.Netsplice.Proxy.{NetFd, Proxy, Kernel, both_closings, Ending}
use wander.Netsplice.Proxy.Laws.{fd_of, connected}

-- Both connections have been added, and neither goroutine has begun to delete them.
abbrev begun : Kernel → Kernel → ℕ → ℕ → Proxy → Ending
begun k1 k2 c1 c2 p =
    let fd1 = fd_of k1 p in
    let fd2 : NetFd = record { sysfd = k2.sysfd; addr = p.next + 1 } in
    record {
      proxy = connected k1 k2 c1 c2 p;
      caller = both_closings fd1 fd2;
      helper = both_closings fd1 fd2;
    }
