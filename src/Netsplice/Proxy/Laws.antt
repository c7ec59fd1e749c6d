-- ===== src/Netsplice/Proxy/Laws.antt =====
-- The table of connections under the operations of `Proxy`, and what `Transfer` leaves in it.
use wander.Base.{
  ℕ, ◌+◌, ◌≡◌, ◌≢◌, refl, ◌||◌, List, [], ◌∷◌, ◌++◌, append_assoc, append-nil, Option-cases, none,
  some, arith, ◌==◌, if◌then◌else◌, ◌⊎◌, inl, inr,
}
use wander.Base.Assoc.{lookup, insert, lookup-insert, lookup-erase}
use wander.Netsplice.Pipe.{Err, nil}
use wander.Netsplice.Proxy.{
  NetFd, epoll_add, epoll_del, close, signal_read, signal_write, close_conn, Proxy, Kernel, call,
  add_fd, get_fd, new_pd, closed_pd, add_conn, del_conn, Events, handle_event, handle_known, Turn,
  transfer,
}

abbrev pub IsGood : Kernel → Type 0
IsGood k = (k.file ≡ nil) × (k.set_nonblock ≡ nil) × (k.epoll_ctl ≡ nil)

abbrev pub fd_of : Kernel → Proxy → NetFd
fd_of k p = record { sysfd = k.sysfd; addr = p.next }

-- A connection that the kernel accepts is found under its number, and no other entry changes. An
-- error before the registration changes nothing; one of the registration leaves the number without
-- an entry.
pub get_fd-add_conn :
    (k : Kernel) (p : Proxy) (n : ℕ)
    → let (p', (made, e)) = add_conn k p in
      ((made ≡ some (fd_of k p))
        × (e ≡ nil)
        × (get_fd n p' ≡ (if k.sysfd == n then some (fd_of k p) else get_fd n p)))
      ⊎ (((made ≡ none) × (e ≢ nil) × (p' ≡ p))
          ⊎ ((made ≡ none)
              × (e ≡ k.epoll_ctl)
              × (e ≢ nil)
              × (get_fd n p' ≡ (if k.sysfd == n then none else get_fd n p))))
unfolding get_fd add_conn
get_fd-add_conn k p n = ground (
  arith,
  lookup-insert k.sysfd n (fd_of k p) p.conns,
  lookup-erase k.sysfd n (insert k.sysfd (fd_of k p) p.conns),
)

-- Deleting a connection takes the entry under its number out, shuts its flags, and closes the number.
pub get_fd-del_conn :
    (fd : NetFd) (p : Proxy) (n : ℕ)
    → (get_fd n (del_conn fd p) ≡ (if fd.sysfd == n then none else get_fd n p))
      × (lookup fd.addr (del_conn fd p).pds ≡ some closed_pd)
      × ((del_conn fd p).calls ≡ p.calls ++ epoll_del fd.sysfd ∷ close fd.sysfd ∷ [])
unfolding get_fd del_conn
get_fd-del_conn fd p n = (
  lookup-erase fd.sysfd n p.conns,
  ground (arith, lookup-insert fd.addr fd.addr closed_pd p.pds),
  simp append_assoc,
)

-- A second deletion of the same connection takes out the entry of whichever connection has got the
-- number meanwhile, and closes the number under it, though that connection is not shut.
pub del_conn_stale :
    (fd other : NetFd) (p : Proxy)
    → get_fd fd.sysfd p ≡ some other
    → other.addr ≢ fd.addr
    → (get_fd fd.sysfd (del_conn fd p) ≡ none)
      × (lookup other.addr (del_conn fd p).pds ≡ lookup other.addr p.pds)
      × ((del_conn fd p).calls ≡ p.calls ++ epoll_del fd.sysfd ∷ close fd.sysfd ∷ [])
unfolding del_conn
del_conn_stale fd other p h ne = (
  ground (arith, get_fd-del_conn fd p fd.sysfd),
  ground (arith, lookup-insert fd.addr other.addr closed_pd p.pds),
  simp append_assoc,
)

abbrev pub added : Kernel → Proxy → Proxy
added k p =
    call (epoll_add k.sysfd)
      (add_fd (fd_of k p) (record p { pds = insert p.next new_pd p.pds; next = p.next + 1 }))

pub add_conn_good :
    (k : Kernel) (p : Proxy) → IsGood k → add_conn k p ≡ (added k p, (some (fd_of k p), nil))
unfolding add_conn add_fd
add_conn_good k p (h, i, j) = rw (h, i, j)

-- The state when both connections have been added.
abbrev pub connected : Kernel → Kernel → ℕ → ℕ → Proxy → Proxy
connected k1 k2 c1 c2 p = call (close_conn c2) (added k2 (call (close_conn c1) (added k1 p)))

-- When the second connection is refused, `Transfer` returns its error and leaves the first one
-- behind: its entry stays in the table, and its number is neither closed nor taken off epoll.
pub transfer_leaks :
    (turns : List Turn) (k1 k2 : Kernel) (c1 c2 : ℕ) (err err2 : Err) (p : Proxy)
    → IsGood k1
    → k2.file ≢ nil
    → let (end, e) = transfer turns k1 k2 c1 c2 err err2 p in
      (e ≡ k2.file)
      × (get_fd k1.sysfd end.proxy ≡ some (fd_of k1 p))
      × (end.proxy.calls ≡ p.calls ++ epoll_add k1.sysfd ∷ close_conn c1 ∷ [])
unfolding transfer add_fd get_fd
transfer_leaks turns k1 k2 c1 c2 err err2 p h1 h2 =
    let q = call (close_conn c1) (added k1 p) in
    rw (add_conn_good k1 p h1) (
      rw (refused q) (
        refl,
        ground (arith, lookup-insert k1.sysfd k1.sysfd (fd_of k1 p) p.conns),
        simp append_assoc,
      ))
  where
    refused : (q : Proxy) → add_conn k2 q ≡ (q, (none, k2.file))
    refused q = unfold add_conn in ground arith

module _ (ev : Events) (nfd : NetFd) (p : Proxy) where
  -- What the event loop does for an event on a connection that it knows.
  abbrev pub Handled : Proxy → Type 0
  Handled p' =
      if ev.epollerr || (ev.epollhup || ev.epollrdhup)
      then (lookup nfd.addr p'.pds ≡ some closed_pd) × (p'.calls ≡ p.calls ++ close nfd.sysfd ∷ [])
      else (p'.pds ≡ p.pds)
        × (p'.calls
            ≡ p.calls
              ++ (if ev.epollin then signal_read nfd.addr ∷ [] else [])
              ++ (if ev.epollout then signal_write nfd.addr ∷ [] else []))

  handle_known_lem : ((handle_known ev nfd p).conns ≡ p.conns) × Handled (handle_known ev nfd p)
  unfolding handle_known
  handle_known_lem = ground (
    arith,
    lookup-insert nfd.addr nfd.addr closed_pd p.pds,
    append_assoc p.calls (signal_read nfd.addr ∷ []) (signal_write nfd.addr ∷ []),
    append-nil (p.calls ++ signal_read nfd.addr ∷ []),
    append-nil p.calls,
  )

-- On an error or a hangup the loop shuts the flags of the connection and closes its number; else it
-- signals the reader, the writer or both; a number that is not in the table is passed over. In each
-- case the entry stays in the table.
pub handle_event_lem :
    (ev : Events) (p : Proxy)
    → ((handle_event ev p).conns ≡ p.conns)
      × ((get_fd ev.fd p ≡ none) × (handle_event ev p ≡ p)
          ⊎ ((nfd : NetFd) × (get_fd ev.fd p ≡ some nfd) × Handled ev nfd p (handle_event ev p)))
unfolding handle_event
handle_event_lem ev p = elim (Option-cases (get_fd ev.fd p)) [
  | inl e ↦ (rw (e, handle_event) refl, inl (e, rw (e, handle_event) refl))
  | inr (nfd, e) ↦
      let (same, handled) = handle_known_lem ev nfd p in
      (rw (e, handle_event) same, inr (nfd, e, rw (e, handle_event) handled))
]
