-- ===== src/Netsplice/Proxy/Closings.antt =====
-- The end of `Transfer`: its two goroutines delete both connections, in any order of their turns.
use wander.Base.{
  ℕ, ◌+◌, ◌≡◌, ◌≢◌, refl, sym, ◌∙◌, ap, ◌&&◌, ◌||◌, List, [], ◌∷◌, ◌++◌, Option, none, some, arith,
  ◌==◌, if◌then◌else◌, All, ◌⊎◌,
}
use wander.Base.Assoc.{lookup, insert, lookup-insert, lookup-erase}
use wander.Netsplice.Pipe.{is_nil}
use wander.Netsplice.Proxy.{
  NetFd, Syscall, epoll_add, epoll_del, close, Proxy, Kernel, add_fd, del_fd, close_fd, add_conn,
  Closing, deregister, forget, shut, closing_step, Ending, run_caller, run_helper, Turn,
  caller_runs, helper_runs, accepts, run_turn, run_turns,
}
use wander.Netsplice.Proxy.Laws.{fd_of}

-- How often a number was closed.
abbrev pub is_close : ℕ → Syscall → ℕ
is_close n (close m) = if m == n then 1 else 0
is_close n _ = 0

unfoldable pub close_count : ℕ → List Syscall → ℕ
close_count n [] = 0
close_count n (c ∷ cs) = is_close n c + close_count n cs

pub close_count-append :
    (n : ℕ) (cs : List Syscall) (c : Syscall)
    → close_count n (cs ++ c ∷ []) ≡ close_count n cs + is_close n c
unfolding close_count
close_count-append n [] c = omega arith
close_count-append n (d ∷ cs) c = omega (arith, close_count-append n cs c)

-- How often it will be closed.
abbrev pub is_shut : ℕ → Closing → ℕ
is_shut n (shut fd) = if fd.sysfd == n then 1 else 0
is_shut n _ = 0

unfoldable pub shuts : ℕ → List Closing → ℕ
shuts n [] = 0
shuts n (c ∷ cs) = is_shut n c + shuts n cs

-- How often its entry will be deleted.
abbrev pub is_forget : ℕ → Closing → ℕ
is_forget n (forget fd) = if fd.sysfd == n then 1 else 0
is_forget n _ = 0

unfoldable pub forgets : ℕ → List Closing → ℕ
forgets n [] = 0
forgets n (c ∷ cs) = is_forget n c + forgets n cs

-- The entry under `n` behind an `addConn`, from the one in front of it.
abbrev entry : Kernel → ℕ → ℕ → Option NetFd → Option NetFd
entry k n next before =
    if is_nil k.file && is_nil k.set_nonblock
    then (if k.sysfd == n
        then (if is_nil k.epoll_ctl then some (record { sysfd = k.sysfd; addr = next }) else none)
        else before)
    else before

lookup-add_conn :
    (k : Kernel) (p : Proxy) (n : ℕ)
    → lookup n (add_conn k p).0.conns ≡ entry k n p.next (lookup n p.conns)
unfolding add_conn add_fd del_fd
lookup-add_conn k p n = ground (
  arith,
  lookup-insert k.sysfd n (fd_of k p) p.conns,
  lookup-erase k.sysfd n (insert k.sysfd (fd_of k p) p.conns),
)

add_conn_next :
    (k : Kernel) (p q : Proxy) → p.next ≡ q.next → (add_conn k p).0.next ≡ (add_conn k q).0.next
unfolding add_conn add_fd del_fd
add_conn_next k p q e = ground arith

add_conn_closes :
    (k : Kernel) (p : Proxy) (n : ℕ) → close_count n (add_conn k p).0.calls ≡ close_count n p.calls
unfolding add_conn add_fd del_fd
add_conn_closes k p n = ground (arith, close_count-append n p.calls (epoll_add k.sysfd))

-- What the accepts among the turns do alone.
unfoldable pub accepts_alone : List Turn → Proxy → Proxy
accepts_alone [] p = p
accepts_alone (accepts k ∷ ts) p = accepts_alone ts (add_conn k p).0
accepts_alone (caller_runs ∷ ts) p = accepts_alone ts p
accepts_alone (helper_runs ∷ ts) p = accepts_alone ts p

abbrev pub sysfd_of : Closing → ℕ
sysfd_of (deregister fd) = fd.sysfd
sysfd_of (forget fd) = fd.sysfd
sysfd_of (shut fd) = fd.sysfd

-- The connections that are accepted meanwhile have other numbers.
abbrev pub Avoids : ℕ → ℕ → Turn → Type 0
Avoids n1 n2 (accepts k) = (k.sysfd ≢ n1) × (k.sysfd ≢ n2)
Avoids n1 n2 _ = Unit

module _ (n1 n2 : ℕ) where
  abbrev pub Own : Closing → Type 0
  Own c = (sysfd_of c ≡ n1) ⊎ (sysfd_of c ≡ n2)

  -- Between two turns, for the number `n`: `q` is the proxy with the accepts alone, and `total` how
  -- often the number is closed in all.
  pub record Ends (n total : ℕ) (q : Proxy) (e : Ending) : Type 0 where
    pub same : n ≢ n1 → n ≢ n2 → lookup n e.proxy.conns ≡ lookup n q.conns
    pub issued : e.proxy.next ≡ q.next
    pub gone : (n ≡ n1) ⊎ (n ≡ n2) → forgets n e.caller ≡ 0 → lookup n e.proxy.conns ≡ none
    pub closes : close_count n e.proxy.calls + shuts n e.caller + shuts n e.helper ≡ total
    pub own_caller : All Own e.caller
    pub own_helper : All Own e.helper

  module _ (n total : ℕ) where
    closing_closes :
        (c : Closing) (p : Proxy)
        → close_count n (closing_step c p).calls ≡ close_count n p.calls + is_shut n c
    unfolding closing_step del_fd close_fd
    closing_closes (deregister fd) p =
        omega (arith, close_count-append n p.calls (epoll_del fd.sysfd))
    closing_closes (forget fd) p = omega arith
    closing_closes (shut fd) p = omega (arith, close_count-append n p.calls (close fd.sysfd))

    closing_lookup :
        (c : Closing) (p : Proxy)
        → lookup n (closing_step c p).conns
          ≡ (if is_forget n c == 0 then lookup n p.conns else none)
    unfolding closing_step del_fd close_fd
    closing_lookup (deregister fd) p = refl
    closing_lookup (forget fd) p = ground (arith, lookup-erase fd.sysfd n p.conns)
    closing_lookup (shut fd) p = refl

    closing_next : (c : Closing) (p : Proxy) → (closing_step c p).next ≡ p.next
    unfolding closing_step del_fd close_fd
    closing_next (deregister fd) p = refl
    closing_next (forget fd) p = refl
    closing_next (shut fd) p = refl

    -- A deletion of another number leaves the entry alone.
    not_ours : (c : Closing) → Own c → n ≢ n1 → n ≢ n2 → is_forget n c ≡ 0
    not_ours (deregister fd) o a b = refl
    not_ours (forget fd) o a b = ground arith
    not_ours (shut fd) o a b = refl

    caller-Ends :
        (q p : Proxy) (cs hs : List Closing)
        → Ends n total q (record { proxy = p; caller = cs; helper = hs })
        → Ends n total q (run_caller cs (record { proxy = p; caller = cs; helper = hs }))
    unfolding shuts forgets
    caller-Ends q p [] hs h = h
    caller-Ends q p (c ∷ cs) hs h = record {
      same = λ a b. ground (arith, closing_lookup c p, not_ours c h.own_caller.0 a b, h.same a b);
      issued = closing_next c p ∙ h.issued;
      gone = λ o z. ground (arith, closing_lookup c p, h.gone o, z);
      closes = omega (arith, closing_closes c p, h.closes);
      own_caller = h.own_caller.1;
      own_helper = h.own_helper;
    }

    helper-Ends :
        (q p : Proxy) (cs hs : List Closing)
        → Ends n total q (record { proxy = p; caller = cs; helper = hs })
        → Ends n total q (run_helper hs (record { proxy = p; caller = cs; helper = hs }))
    unfolding shuts forgets
    helper-Ends q p cs [] h = h
    helper-Ends q p cs (c ∷ hs) h = record {
      same = λ a b. ground (arith, closing_lookup c p, not_ours c h.own_helper.0 a b, h.same a b);
      issued = closing_next c p ∙ h.issued;
      gone = λ o z. ground (arith, closing_lookup c p, h.gone o z);
      closes = omega (arith, closing_closes c p, h.closes);
      own_caller = h.own_caller;
      own_helper = h.own_helper.1;
    }

    accepts-Ends :
        (k : Kernel) (q : Proxy) (e : Ending)
        → (k.sysfd ≢ n1) × (k.sysfd ≢ n2)
        → Ends n total q e
        → Ends n total (add_conn k q).0 (record e { proxy = (add_conn k e.proxy).0 })
    accepts-Ends k q e (a1, a2) h = record {
      same = λ a b.
          lookup-add_conn k e.proxy n
          ∙ (ap (λ x. entry k n x (lookup n e.proxy.conns)) h.issued
              ∙ (ap (entry k n q.next) (h.same a b) ∙ sym (lookup-add_conn k q n)));
      issued = add_conn_next k e.proxy q h.issued;
      gone = λ o z. ground (arith, lookup-add_conn k e.proxy n, h.gone o z, a1, a2, o);
      closes = omega (arith, add_conn_closes k e.proxy n, h.closes);
      own_caller = h.own_caller;
      own_helper = h.own_helper;
    }

    pub run_turns-Ends :
        (ts : List Turn) (q : Proxy) (e : Ending)
        → All (Avoids n1 n2) ts
        → Ends n total q e
        → Ends n total (accepts_alone ts q) (run_turns ts e)
    unfolding run_turns run_turn accepts_alone
    run_turns-Ends [] q e av h = h
    run_turns-Ends (caller_runs ∷ ts) q e (_, av) h =
        run_turns-Ends ts q (run_caller e.caller e) av (caller-Ends q e.proxy e.caller e.helper h)
    run_turns-Ends (helper_runs ∷ ts) q e (_, av) h =
        run_turns-Ends ts q (run_helper e.helper e) av (helper-Ends q e.proxy e.caller e.helper h)
    run_turns-Ends (accepts k ∷ ts) q e (a, av) h =
        run_turns-Ends ts (add_conn k q).0 (record e { proxy = (add_conn k e.proxy).0 }) av
          (accepts-Ends k q e a h)

    pub through_lookup :
        (q : Proxy) (e : Ending)
        → Ends n total q e
        → e.caller ≡ []
        → lookup n e.proxy.conns ≡ (if n1 == n || n2 == n then none else lookup n q.conns)
    unfolding forgets
    through_lookup q e h done = ground (arith, ap (forgets n) done, h.gone, h.same)

    pub through_closes :
        (q : Proxy) (e : Ending)
        → Ends n total q e
        → e.caller ≡ []
        → e.helper ≡ []
        → close_count n e.proxy.calls ≡ total
    unfolding shuts
    through_closes q e h done1 done2 =
        omega (arith, h.closes, ap (shuts n) done1, ap (shuts n) done2)
