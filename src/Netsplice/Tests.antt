-- ===== src/Netsplice/Tests.antt =====
-- Runs of the functions of netsplice-echo-proxy/splicetest/funny on which the theorems about them
-- apply.
use wander.Base.{ℕ, ◌≡◌, ◌≢◌, refl, true, false, List, [], ◌∷◌, arith, length, none, some}
use wander.Base.Assoc.{lookup}
use wander.Base.Bytes.{Bytes, codes}
use wander.Base.Int.{int64, pos, ◌+ℤ◌}
use wander.Netsplice.Pipe.{
  Err, nil, epoll_error, unexpected_eof, syscall_error, Answer, moved, again, World, SplicePipe,
  read_loop, read_from, write_loop, write_to, flush, splice_loop,
}
use wander.Netsplice.Pipe.Integrity.{IsExact}
use wander.Netsplice.Splice.{Calls, Spliced, returns, splice, run_pipe, finish}
use wander.Netsplice.Splice.Laws.{DoesReturn, start, splice_success, splice_eof}
use wander.Netsplice.Splice.Delivery.{Delivered, splice-Delivered}
use wander.Netsplice.NetPd.{NetPd, closed, waiting}
use wander.Netsplice.NetPd.Protocol.{
  Side, falling, asleep, check, signal, finished, event, join, close, lock, sleep, step, run,
  fair_moves, fresh_side, IsSound, protocol-IsSound, close_finishes,
}
use wander.Netsplice.Proxy.{NetFd, Kernel, Proxy, get_fd, Events, transfer}
use wander.Base.Assoc.{insert, erase}
use wander.Netsplice.Proxy.{
  Turn, caller_runs, helper_runs, accepts, add_conn, add_fd, del_fd, close_fd, transfer_first,
  transfer_second, run_turns, run_turn, closing_step,
}

abbrev clear : Calls
clear = record { write_lock = nil; read_lock = nil; pipe2 = nil; close_rfd = nil; close_wfd = nil }

abbrev hello : Bytes
hello = codes "hello"

abbrev moving : List Answer
moving =
    moved 1
    ∷ moved 0
    ∷ moved 9
    ∷ moved 9
    ∷ moved 9
    ∷ moved 9
    ∷ moved 9
    ∷ moved 9
    ∷ moved 9
    ∷ moved 9
    ∷ moved 9
    ∷ moved 9
    ∷ moved 9
    ∷ moved 9
    ∷ moved 9
    ∷ moved 9
    ∷ []

splice-Delivered_example :
    DoesReturn (Delivered clear 100 hello) (splice clear (pos 100) moving (start hello))
splice-Delivered_example =
    splice-Delivered clear 100 hello moving (refl, refl, refl) (omega arith) (omega arith)
      (ground arith) (omega arith)

-- Three of the five bytes are asked for, and one splice(2) call would block first.
abbrev three_of_five : Spliced
three_of_five = record {
  written = pos 3;
  err = nil;
  handled = true;
  world = record { src = codes "lo"; pipe = []; dst = codes "hel" };
}

abbrev some_answers : List Answer
some_answers = again true ∷ moved 1 ∷ moved 0 ∷ moved 9 ∷ moved 9 ∷ []

three_run : splice clear (pos 3) some_answers (start hello) ≡ returns three_of_five
unfolding splice splice_loop read_from write_to read_loop write_loop int64 flush run_pipe finish
three_run = refl

abbrev no_bytes : Bytes
no_bytes = []

splice_success_example : (pos 3 ≡ pos 3) × (length (codes "hel") ≡ 3) × (no_bytes ≡ [])
splice_success_example =
    splice_success clear 3 hello some_answers three_of_five (omega arith) three_run refl

abbrev all_of_five : Spliced
all_of_five = record {
  written = pos 5;
  err = syscall_error unexpected_eof;
  handled = true;
  world = record { src = []; pipe = []; dst = hello };
}

five_run : splice clear (pos 100) moving (start hello) ≡ returns all_of_five
unfolding splice splice_loop read_from write_to read_loop write_loop int64 flush run_pipe finish
five_run = refl

splice_eof_example : all_of_five.err ≢ nil
splice_eof_example =
    splice_eof clear 100 hello moving all_of_five (omega arith) five_run (omega arith)

abbrev half_way : World
half_way = record { src = codes "lo"; pipe = codes "el"; dst = codes "h" }

abbrev half_pipe : SplicePipe
half_pipe = record { toread = pos 97; written = pos 1; inbuf = pos 2 }

half_way-IsExact : IsExact 100 half_pipe half_way
unfolding ◌+ℤ◌
half_way-IsExact = ground arith

abbrev shut_pd : NetPd
shut_pd = record { r_flag = closed; w_flag = closed; err = epoll_error }

protocol-IsSound_example : IsSound (run (lock ∷ sleep ∷ close ∷ join ∷ event ∷ []) fresh_side)
protocol-IsSound_example = protocol-IsSound (lock ∷ sleep ∷ close ∷ join ∷ event ∷ [])

abbrev falling_side : Side
falling_side = record { flag = waiting; holder = falling; closer = check }

close_finishes_example :
    ((run fair_moves falling_side).closer ≡ finished)
    × ((run fair_moves falling_side).flag ≡ closed)
close_finishes_example = close_finishes falling_side (ground arith)

abbrev asleep_side : Side
asleep_side = record { flag = waiting; holder = asleep; closer = signal }

wakes : (step close asleep_side).holder ≢ asleep
unfolding step
wakes = cc

abbrev empty_proxy : Proxy
empty_proxy = record { conns = []; pds = []; next = 100; calls = [] }

abbrev kernel : ℕ → Err → Kernel
kernel n e = record { sysfd = n; file = e; set_nonblock = nil; epoll_ctl = nil }

abbrev stale : NetFd
stale = record { sysfd = 7; addr = 40 }

abbrev other_fd : NetFd
other_fd = record { sysfd = 7; addr = 41 }

abbrev reused : Proxy
reused = record empty_proxy { conns = (7, other_fd) ∷ [] }

found : get_fd 7 reused ≡ some other_fd
unfolding get_fd lookup
found = refl

-- The two goroutines in turns, and a connection that another call accepts in between.
abbrev some_turns : List Turn
some_turns =
    caller_runs
    ∷ helper_runs
    ∷ caller_runs
    ∷ accepts (kernel 9 nil)
    ∷ helper_runs
    ∷ helper_runs
    ∷ caller_runs
    ∷ caller_runs
    ∷ caller_runs
    ∷ helper_runs
    ∷ caller_runs
    ∷ helper_runs
    ∷ helper_runs
    ∷ []

-- If the accept gets a number that has just been closed, the second deletion takes its entry out.
abbrev reusing : List Turn
reusing =
    caller_runs
    ∷ caller_runs
    ∷ caller_runs
    ∷ accepts (kernel 7 nil)
    ∷ helper_runs
    ∷ helper_runs
    ∷ helper_runs
    ∷ []

reuse_is_lost :
    (get_fd 7
        (transfer
          (caller_runs ∷ caller_runs ∷ caller_runs ∷ accepts (kernel 7 nil) ∷ [])
          (kernel 7 nil)
          (kernel 8 nil)
          1
          2
          nil
          nil
          empty_proxy).0.proxy
      ≡ some (record { sysfd = 7; addr = 102 }))
    × (get_fd 7 (transfer reusing (kernel 7 nil) (kernel 8 nil) 1 2 nil nil empty_proxy).0.proxy
        ≡ none)
unfolding transfer add_conn add_fd del_fd close_fd transfer_first transfer_second run_turns run_turn
    closing_step get_fd lookup insert erase
reuse_is_lost = (refl, refl)

abbrev readable : Events
readable = record {
  fd = 7;
  epollin = true;
  epollout = false;
  epollerr = false;
  epollhup = false;
  epollrdhup = false;
}
