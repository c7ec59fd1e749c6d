-- ===== src/Netsplice/Pipe.antt =====
-- netsplice-echo-proxy/splicetest/funny/splice_linux.go: the pipe between two sockets. What the
-- kernel answers to each splice(2) call is a list that the environment chooses.
pub mod Integrity
pub mod Loops
pub mod Fuel
pub mod Progress
use Prim.Native.Nat.{min}
use wander.Base.{
  ℕ, zero, suc, ◌+◌, ◌-◌, ◌*◌, ◌%◌, ◌^◌, ◌≤◌, ◌<◌, ◌≡◌, ◌≢◌, refl, sym, ◌∙◌, Bool, true, false,
  ◌&&◌, ◌||◌, not, List, [], ◌∷◌, ◌++◌, arith, All, ltb, leb, ◌==◌, if◌then◌else◌, length, take,
  drop, Option, none, some,
}
use wander.Base.Bytes.{Bytes, codes}
use wander.Base.Int.{int64, ℤ, pos, negsuc, ◌+ℤ◌, ◌-ℤ◌, ltb_ℤ, eqb_ℤ, pos_part}

-- `nil`, the errors of this package, an errno, and an errno that `os.NewSyscallError` wrapped.
pub data Err : Type 0 where
  nil : Err
  epoll_error : Err
  unexpected_eof : Err
  errno : ℕ → Err
  syscall_error : Err → Err

abbrev pub is_nil : Err → Bool
is_nil nil = true
is_nil _ = false

-- `os.NewSyscallError("splice", err)`, called with an error only.
abbrev pub new_syscall_error : Err → Err
new_syscall_error nil = nil
new_syscall_error e = syscall_error e

-- One answer to a splice(2) call: it moves up to `k + 1` bytes, as far as there are so many; it
-- would block, and the wait that follows is woken, or returns `EpollError`; or it fails.
pub data Answer : Type 0 where
  moved : ℕ → Answer
  again : Bool → Answer
  failed : ℕ → Answer

-- The bytes that the source socket still delivers before its end, those in the pipe, and those
-- that the destination socket has taken.
pub record World : Type 0 where
  pub src : Bytes
  pub pipe : Bytes
  pub dst : Bytes

-- `splicePipe`; the two descriptors of the pipe are the field `pipe` of the world.
pub record SplicePipe : Type 0 where
  pub toread : ℤ
  pub written : ℤ
  pub inbuf : ℤ

abbrev pub pipe_buf : ℕ
pipe_buf = 65535

-- What a call leaves behind. `pending` is a call that waits for an answer that the list does not
-- hold; `no_fuel` is no outcome of the program.
pub record Done : Type 0 where
  pub err : Err
  pub sp : SplicePipe
  pub world : World
  pub rest : List Answer

pub data Run : Type 0 where
  done : Done → Run
  pending : Run
  no_fuel : Run

infixl 5 ◌>>=◌
abbrev pub ◌>>=◌ : Run → (Done → Run) → Run
done d >>= f = f d
pending >>= f = pending
no_fuel >>= f = no_fuel

-- The bytes that an answer `moved k` moves of those at hand, when `amt` are asked for.
abbrev pub count : ℕ → ℕ → Bytes → ℕ
count k amt bytes = min (suc k) (min amt (length bytes))

-- `s.inbuf += n; s.toread -= n`, and the error of the call.
abbrev pub account_read : ℤ → SplicePipe → SplicePipe
account_read n s = record s { inbuf = int64 (s.inbuf +ℤ n); toread = int64 (s.toread -ℤ n) }

-- `s.inbuf -= n; s.written += n`
abbrev pub account_write : ℤ → SplicePipe → SplicePipe
account_write n s = record s { inbuf = int64 (s.inbuf -ℤ n); written = int64 (s.written +ℤ n) }

-- The end of the source: `n == 0 && eno == 0`.
abbrev pub at_end : SplicePipe → World → List Answer → Run
at_end s w rest =
    if ltb_ℤ s.toread (pos 0)
    then done (record { err = nil; sp = record s { toread = pos 0 }; world = w; rest = rest })
    else done (record { err = unexpected_eof; sp = s; world = w; rest = rest })

-- The `read:` label of `readFrom`. The call fails with `n = -1`.
unfoldable pub read_loop : ℕ → List Answer → Bool → SplicePipe → World → Run
read_loop amt [] can_read s w = pending
read_loop amt (again woken ∷ rest) can_read s w =
    let retry = read_loop amt rest true s w in
    if can_read
    then done (record { err = nil; sp = s; world = w; rest = rest })
    else if woken
    then retry
    else done (record { err = epoll_error; sp = s; world = w; rest = rest })
read_loop amt (failed e ∷ rest) can_read s w =
    done (record { err = errno e; sp = account_read (negsuc 0) s; world = w; rest = rest })
read_loop amt (moved k ∷ rest) can_read s w =
    let n = count k amt w.src in
    if n == 0
    then at_end s w rest
    else done (record {
      err = nil;
      sp = account_read (pos n) s;
      world = record w { src = drop n w.src; pipe = w.pipe ++ take n w.src };
      rest = rest;
    })

-- How many bytes `readFrom` asks for.
abbrev pub read_amount : SplicePipe → ℤ
read_amount s =
    let room = pos pipe_buf -ℤ s.inbuf in
    if ltb_ℤ (pos 0) s.toread && ltb_ℤ s.toread room then s.toread else room

unfoldable pub read_from : List Answer → SplicePipe → World → Run
read_from answers s w =
    if eqb_ℤ s.toread (pos 0)
    then done (record { err = nil; sp = s; world = w; rest = answers })
    else read_loop (pos_part (read_amount s)) answers false s w

-- The `write:` label of `writeTo`.
unfoldable pub write_loop : List Answer → SplicePipe → World → Run
write_loop [] s w = pending
write_loop (again woken ∷ rest) s w =
    let retry = write_loop rest s w in
    if woken then retry else done (record { err = epoll_error; sp = s; world = w; rest = rest })
write_loop (failed e ∷ rest) s w =
    done (record { err = errno e; sp = account_write (negsuc 0) s; world = w; rest = rest })
write_loop (moved k ∷ rest) s w =
    let n = count k (pos_part s.inbuf) w.pipe in
    done (record {
      err = nil;
      sp = account_write (pos n) s;
      world = record w { pipe = drop n w.pipe; dst = w.dst ++ take n w.pipe };
      rest = rest;
    })

unfoldable pub write_to : List Answer → SplicePipe → World → Run
write_to answers s w =
    if eqb_ℤ s.inbuf (pos 0)
    then done (record { err = nil; sp = s; world = w; rest = answers })
    else write_loop answers s w

-- `for s.inbuf > 0 { … }`
unfoldable pub flush : ℕ → List Answer → SplicePipe → World → Run
flush zero answers s w = no_fuel
flush (suc fuel) answers s w =
    let one_write = write_to answers s w in
    let more = one_write >>= λ d.
    let next = flush fuel d.rest d.sp d.world in if is_nil d.err then next else done d in
    if ltb_ℤ (pos 0) s.inbuf
    then more
    else done (record { err = nil; sp = s; world = w; rest = answers })

-- `for err == nil && sp.toread != 0 { … }`
unfoldable pub splice_loop : ℕ → List Answer → SplicePipe → World → Run
splice_loop zero answers s w = no_fuel
splice_loop (suc fuel) answers s w =
    let turn = read_from answers s w >>= λ d.
    let forward = write_to d.rest d.sp d.world >>= λ d'.
    let next = splice_loop fuel d'.rest d'.sp d'.world in if is_nil d'.err then next else done d' in
    if is_nil d.err then forward else done d in
    if eqb_ℤ s.toread (pos 0)
    then done (record { err = nil; sp = s; world = w; rest = answers })
    else turn
