-- ===== src/Netsplice/NetPd.antt =====
-- `netPD` of netsplice-echo-proxy/splicetest/funny/proxy_linux.go: the locks and waits of one
-- descriptor. Each side (reading, writing) is a flag that is changed by compare-and-swap only.
pub mod Protocol
use wander.Base.{ℕ, ◌≡◌, ◌≢◌, refl, Bool, true, false, List, [], ◌∷◌, arith, ◌==◌, if◌then◌else◌}
use wander.Netsplice.Pipe.{Err, nil, epoll_error}

-- The values 0, 1, 2 and 3 of a wait flag.
pub data Flag : Type 0 where
  free held waiting closed : Flag

abbrev pub flag_value : Flag → ℕ
flag_value free = 0
flag_value held = 1
flag_value waiting = 2
flag_value closed = 3

abbrev pub is_flag : Flag → Flag → Bool
is_flag a b = flag_value a == flag_value b

-- `atomic.CompareAndSwapInt32`
abbrev pub cas : Flag → Flag → Flag → Flag × Bool
cas flag old new = if is_flag flag old then (new, true) else (flag, false)

pub record NetPd : Type 0 where
  pub r_flag : Flag
  pub w_flag : Flag
  pub err : Err

abbrev epoll_error_unless : Bool → Err
epoll_error_unless true = nil
epoll_error_unless false = epoll_error

-- The swaps of the lock, the unlock, and the two halves of a wait, which stand around the sleep.
abbrev pub swap_lock : Flag → Flag × Bool
swap_lock f = cas f free held

abbrev pub swap_unlock : Flag → Flag × Bool
swap_unlock f = cas f held free

abbrev pub swap_sleep : Flag → Flag × Bool
swap_sleep f = cas f held waiting

abbrev pub swap_wake : Flag → Flag × Bool
swap_wake f = cas f waiting held

unfoldable pub write_lock : NetPd → NetPd × Err
write_lock pd =
    let (f, done) = swap_lock pd.w_flag in (record pd { w_flag = f }, epoll_error_unless done)

unfoldable pub write_unlock : NetPd → NetPd × Err
write_unlock pd =
    let (f, done) = swap_unlock pd.w_flag in (record pd { w_flag = f }, epoll_error_unless done)

unfoldable pub read_lock : NetPd → NetPd × Err
read_lock pd =
    let (f, done) = swap_lock pd.r_flag in (record pd { r_flag = f }, epoll_error_unless done)

unfoldable pub read_unlock : NetPd → NetPd × Err
read_unlock pd =
    let (f, done) = swap_unlock pd.r_flag in (record pd { r_flag = f }, epoll_error_unless done)

-- `WaitWrite` and `WaitRead` up to the sleep: an error, or the caller sleeps (`nil`).
unfoldable pub begin_wait_write : NetPd → NetPd × Err
begin_wait_write pd =
    let (f, done) = swap_sleep pd.w_flag in (record pd { w_flag = f }, epoll_error_unless done)

unfoldable pub begin_wait_read : NetPd → NetPd × Err
begin_wait_read pd =
    let (f, done) = swap_sleep pd.r_flag in (record pd { r_flag = f }, epoll_error_unless done)

-- The same from the sleep on: what the wait returns.
unfoldable pub end_wait_write : NetPd → NetPd × Err
end_wait_write pd =
    let (f, done) = swap_wake pd.w_flag in
    (record pd { w_flag = f }, if done then pd.err else epoll_error)

unfoldable pub end_wait_read : NetPd → NetPd × Err
end_wait_read pd =
    let (f, done) = swap_wake pd.r_flag in
    (record pd { r_flag = f }, if done then pd.err else epoll_error)

abbrev pub IsRefused : NetPd → (NetPd → NetPd × Err) → Type 0
IsRefused pd call = call pd ≡ (pd, epoll_error)

-- Once `Close` has shut both sides, every call returns `EpollError` and changes nothing.
pub closed_refuses :
    (pd : NetPd)
    → pd.w_flag ≡ closed
    → pd.r_flag ≡ closed
    → IsRefused pd write_lock
      × IsRefused pd read_lock
      × IsRefused pd write_unlock
      × IsRefused pd read_unlock
      × IsRefused pd begin_wait_write
      × IsRefused pd begin_wait_read
      × IsRefused pd end_wait_write
      × IsRefused pd end_wait_read
unfolding write_lock read_lock write_unlock read_unlock begin_wait_write begin_wait_read
    end_wait_write end_wait_read
closed_refuses pd h k = (
  ground arith,
  ground arith,
  ground arith,
  ground arith,
  ground arith,
  ground arith,
  ground arith,
  ground arith,
)
