-- ===== src/Netsplice/Splice.antt =====
-- `splice` of netsplice-echo-proxy/splicetest/funny/splice_linux.go.
pub mod Laws
pub mod Delivery
use wander.Base.{
  ℕ, zero, suc, ◌≤◌, ◌<◌, ◌≡◌, ◌≢◌, ◌^◌, ◌-◌, refl, Bool, true, false, List, [], ◌∷◌, arith, ltb,
  ◌==◌, not, if◌then◌else◌, length, ◌⊎◌, inl, inr,
}
use wander.Base.Bytes.{Bytes, codes}
use wander.Base.Int.{ℤ, pos, negsuc, ltb_ℤ, eqb_ℤ, pos_part}
use wander.Netsplice.Pipe.{
  Err, nil, unexpected_eof, syscall_error, errno, is_nil, new_syscall_error, Answer, moved, again,
  failed, World, SplicePipe, Done, Run, done, pending, no_fuel, ◌>>=◌, flush, splice_loop,
}

-- What the calls around the two loops return: the two locks, `Pipe2`, and the two `Close`.
pub record Calls : Type 0 where
  pub write_lock : Err
  pub read_lock : Err
  pub pipe2 : Err
  pub close_rfd : Err
  pub close_wfd : Err

abbrev pub enosys : ℕ
enosys = 38

abbrev is_enosys : Err → Bool
is_enosys (errno e) = e == enosys
is_enosys _ = false

-- `if err == nil { err = other }`
abbrev pub first_err : Err → Err → Err
first_err e other = if is_nil e then other else e

-- The three results of `splice`, with what it did to the world.
pub record Spliced : Type 0 where
  pub written : ℤ
  pub err : Err
  pub handled : Bool
  pub world : World

pub data Return : Type 0 where
  returns : Spliced → Return
  waits : Return
  out_of_fuel : Return

-- Behind the loops: the flush, the error of the two, and `destroy`.
unfoldable pub finish : Calls → Done → Run → Return
finish c d (done d') = returns (record {
  written = d'.sp.written;
  err = first_err (new_syscall_error (first_err d.err d'.err)) (first_err c.close_rfd c.close_wfd);
  handled = true;
  world = d'.world;
})
finish c d pending = waits
finish c d no_fuel = out_of_fuel

unfoldable pub run_pipe : Calls → Run → Return
unfolding finish
run_pipe c (done d) = finish c d (flush (suc (length d.rest)) d.rest d.sp d.world)
run_pipe c pending = waits
run_pipe c no_fuel = out_of_fuel

abbrev pub fresh : ℤ → SplicePipe
fresh max = record { toread = max; written = pos 0; inbuf = pos 0 }

abbrev refuse : Err → Bool → World → Return
refuse e handled w = returns (record { written = pos 0; err = e; handled = handled; world = w })

unfoldable pub splice : Calls → ℤ → List Answer → World → Return
unfolding run_pipe
splice c amt answers w =
    if not (is_nil c.write_lock)
    then refuse c.write_lock true w
    else if not (is_nil c.read_lock)
    then refuse c.read_lock true w
    else if not (is_nil c.pipe2)
    then refuse c.pipe2 (not (is_enosys c.pipe2)) w
    else run_pipe c (splice_loop (suc (length answers)) answers (fresh amt) w)
