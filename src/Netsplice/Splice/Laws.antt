-- ===== src/Netsplice/Splice/Laws.antt =====
-- What `splice` returns, and what has become of the bytes.
use wander.Base.{
  ℕ, suc, ◌≤◌, ◌<◌, ◌≡◌, ◌≢◌, refl, ap, ◌∙◌, Bool, true, false, not, List, [], ◌++◌, arith,
  if◌then◌else◌, length, length-append,
}
use wander.Base.Bytes.{Bytes}
use wander.Base.Int.{ℤ, pos, ◌+ℤ◌}
use wander.Netsplice.Pipe.{
  new_syscall_error, Err, nil, is_nil, Answer, World, SplicePipe, Done, Run, done, pending, no_fuel,
  flush, splice_loop,
}
use wander.Netsplice.Pipe.Integrity.{bytes_of, IsExact, Kept, After, After-map, max_int64}
use wander.Netsplice.Pipe.Loops.{splice_loop-Kept, flush_same, flush-Kept, SameSource, not_errno}
use wander.Netsplice.Splice.{
  Calls, Spliced, Return, returns, waits, out_of_fuel, first_err, finish, run_pipe, fresh, splice,
}

-- What holds of the results, if `splice` returns.
abbrev pub IfReturns : (Spliced → Type 0) → Return → Type 0
IfReturns P (returns r) = P r
IfReturns P waits = Unit
IfReturns P out_of_fuel = Unit

-- `splice` returns, with such results.
abbrev pub DoesReturn : (Spliced → Type 0) → Return → Type 0
DoesReturn P (returns r) = P r
DoesReturn P waits = ⊥
DoesReturn P out_of_fuel = ⊥

-- The locks are free, and the pipe can be made.
abbrev pub IsClear : Calls → Type 0
IsClear c = (c.write_lock ≡ nil) × (c.read_lock ≡ nil) × (c.pipe2 ≡ nil)

abbrev pub start : Bytes → World
start src = record { src = src; pipe = []; dst = [] }

pub start-IsExact :
    (max : ℕ) (src : Bytes) → max ≤ max_int64 → IsExact max (fresh (pos max)) (start src)
unfolding ◌+ℤ◌
start-IsExact max src h = ground arith

pub splice_clear :
    (c : Calls) (amt : ℤ) (answers : List Answer) (w : World)
    → IsClear c
    → splice c amt answers w ≡ run_pipe c (splice_loop (suc (length answers)) answers (fresh amt) w)
unfolding splice
splice_clear c amt answers w (h, k, l) = rw (h, k, l)

Return-if :
    (P : Spliced → Type 0) (b : Bool) (x y : Return)
    → (b ≡ true → IfReturns P x)
    → IfReturns P y
    → IfReturns P (if b then x else y)
Return-if P true x y h k = h refl
Return-if P false x y h k = k

-- A call that is refused returns an error and has moved nothing; else the pipe runs.
splice_rule :
    (P : Spliced → Type 0) (c : Calls) (amt : ℤ) (answers : List Answer) (w : World)
    → ((e : Err) (handled : Bool)
        → is_nil e ≡ false
        → P (record { written = pos 0; err = e; handled = handled; world = w }))
    → IfReturns P (run_pipe c (splice_loop (suc (length answers)) answers (fresh amt) w))
    → IfReturns P (splice c amt answers w)
unfolding splice
splice_rule P c amt answers w h k =
    Return-if P (not (is_nil c.write_lock)) _ _ (λ t. h c.write_lock true (ground arith))
      (Return-if P (not (is_nil c.read_lock)) _ _ (λ t. h c.read_lock true (ground arith))
        (Return-if P (not (is_nil c.pipe2)) _ _ (λ t. h c.pipe2 _ (ground arith)) k))

nil_parts :
    (a b x : Err)
    → first_err (new_syscall_error (first_err a b)) x ≡ nil
    → (is_nil a ≡ true) × (is_nil b ≡ true)
nil_parts a b x h = ground arith

all_allowed :
    (max : ℕ) (s : SplicePipe) (w : World)
    → IsExact max s w
    → s.toread ≡ pos 0
    → w.pipe ≡ []
    → (s.written ≡ pos max) × (length w.dst ≡ max)
unfolding ◌+ℤ◌
all_allowed max s w x h k = ground (arith, x.allowed, x.delivered, ap length k)

-- What the loops leave, and the flush after them, decide the results.
module _ (c : Calls) (max : ℕ) (src : Bytes) where
  abbrev pub AllMoved : Spliced → Type 0
  AllMoved r = (r.written ≡ pos max) × (length r.world.dst ≡ max) × (r.world.pipe ≡ [])

  abbrev pub Outcome : Spliced → Type 0
  Outcome r = (bytes_of r.world ≡ src) × (r.err ≡ nil → AllMoved r)

  finish-Outcome :
      (d : Done) (r : Run)
      → (is_nil d.err ≡ true → d.sp.toread ≡ pos 0)
      → After (λ d'. SameSource d.sp d.world d' × (bytes_of d'.world ≡ src)) r
      → (is_nil d.err ≡ true
          → After (λ d'. Kept max src d' × (is_nil d'.err ≡ true → d'.world.pipe ≡ [])) r)
      → IfReturns Outcome (finish c d r)
  unfolding finish
  finish-Outcome d (done d') z h k = (
    h.1,
    λ e.
        let (ok, ok') = nil_parts d.err d'.err (first_err c.close_rfd c.close_wfd) e in
        let (kept, flushed) = k ok in
        let (count, delivered) =
          all_allowed max d'.sp d'.world (kept.exact (not_errno d' ok')) (h.0.1 ∙ z ok)
            (flushed ok') in
        (count, delivered, flushed ok'),
  )
  finish-Outcome d pending z h k = tt
  finish-Outcome d no_fuel z h k = tt

  run_pipe-Outcome :
      (r : Run)
      → After (λ d. Kept max src d × (is_nil d.err ≡ true → d.sp.toread ≡ pos 0)) r
      → IfReturns Outcome (run_pipe c r)
  unfolding run_pipe
  run_pipe-Outcome (done d) (kept, z) =
      let fuel = suc (length d.rest) in
      finish-Outcome d (flush fuel d.rest d.sp d.world) z
        (After-map _ _ (flush fuel d.rest d.sp d.world) (flush_same fuel d.rest d.sp d.world)
          (λ d' g. (g.0, g.1 ∙ kept.whole)))
        (λ ok. flush-Kept max src fuel d.rest d.sp d.world kept.whole (kept.exact (not_errno d ok)))
  run_pipe-Outcome pending h = tt
  run_pipe-Outcome no_fuel h = tt

  splice-Outcome :
      (answers : List Answer)
      → max ≤ max_int64
      → IfReturns Outcome (splice c (pos max) answers (start src))
  splice-Outcome answers h =
      splice_rule Outcome c (pos max) answers (start src)
        (λ e handled bad. (refl, λ ok. absurd (ground arith)))
        (run_pipe-Outcome (splice_loop (suc (length answers)) answers (fresh (pos max)) (start src))
          (splice_loop-Kept max src (suc (length answers)) answers (fresh (pos max)) (start src)
            refl (start-IsExact max src h) (omega arith)))

return_lem : (P : Spliced → Type 0) (x : Return) (r : Spliced) → x ≡ returns r → IfReturns P x → P r
return_lem P x r e h = rw e at h

-- Whatever the kernel answers, and whether the call succeeds or fails, the bytes delivered, those
-- left in the pipe and those not read are together the bytes of the source, in their order.
splice-bytes :
    (c : Calls) (max : ℕ) (src : Bytes) (answers : List Answer) (r : Spliced)
    → max ≤ max_int64
    → splice c (pos max) answers (start src) ≡ returns r
    → r.world.dst ++ (r.world.pipe ++ r.world.src) ≡ src
splice-bytes c max src answers r h e =
    (return_lem (Outcome c max src) _ r e (splice-Outcome c max src answers h)).0

-- Success means that all of the `max` bytes asked for were delivered, that the count returned says
-- so, and that no byte is left in the pipe.
pub splice_success :
    (c : Calls) (max : ℕ) (src : Bytes) (answers : List Answer) (r : Spliced)
    → max ≤ max_int64
    → splice c (pos max) answers (start src) ≡ returns r
    → r.err ≡ nil
    → (r.written ≡ pos max) × (length r.world.dst ≡ max) × (r.world.pipe ≡ [])
splice_success c max src answers r h e ok =
    (return_lem (Outcome c max src) _ r e (splice-Outcome c max src answers h)).1 ok

-- A source that ends before `max` bytes is an error, however it ends. (The callers ask for
-- 2 ^ 63 - 1 bytes.)
pub splice_eof :
    (c : Calls) (max : ℕ) (src : Bytes) (answers : List Answer) (r : Spliced)
    → max ≤ max_int64
    → splice c (pos max) answers (start src) ≡ returns r
    → length src < max
    → r.err ≢ nil
splice_eof c max src answers r h e short ok =
    let (_, delivered, _) = splice_success c max src answers r h e ok in
    let whole = ap length (splice-bytes c max src answers r h e) in
    absurd
      (omega (arith, delivered, whole, length-append r.world.dst (r.world.pipe ++ r.world.src)))
