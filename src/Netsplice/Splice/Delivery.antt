-- ===== src/Netsplice/Splice/Delivery.antt =====
-- `splice` of splice_linux.go: its end, its delivery through a kernel that moves bytes, and what a
-- failed read leaves.
use wander.Base.{
  ℕ, zero, suc, ◌+◌, ◌-◌, ◌*◌, ◌≤◌, ◌<◌, ◌≡◌, ◌≢◌, refl, sym, ap, ◌∙◌, true, false, List, [], ◌∷◌,
  ◌++◌, arith, All, length, length-append, length-drop, append-nil,
}
use wander.Base.Bytes.{Bytes}
use wander.Base.Int.{int64, ℤ, pos, negsuc, ◌+ℤ◌, ◌-ℤ◌, ltb_ℤ, eqb_ℤ, pos_part}
use wander.Netsplice.Pipe.{
  nil, unexpected_eof, syscall_error, is_nil, Answer, moved, again, failed, World, SplicePipe,
  pipe_buf, Done, Run, done, pending, no_fuel, ◌>>=◌, count, account_read, read_from, read_loop,
  write_loop, write_to, flush, splice_loop,
}
use wander.Netsplice.Pipe.Integrity.{
  bytes_of, IsExact, Kept, After, After->>=, After-if, After-map, max_int64,
}
use wander.Netsplice.Pipe.Loops.{splice_loop-Kept, flush_same, flush-Kept, SameSource, not_errno}
use wander.Netsplice.Pipe.Fuel.{Leaves, splice_loop-Leaves, flush-Leaves}
use wander.Netsplice.Pipe.Progress.{Goes, AtEof, IsMoving, loop-Goes, flush-Goes}
use wander.Netsplice.Splice.{Calls, Spliced, out_of_fuel, finish, run_pipe, fresh, splice}
use wander.Netsplice.Splice.Laws.{DoesReturn, IsClear, start, start-IsExact, splice_clear}

finish_total : (c : Calls) (n : ℕ) (d : Done) (r : Run) → Leaves n r → finish c d r ≢ out_of_fuel
unfolding finish
finish_total c n d (done d') h = cc
finish_total c n d pending h = cc
finish_total c n d no_fuel h = absurd h

run_pipe_total : (c : Calls) (n : ℕ) (r : Run) → Leaves n r → run_pipe c r ≢ out_of_fuel
unfolding run_pipe
run_pipe_total c n (done d) h =
    finish_total c _ d _ (flush-Leaves (suc (length d.rest)) d.rest d.sp d.world (omega arith))
run_pipe_total c n pending h = cc
run_pipe_total c n no_fuel h = absurd h

-- The loops of `splice` come to an end or wait for the kernel, whatever it answers.
pub splice_total :
    (c : Calls) (amt : ℤ) (answers : List Answer) (w : World) → splice c amt answers w ≢ out_of_fuel
unfolding splice
splice_total c amt answers w = ground (
  arith,
  run_pipe_total c _ (splice_loop (suc (length answers)) answers (fresh amt) w)
      (splice_loop-Leaves (suc (length answers)) answers (fresh amt) w (omega arith)),
)

module _ (c : Calls) (max : ℕ) (src : Bytes) where
  abbrev pub Delivered : Spliced → Type 0
  Delivered r =
      (r.err ≡ syscall_error unexpected_eof) × (r.written ≡ pos (length src)) × (r.world.dst ≡ src)

  finish-Delivered :
      (d : Done) (r : Run)
      → d.err ≡ unexpected_eof
      → d.world.src ≡ []
      → Goes (λ d'. d'.err ≡ nil) r
      → After (λ d'. SameSource d.sp d.world d' × (bytes_of d'.world ≡ bytes_of d.world)) r
      → bytes_of d.world ≡ src
      → After (λ d'. Kept max src d' × (is_nil d'.err ≡ true → d'.world.pipe ≡ [])) r
      → DoesReturn Delivered (finish c d r)
  unfolding finish
  finish-Delivered d (done d') e z g h b k =
      let ok : is_nil d'.err ≡ true = rw g refl in
      let empty = k.1 ok in
      let dry : d'.world.src ≡ [] = h.0.0 ∙ z in
      let all : d'.world.dst ≡ src =
        sym (append-nil d'.world.dst) ∙ (rw (empty, dry) at (h.1 ∙ b)) in
      (
        rw e,
        (k.0.exact (not_errno d' ok)).delivered ∙ ap (λ (xs : Bytes). pos (length xs)) all,
        all,
      )
  finish-Delivered d pending e z g h b k = g
  finish-Delivered d no_fuel e z g h b k = g

  run_pipe-Delivered :
      (answers : List Answer) (r : Run)
      → Goes (AtEof max src answers (start src)) r
      → After (Kept max src) r
      → 3 * length src + 1 ≤ length answers
      → DoesReturn Delivered (run_pipe c r)
  unfolding run_pipe
  run_pipe-Delivered answers (done d) (e, left, moving) kept enough =
      let fuel = suc (length d.rest) in
      let exact = kept.exact (rw e refl) in
      finish-Delivered d (flush fuel d.rest d.sp d.world) e (kept.at_eof e)
        (flush-Goes max src fuel d.rest d.sp d.world kept.whole exact moving
          (omega (
            arith,
            ap length kept.whole,
            length-append d.world.dst (d.world.pipe ++ d.world.src),
            length-append d.world.pipe d.world.src,
          ))
          (omega arith))
        (flush_same fuel d.rest d.sp d.world) kept.whole
        (flush-Kept max src fuel d.rest d.sp d.world kept.whole exact)
  run_pipe-Delivered answers pending g k enough = g
  run_pipe-Delivered answers no_fuel g k enough = g

-- If the locks are free and the pipe can be made, and every splice(2) call moves a byte at least as
-- long as there is one, then `splice` returns with the whole source delivered and counted, for any
-- limit beyond its length; and it returns the unexpected end of file as its error.
pub splice-Delivered :
    (c : Calls) (max : ℕ) (src : Bytes) (answers : List Answer)
    → IsClear c
    → max ≤ max_int64
    → length src < max
    → All IsMoving answers
    → 3 * length src + 1 ≤ length answers
    → DoesReturn (Delivered c max src) (splice c (pos max) answers (start src))
splice-Delivered c max src answers clear small short moving enough =
    let fuel = suc (length answers) in
    let s = fresh (pos max) in
    let exact = start-IsExact max src small in
    rw (splice_clear c (pos max) answers (start src) clear) (
      run_pipe-Delivered c max src answers (splice_loop fuel answers s (start src))
        (loop-Goes max src fuel answers s (start src) refl exact (omega arith) short moving
          (omega arith) (omega arith))
        (After-map _ _ (splice_loop fuel answers s (start src))
          (splice_loop-Kept max src fuel answers s (start src) refl exact (omega arith))
          (λ d k. k.0))
        enough)

-- The counter of the pipe is below what the pipe holds.
abbrev Undercounts : SplicePipe → World → Type 0
Undercounts s w = (k : ℕ) × (s.inbuf ≡ pos k) × (k < length w.pipe) × (k ≤ pipe_buf)

abbrev pub Stranded : Done → Type 0
Stranded d = 0 < length d.world.pipe

write_loop_strands :
    (answers : List Answer) (s : SplicePipe) (w : World)
    → Undercounts s w
    → After
        (λ d. Stranded d × (is_nil d.err ≡ true → Undercounts d.sp d.world))
        (write_loop answers s w)
unfolding write_loop int64 ◌-ℤ◌
write_loop_strands [] s w u = tt
write_loop_strands (again true ∷ rest) s w u = write_loop_strands rest s w u
write_loop_strands (again false ∷ rest) s w (k, e, l, b) = (omega arith, λ h. cc)
write_loop_strands (failed a ∷ rest) s w (k, e, l, b) = (omega arith, λ h. cc)
write_loop_strands (moved j ∷ rest) s w (k, e, l, b) =
    let n = count j (pos_part s.inbuf) w.pipe in
    (
      ground (arith, length-drop n w.pipe),
      λ _. (k - n, ground arith, ground (arith, length-drop n w.pipe), omega arith),
    )

flush_strands :
    (fuel : ℕ) (answers : List Answer) (s : SplicePipe) (w : World)
    → Undercounts s w
    → After Stranded (flush fuel answers s w)
unfolding flush write_to
flush_strands zero answers s w u = tt
flush_strands (suc fuel) answers s w (k, e, l, b) =
    After-if _ (ltb_ℤ (pos 0) s.inbuf) _ _
      (λ t.
        After->>= _ _ (write_to answers s w) _
          (After-if _ (eqb_ℤ s.inbuf (pos 0)) _ _ (λ z. (omega arith, λ _. (k, e, l, b)))
            (λ _. write_loop_strands answers s w (k, e, l, b)))
          (λ d h.
            After-if _ (is_nil d.err) _ _ (λ ok. flush_strands fuel d.rest d.sp d.world (h.1 ok))
              (λ _. h.0)))
      (λ _. omega arith)

one_less : (a : ℤ) (k : ℕ) → a ≡ pos k → 0 < k → k ≤ pipe_buf → int64 (a +ℤ negsuc 0) ≡ pos (k - 1)
unfolding int64 ◌+ℤ◌
one_less a k e h b = ground arith

-- A read that fails while the pipe holds bytes: the call's -1 is taken off the count of the pipe, so
-- that the flush that follows leaves at least one byte in the pipe, which is then closed.
pub failed_read_strands :
    (fuel max e : ℕ) (rest : List Answer) (s : SplicePipe) (w : World)
    → IsExact max s w
    → 0 < pos_part s.toread
    → 0 < length w.pipe
    → After Stranded (read_from (failed e ∷ rest) s w >>= λ d. flush fuel d.rest d.sp d.world)
unfolding read_from read_loop
failed_read_strands fuel max e rest s w x p h =
    After->>= (λ d. Undercounts d.sp d.world) _ (read_from (failed e ∷ rest) s w) _
      (After-if _ (eqb_ℤ s.toread (pos 0)) _ _ (λ z. absurd (ground arith)) (λ _. counted))
      (λ d u. flush_strands fuel d.rest d.sp d.world u)
  where
    counted : Undercounts (account_read (negsuc 0) s) w
    counted = (
      length w.pipe - 1,
      one_less s.inbuf (length w.pipe) x.in_pipe h x.room,
      omega arith,
      omega arith,
    )
