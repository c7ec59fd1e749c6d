-- ===== src/Netsplice/Pipe/Loops.antt =====
-- The two loops of `splice`: reading and writing in turn, and the final flush.
use wander.Base.{ℕ, zero, suc, ◌<◌, ◌≡◌, refl, ◌∙◌, true, false, List, [], ◌∷◌, arith, length}
use wander.Base.Bytes.{Bytes}
use wander.Base.Int.{ℤ, pos, ltb_ℤ, eqb_ℤ, pos_part}
use wander.Netsplice.Pipe.{
  is_nil, Answer, moved, again, failed, World, SplicePipe, pipe_buf, Done, count, read_from,
  write_loop, write_to, flush, splice_loop,
}
use wander.Netsplice.Pipe.Integrity.{
  bytes_of, IsExact, Kept, Ready, After, After->>=, After-if, After-both, After-map, read_loop-Kept,
  write_loop-Ready, nil-is_nil, nil_length, move_out, is_errno,
}

pub not_errno : (d : Done) → is_nil d.err ≡ true → is_errno d.err ≡ false
not_errno d h = rw (nil-is_nil d.err h)

eqb_zero : (a : ℤ) → eqb_ℤ a (pos 0) ≡ true → a ≡ pos 0
eqb_zero a h = ground arith

-- Writing leaves the source and the read limit alone.
abbrev pub SameSource : SplicePipe → World → Done → Type 0
SameSource s w d = (d.world.src ≡ w.src) × (d.sp.toread ≡ s.toread)

write_loop_same :
    (answers : List Answer) (s : SplicePipe) (w : World)
    → After (SameSource s w) (write_loop answers s w)
unfolding write_loop
write_loop_same [] s w = tt
write_loop_same (again true ∷ rest) s w = write_loop_same rest s w
write_loop_same (again false ∷ rest) s w = (refl, refl)
write_loop_same (failed a ∷ rest) s w = (refl, refl)
write_loop_same (moved k ∷ rest) s w = (refl, refl)

write_loop_whole :
    (answers : List Answer) (s : SplicePipe) (w : World)
    → After (λ d. bytes_of d.world ≡ bytes_of w) (write_loop answers s w)
unfolding write_loop
write_loop_whole [] s w = tt
write_loop_whole (again true ∷ rest) s w = write_loop_whole rest s w
write_loop_whole (again false ∷ rest) s w = refl
write_loop_whole (failed a ∷ rest) s w = refl
write_loop_whole (moved k ∷ rest) s w = move_out (count k (pos_part s.inbuf) w.pipe) w

write_to_same :
    (answers : List Answer) (s : SplicePipe) (w : World)
    → After (λ d. SameSource s w d × (bytes_of d.world ≡ bytes_of w)) (write_to answers s w)
unfolding write_to
write_to_same answers s w =
    After-if _ (eqb_ℤ s.inbuf (pos 0)) _ _ (λ _. ((refl, refl), refl))
      (λ _.
        After-both _ _ (write_loop answers s w) (write_loop_same answers s w)
          (write_loop_whole answers s w))

pub flush_same :
    (fuel : ℕ) (answers : List Answer) (s : SplicePipe) (w : World)
    → After (λ d. SameSource s w d × (bytes_of d.world ≡ bytes_of w)) (flush fuel answers s w)
unfolding flush
flush_same zero answers s w = tt
flush_same (suc fuel) answers s w =
    After-if _ (ltb_ℤ (pos 0) s.inbuf) _ _
      (λ _. After->>= _ _ (write_to answers s w) _ (write_to_same answers s w) (λ d h.
        After-if _ (is_nil d.err) _ _
          (λ _.
            After-map _ _ (flush fuel d.rest d.sp d.world) (flush_same fuel d.rest d.sp d.world)
              (λ d' k. ((k.0.0 ∙ h.0.0, k.0.1 ∙ h.0.1), k.1 ∙ h.1)))
          (λ _. h)))
      (λ _. ((refl, refl), refl))

module _ (max : ℕ) (total : Bytes) where
  abbrev pub IsFlushed : Done → Type 0
  IsFlushed d = is_nil d.err ≡ true → d.world.pipe ≡ []

  abbrev pub IsFinished : Done → Type 0
  IsFinished d = is_nil d.err ≡ true → d.sp.toread ≡ pos 0

  pub write_to-Ready :
      (answers : List Answer) (s : SplicePipe) (w : World)
      → bytes_of w ≡ total
      → IsExact max s w
      → After (Ready max total) (write_to answers s w)
  unfolding write_to
  write_to-Ready answers s w e x =
      After-if _ (eqb_ℤ s.inbuf (pos 0)) _ _
        (λ t.
          (record { whole = e; exact = λ _. x; at_eof = λ h. cc }, λ _. ground (arith, x.in_pipe)))
        (λ t. write_loop-Ready max total answers s w e x (ground (arith, x.in_pipe)))

  pub read_from-Kept :
      (answers : List Answer) (s : SplicePipe) (w : World)
      → bytes_of w ≡ total
      → IsExact max s w
      → length w.pipe < pipe_buf
      → After (Kept max total) (read_from answers s w)
  unfolding read_from
  read_from-Kept answers s w e x r =
      After-if _ (eqb_ℤ s.toread (pos 0)) _ _
        (λ t. record { whole = e; exact = λ _. x; at_eof = λ h. cc })
        (λ t. read_loop-Kept max total answers false s w e x (ground (arith, x.in_bounds)) r)

  pub flush-Kept :
      (fuel : ℕ) (answers : List Answer) (s : SplicePipe) (w : World)
      → bytes_of w ≡ total
      → IsExact max s w
      → After (λ d. Kept max total d × IsFlushed d) (flush fuel answers s w)
  unfolding flush
  flush-Kept zero answers s w e x = tt
  flush-Kept (suc fuel) answers s w e x =
      After-if _ (ltb_ℤ (pos 0) s.inbuf) _ _
        (λ _. After->>= _ _ (write_to answers s w) _ (write_to-Ready answers s w e x) (λ d h.
          After-if _ (is_nil d.err) _ _
            (λ ok. flush-Kept fuel d.rest d.sp d.world h.0.whole (h.0.exact (not_errno d ok)))
            (λ bad. (h.0, λ ok. cc))))
        (λ t. (
          record { whole = e; exact = λ _. x; at_eof = λ h. cc },
          λ _. nil_length w.pipe (ground (arith, x.in_pipe)),
        ))

  pub splice_loop-Kept :
      (fuel : ℕ) (answers : List Answer) (s : SplicePipe) (w : World)
      → bytes_of w ≡ total
      → IsExact max s w
      → length w.pipe < pipe_buf
      → After (λ d. Kept max total d × IsFinished d) (splice_loop fuel answers s w)
  unfolding splice_loop
  splice_loop-Kept zero answers s w e x r = tt
  splice_loop-Kept (suc fuel) answers s w e x r =
      After-if _ (eqb_ℤ s.toread (pos 0)) _ _
        (λ t. (record { whole = e; exact = λ _. x; at_eof = λ h. cc }, λ _. eqb_zero s.toread t))
        (λ _. After->>= _ _ (read_from answers s w) _ (read_from-Kept answers s w e x r) (λ d h.
          After-if _ (is_nil d.err) _ _
            (λ ok.
              After->>= _ _ (write_to d.rest d.sp d.world) _
                (write_to-Ready d.rest d.sp d.world h.whole (h.exact (not_errno d ok)))
                (λ d' k.
                  After-if _ (is_nil d'.err) _ _
                    (λ ok'.
                      splice_loop-Kept fuel d'.rest d'.sp d'.world k.0.whole
                        (k.0.exact (not_errno d' ok')) (k.1 ok'))
                    (λ bad. (k.0, λ ok'. cc))))
            (λ bad. (h, λ ok. cc))))
