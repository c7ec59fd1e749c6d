-- ===== src/Netsplice/Pipe/Progress.antt =====
-- The loops of `splice` with a kernel that always moves bytes.
use wander.Base.{
  ℕ, zero, suc, ◌+◌, ◌*◌, ◌≤◌, ◌<◌, ◌≡◌, ◌++◌, ap, refl, ◌∙◌, Bool, true, false, List, [], ◌∷◌,
  arith, All, ◌==◌, if◌then◌else◌, length, take, length-drop, length-take, length-append, inl, inr,
  ◌⊎◌,
}
use wander.Base.Bytes.{Bytes}
use wander.Base.Int.{pos, ◌+ℤ◌, ltb_ℤ, eqb_ℤ, pos_part}
use wander.Netsplice.Pipe.{
  nil, unexpected_eof, is_nil, Answer, moved, again, failed, World, SplicePipe, pipe_buf, Done, Run,
  done, pending, no_fuel, ◌>>=◌, count, read_loop, read_amount, read_from, write_loop, write_to,
  flush, splice_loop,
}
use wander.Netsplice.Pipe.Integrity.{
  bytes_of, IsExact, Kept, Ready, After, count_pos, nil_length, nil-is_nil,
}
use wander.Netsplice.Pipe.Loops.{not_errno, read_from-Kept, write_to-Ready}

-- The run returns, and with this outcome.
abbrev pub Goes : (Done → Type 0) → Run → Type 0
Goes P (done d) = P d
Goes P pending = ⊥
Goes P no_fuel = ⊥

pub Goes->>= :
    (P Q : Done → Type 0) (r : Run) (f : Done → Run)
    → Goes P r
    → ((d : Done) → P d → Goes Q (f d))
    → Goes Q (r >>= f)
Goes->>= P Q (done d) f h k = k d h
Goes->>= P Q pending f h k = h
Goes->>= P Q no_fuel f h k = h

Goes-if :
    (P : Done → Type 0) (b : Bool) (x y : Run)
    → (b ≡ true → Goes P x)
    → (b ≡ false → Goes P y)
    → Goes P (if b then x else y)
Goes-if P true x y h k = h refl
Goes-if P false x y h k = k refl

pub Goes-map : (P Q : Done → Type 0) (r : Run) → Goes P r → ((d : Done) → P d → Q d) → Goes Q r
Goes-map P Q (done d) h k = k d h
Goes-map P Q pending h k = h
Goes-map P Q no_fuel h k = h

pub Goes-After : (P Q : Done → Type 0) (r : Run) → Goes P r → After Q r → Goes (λ d. P d × Q d) r
Goes-After P Q (done d) h k = (h, k)
Goes-After P Q pending h k = h
Goes-After P Q no_fuel h k = h

-- A kernel that moves at least a byte at each call.
abbrev pub IsMoving : Answer → Type 0
IsMoving (moved k) = Unit
IsMoving (again e) = ⊥
IsMoving (failed e) = ⊥

first_moved :
    (answers : List Answer)
    → All IsMoving answers
    → 0 < length answers
    → (k : ℕ) × (rest : List Answer) × (answers ≡ moved k ∷ rest) × All IsMoving rest
first_moved [] h p = absurd (omega arith)
first_moved (moved k ∷ rest) h p = (k, rest, refl, h.1)
first_moved (again a ∷ rest) h p = absurd (h.0)
first_moved (failed a ∷ rest) h p = absurd (h.0)

module _ (max : ℕ) (total : Bytes) where
  -- A read takes one answer, and moves a byte or finds the end.
  abbrev HasRead : List Answer → World → Done → Type 0
  HasRead rest w d =
      (d.rest ≡ rest)
      × (((d.err ≡ nil) × (length d.world.src < length w.src) × (0 < length d.world.pipe))
          ⊎ ((d.err ≡ unexpected_eof) × (d.world.src ≡ [])))

  read-Goes :
      (k : ℕ) (rest : List Answer) (s : SplicePipe) (w : World)
      → bytes_of w ≡ total
      → IsExact max s w
      → length w.pipe < pipe_buf
      → 0 < pos_part s.toread
      → Goes (HasRead rest w) (read_from (moved k ∷ rest) s w)
  unfolding read_from read_loop
  read-Goes k rest s w e x r p =
      Goes-if _ (eqb_ℤ s.toread (pos 0)) _ _ (λ t. absurd (ground arith))
        (λ _.
          let n = count k (pos_part (read_amount s)) w.src in
          Goes-if _ (n == 0) _ _
            (λ t.
              Goes-if _ (ltb_ℤ s.toread (pos 0)) _ _ (λ u. absurd (ground (arith, x.in_bounds)))
                (λ _. (
                  refl,
                  inr (refl, nil_length w.src (count_pos max total k s w x p r (ground arith))),
                )))
            (λ t. (
              refl,
              inl (
                refl,
                ground (arith, length-drop n w.src),
                ground (arith, length-append w.pipe (take n w.src), length-take n w.src),
              ),
            )))

  abbrev HasWritten : List Answer → World → Done → Type 0
  HasWritten rest w d =
      (d.rest ≡ rest)
      × (d.err ≡ nil)
      × (length d.world.pipe < length w.pipe)
      × (d.world.src ≡ w.src)

  write-Goes :
      (k : ℕ) (rest : List Answer) (s : SplicePipe) (w : World)
      → IsExact max s w
      → 0 < length w.pipe
      → Goes (HasWritten rest w) (write_to (moved k ∷ rest) s w)
  unfolding write_to write_loop
  write-Goes k rest s w x p =
      Goes-if _ (eqb_ℤ s.inbuf (pos 0)) _ _ (λ t. absurd (ground (arith, x.in_pipe)))
        (λ _. (
          refl,
          refl,
          ground (arith, length-drop (count k (pos_part s.inbuf) w.pipe) w.pipe, x.in_pipe),
          refl,
        ))

  length-bytes_of :
      (w : World) → bytes_of w ≡ total → length w.dst + length w.pipe + length w.src ≡ length total
  length-bytes_of w e =
      omega (arith, ap length e, length-append w.dst (w.pipe ++ w.src), length-append w.pipe w.src)

  still_reading :
      (s : SplicePipe) (w : World)
      → bytes_of w ≡ total
      → IsExact max s w
      → length total < max
      → 0 < pos_part s.toread
  unfolding ◌+ℤ◌
  still_reading s w e x h = ground (arith, x.allowed, x.in_bounds, length-bytes_of w e)

  -- How many answers the reading loop may take.
  abbrev pub turns : World → ℕ
  turns w = 2 * length w.src + 1

  abbrev pub AtEof : List Answer → World → Done → Type 0
  AtEof answers w d =
      (d.err ≡ unexpected_eof) × (length answers ≤ length d.rest + turns w) × All IsMoving d.rest

  eof_goes :
      (rest : List Answer) (w : World) (d : Done)
      → HasRead rest w d
      → is_nil d.err ≡ false
      → All IsMoving rest
      → AtEof (moved 0 ∷ rest) w d
  eof_goes rest w d (same, inl (ok, _, _)) bad h = absurd (ground arith)
  eof_goes rest w d (same, inr (eof, _)) bad h = (eof, omega (arith, ap length same), rw same h)

  -- A turn that has read: it writes, and goes on.
  forward-Goes :
      (fuel : ℕ) (rest : List Answer) (w : World) (d : Done)
      → HasRead rest w d
      → Kept max total d
      → d.err ≡ nil
      → All IsMoving rest
      → turns w ≤ suc (length rest)
      → ((d' : Done) (rest' : List Answer)
          → d'.err ≡ nil
          → d'.rest ≡ rest'
          → All IsMoving rest'
          → suc (length rest') ≡ length rest
          → Ready max total d'
          → length d'.world.src < length w.src
          → Goes (AtEof rest' d'.world) (splice_loop fuel d'.rest d'.sp d'.world))
      → Goes
          (λ d'. AtEof (moved 0 ∷ rest) w d')
          (write_to d.rest d.sp d.world >>= λ d'.
            if is_nil d'.err then splice_loop fuel d'.rest d'.sp d'.world else done d')
  forward-Goes fuel rest w d (same, inr (bad, empty)) g ok h l next = absurd (cc)
  forward-Goes fuel rest w d (same, inl (_, shorter, filled)) g ok h l next =
      let (k, rest', e, h') = first_moved rest h (omega arith) in
      let exact = g.exact (rw ok refl) in
      let wrote : Goes (HasWritten rest' d.world) (write_to d.rest d.sp d.world) =
        rw (same ∙ e) (write-Goes k rest' d.sp d.world exact filled) in
      Goes->>= _ _ (write_to d.rest d.sp d.world) _
        (Goes-After _ _ _ wrote (write_to-Ready max total d.rest d.sp d.world g.whole exact))
        (λ d' v.
          Goes-if _ (is_nil d'.err) _ _
            (λ _.
              Goes-map _ _ (splice_loop fuel d'.rest d'.sp d'.world)
                (next d' rest' v.0.1 v.0.0 h' (omega (arith, ap length e)) v.1
                  (omega (arith, ap length v.0.3)))
                (λ u t. (t.0, omega (arith, t.1, ap length e, ap length v.0.3), t.2)))
            (λ bad. absurd (ground arith)))

  pub loop-Goes :
      (fuel : ℕ) (answers : List Answer) (s : SplicePipe) (w : World)
      → bytes_of w ≡ total
      → IsExact max s w
      → length w.pipe < pipe_buf
      → length total < max
      → All IsMoving answers
      → turns w ≤ length answers
      → length answers < fuel
      → Goes (AtEof answers w) (splice_loop fuel answers s w)
  unfolding splice_loop
  loop-Goes zero answers s w e x r m h l f = absurd (omega arith)
  loop-Goes (suc fuel) [] s w e x r m h l f = absurd (omega arith)
  loop-Goes (suc fuel) (again a ∷ rest) s w e x r m h l f = absurd (h.0)
  loop-Goes (suc fuel) (failed a ∷ rest) s w e x r m h l f = absurd (h.0)
  loop-Goes (suc fuel) (moved k ∷ rest) s w e x r m h l f =
      let p = still_reading s w e x m in
      Goes-if _ (eqb_ℤ s.toread (pos 0)) _ _ (λ t. absurd (ground arith))
        (λ _.
          Goes->>= _ _ (read_from (moved k ∷ rest) s w) _
            (Goes-After _ _ _ (read-Goes k rest s w e x r p)
              (read_from-Kept max total (moved k ∷ rest) s w e x r))
            (λ d g.
              Goes-if _ (is_nil d.err) _ _
                (λ ok.
                  forward-Goes fuel rest w d g.0 g.1 (nil-is_nil d.err ok) h.1 l
                    (λ d' rest' ok' e' h' l' v v'. rw e' (
                      loop-Goes fuel rest' d'.sp d'.world v.0.whole (v.0.exact (rw ok' refl))
                        (v.1 (rw ok' refl)) m h' (omega arith) (omega arith))))
                (λ bad. eof_goes rest w d g.0 bad h.1)))

  pub flush-Goes :
      (fuel : ℕ) (answers : List Answer) (s : SplicePipe) (w : World)
      → bytes_of w ≡ total
      → IsExact max s w
      → All IsMoving answers
      → length w.pipe ≤ length answers
      → length answers < fuel
      → Goes (λ d. d.err ≡ nil) (flush fuel answers s w)
  unfolding flush
  flush-Goes zero answers s w e x h l f = absurd (omega arith)
  flush-Goes (suc fuel) answers s w e x h l f =
      Goes-if _ (ltb_ℤ (pos 0) s.inbuf) _ _
        (λ t.
          let full : 0 < length w.pipe = ground (arith, x.in_pipe) in
          let (k, rest, e', h') = first_moved answers h (omega arith) in
          let wrote : Goes (HasWritten rest w) (write_to answers s w) =
            rw e' (write-Goes k rest s w x full) in
          Goes->>= _ _ (write_to answers s w) _
            (Goes-After _ _ _ wrote (write_to-Ready max total answers s w e x))
            (λ d g.
              Goes-if _ (is_nil d.err) _ _
                (λ ok.
                  flush-Goes fuel d.rest d.sp d.world g.1.0.whole (g.1.0.exact (not_errno d ok))
                    (rw g.0.0 h') (omega (arith, ap length e', ap length g.0.0))
                    (omega (arith, ap length e', ap length g.0.0)))
                (λ bad. absurd (ground arith))))
        (λ _. refl)
