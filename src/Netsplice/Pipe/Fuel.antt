-- ===== src/Netsplice/Pipe/Fuel.antt =====
-- The rounds of the two loops of `splice` and the answers of the kernel that they take.
use wander.Base.{
  ℕ, zero, suc, ◌≤◌, ◌<◌, ◌≡◌, refl, Bool, true, false, List, [], ◌∷◌, arith, ◌==◌, if◌then◌else◌,
  length,
}
use wander.Base.Int.{pos, ltb_ℤ, eqb_ℤ, pos_part}
use wander.Netsplice.Pipe.{
  is_nil, Answer, moved, again, failed, World, SplicePipe, Done, Run, done, pending, no_fuel, ◌>>=◌,
  count, read_loop, read_amount, read_from, write_loop, write_to, flush, splice_loop,
}

-- The run did not stop for want of fuel, and leaves less than `n` answers.
abbrev pub Leaves : ℕ → Run → Type 0
Leaves n (done d) = length d.rest < n
Leaves n pending = Unit
Leaves n no_fuel = ⊥

Leaves->>= :
    (m n : ℕ) (r : Run) (f : Done → Run)
    → Leaves m r
    → ((d : Done) → length d.rest < m → Leaves n (f d))
    → Leaves n (r >>= f)
Leaves->>= m n (done d) f h k = k d h
Leaves->>= m n pending f h k = tt
Leaves->>= m n no_fuel f h k = h

Leaves-if :
    (n : ℕ) (b : Bool) (x y : Run)
    → (b ≡ true → Leaves n x)
    → (b ≡ false → Leaves n y)
    → Leaves n (if b then x else y)
Leaves-if n true x y h k = h refl
Leaves-if n false x y h k = k refl

pub Leaves-le : (m n : ℕ) (r : Run) → m ≤ n → Leaves m r → Leaves n r
Leaves-le m n (done d) h k = omega arith
Leaves-le m n pending h k = tt
Leaves-le m n no_fuel h k = k

read_loop-Leaves :
    (amt : ℕ) (answers : List Answer) (can_read : Bool) (s : SplicePipe) (w : World)
    → Leaves (length answers) (read_loop amt answers can_read s w)
unfolding read_loop
read_loop-Leaves amt [] can_read s w = tt
read_loop-Leaves amt (again true ∷ rest) true s w = omega arith
read_loop-Leaves amt (again true ∷ rest) false s w =
    Leaves-le _ _ (read_loop amt rest true s w) (omega arith) (read_loop-Leaves amt rest true s w)
read_loop-Leaves amt (again false ∷ rest) true s w = omega arith
read_loop-Leaves amt (again false ∷ rest) false s w = omega arith
read_loop-Leaves amt (failed a ∷ rest) can_read s w = omega arith
read_loop-Leaves amt (moved k ∷ rest) can_read s w =
    Leaves-if _ (count k amt w.src == 0) _ _
      (λ _. Leaves-if _ (ltb_ℤ s.toread (pos 0)) _ _ (λ _. omega arith) (λ _. omega arith))
      (λ _. omega arith)

write_loop-Leaves :
    (answers : List Answer) (s : SplicePipe) (w : World)
    → Leaves (length answers) (write_loop answers s w)
unfolding write_loop
write_loop-Leaves [] s w = tt
write_loop-Leaves (again true ∷ rest) s w =
    Leaves-le _ _ (write_loop rest s w) (omega arith) (write_loop-Leaves rest s w)
write_loop-Leaves (again false ∷ rest) s w = omega arith
write_loop-Leaves (failed a ∷ rest) s w = omega arith
write_loop-Leaves (moved k ∷ rest) s w = omega arith

write_to-Leaves :
    (answers : List Answer) (s : SplicePipe) (w : World)
    → Leaves (suc (length answers)) (write_to answers s w)
unfolding write_to
write_to-Leaves answers s w =
    Leaves-if _ (eqb_ℤ s.inbuf (pos 0)) _ _ (λ _. omega arith)
      (λ _. Leaves-le _ _ (write_loop answers s w) (omega arith) (write_loop-Leaves answers s w))

pub flush-Leaves :
    (fuel : ℕ) (answers : List Answer) (s : SplicePipe) (w : World)
    → length answers < fuel
    → Leaves (suc (length answers)) (flush fuel answers s w)
unfolding flush write_to
flush-Leaves zero answers s w h = absurd (omega arith)
flush-Leaves (suc fuel) answers s w h =
    Leaves-if _ (ltb_ℤ (pos 0) s.inbuf) _ _
      (λ t.
        Leaves->>= (length answers) _ (write_to answers s w) _
          (Leaves-if _ (eqb_ℤ s.inbuf (pos 0)) _ _ (λ z. absurd (ground arith))
            (λ _. write_loop-Leaves answers s w))
          (λ d k.
            Leaves-if _ (is_nil d.err) _ _
              (λ _.
                Leaves-le _ _ (flush fuel d.rest d.sp d.world) (omega arith)
                  (flush-Leaves fuel d.rest d.sp d.world (omega arith)))
              (λ _. omega arith)))
      (λ _. omega arith)

pub splice_loop-Leaves :
    (fuel : ℕ) (answers : List Answer) (s : SplicePipe) (w : World)
    → length answers < fuel
    → Leaves (suc (length answers)) (splice_loop fuel answers s w)
unfolding splice_loop read_from
splice_loop-Leaves zero answers s w h = absurd (omega arith)
splice_loop-Leaves (suc fuel) answers s w h =
    Leaves-if _ (eqb_ℤ s.toread (pos 0)) _ _ (λ _. omega arith)
      (λ t.
        Leaves->>= (length answers) _ (read_from answers s w) _
          (Leaves-if _ (eqb_ℤ s.toread (pos 0)) _ _ (λ z. absurd (ground arith))
            (λ _. read_loop-Leaves (pos_part (read_amount s)) answers false s w))
          (λ d k.
            Leaves-if _ (is_nil d.err) _ _
              (λ _.
                Leaves->>= (suc (length d.rest)) _ (write_to d.rest d.sp d.world) _
                  (write_to-Leaves d.rest d.sp d.world)
                  (λ d' k'.
                    Leaves-if _ (is_nil d'.err) _ _
                      (λ _.
                        Leaves-le _ _ (splice_loop fuel d'.rest d'.sp d'.world) (omega arith)
                          (splice_loop-Leaves fuel d'.rest d'.sp d'.world (omega arith)))
                      (λ _. omega arith)))
              (λ _. omega arith)))
