-- ===== src/QpsServer/Header/Outcome.antt =====
-- What the search for the end of a header comes to, by the shape of what was read.
use wander.Base.{
  ℕ, zero, suc, ◌+◌, ◌-◌, ◌≤◌, ◌<◌, ◌≡◌, refl, ◌∙◌, sym, ap, true, false, [], ◌∷◌, ◌++◌, arith,
  length, append_assoc, append-nil, length-append,
}
use wander.Base.Bytes.{Bytes, Lacks, index_byte, index_byte-none, newline, unlines}
use wander.QpsServer.Event.{is_pase_done}
use wander.QpsServer.Conn.{Info, done, spins}
use wander.QpsServer.Header.{Seek, is_open, find_end}
use wander.QpsServer.Header.Laws.{
  at, rounds, rounds_lem, goes_on, rest_at, find_end-blank, find_end-lines,
}
use wander.QpsServer.Header.Shape.{
  Shape, ended, whole, cut, outcome, length-unlines, end_header_lem,
}

module _ (info : Info) (seek : Seek) (ok : seek.method_ok ≡ true)
    (unended : is_pase_done info.state ≡ false)
    (total : seek.total ≡ length info.read_raw_stream) where
  -- No newline is left: the loop goes round for ever.
  find_end-cut :
      (f : ℕ) (pre tail : Bytes)
      → info.read_raw_stream ≡ pre ++ tail
      → Lacks newline tail
      → 0 < length tail
      → find_end f info (at seek (length pre)) ≡ spins
  unfolding find_end
  find_end-cut zero pre tail e h pos = refl
  find_end-cut (suc f) pre tail e h pos =
      rw
        (
          goes_on info seek ok unended total pre tail e pos,
          ap (λ s. index_byte s newline) (rest_at info seek ok unended total pre tail e)
              ∙ index_byte-none tail h,
        )
        (find_end-cut f pre tail e h pos)

  find_end-whole :
      (f : ℕ) (pre : Bytes)
      → info.read_raw_stream ≡ pre
      → find_end (suc f) info (at seek (length pre))
        ≡ done (info, at seek (length info.read_raw_stream))
  unfolding find_end
  find_end-whole f pre e =
      rw (ended_at (length pre) (ap length (sym e)))
        (ap (λ p. done (info, at seek (length p))) (sym e))
    where
      ended_at : (p : ℕ) → p ≡ length info.read_raw_stream → is_open info (at seek p) ≡ false
      ended_at p h = ground (arith, total)

  -- The search does what the text's shape says, with any fuel of two rounds and one for each byte.
  -- So when it is out of such a fuel the last line is unfinished, and it never ends.
  pub find_end-outcome :
      (f : ℕ) (pre s : Bytes) (x : Shape s)
      → info.read_raw_stream ≡ pre ++ s
      → length s + 2 ≤ f
      → find_end f info (at seek (length pre)) ≡ outcome info seek pre s x
  find_end-outcome f pre s (ended ls blank body hs lacks b e) eq h =
      ap (λ k. find_end k info (at seek (length pre))) fuel
      ∙ (find_end-lines info seek ok unended total (suc (suc g)) pre ls _ raw hs
          ∙ (find_end-blank info seek ok unended total (pre ++ unlines ls) blank body raw' lacks g b
              ∙ ap (λ after. done (after, at seek (length (pre ++ unlines ls))))
                  (end_header_lem info seek pre ls blank body raw')))
    where
      g : ℕ
      g = f - length ls - 2

      fuel : f ≡ rounds ls (suc (suc g))
      fuel = omega (
        arith,
        rounds_lem ls (suc (suc g)),
        length-unlines ls,
        ap length e,
        length-append (unlines ls) (blank ++ (newline ∷ body)),
      )

      raw : info.read_raw_stream ≡ pre ++ (unlines ls ++ (blank ++ (newline ∷ body)))
      raw = eq ∙ ap (λ x. pre ++ x) e

      raw' : info.read_raw_stream ≡ (pre ++ unlines ls) ++ (blank ++ (newline ∷ body))
      raw' = raw ∙ sym (append_assoc pre (unlines ls) (blank ++ (newline ∷ body)))
  find_end-outcome f pre s (whole ls hs e) eq h =
      ap (λ k. find_end k info (at seek (length pre))) fuel
      ∙ (find_end-lines info seek ok unended total (suc g) pre ls [] raw hs
          ∙ find_end-whole g (pre ++ unlines ls) (eq ∙ ap (λ x. pre ++ x) e))
    where
      g : ℕ
      g = f - length ls - 1

      fuel : f ≡ rounds ls (suc g)
      fuel = omega (arith, rounds_lem ls (suc g), length-unlines ls, ap length e)

      raw : info.read_raw_stream ≡ pre ++ (unlines ls ++ [])
      raw = eq ∙ ap (λ x. pre ++ x) (e ∙ sym (append-nil (unlines ls)))
  find_end-outcome f pre s (cut ls tail hs lacks pos e) eq h =
      ap (λ k. find_end k info (at seek (length pre))) fuel
      ∙ (find_end-lines info seek ok unended total g pre ls tail raw hs
          ∙ find_end-cut g (pre ++ unlines ls) tail (raw ∙ sym (append_assoc pre (unlines ls) tail))
              lacks pos)
    where
      g : ℕ
      g = f - length ls

      fuel : f ≡ rounds ls g
      fuel =
          omega (
            arith,
            rounds_lem ls g,
            length-unlines ls,
            ap length e,
            length-append (unlines ls) tail,
          )

      raw : info.read_raw_stream ≡ pre ++ (unlines ls ++ tail)
      raw = eq ∙ ap (λ x. pre ++ x) e
