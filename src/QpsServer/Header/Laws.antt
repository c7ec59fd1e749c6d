-- ===== src/QpsServer/Header/Laws.antt =====
-- The search for the end of a header on a text that is given as lines.
use wander.Base.{
  ℕ, suc, ◌+◌, ◌<◌, ◌≡◌, refl, ◌∙◌, sym, ap, Bool, true, false, List, [], ◌∷◌, ◌++◌, arith, length,
  drop, ◌==◌, some, append_assoc, append-nil, length-append, All, lt→ltb,
}
use wander.Base.Bytes.{Bytes, Lacks, drop-append, index_byte, index_byte-line, newline, unlines}
use wander.QpsServer.Event.{is_pase_done}
use wander.QpsServer.Conn.{Info, done}
use wander.QpsServer.Header.{Seek, is_empty_line, end_header, is_open, find_end}

-- A line that ends the header: it is empty, or a carriage return.
abbrev pub is_blank : Bytes → Bool
is_blank [] = true
is_blank (c ∷ []) = c == 13
is_blank (c ∷ d ∷ s) = false

-- A line of the header.
abbrev pub IsLine : Bytes → Type 0
IsLine l = Lacks newline l × (is_blank l ≡ false)

pub is_empty_line-blank :
    (l rest : Bytes)
    → Lacks newline l
    → is_empty_line (l ++ (newline ∷ rest)) (length l) ≡ is_blank l
is_empty_line-blank [] rest h = refl
is_empty_line-blank (c ∷ []) rest h = ground arith
is_empty_line-blank (c ∷ d ∷ l) rest h = ground arith

abbrev pub at : Seek → ℕ → Seek
at seek p = record seek { pos = p }

-- One round for each line, and `f` more.
abbrev pub rounds : List Bytes → ℕ → ℕ
rounds [] f = f
rounds (l ∷ ls) f = suc (rounds ls f)

pub rounds_lem : (ls : List Bytes) (f : ℕ) → rounds ls f ≡ length ls + f
rounds_lem [] f = omega arith
rounds_lem (l ∷ ls) f = omega (arith, rounds_lem ls f)

pub regroup : (pre l s : Bytes) → (pre ++ (l ++ (newline ∷ []))) ++ s ≡ pre ++ (l ++ (newline ∷ s))
regroup pre l s =
    append_assoc pre (l ++ (newline ∷ [])) s ∙ ap (λ t. pre ++ t) (append_assoc l (newline ∷ []) s)

module _ (info : Info) (seek : Seek) (ok : seek.method_ok ≡ true)
    (unended : is_pase_done info.state ≡ false)
    (whole : seek.total ≡ length info.read_raw_stream) where
  pub goes_on :
      (pre rest : Bytes)
      → info.read_raw_stream ≡ pre ++ rest
      → 0 < length rest
      → is_open info (at seek (length pre)) ≡ true
  goes_on pre rest e h = ground (
    arith,
    ok,
    unended,
    lt→ltb (length pre) seek.total (omega (arith, whole, ap length e, length-append pre rest)),
  )

  pub rest_at :
      (pre rest : Bytes)
      → info.read_raw_stream ≡ pre ++ rest
      → drop (length pre) info.read_raw_stream ≡ rest
  rest_at pre rest e = ap (λ raw. drop (length pre) raw) e ∙ drop-append pre rest

  module _ (pre l rest : Bytes) (e : info.read_raw_stream ≡ pre ++ (l ++ (newline ∷ rest)))
      (lacks : Lacks newline l) where
    index_at : index_byte (drop (length pre) info.read_raw_stream) newline ≡ some (length l)
    index_at =
        ap (λ s. index_byte s newline) (rest_at pre (l ++ (newline ∷ rest)) e)
        ∙ index_byte-line l rest lacks

    blank_at : is_empty_line (drop (length pre) info.read_raw_stream) (length l) ≡ is_blank l
    blank_at =
        ap (λ s. is_empty_line s (length l)) (rest_at pre (l ++ (newline ∷ rest)) e)
        ∙ is_empty_line-blank l rest lacks

    open_at : is_open info (at seek (length pre)) ≡ true
    open_at =
        goes_on pre (l ++ (newline ∷ rest)) e (omega (arith, length-append l (newline ∷ rest)))

    -- A line that is not empty is passed.
    find_end-line :
        (f : ℕ)
        → is_blank l ≡ false
        → find_end (suc f) info (at seek (length pre))
          ≡ find_end f info (at seek (length pre + length l + 1))
    unfolding find_end
    find_end-line f b = rw (open_at, index_at, blank_at ∙ b) refl

    -- An empty line ends the search.
    pub find_end-blank :
        (f : ℕ)
        → is_blank l ≡ true
        → find_end (suc (suc f)) info (at seek (length pre))
          ≡ done (end_header (length l) info (at seek (length pre)), at seek (length pre))
    unfolding find_end
    find_end-blank f b =
        rw (open_at, index_at, blank_at ∙ b)
          (rw (closed (end_header (length l) info (at seek (length pre))) refl) refl)
      where
        closed :
            (after : Info)
            → is_pase_done after.state ≡ true
            → is_open after (at seek (length pre)) ≡ false
        closed after h = ground arith

  -- The lines `ls` of the header are passed, one by one.
  pub find_end-lines :
      (f : ℕ) (pre : Bytes) (ls : List Bytes) (rest : Bytes)
      → info.read_raw_stream ≡ pre ++ (unlines ls ++ rest)
      → All IsLine ls
      → find_end (rounds ls f) info (at seek (length pre))
        ≡ find_end f info (at seek (length (pre ++ unlines ls)))
  find_end-lines f pre [] rest e h =
      ap (λ p. find_end f info (at seek (length p))) (sym (append-nil pre))
  find_end-lines f pre (l ∷ ls) rest e (h, hs) =
      find_end-line pre l (unlines ls ++ rest)
        (e ∙ ap (λ s. pre ++ s) (append_assoc l (newline ∷ unlines ls) rest)) h.0 (rounds ls f) h.1
      ∙ (ap (λ p. find_end (rounds ls f) info (at seek p))
            (omega (arith, length-append pre (l ++ (newline ∷ [])), length-append l (newline ∷ [])))
          ∙ (find_end-lines f (pre ++ (l ++ (newline ∷ []))) ls rest
                (e
                  ∙ (ap (λ s. pre ++ s) (append_assoc l (newline ∷ unlines ls) rest)
                      ∙ sym (regroup pre l (unlines ls ++ rest))))
                hs
              ∙ ap (λ p. find_end f info (at seek (length p))) (regroup pre l (unlines ls))))
