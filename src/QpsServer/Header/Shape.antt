-- ===== src/QpsServer/Header/Shape.antt =====
-- The search for the end of a header against a description of the text that it searches.
use wander.Base.{
  ℕ, zero, suc, ◌+◌, ◌-◌, ◌≤◌, ◌<◌, ◌≡◌, refl, ◌∙◌, sym, ap, true, List, [], ◌∷◌, ◌++◌, arith,
  length, take, drop, ◌==◌, Bool-cases, inl, inr, append_assoc, append-nil, length-append, All,
  All-append,
}
use wander.Base.Bytes.{Bytes, Lacks, slice, drop-append, take-append, newline, unlines}
use wander.QpsServer.Event.{pase_done}
use wander.QpsServer.Conn.{Info, Run, done, spins}
use wander.QpsServer.Header.{Seek, end_header}
use wander.QpsServer.Header.Laws.{is_blank, IsLine, at, regroup}

-- What the unread part of a request holds: lines, an empty line and a body; whole lines only; or
-- lines and the beginning of another.
pub data Shape (s : Bytes) : Type 0 where
  ended :
      (ls : List Bytes) (blank body : Bytes)
      → All IsLine ls
      → Lacks newline blank
      → is_blank blank ≡ true
      → s ≡ unlines ls ++ (blank ++ (newline ∷ body))
      → Shape s
  whole : (ls : List Bytes) → All IsLine ls → s ≡ unlines ls → Shape s
  cut :
      (ls : List Bytes) (tail : Bytes)
      → All IsLine ls
      → Lacks newline tail
      → 0 < length tail
      → s ≡ unlines ls ++ tail
      → Shape s

add_line : (l r t : Bytes) → IsLine l → t ≡ l ++ (newline ∷ r) → Shape r → Shape t
add_line l r t h e (ended ls blank body hs lacks b e') =
    ended (l ∷ ls) blank body (h, hs) lacks b
      (e ∙ (ap (λ x. l ++ (newline ∷ x)) e' ∙ sym (append_assoc l (newline ∷ unlines ls) _)))
add_line l r t h e (whole ls hs e') = whole (l ∷ ls) (h, hs) (e ∙ ap (λ x. l ++ (newline ∷ x)) e')
add_line l r t h e (cut ls tail hs lacks pos e') =
    cut (l ∷ ls) tail (h, hs) lacks pos
      (e ∙ (ap (λ x. l ++ (newline ∷ x)) e' ∙ sym (append_assoc l (newline ∷ unlines ls) _)))

shape_from : (s l t : Bytes) → Lacks newline l → t ≡ l ++ s → Shape t
shape_from [] [] t h e = whole [] tt e
shape_from [] (c ∷ l) t h e = cut [] (c ∷ l) tt h (omega arith) (e ∙ append-nil (c ∷ l))
shape_from (c ∷ s) l t h e = elim (Bool-cases (c == newline)) [
  | inl end ↦
      let here : t ≡ l ++ (newline ∷ s) = e ∙ ap (λ (d : ℕ). l ++ (d ∷ s)) (ground (arith)) in
      elim (Bool-cases (is_blank l)) [
        | inl b ↦ ended [] l s tt h b here
        | inr b ↦ add_line l s t (h, b) here (shape_from s [] s tt refl)
      ]
  | inr other ↦
      shape_from s (l ++ (c ∷ [])) t (All-append _ l (c ∷ []) h (ground arith, tt))
        (e ∙ sym (append_assoc l (c ∷ []) s))
]

-- Every text has one of these shapes.
pub shape : (s : Bytes) → Shape s
shape s = shape_from s [] s tt refl

-- What the search comes to, when `pre` lies before the text.
abbrev pub outcome : Info → Seek → Bytes → (s : Bytes) → Shape s → Run (Info × Seek)
outcome info seek pre s (ended ls blank body _ _ _ _) = done (
  record info {
    state = pase_done;
    read_header_stream = drop seek.header_start (pre ++ (unlines ls ++ blank));
    read_body_stream = body;
  },
  at seek (length (pre ++ unlines ls)),
)
outcome info seek pre s (whole ls _ _) = done (info, at seek (length info.read_raw_stream))
outcome info seek pre s (cut ls tail _ _ _ _) = spins

pub length-unlines : (ls : List Bytes) → length ls ≤ length (unlines ls)
length-unlines [] = omega arith
length-unlines (l ∷ ls) = omega (arith, length-unlines ls, length-append l (newline ∷ unlines ls))

slice-drop : (n : ℕ) (xs ys : Bytes) → slice (xs ++ ys) n (length xs) ≡ drop n xs
slice-drop zero xs ys = rw (length_all xs) (take-append xs ys)
  where
    length_all : (us : Bytes) → length us - 0 ≡ length us
    length_all us = omega arith
slice-drop (suc n) [] ys = ap (λ k. take k (drop (suc n) ys)) (none_left n)
  where
    none_left : (k : ℕ) → 0 - suc k ≡ 0
    none_left k = omega arith
slice-drop (suc n) (x ∷ xs) ys =
    ap (λ k. take k (drop n (xs ++ ys))) (one_less (length xs)) ∙ slice-drop n xs ys
  where
    one_less : (k : ℕ) → suc k - suc n ≡ k - n
    one_less k = omega arith

pub end_header_lem :
    (info : Info) (seek : Seek) (pre : Bytes) (ls : List Bytes) (blank body : Bytes)
    → info.read_raw_stream ≡ (pre ++ unlines ls) ++ (blank ++ (newline ∷ body))
    → end_header (length blank) info (at seek (length (pre ++ unlines ls))) ≡ record info {
      state = pase_done;
      read_header_stream = drop seek.header_start (pre ++ (unlines ls ++ blank));
      read_body_stream = body;
    }
end_header_lem info seek pre ls blank body e =
    λ i. record info { state = pase_done; read_header_stream = header i; read_body_stream = rest i }
  where
    before : Bytes
    before = pre ++ unlines ls

    header :
        slice info.read_raw_stream seek.header_start (length before + length blank)
        ≡ drop seek.header_start (pre ++ (unlines ls ++ blank))
    header =
        ap (λ raw. slice raw seek.header_start (length before + length blank))
          (e ∙ sym (append_assoc before blank (newline ∷ body)))
        ∙ (ap (λ n. slice ((before ++ blank) ++ (newline ∷ body)) seek.header_start n)
              (sym (length-append before blank))
            ∙ (slice-drop seek.header_start (before ++ blank) (newline ∷ body)
                ∙ ap (λ x. drop seek.header_start x) (append_assoc pre (unlines ls) blank)))

    upto : Bytes
    upto = before ++ (blank ++ (newline ∷ []))

    rest : drop (length before + length blank + 1) info.read_raw_stream ≡ body
    rest =
        ap (λ n. drop n info.read_raw_stream)
          (omega (
            arith,
            length-append before (blank ++ (newline ∷ [])),
            length-append blank (newline ∷ []),
          ))
        ∙ (ap (λ raw. drop (length upto) raw) (e ∙ sym (regroup before blank body))
            ∙ drop-append upto body)
