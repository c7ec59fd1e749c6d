-- ===== src/FileParse/Split/Laws.antt =====
-- What a caller of `SplitBytes` relies on: the bytes of the text, the number of fields, and reading
-- back what was joined.
use wander.Base.{
  ℕ, zero, suc, ◌-◌, ◌≤◌, ◌≡◌, ◌≢◌, refl, sym, ap, true, false, List, [], ◌∷◌, ◌++◌, ◌⊎◌, inl, inr,
  Option, none, some, append_assoc, append-nil, arith, length, All, ◌==◌, ◌∙◌, Bool-cases,
}
use wander.Base.Int.{ℤ, pos, negsuc}
use wander.Base.Bytes.{Bytes, Lacks}
use wander.FileParse.Split.{split_bytes}
use wander.FileParse.Split.Fields.{
  fields, fields_other, fields_cut, fields_full, one_less, last_field, cuts_of, split_bytes-fields,
}

-- The fields with the separator behind each of them.
unfoldable pub terminated : ℕ → List Bytes → Bytes
terminated sep [] = []
terminated sep (p ∷ ps) = p ++ sep ∷ terminated sep ps

-- `SplitBytes` cuts at a final separator and makes no empty field behind it.
abbrev pub Spells : ℕ → List Bytes → Bytes → Type 0
Spells sep ps s = (terminated sep ps ≡ s) ⊎ (terminated sep ps ≡ s ++ sep ∷ [])

Spells-last : (sep : ℕ) (cur : Bytes) → Spells sep (last_field cur) (cur ++ [])
unfolding terminated
Spells-last sep [] = inl refl
Spells-last sep (c ∷ cur) = inr (rw append-nil)

Spells-more :
    (sep : ℕ) (cur rest : Bytes) (ps : List Bytes)
    → Spells sep ps rest
    → Spells sep (cur ∷ ps) (cur ++ sep ∷ rest)
unfolding terminated
Spells-more sep cur rest ps (inl e) = inl (rw e)
Spells-more sep cur rest ps (inr e) = inr (rw e (sym (append_assoc cur (sep ∷ rest) (sep ∷ []))))

Spells-eq : (sep : ℕ) (ps : List Bytes) (s t : Bytes) → s ≡ t → Spells sep ps s → Spells sep ps t
Spells-eq sep ps s t e h = rw e at h

-- The three things that reading a byte can do.
data Round (sep : ℕ) (cuts : Option ℕ) : ℕ → Type 0 where
  other : (c : ℕ) → (c == sep) ≡ false → Round sep cuts c
  cut : cuts ≢ some 0 → Round sep cuts sep
  full : cuts ≡ some 0 → Round sep cuts sep

eq_of_test : (c sep : ℕ) → (c == sep) ≡ true → c ≡ sep
eq_of_test c sep h = ground arith

Round-sep : (sep : ℕ) (cuts : Option ℕ) → Round sep cuts sep
Round-sep sep none = cut (cc)
Round-sep sep (some zero) = full refl
Round-sep sep (some (suc k)) = cut (ground arith)

round : (sep : ℕ) (cuts : Option ℕ) (c : ℕ) → Round sep cuts c
round sep cuts c = elim (Bool-cases (c == sep)) [
  | inl e ↦ rw (eq_of_test c sep e) (Round-sep sep cuts)
  | inr e ↦ other c e
]

module _ (sep : ℕ) where
  -- Stated over the round, so that the recursive calls stand in the clauses.
  Spells-Round :
      (cuts : Option ℕ) (cur rest : Bytes) (c : ℕ)
      → Round sep cuts c
      → Spells sep (fields sep cuts (cur ++ c ∷ []) rest) ((cur ++ c ∷ []) ++ rest)
      → Spells sep (fields sep (one_less cuts) [] rest) rest
      → Spells sep (fields sep cuts cur (c ∷ rest)) (cur ++ c ∷ rest)
  Spells-Round cuts cur rest c (other _ e) h k =
      rw (fields_other sep cuts cur rest c e) (rw (append_assoc cur (c ∷ []) rest) at h)
  Spells-Round cuts cur rest c (cut ne) h k =
      rw (fields_cut sep cuts cur rest ne) (Spells-more sep cur rest _ k)
  Spells-Round cuts cur rest c (full e) h k =
      rw (e, fields_full sep cur rest) (unfold terminated in inr refl)

  fields-Spells :
      (rest : Bytes) (cuts : Option ℕ) (cur : Bytes)
      → Spells sep (fields sep cuts cur rest) (cur ++ rest)
  fields-Spells [] cuts cur = unfold fields in Spells-last sep cur
  fields-Spells (c ∷ rest) cuts cur =
      Spells-Round cuts cur rest c (round sep cuts c) (fields-Spells rest cuts (cur ++ c ∷ []))
        (fields-Spells rest (one_less cuts) [])

-- The separator behind each field gives the text back, or the text with one separator more: every
-- byte of the text stands in one field, for any count but 0.
pub split_bytes-Spells :
    (s : Bytes) (sep : ℕ) (n : ℤ) (result : List Bytes)
    → n ≢ pos 0
    → Spells sep (split_bytes s sep n result) s
split_bytes-Spells s sep n result h =
    rw (split_bytes-fields s sep n result h) (fields-Spells sep s (cuts_of n) [])

module _ (sep : ℕ) where
  length-Round :
      (k : ℕ) (cur rest : Bytes) (c : ℕ)
      → Round sep (some k) c
      → length (fields sep (some k) (cur ++ c ∷ []) rest) ≤ suc k
      → length (fields sep (some (k - 1)) [] rest) ≤ suc (k - 1)
      → length (fields sep (some k) cur (c ∷ rest)) ≤ suc k
  length-Round k cur rest c (other _ e) h i = rw (fields_other sep (some k) cur rest c e) h
  length-Round k cur rest c (cut ne) h i =
      rw (fields_cut sep (some k) cur rest ne) (ground (arith, i))
  length-Round k cur rest c (full e) h i = rw (e, fields_full sep cur rest) (omega arith)

  length-fields :
      (rest : Bytes) (k : ℕ) (cur : Bytes) → length (fields sep (some k) cur rest) ≤ suc k
  length-fields [] k [] = unfold fields in omega arith
  length-fields [] k (c ∷ cur) = unfold fields in omega arith
  length-fields (c ∷ rest) k cur =
      length-Round k cur rest c (round sep (some k) c) (length-fields rest k (cur ++ c ∷ []))
        (length-fields rest (k - 1) [])

-- A count of at least 2 bounds the number of fields.
pub length-split_bytes :
    (s : Bytes) (sep m : ℕ) (result : List Bytes)
    → 2 ≤ m
    → length (split_bytes s sep (pos m) result) ≤ m
length-split_bytes s sep (suc (suc m)) result h =
    rw (split_bytes-fields s sep (pos (suc (suc m))) result (cc)) (length-fields sep s (suc m) [])
length-split_bytes s sep (suc zero) result h = absurd (omega arith)
length-split_bytes s sep zero result h = absurd (omega arith)

-- A count of 1 does not mean "at most one field": it cuts at every separator, as -1 does.
pub split_bytes_one :
    (s : Bytes) (sep : ℕ) (result : List Bytes)
    → split_bytes s sep (pos 1) result ≡ split_bytes s sep (negsuc 0) result
split_bytes_one s sep result =
    split_bytes-fields s sep (pos 1) result (cc)
    ∙ sym (split_bytes-fields s sep (negsuc 0) result (cc))

-- There are cuts left for so many fields.
abbrev pub Enough : Option ℕ → ℕ → Type 0
Enough none k = Unit
Enough (some m) k = k ≤ m

module _ (sep : ℕ) where
  test_of_ne : (c : ℕ) → c ≢ sep → (c == sep) ≡ false
  test_of_ne c h = ground arith

  fields_read :
      (p : Bytes) (cuts : Option ℕ) (cur rest : Bytes)
      → Lacks sep p
      → fields sep cuts cur (p ++ rest) ≡ fields sep cuts (cur ++ p) rest
  fields_read [] cuts cur rest h = rw append-nil
  fields_read (c ∷ p) cuts cur rest (hc, hp) =
      fields_other sep cuts cur (p ++ rest) c (test_of_ne c hc)
      ∙ rw (fields_read p cuts (cur ++ c ∷ []) rest hp, append_assoc cur (c ∷ []) p)

  Enough-ne : (cuts : Option ℕ) (k : ℕ) → Enough cuts (suc k) → cuts ≢ some 0
  Enough-ne none k h = cc
  Enough-ne (some m) k h = ground arith

  Enough-less : (cuts : Option ℕ) (k : ℕ) → Enough cuts (suc k) → Enough (one_less cuts) k
  Enough-less none k h = tt
  Enough-less (some m) k h = omega arith

  fields-terminated :
      (ps : List Bytes) (tail : Bytes) (cuts : Option ℕ)
      → All (Lacks sep) ps
      → Lacks sep tail
      → Enough cuts (length ps)
      → fields sep cuts [] (terminated sep ps ++ tail) ≡ ps ++ last_field tail
  unfolding terminated
  fields-terminated [] tail cuts hp ht en =
      ap (fields sep cuts []) (sym (append-nil tail))
      ∙ fields_read tail cuts [] [] ht
      ∙ fields_end tail
    where
      fields_end : (cur : Bytes) → fields sep cuts cur [] ≡ last_field cur
      fields_end cur = unfold fields in refl
  fields-terminated (p ∷ ps) tail cuts (hp, hps) ht en =
      rw (append_assoc p (sep ∷ terminated sep ps) tail, fields_read p cuts [] _ hp)
        (fields_cut sep cuts p _ (Enough-ne cuts (length ps) en)
          ∙ ap (λ qs. p ∷ qs)
              (fields-terminated ps tail (one_less cuts) hps ht (Enough-less cuts (length ps) en)))

-- Fields that were written with a separator behind each, and a last one without, are read back, if
-- none of them holds the separator and the count lets that many cuts be made.
pub split_bytes-terminated :
    (ps : List Bytes) (tail : Bytes) (sep : ℕ) (n : ℤ) (result : List Bytes)
    → n ≢ pos 0
    → All (Lacks sep) ps
    → Lacks sep tail
    → Enough (cuts_of n) (length ps)
    → split_bytes (terminated sep ps ++ tail) sep n result ≡ ps ++ last_field tail
split_bytes-terminated ps tail sep n result h hp ht en =
    split_bytes-fields _ sep n result h ∙ fields-terminated sep ps tail (cuts_of n) hp ht en
