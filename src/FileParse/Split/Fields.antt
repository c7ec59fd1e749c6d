-- ===== src/FileParse/Split/Fields.antt =====
-- A reference description of splitting, with no positions, and what `SplitBytes` has to do with it.
use wander.Base.{
  ℕ, zero, suc, ◌+◌, ◌-◌, ◌<◌, ◌≡◌, ◌≢◌, refl, true, false, List, [], ◌∷◌, ◌++◌, Option, none, some,
  append_assoc, append-nil, arith, length, length-append, ◌==◌,
}
use wander.Base.Int.{ℤ, pos, negsuc, ltb_ℤ}
use wander.Base.Bytes.{Bytes, slice, drop-append, take-append}
use wander.FileParse.Split.{keep_rest, split_loop, split_bytes}

-- The field read so far, if there is one.
abbrev pub last_field : Bytes → List Bytes
last_field [] = []
last_field (c ∷ cur) = (c ∷ cur) ∷ []

-- The fields of `cur ++ rest`, where `cur` holds no separator. With `some k` only `k` more
-- separators are cut at, and the next one ends the work: the rest is one field.
unfoldable pub fields : ℕ → Option ℕ → Bytes → Bytes → List Bytes
fields sep cuts cur [] = last_field cur
fields sep none cur (c ∷ rest) = elim (c == sep) [
  | true ↦ cur ∷ fields sep none [] rest
  | false ↦ fields sep none (cur ++ c ∷ []) rest
]
fields sep (some zero) cur (c ∷ rest) = elim (c == sep) [
  | true ↦ (cur ++ c ∷ rest) ∷ []
  | false ↦ fields sep (some zero) (cur ++ c ∷ []) rest
]
fields sep (some (suc k)) cur (c ∷ rest) = elim (c == sep) [
  | true ↦ cur ∷ fields sep (some k) [] rest
  | false ↦ fields sep (some (suc k)) (cur ++ c ∷ []) rest
]

abbrev pub one_less : Option ℕ → Option ℕ
one_less none = none
one_less (some k) = some (k - 1)

pub fields_other :
    (sep : ℕ) (cuts : Option ℕ) (cur rest : Bytes) (c : ℕ)
    → (c == sep) ≡ false
    → fields sep cuts cur (c ∷ rest) ≡ fields sep cuts (cur ++ c ∷ []) rest
unfolding fields
fields_other sep none cur rest c h = ground arith
fields_other sep (some zero) cur rest c h = ground arith
fields_other sep (some (suc k)) cur rest c h = ground arith

pub fields_cut :
    (sep : ℕ) (cuts : Option ℕ) (cur rest : Bytes)
    → cuts ≢ some 0
    → fields sep cuts cur (sep ∷ rest) ≡ cur ∷ fields sep (one_less cuts) [] rest
unfolding fields
fields_cut sep none cur rest h = ground arith
fields_cut sep (some zero) cur rest h = absurd (h refl)
fields_cut sep (some (suc k)) cur rest h = ground arith

pub fields_full :
    (sep : ℕ) (cur rest : Bytes) → fields sep (some 0) cur (sep ∷ rest) ≡ (cur ++ sep ∷ rest) ∷ []
unfolding fields
fields_full sep cur rest = ground arith

-- How many separators a count `n` lets the function cut at: `n - 1`, but for `n = 1`.
abbrev pub cuts_of : ℤ → Option ℕ
cuts_of (pos zero) = none
cuts_of (pos (suc zero)) = none
cuts_of (pos (suc (suc m))) = some (suc m)
cuts_of (negsuc m) = none

-- The counter `rcnt` below the reduced count `n` leaves `cuts` cuts.
abbrev Left : ℤ → ℕ → Option ℕ → Type 0
Left n rcnt none = ltb_ℤ (pos 0) n ≡ false
Left n rcnt (some k) = (n ≡ pos (rcnt + k)) × (0 < rcnt + k)

keep_rest_lem :
    (pre cur : Bytes) (out : List Bytes)
    → keep_rest (pre ++ cur) (length pre) out ≡ out ++ last_field cur
keep_rest_lem pre [] out = ground (arith, append-nil pre, append-nil out)
keep_rest_lem pre (c ∷ cur) out =
    ground (arith, length-append pre (c ∷ cur), drop-append pre (c ∷ cur))

slice_lem :
    (pre cur rest : Bytes)
    → slice (pre ++ (cur ++ rest)) (length pre) (length pre + length cur) ≡ cur
slice_lem pre cur rest =
    let e : length pre + length cur - length pre ≡ length cur = omega arith in
    rw (e, drop-append pre (cur ++ rest)) (take-append cur rest)

-- What one round of the loop does, by its test and by the cuts that are left.
module _ (s pre cur rest : Bytes) (c sep idx start rcnt : ℕ) (n : ℤ) (out : List Bytes)
    (split : s ≡ pre ++ (cur ++ c ∷ rest)) (at_start : start ≡ length pre)
    (at_idx : idx ≡ length pre + length cur) where
  round_other :
      (c == sep) ≡ false
      → split_loop s sep n (c ∷ rest) idx rcnt start out
        ≡ split_loop s sep n rest (idx + 1) rcnt start out
  unfolding split_loop
  round_other h = ground arith

  round_cut :
      (cuts : Option ℕ)
      → cuts ≢ some 0
      → Left n rcnt cuts
      → (c == sep) ≡ true
      → split_loop s sep n (c ∷ rest) idx rcnt start out
        ≡ split_loop s sep n rest (idx + 1) (rcnt + 1) (idx + 1) (out ++ cur ∷ [])
  unfolding split_loop
  round_cut none h l e = ground (arith, slice_lem pre cur (c ∷ rest))
  round_cut (some zero) h l e = absurd (h refl)
  round_cut (some (suc k)) h l e = ground (arith, slice_lem pre cur (c ∷ rest))

  round_last :
      Left n rcnt (some 0)
      → (c == sep) ≡ true
      → split_loop s sep n (c ∷ rest) idx rcnt start out ≡ out ++ (cur ++ c ∷ rest) ∷ []
  unfolding split_loop
  round_last l e = ground (arith, drop-append pre (cur ++ c ∷ rest))

regroup_cur :
    (pre cur rest : Bytes) (c : ℕ) → pre ++ (cur ++ c ∷ rest) ≡ pre ++ ((cur ++ c ∷ []) ++ rest)
regroup_cur pre cur rest c = simp append_assoc

regroup_pre :
    (pre cur rest : Bytes) (c : ℕ)
    → pre ++ (cur ++ c ∷ rest) ≡ (pre ++ (cur ++ c ∷ [])) ++ ([] ++ rest)
regroup_pre pre cur rest c = simp append_assoc

length-pre :
    (pre cur : Bytes) (c : ℕ) → length (pre ++ (cur ++ c ∷ [])) ≡ length pre + length cur + 1
length-pre pre cur c = omega (arith, length-append pre (cur ++ c ∷ []), length-append cur (c ∷ []))

loop_end :
    (s pre cur : Bytes) (sep idx start rcnt : ℕ) (n : ℤ) (out : List Bytes)
    → s ≡ pre ++ (cur ++ [])
    → start ≡ length pre
    → split_loop s sep n [] idx rcnt start out ≡ out ++ last_field cur
unfolding split_loop
loop_end s pre cur sep idx start rcnt n out e es =
    ground (arith, keep_rest_lem pre cur out, append-nil cur)

-- The loop appends the fields of what it has not read.
module _ (s : Bytes) (sep : ℕ) (n : ℤ) where
  loop-fields :
      (rest : Bytes) (cuts : Option ℕ) (pre cur : Bytes) (idx rcnt start : ℕ) (out : List Bytes)
      → s ≡ pre ++ (cur ++ rest)
      → start ≡ length pre
      → idx ≡ length pre + length cur
      → Left n rcnt cuts
      → split_loop s sep n rest idx rcnt start out ≡ out ++ fields sep cuts cur rest
  unfolding fields
  loop-fields [] cuts pre cur idx rcnt start out e es ei l =
      loop_end s pre cur sep idx start rcnt n out e es
  loop-fields (c ∷ rest) none pre cur idx rcnt start out e es ei l =
      let pre' = pre ++ (cur ++ c ∷ []) in
      ground (
        arith,
        round_other s pre cur rest c sep idx start rcnt n out,
        round_cut s pre cur rest c sep idx start rcnt n out e es ei none,
        loop-fields rest none pre (cur ++ c ∷ []) (idx + 1) rcnt start out,
        loop-fields rest none pre' [] (idx + 1) (rcnt + 1) (idx + 1) (out ++ cur ∷ []),
        regroup_cur pre cur rest c,
        regroup_pre pre cur rest c,
        length-pre pre cur c,
        length-append cur (c ∷ []),
        append_assoc out (cur ∷ []) (fields sep none [] rest),
      )
  loop-fields (c ∷ rest) (some zero) pre cur idx rcnt start out e es ei l = ground (
    arith,
    round_other s pre cur rest c sep idx start rcnt n out,
    round_last s pre cur rest c sep idx start rcnt n out e es ei l,
    loop-fields rest (some zero) pre (cur ++ c ∷ []) (idx + 1) rcnt start out,
    regroup_cur pre cur rest c,
    length-append cur (c ∷ []),
  )
  loop-fields (c ∷ rest) (some (suc k)) pre cur idx rcnt start out e es ei l =
      let pre' = pre ++ (cur ++ c ∷ []) in
      ground (
        arith,
        round_other s pre cur rest c sep idx start rcnt n out,
        round_cut s pre cur rest c sep idx start rcnt n out e es ei (some (suc k)),
        loop-fields rest (some (suc k)) pre (cur ++ c ∷ []) (idx + 1) rcnt start out,
        loop-fields rest (some k) pre' [] (idx + 1) (rcnt + 1) (idx + 1) (out ++ cur ∷ []),
        regroup_cur pre cur rest c,
        regroup_pre pre cur rest c,
        length-pre pre cur c,
        length-append cur (c ∷ []),
        append_assoc out (cur ∷ []) (fields sep (some k) [] rest),
      )

-- For every count but 0, `SplitBytes` returns the fields of the text, cut at every separator if the
-- count is negative or 1, and at `n - 1` separators at most if it is `n` with `n ≥ 2`; what the
-- result buffer held before is dropped.
pub split_bytes-fields :
    (s : Bytes) (sep : ℕ) (n : ℤ) (result : List Bytes)
    → n ≢ pos 0
    → split_bytes s sep n result ≡ fields sep (cuts_of n) [] s
unfolding split_bytes
split_bytes-fields s sep (pos zero) result h = absurd (h refl)
split_bytes-fields s sep (pos (suc zero)) result h =
    loop-fields s sep (pos 0) s none [] [] 0 0 0 [] refl refl refl refl
split_bytes-fields s sep (pos (suc (suc m))) result h =
    ground (arith, loop-fields s sep (pos (suc m)) s (some (suc m)) [] [] 0 0 0 [])
split_bytes-fields s sep (negsuc m) result h =
    ground (arith, loop-fields s sep (negsuc m) s none [] [] 0 0 0 [])
