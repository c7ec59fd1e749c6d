-- ===== src/TcpEngine/Hosts/Ranges.antt =====
-- What one entry of a list of hosts adds to the map.
use wander.Base.{
  ℕ, zero, suc, ◌+◌, ◌-◌, ◌^◌, ◌≤◌, ◌<◌, ◌≡◌, ◌≢◌, refl, ap, ◌∙◌, List, [], ◌∷◌, ◌++◌, some, arith,
  All, All-append, ltb, if◌then◌else◌, ◌⊎◌, inl, inr,
}
use wander.Base.Bytes.{Bytes, Lacks}
use wander.Base.Int.{pos, int64, ◌+ℤ◌}
use wander.Base.Decimal.{IsDigit, itoa-ne, itoa, itoa-IsDigit, value, value-itoa, all_digits_of}
use wander.TcpEngine.Hosts.{
  first_cut, cut_scheme, atoi, put, range_loop, range_of, dotted, dashed, resolve_entry, lower_byte,
}
use wander.TcpEngine.Hosts.Text.{
  first_cut-none, first_cut_at, last_cut_at, cut_scheme-Lacks, cut_scheme_at, IsLower,
  map-lower_byte,
}

-- The hosts `prefix.n`, `prefix.(n + 1)`, …, `count` of them.
pub numbered : Bytes → ℕ → ℕ → List Bytes
numbered prefix n zero = []
numbered prefix n (suc count) = (prefix ++ b'.' ∷ itoa n) ∷ numbered prefix (suc n) count

unfoldable pub put_all : List Bytes → List Bytes → List Bytes
put_all [] ks = ks
put_all (h ∷ hs) ks = put_all hs (put h ks)

range_loop_done :
    (fuel : ℕ) (prefix : Bytes) (n m : ℕ) (ks : List Bytes)
    → m < n
    → range_loop (suc fuel) prefix (pos n) (pos m) ks ≡ some ks
unfolding range_loop
range_loop_done fuel prefix n m ks h = ground arith

range_loop_more :
    (fuel : ℕ) (prefix : Bytes) (n m : ℕ) (ks : List Bytes)
    → n ≤ m
    → m + 1 < 2 ^ 63
    → range_loop (suc fuel) prefix (pos n) (pos m) ks
      ≡ range_loop fuel prefix (pos (suc n)) (pos m) (put (prefix ++ b'.' ∷ itoa n) ks)
unfolding range_loop int64 ◌+ℤ◌
range_loop_more fuel prefix n m ks h small = ground arith

-- From `n` to `m`, if there is fuel for each of them.
range_loop-numbered :
    (fuel count : ℕ) (prefix : Bytes) (n m : ℕ) (ks : List Bytes)
    → n + count ≡ m + 1
    → m + 1 < 2 ^ 63
    → count < fuel
    → range_loop fuel prefix (pos n) (pos m) ks ≡ some (put_all (numbered prefix n count) ks)
unfolding put_all numbered
range_loop-numbered zero count prefix n m ks e small lt = absurd (omega arith)
range_loop-numbered (suc fuel) zero prefix n m ks e small lt =
    range_loop_done fuel prefix n m ks (omega arith)
range_loop-numbered (suc fuel) (suc count) prefix n m ks e small lt =
    range_loop_more fuel prefix n m ks (omega arith) small
    ∙ range_loop-numbered fuel count prefix (suc n) m (put (prefix ++ b'.' ∷ itoa n) ks)
        (omega arith) small (omega arith)

atoi_digits :
    (s : Bytes) (n : ℕ)
    → s ≢ []
    → All IsDigit s
    → value 0 s ≡ n
    → n < 2 ^ 63
    → atoi s ≡ some (pos n)
unfolding atoi
atoi_digits [] n ne h e small = absurd (ne refl)
atoi_digits (c ∷ s) n ne h e small = ground (arith, all_digits_of (c ∷ s) h)

atoi-itoa : (n : ℕ) → n < 2 ^ 63 → atoi (itoa n) ≡ some (pos n)
atoi-itoa n small = atoi_digits (itoa n) n (itoa-ne n) (itoa-IsDigit n) (value-itoa n) small

range_of_lem :
    (fuel m n : ℕ) (prefix : Bytes) (ks : List Bytes)
    → m + 1 < 2 ^ 63
    → n + 1 < 2 ^ 63
    → range_of fuel prefix (some (pos m)) (some (pos n)) ks ≡ (
        if ltb n m
        then range_loop fuel prefix (pos (suc n)) (pos m) ks
        else range_loop fuel prefix (pos (suc m)) (pos n) ks)
unfolding int64 ◌+ℤ◌
range_of_lem fuel m n prefix ks hm hn = ground arith

pub resolve_plain :
    (fuel : ℕ) (val : Bytes) (ks : List Bytes)
    → IsLower val
    → Lacks b':' val
    → resolve_entry fuel val ks ≡ dashed fuel val (first_cut b'-' val) ks
unfolding resolve_entry
resolve_plain fuel val ks lower colon =
    ap (λ v. dashed fuel v (first_cut b'-' v) ks)
      (ap cut_scheme (map-lower_byte val lower) ∙ cut_scheme-Lacks val colon)

module _ (prefix : Bytes) (m n : ℕ) where
  abbrev pub first_host : Bytes
  first_host = prefix ++ b'.' ∷ itoa m

  abbrev pub range_entry : Bytes
  range_entry = first_host ++ b'-' ∷ itoa n

  -- The marks that the function looks for are not in the prefix.
  abbrev pub IsPlain : Type 0
  IsPlain = IsLower prefix × Lacks b':' prefix × Lacks b'-' prefix

  pub range_entry-All :
      (P : ℕ → Type 0)
      → All P prefix
      → All P (itoa m)
      → All P (itoa n)
      → P b'.'
      → P b'-'
      → All P range_entry × All P first_host
  range_entry-All P hp hm hn dot dash =
      let front = All-append P prefix (b'.' ∷ itoa m) hp (dot, hm) in
      (All-append P first_host (b'-' ∷ itoa n) front (dash, hn), front)

  digits-IsLower : (s : Bytes) → All IsDigit s → IsLower s
  digits-IsLower [] h = tt
  digits-IsLower (c ∷ s) (hc, h) = (ground arith, digits-IsLower s h)

  pub digits_lack : (b : ℕ) (s : Bytes) → All IsDigit s → (b < b'0') ⊎ (b'9' < b) → Lacks b s
  digits_lack b [] h lt = tt
  digits_lack b (c ∷ s) (hc, h) lt = (ground arith, digits_lack b s h lt)

  range_entry-IsLower : IsLower prefix → IsLower range_entry
  range_entry-IsLower lower =
      (range_entry-All (λ c. lower_byte c ≡ c) lower (digits-IsLower (itoa m) (itoa-IsDigit m))
        (digits-IsLower (itoa n) (itoa-IsDigit n)) refl refl).0

  range_entry-Lacks : Lacks b':' prefix → Lacks b':' range_entry
  range_entry-Lacks colon =
      (range_entry-All (λ c. c ≢ b':') colon
        (digits_lack b':' (itoa m) (itoa-IsDigit m) (inr (omega arith)))
        (digits_lack b':' (itoa n) (itoa-IsDigit n) (inr (omega arith))) (cc) (cc)).0

  first_host-Lacks : Lacks b'-' prefix → Lacks b'-' first_host
  first_host-Lacks dash =
      All-append (λ c. c ≢ b'-') prefix (b'.' ∷ itoa m) dash
        ((cc), digits_lack b'-' (itoa m) (itoa-IsDigit m) (inl (omega arith)))

  resolve_range :
      (fuel : ℕ) (ks : List Bytes)
      → IsPlain
      → resolve_entry fuel range_entry ks
        ≡ range_of fuel prefix (atoi (itoa m)) (atoi (itoa n)) (put first_host ks)
  resolve_range fuel ks (lower, colon, dash) =
      resolve_plain fuel range_entry ks (range_entry-IsLower lower) (range_entry-Lacks colon)
      ∙ ap (λ cut. dashed fuel range_entry cut ks)
          (first_cut_at b'-' first_host (itoa n) (first_host-Lacks dash))
      ∙ ap (λ cut. dotted fuel cut (itoa n) (put first_host ks))
          (last_cut_at b'.' prefix (itoa m)
            (digits_lack b'.' (itoa m) (itoa-IsDigit m) (inl (omega arith))))

  -- An entry `a.b.c.m-n` with `m` not above `n` puts the hosts `a.b.c.m` to `a.b.c.n` into the map,
  -- in this order; the loop ends after `n - m` rounds.
  pub resolve_entry-numbered :
      (fuel : ℕ) (ks : List Bytes)
      → IsPlain
      → m ≤ n
      → n + 1 < 2 ^ 63
      → n - m < fuel
      → resolve_entry fuel range_entry ks ≡ some (put_all (numbered prefix m (suc (n - m))) ks)
  unfolding put_all numbered
  resolve_entry-numbered fuel ks plain le small enough =
      resolve_range fuel ks plain
      ∙ rw (atoi-itoa m (omega arith), atoi-itoa n (omega arith))
          (ground (
            arith,
            range_of_lem fuel m n prefix (put first_host ks) (omega arith) (omega arith),
            range_loop-numbered fuel (n - m) prefix (suc m) n (put first_host ks) (omega arith)
                small (omega arith),
          ))

  -- With `n` below `m` the two numbers change places, but the host of the lower one is left out: the
  -- map gets `a.b.c.m` and then `a.b.c.(n + 1)` to `a.b.c.m`.
  pub resolve_entry_reversed :
      (fuel : ℕ) (ks : List Bytes)
      → IsPlain
      → n < m
      → m + 1 < 2 ^ 63
      → m - n < fuel
      → resolve_entry fuel range_entry ks
        ≡ some (put_all (numbered prefix (suc n) (m - n)) (put first_host ks))
  resolve_entry_reversed fuel ks plain lt small enough =
      resolve_range fuel ks plain
      ∙ rw (atoi-itoa m (omega arith), atoi-itoa n (omega arith))
          (ground (
            arith,
            range_of_lem fuel m n prefix (put first_host ks) (omega arith) (omega arith),
            range_loop-numbered fuel (m - n) prefix (suc n) m (put first_host ks) (omega arith)
                small (omega arith),
          ))

-- Of an entry with a scheme only the scheme is kept, and the host is lost.
pub resolve_entry_scheme :
    (fuel : ℕ) (scheme host : Bytes) (ks : List Bytes)
    → IsLower scheme
    → Lacks b':' scheme
    → Lacks b'-' scheme
    → IsLower host
    → resolve_entry fuel (scheme ++ b':' ∷ b'/' ∷ b'/' ∷ host) ks ≡ some (put scheme ks)
unfolding resolve_entry
resolve_entry_scheme fuel scheme host ks lower colon dash lower_host =
    let all =
      All-append (λ c. lower_byte c ≡ c) scheme (b':' ∷ b'/' ∷ b'/' ∷ host) lower
        (refl, (refl, (refl, lower_host))) in
    rw
      (
        map-lower_byte (scheme ++ b':' ∷ b'/' ∷ b'/' ∷ host) all,
        cut_scheme_at scheme host colon,
        first_cut-none b'-' scheme dash,
      )
      refl
