-- ===== src/TcpEngine/Hosts/Whole.antt =====
-- A whole list of hosts: what `ResolveHostList` makes of it.
use wander.Base.{
  ℕ, suc, ◌+◌, ◌-◌, ◌^◌, ◌≤◌, ◌<◌, ◌≡◌, ◌≢◌, refl, ap, ◌∙◌, sym, List, [], ◌∷◌, ◌++◌, map, Option,
  none, some, arith, All, inl,
}
use wander.Base.Bytes.{Bytes, Lacks}
use wander.Base.Decimal.{itoa, itoa-IsDigit}
use wander.TcpEngine.Hosts.{dashed, put, resolve_entry, resolve_all, resolve_host_list}
use wander.TcpEngine.Hosts.Text.{
  first_cut-none, IsLower, IsEntry, Between, AreEntries, separated, entries-separated,
}
use wander.TcpEngine.Hosts.Ranges.{
  numbered, put_all, resolve_plain, range_entry, range_entry-All, digits_lack,
  resolve_entry-numbered,
}

-- What an entry means: a host, or the hosts `prefix.m` to `prefix.n`.
pub data Entry : Type 0 where
  host : Bytes → Entry
  hosts : Bytes → ℕ → ℕ → Entry

abbrev pub spelled : Entry → Bytes
spelled (host h) = h
spelled (hosts prefix m n) = range_entry prefix m n

abbrev pub meant : Entry → List Bytes
meant (host h) = h ∷ []
meant (hosts prefix m n) = numbered prefix m (suc (n - m))

-- No capital letter, and none of the marks that the function looks for.
abbrev pub IsName : Bytes → Type 0
IsName s = IsLower s × Lacks b':' s × Lacks b'-' s × Lacks b',' s × Lacks b' ' s

-- There is fuel for each host of a range.
abbrev pub IsSpelled : ℕ → Entry → Type 0
IsSpelled fuel (host h) = (h ≢ []) × IsName h
IsSpelled fuel (hosts prefix m n) = IsName prefix × (m ≤ n) × (n + 1 < 2 ^ 63) × (n - m < fuel)

spelled-some : (prefix : Bytes) (m n : ℕ) → range_entry prefix m n ≢ []
spelled-some [] m n e = cc
spelled-some (c ∷ prefix) m n e = cc

range-Lacks :
    (b : ℕ) (prefix : Bytes) (m n : ℕ)
    → b < b'-'
    → Lacks b prefix
    → Lacks b (range_entry prefix m n)
range-Lacks b prefix m n lt h =
    (range_entry-All prefix m n (λ c. c ≢ b) h
      (digits_lack prefix m n b (itoa m) (itoa-IsDigit m) (inl (omega arith)))
      (digits_lack prefix m n b (itoa n) (itoa-IsDigit n) (inl (omega arith)))
      (λ e. omega (arith, e)) (λ e. omega (arith, e))).0

spelled-IsEntry : (fuel : ℕ) (e : Entry) → IsSpelled fuel e → IsEntry (spelled e)
spelled-IsEntry fuel (host h) (ne, (_, _, _, c, s)) = (ne, c, s)
spelled-IsEntry fuel (hosts prefix m n) ((_, _, _, c, s), _, _, _) = (
  spelled-some prefix m n,
  range-Lacks b',' prefix m n (omega arith) c,
  range-Lacks b' ' prefix m n (omega arith) s,
)

resolve_entry-spelled :
    (fuel : ℕ) (e : Entry) (ks : List Bytes)
    → IsSpelled fuel e
    → resolve_entry fuel (spelled e) ks ≡ some (put_all (meant e) ks)
unfolding put_all
resolve_entry-spelled fuel (host h) ks (ne, (lower, colon, dash, _, _)) =
    resolve_plain fuel h ks lower colon ∙ ap (λ o. dashed fuel h o ks) (first_cut-none b'-' h dash)
resolve_entry-spelled fuel (hosts prefix m n) ks ((lower, colon, dash, _, _), le, small, enough) =
    resolve_entry-numbered prefix m n fuel ks (lower, colon, dash) le small enough

abbrev pub all_meant : List Entry → List Bytes
all_meant [] = []
all_meant (e ∷ es) = meant e ++ all_meant es

put_all-append : (hs js ks : List Bytes) → put_all (hs ++ js) ks ≡ put_all js (put_all hs ks)
unfolding put_all
put_all-append [] js ks = refl
put_all-append (h ∷ hs) js ks = put_all-append hs js (put h ks)

resolve_all-spelled :
    (fuel : ℕ) (es : List Entry) (ks : List Bytes)
    → All (IsSpelled fuel) es
    → resolve_all fuel (map spelled es) ks ≡ some (put_all (all_meant es) ks)
unfolding resolve_all put_all
resolve_all-spelled fuel [] ks h = refl
resolve_all-spelled fuel (e ∷ es) ks (h, hs) =
    ap
      (λ (o : Option (List Bytes)). elim o [
        | none ↦ none
        | some js ↦ resolve_all fuel (map spelled es) js
      ])
      (resolve_entry-spelled fuel e ks h)
    ∙ (resolve_all-spelled fuel es (put_all (meant e) ks) hs
        ∙ ap some (sym (put_all-append (meant e) (all_meant es) ks)))

-- Entries behind another, in the text.
abbrev pub behind_marks : List (Between × Entry) → List (Between × Bytes)
behind_marks = map (λ p. (p.0, spelled p.1))

behind-AreEntries :
    (fuel : ℕ) (es : List (Between × Entry))
    → All (λ p. IsSpelled fuel p.1) es
    → AreEntries (behind_marks es)
behind-AreEntries fuel [] h = tt
behind-AreEntries fuel ((b, e) ∷ es) (h, hs) =
    (spelled-IsEntry fuel e h, behind-AreEntries fuel es hs)

entries_behind :
    (es : List (Between × Entry))
    → map (λ p. p.1) (behind_marks es) ≡ map spelled (map (λ p. p.1) es)
entries_behind [] = refl
entries_behind ((b, e) ∷ es) = ap (λ ps. spelled e ∷ ps) (entries_behind es)

All-seconds :
    (fuel : ℕ) (es : List (Between × Entry))
    → All (λ p. IsSpelled fuel p.1) es
    → All (IsSpelled fuel) (map (λ p. p.1) es)
All-seconds fuel [] h = tt
All-seconds fuel ((b, e) ∷ es) (h, hs) = (h, All-seconds fuel es hs)

-- A list of entries with one or two commas or spaces between any two of them, each a host or a range of
-- hosts `prefix.m-n` with `m` not above `n`, no capital letter and no other mark in it: with fuel for
-- each host of a range, `ResolveHostList` returns exactly the hosts that the entries mean, every entry
-- taken in its turn and each host once.
pub resolve_host_list-spelled :
    (fuel : ℕ) (e : Entry) (es : List (Between × Entry))
    → IsSpelled fuel e
    → All (λ p. IsSpelled fuel p.1) es
    → resolve_host_list fuel (spelled e ++ separated (behind_marks es))
      ≡ some (put_all (all_meant (e ∷ map (λ p. p.1) es)) [])
unfolding resolve_host_list
resolve_host_list-spelled fuel e es h hs =
    ap (λ ps. resolve_all fuel ps [])
      (entries-separated (spelled e) (behind_marks es) (spelled-IsEntry fuel e h)
          (behind-AreEntries fuel es hs)
        ∙ ap (λ ps. spelled e ∷ ps) (entries_behind es))
    ∙ resolve_all-spelled fuel (e ∷ map (λ p. p.1) es) [] (h, All-seconds fuel es hs)
