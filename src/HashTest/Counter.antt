-- ===== src/HashTest/Counter.antt =====
-- The counters of hash-test/hash-test.go: `sumcounter`, `totalcounter` and `summary`. A table is a
-- function from its indexes.
use wander.Base.{
  ℕ, zero, suc, ◌+◌, ◌%◌, ◌^◌, ◌≤◌, ◌<◌, ◌≡◌, refl, ◌&&◌, List, [], ◌∷◌, arith, take, ltb, ◌==◌,
  if◌then◌else◌,
}
use wander.Base.Occurs.{times, times-append}
use wander.HashTest.Worker.{HashCarrier}
use wander.HashTest.Worker.Chunks.{sums, all_sums}

-- `results`, of 16-bit counters, and the 64-bit tables of `summary`.
abbrev pub Table : Type 0
Table = ℕ → ℕ

abbrev pub no_results : Table
no_results k = 0

-- `table[i]++` on counters below `2 ^ width`.
abbrev pub increment : ℕ → ℕ → Table → Table
increment width i t k = if k == i then (t k + 1) % 2 ^ width else t k

-- `for i := 0; i <= sumbock.ptr; i++ { … }` over the sums `buf[0]`, `buf[1]`, …
unfoldable pub count_sums : List ℕ → Table → Table
count_sums [] t = t
count_sums (x ∷ xs) t = count_sums xs (increment 16 x t)

-- The carriers of the channel, in the order in which they come.
unfoldable pub sumcounter : List HashCarrier → Table → Table
unfolding count_sums
sumcounter [] t = t
sumcounter (c ∷ cs) t = sumcounter cs (count_sums (take c.used c.buf) t)

-- `ht.count.AddUint64(count)` for each count of the channel; the big counter has no bound here.
unfoldable pub totalcounter : List ℕ → ℕ → ℕ
totalcounter [] count = count
totalcounter (n ∷ ns) count = totalcounter ns (count + n)

pub record Summary : Type 0 where
  pub distr : Table
  pub collided : Table

-- The loop over `results` from index `idx` on, `left` of them.
unfoldable pub summary_loop : ℕ → ℕ → ℕ → Table → Summary → Summary
summary_loop groupsize zero idx results s = s
summary_loop groupsize (suc left) idx results s =
    let ridx = idx % groupsize in
    let counted = record s { distr = increment 64 ridx s.distr } in
    summary_loop groupsize left (idx + 1) results (
      if ltb 0 (results idx)
      then record counted { collided = increment 64 ridx counted.collided }
      else counted)

-- `results` has `2 ^ 32` entries; `size` stands for their number.
unfoldable pub summary : ℕ → ℕ → Table → Summary
unfolding summary_loop
summary size groupsize results =
    summary_loop groupsize size 0 results (record { distr = no_results; collided = no_results })

count_sums_lem :
    (xs : List ℕ) (t : Table) (n k : ℕ)
    → t k ≡ n % 2 ^ 16
    → count_sums xs t k ≡ (n + times k xs) % 2 ^ 16
unfolding count_sums times
count_sums_lem [] t n k e = ground (arith, e)
count_sums_lem (x ∷ xs) t n k e = ground (
  arith,
  count_sums_lem xs (increment 16 x t) (n + 1) k,
  count_sums_lem xs (increment 16 x t) n k,
)

sumcounter_lem :
    (cs : List HashCarrier) (t : Table) (n k : ℕ)
    → t k ≡ n % 2 ^ 16
    → sumcounter cs t k ≡ (n + times k (all_sums cs)) % 2 ^ 16
unfolding sumcounter times all_sums
sumcounter_lem [] t n k e = ground (arith, e)
sumcounter_lem (c ∷ cs) t n k e = ground (
  arith,
  count_sums_lem (sums c) t n k e,
  times-append k (sums c) (all_sums cs),
  sumcounter_lem cs (count_sums (sums c) t) (n + times k (sums c)) k,
)

-- Whatever the order of the carriers, a counter ends with the number of times that each sum stands in
-- them, modulo 2 ^ 16: a sum that comes 65536 times is counted as one that never came.
pub sumcounter-times :
    (cs : List HashCarrier) (k : ℕ) → sumcounter cs no_results k ≡ times k (all_sums cs) % 2 ^ 16
sumcounter-times cs k = ground (arith, sumcounter_lem cs no_results 0 k)

-- How many of the indexes below `n` belong to group `r`, and how many of those were counted.
pub members : ℕ → ℕ → ℕ → ℕ
members groupsize r zero = 0
members groupsize r (suc n) = members groupsize r n + (if r == n % groupsize then 1 else 0)

pub hits : ℕ → Table → ℕ → ℕ → ℕ
hits groupsize results r zero = 0
hits groupsize results r (suc n) =
    hits groupsize results r n + (if ltb 0 (results n) && r == n % groupsize then 1 else 0)

members_le : (groupsize r n : ℕ) → members groupsize r n ≤ n
unfolding members
members_le groupsize r zero = omega arith
members_le groupsize r (suc n) = ground (arith, members_le groupsize r n)

hits-le-members :
    (groupsize : ℕ) (results : Table) (r n : ℕ) → hits groupsize results r n ≤ members groupsize r n
unfolding members hits
hits-le-members groupsize results r zero = omega arith
hits-le-members groupsize results r (suc n) = ground (arith, hits-le-members groupsize results r n)

-- The tables are right for group `r` and the indexes below `idx`.
abbrev IsCounted : ℕ → Table → ℕ → ℕ → Summary → Type 0
IsCounted groupsize results r idx s =
    (s.distr r ≡ members groupsize r idx) × (s.collided r ≡ hits groupsize results r idx)

summary_step :
    (groupsize : ℕ) (results : Table) (r idx : ℕ) (s : Summary)
    → idx + 1 < 2 ^ 64
    → IsCounted groupsize results r idx s
    → IsCounted groupsize results r (suc idx) (
        let ridx = idx % groupsize in
        let counted = record s { distr = increment 64 ridx s.distr } in
        if ltb 0 (results idx)
        then record counted { collided = increment 64 ridx counted.collided }
        else counted)
unfolding members hits
summary_step groupsize results r idx s small (d, c) =
    ground (arith, members_le groupsize r idx, hits-le-members groupsize results r idx)

add_one : (n : ℕ) → n + 1 ≡ suc n
add_one n = omega arith

summary_loop-IsCounted :
    (left groupsize : ℕ) (results : Table) (r idx n : ℕ) (s : Summary)
    → idx + left ≡ n
    → n < 2 ^ 64
    → IsCounted groupsize results r idx s
    → IsCounted groupsize results r n (summary_loop groupsize left idx results s)
unfolding summary_loop
summary_loop-IsCounted zero groupsize results r idx n s e small h =
    let same : n ≡ idx = omega arith in rw same h
summary_loop-IsCounted (suc left) groupsize results r idx n s e small h =
    summary_loop-IsCounted left groupsize results r (idx + 1) n _ (omega arith) small
      (rw (add_one idx) (summary_step groupsize results r idx s (omega arith) h))

nothing_yet :
    (groupsize : ℕ) (results : Table) (r : ℕ)
    → IsCounted groupsize results r 0 (record { distr = no_results; collided = no_results })
unfolding members hits
nothing_yet groupsize results r = (refl, refl)

-- Behind the summary `distr` holds the number of indexes of each group, and `collided` the number of
-- those that were counted at all, which is no more.
pub summary_lem :
    (size groupsize : ℕ) (results : Table) (r : ℕ)
    → size < 2 ^ 64
    → let s = summary size groupsize results in
      (s.distr r ≡ members groupsize r size)
      × (s.collided r ≡ hits groupsize results r size)
      × (s.collided r ≤ s.distr r)
unfolding summary
summary_lem size groupsize results r small =
    let (d, c) =
      summary_loop-IsCounted size groupsize results r 0 size
        (record { distr = no_results; collided = no_results }) (omega arith) small
        (nothing_yet groupsize results r) in
    (d, c, omega (arith, d, c, hits-le-members groupsize results r size))
