-- ===== src/HashTest/Ranges.antt =====
-- How hash-test/hash-test.go shares its work: the numbers of workers and counters, and the range of
-- the generator of each worker.
use native.Mathlib.Nat.{div-add-mod', mod-lt}
use wander.Base.{
  ℕ, zero, suc, ◌+◌, ◌-◌, ◌*◌, ◌/◌, ◌≤◌, ◌<◌, ◌≡◌, ◌∙◌, ◌&&◌, List, [], ◌∷◌, arith, ltb, leb, ◌==◌,
  if◌then◌else◌,
}

pub record Pool : Type 0 where
  pub maxworker : ℕ
  pub maxcounter : ℕ

abbrev at_least_one : ℕ → ℕ
at_least_one n = if ltb n 1 then 1 else n

-- With more than 12 processors the number of counters is worked out in a variable of its own, which
-- hides the one that is used afterwards.
unfoldable pub new_pool : ℕ → Pool
new_pool procs =
    let hidden = at_least_one (procs / 12) in
    let maxworker = if ltb 12 procs then procs - hidden - 1 else procs - 1 in
    record { maxworker = at_least_one maxworker; maxcounter = 1 }

-- There is a worker and a counter, and on two processors or more not more of them together than
-- processors.
pub new_pool_lem :
    (procs : ℕ)
    → 2 ≤ procs
    → let p = new_pool procs in
      (1 ≤ p.maxworker) × (1 ≤ p.maxcounter) × (p.maxworker + p.maxcounter ≤ procs)
unfolding new_pool
new_pool_lem procs h = ground arith

-- A worker's generator starts at the first number and ends at the second.
abbrev pub Range : Type 0
Range = ℕ × ℕ

module _ (maxcnt maxworker : ℕ) where
  abbrev pub genstep : ℕ
  genstep = maxcnt / maxworker

  -- The loop of `run` from worker `i` on, `left` of them.
  unfoldable pub ranges_loop : ℕ → ℕ → ℕ → List Range
  ranges_loop zero i genptr = []
  ranges_loop (suc left) i genptr =
      let endptr = genstep * (i + 1) - 1 in
      let rest = ranges_loop left (i + 1) (genptr + genstep) in
      (genptr, if i == maxworker - 1 then maxcnt else endptr) ∷ rest

  unfoldable pub ranges : List Range
  unfolding ranges_loop
  ranges = ranges_loop maxworker 0 0

  -- How many of the ranges a number is in.
  pub covered : ℕ → List Range → ℕ
  covered n [] = 0
  covered n ((first, end) ∷ rs) = (if leb first n && leb n end then 1 else 0) + covered n rs

  step_pos : 0 < maxworker → maxworker ≤ maxcnt → 0 < genstep
  step_pos pos le = grind (arith, div-add-mod' maxcnt maxworker, mod-lt maxcnt pos)

  next_start : (i g : ℕ) → g ≡ genstep * i → genstep * (i + 1) ≡ g + genstep
  next_start i g e = grind arith

  ranges_loop-covered :
      (left i g n : ℕ)
      → 0 < genstep
      → i + left ≡ maxworker
      → 0 < left
      → g ≡ genstep * i
      → n ≤ maxcnt
      → covered n (ranges_loop left i g) ≡ (if leb g n then 1 else 0)
  unfolding covered ranges_loop
  ranges_loop-covered zero i g n pos e l start h = absurd (omega arith)
  ranges_loop-covered (suc zero) i g n pos e l start h = ground arith
  ranges_loop-covered (suc (suc left)) i g n pos e l start h = ground (
    arith,
    next_start i g start,
    ranges_loop-covered (suc left) (i + 1) (g + genstep) n pos (omega arith) (omega arith)
        (omega (arith, next_start i g start)),
  )

-- If there are no more workers than numbers, each number up to the largest is in the range of exactly
-- one worker.
pub covered-ranges :
    (maxcnt maxworker n : ℕ)
    → 0 < maxworker
    → maxworker ≤ maxcnt
    → n ≤ maxcnt
    → covered maxcnt maxworker n (ranges maxcnt maxworker) ≡ 1
unfolding ranges
covered-ranges maxcnt maxworker n pos le h =
    ranges_loop-covered maxcnt maxworker maxworker 0 0 n (step_pos maxcnt maxworker pos le)
      (omega arith) pos (omega arith) h
    ∙ ground arith
