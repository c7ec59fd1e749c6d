-- ===== src/HashTest/Tests.antt =====
-- Runs of the functions of hash-test/hash-test.go on which the theorems about them apply.
use wander.Base.{ℕ, zero, suc, ◌*◌, ◌%◌, ◌^◌, ◌≡◌, refl, List, [], ◌∷◌, Option, none, some, arith}
use wander.Base.Occurs.{times}
use wander.HashTest.Ranges.{ranges, covered, covered-ranges}
use wander.HashTest.Worker.{Source, HashCarrier, Sent, run_worker}
use wander.HashTest.Worker.Chunks.{all_sums}
use wander.HashTest.Worker.Sums.{IsSent, run_worker-IsSent}
use wander.HashTest.Counter.{sumcounter, no_results, sumcounter-times, summary}

covered-ranges_example : covered 10 3 6 (ranges 10 3) ≡ 1
covered-ranges_example = covered-ranges 10 3 6 (omega arith) (omega arith) (omega arith)

-- A generator that counts down from its state, and a checksum that is its only byte times seven.
abbrev before : ℕ → Option ℕ
before zero = none
before (suc n) = some n

abbrev times_seven : List ℕ → ℕ
times_seven [] = 0
times_seven (x ∷ xs) = x * 7

abbrev countdown : Source ℕ
countdown = record { fill_exp_bytes = λ n. n ∷ []; plus = before; checksum32 = times_seven }

abbrev two_pools : List (List (List ℕ))
two_pools =
    ((9 ∷ 9 ∷ 9 ∷ []) ∷ (9 ∷ 9 ∷ 9 ∷ []) ∷ []) ∷ ((9 ∷ 9 ∷ 9 ∷ []) ∷ (9 ∷ 9 ∷ 9 ∷ []) ∷ []) ∷ []

run_worker-IsSent_example :
    (sents : List Sent) × (run_worker countdown 2 3 two_pools 4 ≡ some sents)
    × IsSent countdown 2 3 (2 * 3) 4 sents
run_worker-IsSent_example = run_worker-IsSent countdown 2 3 two_pools 4 (omega arith) (ground arith)

abbrev carriers : List HashCarrier
carriers = record { used = 2; buf = 5 ∷ 8 ∷ 5 ∷ [] } ∷ record { used = 1; buf = 5 ∷ 5 ∷ [] } ∷ []

sumcounter-times_example : sumcounter carriers no_results 5 ≡ times 5 (all_sums carriers) % 2 ^ 16
sumcounter-times_example = sumcounter-times carriers 5

summary_runs :
    ((summary 10 3 (sumcounter carriers no_results)).distr 2 ≡ 3)
    × ((summary 10 3 (sumcounter carriers no_results)).collided 2 ≡ 2)
unfolding summary sumcounter
summary_runs = (refl, refl)
