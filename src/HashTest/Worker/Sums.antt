-- ===== src/HashTest/Worker/Sums.antt =====
-- What `runWorker` of hash-test/hash-test.go sends over all its chunks.
use wander.Base.{
  ℕ, suc, ◌+◌, ◌*◌, ◌<◌, ◌≡◌, refl, sym, ap, ◌∙◌, List, [], ◌∷◌, ◌++◌, append-nil, Option, some,
  arith, length, length-append, All,
}
use wander.Base.Occurs.{times, times-append}
use wander.HashTest.Worker.{
  Source, HashCarrier, Chunk, full, last, panics, chunk_count, from_pool, Sent, sent_of, chunk_loop,
  run_worker,
}
use wander.HashTest.Worker.Chunks.{all_sums, HoldAll}
use wander.HashTest.Worker.Laws.{sums_from, Grown, Loops, chunk_loop-Loops}

pub sent_sums : List Sent → List ℕ
sent_sums [] = []
sent_sums (s ∷ ss) = all_sums s.carriers ++ sent_sums ss

pub total_count : List Sent → ℕ
total_count [] = 0
total_count (s ∷ ss) = s.count + total_count ss

module _ {G : Type 0} (source : Source G) (maxcounter size : ℕ) where
  -- A buffer for each counter, with room for a whole chunk.
  abbrev pub IsPool : List (List ℕ) → Type 0
  IsPool pool = (length pool ≡ maxcounter) × All (λ b. length b ≡ size) pool

  -- The first carrier is that of counter 0, and so on.
  abbrev pub IsSorted : Sent → Type 0
  IsSorted s = (length s.carriers ≡ maxcounter) × HoldAll maxcounter size 0 0 s.carriers

  pub record IsSent (n : ℕ) (g : G) (sents : List Sent) : Type 0 where
    pub occurs :
        (k : ℕ) → times k (sent_sums sents) ≡ times k (sums_from source maxcounter size n g)
    pub counted : total_count sents ≡ length (sums_from source maxcounter size n g)
    pub sorted : All IsSorted sents

  -- Carriers from the pool are empty.
  record Empty (i : ℕ) (cs : List HashCarrier) : Type 0 where
    pub no_sums : all_sums cs ≡ []
    pub no_count : chunk_count cs ≡ 0
    pub holds : HoldAll maxcounter size size i cs

  from_pool-Empty :
      (i : ℕ) (pool : List (List ℕ)) → All (λ b. length b ≡ size) pool → Empty i (from_pool pool)
  unfolding from_pool all_sums chunk_count HoldAll
  from_pool-Empty i [] h = record { no_sums = refl; no_count = refl; holds = tt }
  from_pool-Empty i (b ∷ pool) (hb, h) =
      let rest = from_pool-Empty (suc i) pool h in
      record {
        no_sums = rest.no_sums;
        no_count = omega (arith, rest.no_count);
        holds = (record { whole = hb; room = omega arith; of_counter = tt }, rest.holds);
      }

  length-from_pool : (pool : List (List ℕ)) → length (from_pool pool) ≡ length pool
  unfolding from_pool
  length-from_pool [] = refl
  length-from_pool (b ∷ pool) = ap suc (length-from_pool pool)

  -- The carriers of a chunk hold its sums and no others.
  Fresh-Grown :
      (xs : List ℕ) (pool : List (List ℕ)) (cs : List HashCarrier)
      → IsPool pool
      → Grown source maxcounter size xs (from_pool pool) cs
      → IsSorted (sent_of cs)
        × (chunk_count cs ≡ length xs)
        × ((k : ℕ) → times k (all_sums cs) ≡ times k xs)
  Fresh-Grown xs pool cs (many, whole) g =
      let empty = from_pool-Empty 0 pool whole in
      (
        (g.as_many ∙ length-from_pool pool ∙ many, g.holds),
        omega (arith, g.counted, empty.no_count),
        λ k. omega (arith, g.occurs k, ap (times k) empty.no_sums, no_times k),
      )
    where
      no_times : (k : ℕ) → times k [] ≡ 0
      no_times k = unfold times in refl

  abbrev worker_of : List (List (List ℕ)) → G → Option (List Sent)
  worker_of pools g = run_worker source maxcounter size pools g

  run_worker_last :
      (pool : List (List ℕ)) (pools : List (List (List ℕ))) (g : G) (cs : List HashCarrier)
      → chunk_loop source maxcounter size size g (from_pool pool) ≡ last cs
      → worker_of (pool ∷ pools) g ≡ some (sent_of cs ∷ [])
  unfolding run_worker
  run_worker_last pool pools g cs e = rw (run_worker, e) refl

  run_worker_full :
      (pool : List (List ℕ)) (pools : List (List (List ℕ))) (g g' : G) (cs : List HashCarrier)
      (more : List Sent)
      → chunk_loop source maxcounter size size g (from_pool pool) ≡ full g' cs
      → worker_of pools g' ≡ some more
      → worker_of (pool ∷ pools) g ≡ some (sent_of cs ∷ more)
  unfolding run_worker
  run_worker_full pool pools g g' cs more e e' = rw (run_worker, e, e') refl

  no_chunks : 0 * size ≡ 0
  no_chunks = omega arith

  add_chunk : (chunks : ℕ) → size + chunks * size ≡ suc chunks * size
  add_chunk chunks = grind arith

  sent_cons :
      (n : ℕ) (g : G) (xs ys : List ℕ) (cs : List HashCarrier) (more : List Sent)
      → sums_from source maxcounter size n g ≡ xs ++ ys
      → IsSorted (sent_of cs)
      → chunk_count cs ≡ length xs
      → ((k : ℕ) → times k (all_sums cs) ≡ times k xs)
      → ((k : ℕ) → times k (sent_sums more) ≡ times k ys)
      → total_count more ≡ length ys
      → All IsSorted more
      → IsSent n g (sent_of cs ∷ more)
  unfolding sent_sums total_count
  sent_cons n g xs ys cs more e sorted count occurs occurs' count' sorted' = record {
    occurs = λ k. omega (
      arith,
      times-append k (all_sums cs) (sent_sums more),
      ap (times k) e,
      times-append k xs ys,
      occurs k,
      occurs' k,
    );
    counted = omega (arith, ap length e, length-append xs ys, count, count');
    sorted = (sorted, sorted');
  }

  -- As long as a worker runs it never writes outside a buffer. What it sends is, sum for sum, what
  -- its generator yields: as many chunks of sums as it went through, or up to the end of the range;
  -- the count that it sends is their number; and the carrier that goes to a counter holds only the
  -- sums that belong to that counter.
  pub run_worker-IsSent :
      (pools : List (List (List ℕ))) (g : G)
      → 0 < maxcounter
      → All IsPool pools
      → (sents : List Sent) × (run_worker source maxcounter size pools g ≡ some sents)
        × IsSent (length pools * size) g sents
  run_worker-IsSent [] g pos h = ([], unfold run_worker in refl, nothing)
    where
      nothing : IsSent (0 * size) g []
      nothing = rw no_chunks (
          unfold sums_from sent_sums total_count in
          record { occurs = λ k. refl; counted = refl; sorted = tt })
  run_worker-IsSent (pool ∷ pools) g pos ((many, whole), h) =
      let empty = from_pool-Empty 0 pool whole in
      go (chunk_loop source maxcounter size size g (from_pool pool)) refl
        (chunk_loop-Loops source maxcounter size size g (from_pool pool) pos
          (length-from_pool pool ∙ many) empty.holds)
        (λ g'. run_worker-IsSent pools g' pos h)
    where
      upto : (n : ℕ) → List ℕ
      upto n = sums_from source maxcounter size n g

      last_sent :
          (cs : List HashCarrier)
          → Grown source maxcounter size (upto size) (from_pool pool) cs
          → ((n : ℕ) → upto (size + n) ≡ upto size)
          → IsSent (suc (length pools) * size) g (sent_of cs ∷ [])
      last_sent cs grown later =
          let (sorted, count, occurs) = Fresh-Grown (upto size) pool cs (many, whole) grown in
          sent_cons (suc (length pools) * size) g (upto size) [] cs []
            (ap upto (sym (add_chunk (length pools)))
              ∙ later (length pools * size)
              ∙ sym (append-nil (upto size)))
            sorted count occurs (λ k. unfold sent_sums in refl) (unfold total_count in refl) tt

      full_sent :
          (g' : G) (cs : List HashCarrier)
          → Grown source maxcounter size (upto size) (from_pool pool) cs
          → ((n : ℕ) → upto (size + n) ≡ upto size ++ sums_from source maxcounter size n g')
          → (more : List Sent) → IsSent (length pools * size) g' more
          → IsSent (suc (length pools) * size) g (sent_of cs ∷ more)
      full_sent g' cs grown later more sent =
          let (sorted, count, occurs) = Fresh-Grown (upto size) pool cs (many, whole) grown in
          sent_cons (suc (length pools) * size) g (upto size)
            (sums_from source maxcounter size (length pools * size) g') cs more
            (ap upto (sym (add_chunk (length pools))) ∙ later (length pools * size)) sorted count
            occurs sent.occurs sent.counted sent.sorted

      go :
          (r : Chunk G)
          → chunk_loop source maxcounter size size g (from_pool pool) ≡ r
          → Loops source maxcounter size size g (from_pool pool) r
          → ((g' : G)
              → (sents : List Sent) × (worker_of pools g' ≡ some sents)
                × IsSent (length pools * size) g' sents)
          → (sents : List Sent) × (worker_of (pool ∷ pools) g ≡ some sents)
            × IsSent (suc (length pools) * size) g sents
      go panics e l ih = absurd l
      go (last cs) e (grown, later) ih =
          (sent_of cs ∷ [], run_worker_last pool pools g cs e, last_sent cs grown later)
      go (full g' cs) e (grown, later) ih =
          let (more, e', sent) = ih g' in
          (
            sent_of cs ∷ more,
            run_worker_full pool pools g g' cs more e e',
            full_sent g' cs grown later more sent,
          )
