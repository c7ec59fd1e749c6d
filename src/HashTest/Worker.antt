-- ===== src/HashTest/Worker.antt =====
-- The workers of hash-test/hash-test.go: `runWorker` hashes what a generator yields, and sorts the
-- sums into chunks, one for each counter.
pub mod Chunks
pub mod Laws
pub mod Sums
use wander.Base.{
  ℕ, zero, suc, ◌+◌, ◌%◌, ◌≡◌, refl, List, [], ◌∷◌, Option, none, some, arith, length,
}
use wander.Base.Bytes.{Bytes}

-- The big counter and the checksum, which the sources only call: what `FillExpBytes` writes, what
-- `Plus` leaves (`none` is its error at the end of the range), and `Checksum32`.
pub record Source (G : Type 0) : Type 0 where
  pub fill_exp_bytes : G → Bytes
  pub plus : G → Option G
  pub checksum32 : Bytes → ℕ

-- `hashCarrier`; `used` is `ptr + 1`. The buffer comes from a pool, with old sums in it.
pub record HashCarrier : Type 0 where
  pub used : ℕ
  pub buf : List ℕ

-- `buf[i] = sum`; `none` is the panic of an index out of range.
unfoldable pub set_sum : ℕ → ℕ → List ℕ → Option (List ℕ)
set_sum i sum [] = none
set_sum zero sum (x ∷ xs) = some (sum ∷ xs)
set_sum (suc i) sum (x ∷ xs) = elim (set_sum i sum xs) [ none ↦ none | some ys ↦ some (x ∷ ys) ]

-- `ptr++`, and the sum is stored there.
abbrev pub stored : HashCarrier → Option (List ℕ) → Option HashCarrier
stored c none = none
stored c (some b) = some (record { used = c.used + 1; buf = b })

unfoldable pub push_sum : ℕ → HashCarrier → Option HashCarrier
unfolding set_sum
push_sum sum c = stored c (set_sum c.used sum c.buf)

-- The same on `hchunk[i]`.
unfoldable pub push_at : ℕ → ℕ → List HashCarrier → Option (List HashCarrier)
unfolding push_sum
push_at i sum [] = none
push_at zero sum (c ∷ cs) = elim (push_sum sum c) [ none ↦ none | some c' ↦ some (c' ∷ cs) ]
push_at (suc i) sum (c ∷ cs) = elim (push_at i sum cs) [ none ↦ none | some cs' ↦ some (c ∷ cs') ]

-- How the loop over one chunk of buffers ends: it is through, with the next state of the generator;
-- the range of the generator has ended; or an index was out of range.
pub data Chunk (G : Type 0) : Type 0 where
  full : G → List HashCarrier → Chunk G
  last : List HashCarrier → Chunk G
  panics : Chunk G

-- `chunkcount += uint64(hchunk[i].ptr) + 1` for each `i`.
unfoldable pub chunk_count : List HashCarrier → ℕ
chunk_count [] = 0
chunk_count (c ∷ cs) = c.used + chunk_count cs

-- `hchunk[i] = ht.hashPool[i].Get(); hchunk[i].ptr = -1`
unfoldable pub from_pool : List (List ℕ) → List HashCarrier
from_pool [] = []
from_pool (b ∷ bs) = record { used = 0; buf = b } ∷ from_pool bs

-- What a worker sends for one chunk: a carrier to each counter, and the number of sums.
pub record Sent : Type 0 where
  pub carriers : List HashCarrier
  pub count : ℕ

abbrev pub sent_of : List HashCarrier → Sent
sent_of cs = record { carriers = cs; count = chunk_count cs }

abbrev pub sum_of : {G : Type 0} → Source G → G → ℕ
sum_of source g = source.checksum32 (source.fill_exp_bytes g)

module _ {G : Type 0} (source : Source G) (maxcounter chunksize : ℕ) where
  -- The loop over the buffers of a chunk; the first argument is how many are left.
  unfoldable pub chunk_loop : ℕ → G → List HashCarrier → Chunk G
  chunk_loop zero g cs = full g cs
  chunk_loop (suc left) g cs = elim (push_at (sum_of source g % maxcounter) (sum_of source g) cs) [
    | none ↦ panics
    | some cs' ↦ elim (source.plus g) [ none ↦ last cs' | some g' ↦ chunk_loop left g' cs' ]
  ]

  -- `runWorker` until it is killed: the list holds the buffers that the pools give out for each
  -- chunk up to then. `none` is a panic.
  unfoldable pub run_worker : List (List (List ℕ)) → G → Option (List Sent)
  run_worker [] g = some []
  run_worker (pool ∷ pools) g = elim (chunk_loop chunksize g (from_pool pool)) [
    | panics ↦ none
    | last cs ↦ some (sent_of cs ∷ [])
    | full g' cs ↦ elim (run_worker pools g') [ none ↦ none | some more ↦ some (sent_of cs ∷ more) ]
  ]
