-- ===== src/HashTest/Worker/Laws.antt =====
-- The loop of `runWorker` of hash-test/hash-test.go over one chunk, from its start to its end.
use wander.Base.{
  ℕ, zero, suc, ◌+◌, ◌%◌, ◌<◌, ◌≡◌, refl, ap, ◌∙◌, List, [], ◌∷◌, ◌++◌, Option, none, some, arith,
  length,
}
use native.Mathlib.Nat.{mod-lt}
use wander.Base.Occurs.{times, times-append}
use wander.HashTest.Worker.{
  Source, HashCarrier, push_at, Chunk, full, last, panics, chunk_count, sum_of, chunk_loop,
}
use wander.HashTest.Worker.Chunks.{all_sums, HoldAll, HoldAll-less, PushedAt, push_at-PushedAt}

module _ {G : Type 0} (source : Source G) (maxcounter size : ℕ) where
  -- The sums of the first `n` values of the generator, as far as its range goes.
  unfoldable pub sums_from : ℕ → G → List ℕ
  sums_from zero g = []
  sums_from (suc n) g =
      sum_of source g ∷ elim (source.plus g) [ none ↦ [] | some g' ↦ sums_from n g' ]

  -- The carriers `cs'` hold those of `cs` and the sums `xs`.
  pub record Grown (xs : List ℕ) (cs cs' : List HashCarrier) : Type 0 where
    pub holds : HoldAll maxcounter size 0 0 cs'
    pub as_many : length cs' ≡ length cs
    pub counted : chunk_count cs' ≡ chunk_count cs + length xs
    pub occurs : (k : ℕ) → times k (all_sums cs') ≡ times k (all_sums cs) + times k xs

  abbrev pub Loops : ℕ → G → List HashCarrier → Chunk G → Type 0
  Loops left g cs (full g' cs') =
      Grown (sums_from left g) cs cs'
      × ((n : ℕ) → sums_from (left + n) g ≡ sums_from left g ++ sums_from n g')
  Loops left g cs (last cs') =
      Grown (sums_from left g) cs cs' × ((n : ℕ) → sums_from (left + n) g ≡ sums_from left g)
  Loops left g cs panics = ⊥

  HoldAll-none :
      (left : ℕ) (cs : List HashCarrier)
      → HoldAll maxcounter size left 0 cs
      → HoldAll maxcounter size 0 0 cs
  HoldAll-none zero cs h = h
  HoldAll-none (suc left) cs h = HoldAll-none left cs (HoldAll-less maxcounter size left 0 cs h)

  module _ (left : ℕ) (g : G) (cs cs' : List HashCarrier)
      (e : push_at (sum_of source g % maxcounter) (sum_of source g) cs ≡ some cs') where
    chunk_loop-last :
        source.plus g ≡ none → chunk_loop source maxcounter size (suc left) g cs ≡ last cs'
    unfolding chunk_loop
    chunk_loop-last p = rw (chunk_loop, e, p) refl

    chunk_loop_more :
        (g' : G)
        → source.plus g ≡ some g'
        → chunk_loop source maxcounter size (suc left) g cs
          ≡ chunk_loop source maxcounter size left g' cs'
    unfolding chunk_loop
    chunk_loop_more g' p = rw (chunk_loop, e, p) refl

  sums_end : (n : ℕ) (g : G) → source.plus g ≡ none → sums_from (suc n) g ≡ sum_of source g ∷ []
  unfolding sums_from
  sums_end n g e = rw e refl

  sums_more :
      (n : ℕ) (g g' : G)
      → source.plus g ≡ some g'
      → sums_from (suc n) g ≡ sum_of source g ∷ sums_from n g'
  unfolding sums_from
  sums_more n g g' e = rw e refl

  Grown-PushedAt :
      (left sum : ℕ) (xs : List ℕ) (cs cs1 cs' : List HashCarrier)
      → PushedAt maxcounter size left 0 sum cs cs1
      → Grown xs cs1 cs'
      → Grown (sum ∷ xs) cs cs'
  Grown-PushedAt left sum xs cs cs1 cs' p g = record {
    holds = g.holds;
    as_many = g.as_many ∙ p.as_many;
    counted = omega (arith, g.counted, p.counted);
    occurs = λ k. omega (arith, g.occurs k, p.occurs k, times-append k (sum ∷ []) xs);
  }

  Grown-none :
      (left : ℕ) (cs : List HashCarrier) → HoldAll maxcounter size left 0 cs → Grown [] cs cs
  Grown-none left cs h = record {
    holds = HoldAll-none left cs h;
    as_many = refl;
    counted = omega arith;
    occurs = λ k. unfold times in omega arith;
  }

  pub chunk_loop-Loops :
      (left : ℕ) (g : G) (cs : List HashCarrier)
      → 0 < maxcounter
      → length cs ≡ maxcounter
      → HoldAll maxcounter size left 0 cs
      → Loops left g cs (chunk_loop source maxcounter size left g cs)
  chunk_loop-Loops zero g cs pos many h =
      unfold chunk_loop sums_from in
      (Grown-none zero cs h, λ n. ap (λ i. sums_from i g) (omega arith))
  chunk_loop-Loops (suc left) g cs pos many h =
      let sum = sum_of source g in
      let (cs1, e, pushed) =
        push_at-PushedAt maxcounter size left (sum % maxcounter) 0 sum cs
          (ground (arith, many, mod-lt sum pos)) (omega arith) h in
      go cs1 e pushed (λ g'. chunk_loop-Loops left g' cs1 pos (pushed.as_many ∙ many) pushed.holds)
        (source.plus g) refl
    where
      succ_add : (n : ℕ) → suc left + n ≡ suc (left + n)
      succ_add n = omega arith

      go :
          (cs1 : List HashCarrier)
          → push_at (sum_of source g % maxcounter) (sum_of source g) cs ≡ some cs1
          → PushedAt maxcounter size left 0 (sum_of source g) cs cs1
          → ((g' : G) → Loops left g' cs1 (chunk_loop source maxcounter size left g' cs1))
          → (o : Option G) → source.plus g ≡ o
          → Loops (suc left) g cs (chunk_loop source maxcounter size (suc left) g cs)
      go cs1 e pushed ih none p =
          rw (chunk_loop-last left g cs cs1 e p, sums_end left g p)
            (
              Grown-PushedAt left (sum_of source g) [] cs cs1 cs1 pushed
                  (Grown-none left cs1 pushed.holds),
              λ n. ap (λ i. sums_from i g) (succ_add n) ∙ sums_end (left + n) g p,
            )
      go cs1 e pushed ih (some g') p =
          rw (chunk_loop_more left g cs cs1 e g' p)
            (extended (chunk_loop source maxcounter size left g' cs1) (ih g'))
        where
          extended : (r : Chunk G) → Loops left g' cs1 r → Loops (suc left) g cs r
          extended (full g2 cs2) (grown, later) = rw (sums_more left g g' p) (
            Grown-PushedAt left (sum_of source g) (sums_from left g') cs cs1 cs2 pushed grown,
            λ n.
                ap (λ i. sums_from i g) (succ_add n)
                ∙ sums_more (left + n) g g' p
                ∙ ap (λ xs. sum_of source g ∷ xs) (later n),
          )
          extended (last cs2) (grown, later) = rw (sums_more left g g' p) (
            Grown-PushedAt left (sum_of source g) (sums_from left g') cs cs1 cs2 pushed grown,
            λ n.
                ap (λ i. sums_from i g) (succ_add n)
                ∙ sums_more (left + n) g g' p
                ∙ ap (λ xs. sum_of source g ∷ xs) (later n),
          )
          extended panics h = h
