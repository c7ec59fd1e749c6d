-- ===== src/HashTest/Worker/Chunks.antt =====
-- What the carriers of one chunk of `runWorker` hold, from one sum to the next.
use wander.Base.{
  ℕ, zero, suc, ◌+◌, ◌%◌, ◌≤◌, ◌<◌, ◌≡◌, refl, ap, ◌∙◌, List, [], ◌∷◌, ◌++◌, some, arith, length,
  take, All, All-append,
}
use wander.Base.Occurs.{times, times-append}
use wander.HashTest.Worker.{HashCarrier, set_sum, stored, push_sum, push_at, chunk_count}

-- `buf[0]` to `buf[ptr]`.
abbrev pub sums : HashCarrier → List ℕ
sums c = take c.used c.buf

unfoldable pub all_sums : List HashCarrier → List ℕ
all_sums [] = []
all_sums (c ∷ cs) = sums c ++ all_sums cs

set_sum_ok :
    (i sum : ℕ) (b : List ℕ)
    → i < length b
    → (b' : List ℕ) × (set_sum i sum b ≡ some b')
      × (length b' ≡ length b)
      × (take (suc i) b' ≡ take i b ++ sum ∷ [])
unfolding set_sum
set_sum_ok i sum [] h = absurd (omega arith)
set_sum_ok zero sum (x ∷ xs) h = (sum ∷ xs, refl, refl, refl)
set_sum_ok (suc i) sum (x ∷ xs) h =
    let (ys, e, l, t) = set_sum_ok i sum xs (omega arith) in
    (x ∷ ys, rw e refl, ap suc l, ap (λ zs. x ∷ zs) t)

-- One sum more.
pub record Pushed (sum : ℕ) (c c' : HashCarrier) : Type 0 where
  pub one_more : c'.used ≡ c.used + 1
  pub same_size : length c'.buf ≡ length c.buf
  pub appended : sums c' ≡ sums c ++ sum ∷ []

push_sum-Pushed :
    (sum : ℕ) (c : HashCarrier)
    → c.used < length c.buf
    → (c' : HashCarrier) × (push_sum sum c ≡ some c') × Pushed sum c c'
unfolding push_sum
push_sum-Pushed sum c h =
    let (b, e, l, t) = set_sum_ok c.used sum c.buf h in
    let c' : HashCarrier = record { used = c.used + 1; buf = b } in
    (
      c',
      ap (stored c) e,
      record { one_more = refl; same_size = l; appended = ap (λ n. take n b) (add_one c.used) ∙ t },
    )
  where
    add_one : (n : ℕ) → n + 1 ≡ suc n
    add_one n = omega arith

push_at_here :
    (sum : ℕ) (c c' : HashCarrier) (cs : List HashCarrier)
    → push_sum sum c ≡ some c'
    → push_at zero sum (c ∷ cs) ≡ some (c' ∷ cs)
unfolding push_at
push_at_here sum c c' cs e = rw (push_at, e) refl

push_at_there :
    (j sum : ℕ) (c : HashCarrier) (cs cs' : List HashCarrier)
    → push_at j sum cs ≡ some cs'
    → push_at (suc j) sum (c ∷ cs) ≡ some (c ∷ cs')
unfolding push_at
push_at_there j sum c cs cs' e = rw (push_at, e) refl

module _ (maxcounter size : ℕ) where
  -- The carrier of counter `i` has room for `left` sums more, and holds sums of that counter only.
  pub record Holds (left i : ℕ) (c : HashCarrier) : Type 0 where
    pub whole : length c.buf ≡ size
    pub room : c.used + left ≤ size
    pub of_counter : All (λ x. x % maxcounter ≡ i) (sums c)

  unfoldable pub HoldAll : ℕ → ℕ → List HashCarrier → Type 0
  HoldAll left i [] = Unit
  HoldAll left i (c ∷ cs) = Holds left i c × HoldAll left (suc i) cs

  Holds-less : (left i : ℕ) (c : HashCarrier) → Holds (suc left) i c → Holds left i c
  Holds-less left i c h = record {
    whole = h.whole;
    room = ground (arith, h.room);
    of_counter = h.of_counter;
  }

  pub HoldAll-less :
      (left i : ℕ) (cs : List HashCarrier) → HoldAll (suc left) i cs → HoldAll left i cs
  unfolding HoldAll
  HoldAll-less left i [] h = tt
  HoldAll-less left i (c ∷ cs) (h, hs) = (Holds-less left i c h, HoldAll-less left (suc i) cs hs)

  Pushed-Holds :
      (left i sum : ℕ) (c c' : HashCarrier)
      → sum % maxcounter ≡ i
      → Holds (suc left) i c
      → Pushed sum c c'
      → Holds left i c'
  Pushed-Holds left i sum c c' e h p = record {
    whole = p.same_size ∙ h.whole;
    room = omega (arith, p.one_more, h.room);
    of_counter =
        rw p.appended
          (All-append (λ x. x % maxcounter ≡ i) (sums c) (sum ∷ []) h.of_counter (e, tt));
  }

  -- One sum more in one of the carriers.
  pub record PushedAt (left i sum : ℕ) (cs cs' : List HashCarrier) : Type 0 where
    pub holds : HoldAll left i cs'
    pub as_many : length cs' ≡ length cs
    pub counted : chunk_count cs' ≡ chunk_count cs + 1
    pub occurs : (k : ℕ) → times k (all_sums cs') ≡ times k (all_sums cs) + times k (sum ∷ [])

  pub push_at-PushedAt :
      (left j i sum : ℕ) (cs : List HashCarrier)
      → j < length cs
      → sum % maxcounter ≡ i + j
      → HoldAll (suc left) i cs
      → (cs' : List HashCarrier) × (push_at j sum cs ≡ some cs') × PushedAt left i sum cs cs'
  unfolding HoldAll all_sums chunk_count
  push_at-PushedAt left j i sum [] lt e h = absurd (omega arith)
  push_at-PushedAt left zero i sum (c ∷ cs) lt e (h, hs) =
      let (c', p, pushed) = push_sum-Pushed sum c (omega (arith, h.room, h.whole)) in
      (
        c' ∷ cs,
        push_at_here sum c c' cs p,
        record {
          holds = (
            Pushed-Holds left i sum c c' (omega (arith, e)) h pushed,
            HoldAll-less left (suc i) cs hs,
          );
          as_many = refl;
          counted = omega (arith, pushed.one_more);
          occurs = λ k. omega (
            arith,
            times-append k (sums c') (all_sums cs),
            ap (times k) pushed.appended,
            times-append k (sums c) (sum ∷ []),
            times-append k (sums c) (all_sums cs),
          );
        },
      )
  push_at-PushedAt left (suc j) i sum (c ∷ cs) lt e (h, hs) =
      let (cs', p, pushed) =
        push_at-PushedAt left j (suc i) sum cs (omega arith) (omega (arith, e)) hs in
      (
        c ∷ cs',
        push_at_there j sum c cs cs' p,
        record {
          holds = (Holds-less left i c h, pushed.holds);
          as_many = ap suc pushed.as_many;
          counted = omega (arith, pushed.counted);
          occurs = λ k. omega (
            arith,
            times-append k (sums c) (all_sums cs'),
            pushed.occurs k,
            times-append k (sums c) (all_sums cs),
          );
        },
      )
