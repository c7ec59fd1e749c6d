-- ===== src/QpsServer/Server/Deadlock.antt =====
-- The goroutine that counts sends to the channel that it alone receives from.
use wander.Base.{
  ℕ, zero, suc, ◌+◌, ◌-◌, ◌≤◌, ◌<◌, ◌≡◌, refl, ◌∙◌, ap, List, [], ◌∷◌, ◌++◌, arith, length,
  length-append,
}
use wander.QpsServer.Event.{Event, destroyed, total_conn_init, read_init}
use wander.QpsServer.Response.{Mode}
use wander.QpsServer.Stream.Keeps.{NotLast}
use wander.QpsServer.Server.{
  listening, announced, Counter, waiting, took, telling, Main, start, capacity, send, spawn, raise,
  lower, count_event, report, Step, accept, accept_fails, announce, add, compare_counter, event,
  served, refused, leak, tick, take_event, took_destroyed, tell, took_other, count, display, Reach,
  begin, next,
}

-- The channel is full, and the goroutine that counts is about to send to it.
pub record IsStuck (max : ℕ) (s : Main) : Type 0 where
  pub tells : s.counter ≡ telling
  pub full : capacity max ≤ length s.channel

-- The states that follow a state.
pub data Later (mode : Mode) (max : ℕ) (s : Main) : Main → Type 0 where
  same : Later mode max s s
  goes : {t u : Main} → Later mode max s t → Step mode max t u → Later mode max s u

Step-IsStuck :
    {mode : Mode} {max : ℕ} {s t : Main}
    → Step mode max s t
    → IsStuck max s
    → IsStuck max t × (t.channel ≡ s.channel)
unfolding spawn raise lower count_event report
Step-IsStuck (accept s a) k = ground arith
Step-IsStuck (accept_fails s a) k = ground arith
Step-IsStuck (announce s a r) k = absurd (omega (arith, k.full))
Step-IsStuck (add s a) k = ground arith
Step-IsStuck (compare_counter s a) k = ground arith
Step-IsStuck (event s e h n r) k = absurd (omega (arith, k.full))
Step-IsStuck (served s n h r) k = absurd (omega (arith, k.full))
Step-IsStuck (refused s n h r) k = absurd (omega (arith, k.full))
Step-IsStuck (leak s n m h) k = ground arith
Step-IsStuck (tick s r) k = absurd (omega (arith, k.full))
Step-IsStuck (take_event s e rest w q) k = ground arith
Step-IsStuck (took_destroyed s w) k = ground arith
Step-IsStuck (tell s w r) k = absurd (omega (arith, k.full))
Step-IsStuck (took_other s e w n) k = ground arith
Step-IsStuck (count s e w) k = ground arith
Step-IsStuck (display s) k = ground arith

Later-IsStuck :
    {mode : Mode} {max : ℕ} {s t : Main}
    → IsStuck max s
    → Later mode max s t
    → IsStuck max t × (t.channel ≡ s.channel)
Later-IsStuck k same = (k, refl)
Later-IsStuck k (goes l st) =
    let (k', e) = Later-IsStuck k l in let (k'', e') = Step-IsStuck st k' in (k'', e' ∙ e)

-- A reachable state between two connections.
record Spot (mode : Mode) (max : ℕ) (counter : Counter) (live : ℕ) (events : List Event)
    : Type 0 where
  at : Main
  reach : Reach mode max at
  listens : at.acceptor ≡ listening
  counts : at.counter ≡ counter
  alive : at.serving + at.refusing ≡ live
  holds : at.channel ≡ events

module _ {mode : Mode} {max : ℕ} where
  at_start : Spot mode max waiting 0 []
  unfolding start
  at_start = record {
    at = start max;
    reach = begin;
    listens = refl;
    counts = refl;
    alive = omega arith;
    holds = refl;
  }

  connect :
      {c : Counter} {n : ℕ} {events : List Event}
      → length events < capacity max
      → Spot mode max c n events
      → Spot mode max c (n + 1) (events ++ total_conn_init ∷ [])
  unfolding spawn raise
  connect room p = record {
    at = spawn max (raise sent);
    reach =
        next
          (next
            (next (next p.reach (accept p.at p.listens))
              (announce _ refl (omega (arith, ap length p.holds))))
            (add sent refl))
          (compare_counter (raise sent) refl);
    listens = ground arith;
    counts = ground (arith, p.counts);
    alive = ground (arith, p.alive);
    holds = ground (arith, ap (λ (l : List Event). l ++ total_conn_init ∷ []) p.holds);
  }
    where
      sent : Main
      sent = record (send total_conn_init p.at) { acceptor = announced }

  finish :
      {c : Counter} {n : ℕ} {events : List Event}
      → length events < capacity max
      → Spot mode max c (suc n) events
      → Spot mode max c n (events ++ destroyed ∷ [])
  finish {c} {n} {events} room p = by_kind p.at.serving p.at.refusing refl refl
    where
      by_kind :
          (a b : ℕ)
          → p.at.serving ≡ a
          → p.at.refusing ≡ b
          → Spot mode max c n (events ++ destroyed ∷ [])
      by_kind (suc a) b e e' = record {
        at = record (send destroyed p.at) { serving = a };
        reach = next p.reach (served p.at a e (omega (arith, ap length p.holds)));
        listens = p.listens;
        counts = p.counts;
        alive = omega (arith, p.alive);
        holds = ap (λ l. l ++ destroyed ∷ []) p.holds;
      }
      by_kind zero (suc b) e e' = record {
        at = record (send destroyed p.at) { refusing = b };
        reach = next p.reach (refused p.at b e' (omega (arith, ap length p.holds)));
        listens = p.listens;
        counts = p.counts;
        alive = omega (arith, p.alive);
        holds = ap (λ l. l ++ destroyed ∷ []) p.holds;
      }
      by_kind zero zero e e' = absurd (omega (arith, p.alive))

  count_next :
      {n : ℕ} {e : Event} {events : List Event}
      → NotLast e
      → Spot mode max waiting n (e ∷ events)
      → Spot mode max waiting n events
  unfolding count_event
  count_next {n} {e} {events} h p = record {
    at = count_event e (record p.at { counter = took e; channel = events });
    reach = next (next p.reach (take_event p.at e events p.counts p.holds)) (took_other _ e refl h);
    listens = p.listens;
    counts = refl;
    alive = p.alive;
    holds = refl;
  }

  count_destroyed :
      {n : ℕ} {events : List Event}
      → Spot mode max waiting n (destroyed ∷ events)
      → Spot mode max telling n events
  unfolding lower
  count_destroyed {n} {events} p = record {
    at = lower (record p.at { counter = took destroyed; channel = events });
    reach =
        next (next p.reach (take_event p.at destroyed events p.counts p.holds))
          (took_destroyed _ refl);
    listens = p.listens;
    counts = refl;
    alive = p.alive;
    holds = refl;
  }

  -- A handler sends events until the channel is full.
  fill :
      (k n : ℕ) (events : List Event)
      → length events + k ≡ capacity max
      → Spot mode max telling (suc n) events
      → (s : Main) × Reach mode max s × IsStuck max s
  fill zero n events e p =
      (p.at, p.reach, record { tells = p.counts; full = omega (arith, ap length p.holds) })
  fill (suc k) n events e p =
      fill k n (events ++ read_init ∷ []) (omega (arith, length-append events (read_init ∷ [])))
        (record {
          at = send read_init p.at;
          reach = next p.reach (
              event p.at read_init (omega (arith, p.alive)) refl
                (omega (arith, ap length p.holds)));
          listens = p.listens;
          counts = p.counts;
          alive = p.alive;
          holds = ap (λ l. l ++ read_init ∷ []) p.holds;
        })

-- In every mode and with every limit the program can reach a state from which on no event is ever
-- received: in each later state the channel holds the same events, and the goroutine that counts
-- still waits to send.
pub deadlock_reachable :
    (mode : Mode) (max : ℕ)
    → (s : Main) × Reach mode max s
      × ((t : Main) → Later mode max s t → (t.counter ≡ telling) × (t.channel ≡ s.channel))
deadlock_reachable mode max =
    let spot : Spot mode max telling 1 (total_conn_init ∷ []) = count_destroyed (
      count_next refl
        (connect (omega arith) (finish (omega arith) (connect (omega arith) at_start)))) in
    let (s, reach, stuck) = fill (capacity max - 1) 0 (total_conn_init ∷ []) (omega arith) spot in
    (s, reach, λ t l. let (k, e) = Later-IsStuck stuck l in (k.tells, e))
