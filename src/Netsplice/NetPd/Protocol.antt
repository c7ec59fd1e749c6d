-- ===== src/Netsplice/NetPd/Protocol.antt =====
-- One side of a `netPD` under its three users: the goroutine that holds the lock, the goroutine in
-- `Close`, and the event loop that signals. A step is one atomic operation, in any order.
use wander.Base.{
  ◌≡◌, ◌≢◌, refl, Bool, true, false, List, [], ◌∷◌, arith, if◌then◌else◌, ◌⊎◌, inl, inr,
}
use wander.Netsplice.NetPd.{
  Flag, free, held, waiting, closed, is_flag, cas, swap_lock, swap_unlock, swap_sleep, swap_wake,
}

-- Where the holder stands: without the lock, with it, in a wait but not yet on the list of sleepers
-- of the condition variable (its mutex is a dummy), on that list, or signalled.
pub data Holder : Type 0 where
  outside locked falling asleep woken : Holder

-- Where `Close` stands in the loop over this side.
pub data Closer : Type 0 where
  check try_held try_free signal finished : Closer

pub record Side : Type 0 where
  pub flag : Flag
  pub holder : Holder
  pub closer : Closer

pub data Move : Type 0 where
  lock unlock sleep join wake : Move
  close : Move
  event : Move

-- `Signal` wakes a goroutine on the list of sleepers, and is lost on any other.
abbrev pub signalled : Holder → Holder
signalled asleep = woken
signalled h = h

abbrev hold : Holder → Flag × Bool → Side → Side
hold h (f, true) s = record s { flag = f; holder = h }
hold h (f, false) s = s

-- A lock that fails leaves its caller outside; an unlock ends the call whether it fails or not.
abbrev holder_step : Move → Holder → Side → Side
holder_step lock outside s = hold locked (swap_lock s.flag) s
holder_step unlock locked s = record s { flag = (swap_unlock s.flag).0; holder = outside }
holder_step sleep locked s = hold falling (swap_sleep s.flag) s
holder_step join falling s = record s { holder = asleep }
holder_step wake woken s = record s { flag = (swap_wake s.flag).0; holder = locked }
holder_step _ _ s = s

abbrev try : Flag × Bool → Closer → Side → Side
try (f, true) next s = record s { flag = f; closer = finished }
try (f, false) next s = record s { closer = next }

-- `for atomic.LoadInt32(&flag) != 3 { … }`, an operation at a time.
abbrev closer_step : Closer → Side → Side
closer_step check s = record s { closer = if is_flag s.flag closed then finished else try_held }
closer_step try_held s = try (cas s.flag held closed) try_free s
closer_step try_free s = try (cas s.flag free closed) signal s
closer_step signal s = record s { holder = signalled s.holder; closer = check }
closer_step finished s = s

unfoldable pub step : Move → Side → Side
step close s = closer_step s.closer s
step event s = record s { holder = signalled s.holder }
step m s = holder_step m s.holder s

unfoldable pub run : List Move → Side → Side
run [] s = s
run (m ∷ ms) s = run ms (step m s)

abbrev pub fresh_side : Side
fresh_side = record { flag = free; holder = outside; closer = check }

-- The flag and the place of the holder agree.
abbrev pub Agrees : Holder → Flag → Type 0
Agrees outside f = (f ≡ free) ⊎ (f ≡ closed)
Agrees locked f = (f ≡ held) ⊎ (f ≡ closed)
Agrees falling f = f ≡ waiting
Agrees asleep f = f ≡ waiting
Agrees woken f = f ≡ waiting

pub record IsSound (s : Side) : Type 0 where
  pub agrees : Agrees s.holder s.flag
  pub shut : (s.closer ≢ finished) ⊎ (s.flag ≡ closed)

pub step-IsSound : (m : Move) (s : Side) → IsSound s → IsSound (step m s)
unfolding step
step-IsSound close s h = ground arith
step-IsSound event s h = ground arith
step-IsSound _ s h = ground arith

pub run-IsSound : (ms : List Move) (s : Side) → IsSound s → IsSound (run ms s)
unfolding run
run-IsSound [] s h = h
run-IsSound (m ∷ ms) s h = run-IsSound ms (step m s) (step-IsSound m s h)

-- In every interleaving the flag tells where the holder is: it is 2 exactly while a wait is under
-- way, so `Close` never shuts the side under a sleeper; and once `Close` is done the side is shut.
pub protocol-IsSound : (ms : List Move) → IsSound (run ms fresh_side)
protocol-IsSound ms = run-IsSound ms fresh_side (ground arith)

-- Two rounds in which the closer makes four steps and the holder, if it waits, the next one.
abbrev pub fair_moves : List Move
fair_moves =
    close ∷ close ∷ close ∷ close ∷ join ∷ close ∷ close ∷ close ∷ close ∷ wake ∷ close ∷ close
    ∷ close ∷ close ∷ close ∷ close ∷ []

closes :
    (f : Flag) (h : Holder) (c : Closer)
    → Agrees h f
    → (run fair_moves (record { flag = f; holder = h; closer = c })).closer ≡ finished
unfolding run step
closes free outside check s = refl
closes free outside _ s = refl
closes closed outside check s = refl
closes closed outside _ s = refl
closes held locked check s = refl
closes held locked _ s = refl
closes closed locked check s = refl
closes closed locked _ s = refl
closes waiting falling check s = refl
closes waiting falling _ s = refl
closes waiting asleep check s = refl
closes waiting asleep _ s = refl
closes waiting woken check s = refl
closes waiting woken _ s = refl
closes _ _ _ s = absurd (ground arith)

-- Wherever the three goroutines stand, `Close` gets to its end on this side if it and the holder
-- take turns as in `fair_moves`: a sleeper is woken, and gives the flag back to be shut.
pub close_finishes :
    (s : Side) → IsSound s → let t = run fair_moves s in (t.closer ≡ finished) × (t.flag ≡ closed)
close_finishes s h =
    let done = closes s.flag s.holder s.closer h.agrees in
    (
      done,
      elim ((run-IsSound fair_moves s h).shut) [
        | inl open_yet ↦ absurd (open_yet done)
        | inr shut ↦ shut
      ],
    )

-- A signal that the event loop sends between the swap of a wait and the sleep is lost: the holder
-- then sleeps, and only the next signal wakes it. The same signal after the sleep began wakes it.
pub signal_order :
    (s : Side)
    → s.holder ≡ falling
    → ((run (event ∷ join ∷ []) s).holder ≡ asleep)
      × ((run (event ∷ join ∷ []) s) ≡ run (join ∷ []) s)
      × ((run (join ∷ event ∷ []) s).holder ≡ woken)
unfolding run step
signal_order s h = (ground arith, ground arith, ground arith)

-- No step but a signal, of the event loop or of `Close`, ends a sleep.
pub asleep_stays :
    (m : Move) (s : Side)
    → s.holder ≡ asleep
    → (step m s).holder ≢ asleep
    → ((step m s).holder ≡ woken) × ((m ≡ event) ⊎ ((m ≡ close) × (s.closer ≡ signal)))
unfolding step
asleep_stays close s h k = ground arith
asleep_stays event s h k = ground arith
asleep_stays _ s h k = ground arith
