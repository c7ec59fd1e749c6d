-- ===== src/QpsServer/Server.antt =====
-- The goroutines of `main` and the channel between them, as atomic steps in any order: the one that
-- accepts, the one that counts, the timer, the display, and the handlers of the connections.
pub mod Limit
pub mod Admission
pub mod Deadlock
use wander.Base.{
  ℕ, zero, suc, ◌+◌, ◌-◌, ◌<◌, ◌≡◌, refl, Bool, true, false, List, [], ◌∷◌, ◌++◌, length, ltb, ◌==◌,
  if◌then◌else◌,
}
use wander.Base.Int.{ℤ, pos, negsuc, ◌+ℤ◌, ◌-ℤ◌, ltb_ℤ}
use wander.QpsServer.Event.{
  Event, event_number, is_destroyed, destroyed, total_time_esp, total_conn_max, total_conn_running,
  total_conn_idle, total_conn_init, total_conn_closed,
}
use wander.QpsServer.Response.{Mode, readlonly}
use wander.QpsServer.Stream.Keeps.{NotLast}

-- Where the loop of `listener.Accept` stands: before it; before the event is sent; before the
-- counter is raised; before it is compared; behind the end.
pub data Acceptor : Type 0 where
  listening : Acceptor
  accepted : Acceptor
  announced : Acceptor
  added : Acceptor
  stopped : Acceptor

-- Where the goroutine that counts stands: before the next event; behind taking one; before it
-- sends TOTAL_CONN_CLOSED; before `status_counter[eventChangeMsg]++`.
pub data Counter : Type 0 where
  waiting : Counter
  took : Event → Counter
  telling : Counter
  counting : Event → Counter

-- `serving` and `refusing` are the handlers that run, for `httpStatusContinue` and for
-- `httpStatusServiceUnavailable`; `leaked` those that returned with no event.
pub record Main : Type 0 where
  pub acceptor : Acceptor
  pub counter : Counter
  pub channel : List Event
  pub conn_counter : ℤ
  pub status_counter : ℕ → ℤ
  pub serving : ℕ
  pub refusing : ℕ
  pub leaked : ℕ

abbrev store_count : ℕ → ℤ → (ℕ → ℤ) → ℕ → ℤ
store_count key value counts k = if k == key then value else counts k

unfoldable pub start : ℕ → Main
start max = record {
  acceptor = listening;
  counter = waiting;
  channel = [];
  conn_counter = pos 0;
  status_counter =
      store_count (event_number total_conn_idle) (pos max)
        (store_count (event_number total_conn_max) (pos max) (λ _. pos 0));
  serving = 0;
  refusing = 0;
  leaked = 0;
}

-- `make(chan int, srv_cfg_max_connections+10240)`
abbrev pub capacity : ℕ → ℕ
capacity max = max + 10240

abbrev pub HasRoom : ℕ → Main → Type 0
HasRoom max s = length s.channel < capacity max

abbrev pub send : Event → Main → Main
send e s = record s { channel = s.channel ++ e ∷ [] }

-- `if int(srv_cfg_var_conn_counter) > srv_cfg_max_connections`
unfoldable pub spawn : ℕ → Main → Main
spawn max s =
    if ltb_ℤ (pos max) s.conn_counter
    then record s { acceptor = listening; refusing = s.refusing + 1 }
    else record s { acceptor = listening; serving = s.serving + 1 }

-- `atomic.AddInt32(&srv_cfg_var_conn_counter, 1)`
unfoldable pub raise : Main → Main
raise s = record s { acceptor = added; conn_counter = s.conn_counter +ℤ pos 1 }

-- `atomic.AddInt32(&srv_cfg_var_conn_counter, -1)`
unfoldable pub lower : Main → Main
lower s = record s { counter = telling; conn_counter = s.conn_counter -ℤ pos 1 }

-- `status_counter[eventChangeMsg]++`
unfoldable pub count_event : Event → Main → Main
count_event e s = record s {
  counter = waiting;
  status_counter =
      store_count (event_number e) (s.status_counter (event_number e) +ℤ pos 1) s.status_counter;
}

-- The two counts that the display writes before it prints.
unfoldable pub report : ℕ → Main → Main
report max s = record s {
  status_counter =
      store_count (event_number total_conn_idle) (pos max -ℤ s.conn_counter)
        (store_count (event_number total_conn_running) s.conn_counter s.status_counter);
}

pub data Step (mode : Mode) (max : ℕ) : Main → Main → Type 0 where
  accept : (s : Main) → s.acceptor ≡ listening → Step mode max s (record s { acceptor = accepted })
  accept_fails :
      (s : Main) → s.acceptor ≡ listening → Step mode max s (record s { acceptor = stopped })
  announce :
      (s : Main)
      → s.acceptor ≡ accepted
      → HasRoom max s
      → Step mode max s (record (send total_conn_init s) { acceptor = announced })
  add : (s : Main) → s.acceptor ≡ announced → Step mode max s (raise s)
  compare_counter : (s : Main) → s.acceptor ≡ added → Step mode max s (spawn max s)
  event :
      (s : Main) (e : Event)
      → 0 < s.serving + s.refusing
      → NotLast e
      → HasRoom max s
      → Step mode max s (send e s)
  served :
      (s : Main) (n : ℕ)
      → s.serving ≡ suc n
      → HasRoom max s
      → Step mode max s (record (send destroyed s) { serving = n })
  refused :
      (s : Main) (n : ℕ)
      → s.refusing ≡ suc n
      → HasRoom max s
      → Step mode max s (record (send destroyed s) { refusing = n })
  leak :
      (s : Main) (n : ℕ)
      → mode ≡ readlonly
      → s.serving ≡ suc n
      → Step mode max s (record s { serving = n; leaked = s.leaked + 1 })
  tick : (s : Main) → HasRoom max s → Step mode max s (send total_time_esp s)
  take_event :
      (s : Main) (e : Event) (rest : List Event)
      → s.counter ≡ waiting
      → s.channel ≡ e ∷ rest
      → Step mode max s (record s { counter = took e; channel = rest })
  took_destroyed : (s : Main) → s.counter ≡ took destroyed → Step mode max s (lower s)
  tell :
      (s : Main)
      → s.counter ≡ telling
      → HasRoom max s
      → Step mode max s (record (send total_conn_closed s) { counter = counting destroyed })
  took_other :
      (s : Main) (e : Event) → s.counter ≡ took e → NotLast e → Step mode max s (count_event e s)
  count : (s : Main) (e : Event) → s.counter ≡ counting e → Step mode max s (count_event e s)
  display : (s : Main) → Step mode max s (report max s)

pub data Reach (mode : Mode) (max : ℕ) : Main → Type 0 where
  begin : Reach mode max (start max)
  next : {s t : Main} → Reach mode max s → Step mode max s t → Reach mode max t
