-- ===== src/FastServer/Counter.antt =====
-- `requestCounter`: the goroutine that adds up what the others send.
pub mod Totals
use wander.Base.{ℕ, ◌+◌, Bool, true, false, List, [], ◌∷◌, ltb, if◌then◌else◌}

-- What the `select` takes: a number or the end of one of the three channels, or a tick.
pub data Message : Type 0 where
  requests : ℕ → Message
  accepted : ℕ → Message
  closed : ℕ → Message
  channel_ends : Message
  tick : Message

pub record Counts : Type 0 where
  pub finished_num : ℕ
  pub pre_finished_num : ℕ
  pub accept_num : ℕ
  pub pre_accept_num : ℕ
  pub closed_num : ℕ
  pub changed : Bool
  pub exit_count : ℕ

abbrev pub no_counts : Counts
no_counts = record {
  finished_num = 0;
  pre_finished_num = 0;
  accept_num = 0;
  pre_accept_num = 0;
  closed_num = 0;
  changed = false;
  exit_count = 0;
}

unfoldable pub count_message : Message → Counts → Counts
count_message (requests num) c = record c { finished_num = c.finished_num + num; changed = true }
count_message (accepted num) c = record c { accept_num = c.accept_num + num; changed = true }
count_message (closed num) c = record c { closed_num = c.closed_num + num; changed = true }
count_message channel_ends c = record c { exit_count = c.exit_count + 1 }
count_message tick c = record c {
  changed = false;
  pre_accept_num = c.accept_num;
  pre_finished_num = c.finished_num;
}

-- `for exitCount < 3 { … }`
unfoldable pub request_counter : List Message → Counts → Counts
request_counter [] c = c
request_counter (m ∷ ms) c =
    let rest = request_counter ms (count_message m c) in if ltb c.exit_count 3 then rest else c
