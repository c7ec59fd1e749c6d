-- ===== src/FastServer/Worker.antt =====
-- `worker`: the loop that accepts connections and starts their services in batches.
pub mod Batches
use wander.Base.{
  ℕ, zero, suc, ◌+◌, ◌≤◌, ◌<◌, ◌≡◌, refl, ◌∙◌, sym, ap, Bool, true, false, ◌&&◌, ◌||◌, List, [],
  ◌∷◌, ◌++◌, length, ltb, leb, if◌then◌else◌, arith, append_assoc, append-nil, length-append, sum,
  sum-append,
}

-- What `lfd.AcceptTCP` returns: a connection, a time-out or temporary error, or another error.
pub data Accept : Type 0 where
  connection : ℕ → Accept
  timeout : Accept
  failure : Accept

-- A round of the loop: whether the ticker has ticked, and what is accepted.
pub record Turn : Type 0 where
  pub ticked : Bool
  pub accept : Accept

-- `connBatch`, the services that were started, and what was sent to `acceptedCh`.
pub record Worker : Type 0 where
  pub conn_batch : List ℕ
  pub started : List ℕ
  pub accepted_ch : List ℕ

abbrev pub new_worker : Worker
new_worker = record { conn_batch = []; started = []; accepted_ch = [] }

-- `if len(connBatch) > 0 { … }`
abbrev pub is_onload : ℕ → Bool → Worker → Bool
is_onload batch_accept_len ticked w =
    ltb 0 (length w.conn_batch) && (leb batch_accept_len (length w.conn_batch) || ticked)

unfoldable pub flush : ℕ → Bool → Worker → Worker
flush batch_accept_len ticked w =
    if is_onload batch_accept_len ticked w
    then record {
      conn_batch = [];
      started = w.started ++ w.conn_batch;
      accepted_ch = w.accepted_ch ++ length w.conn_batch ∷ [];
    }
    else w

abbrev pub add_batch : ℕ → Worker → Worker
add_batch nfd w = record w { conn_batch = w.conn_batch ++ nfd ∷ [] }

-- The end of a round; `next` is the rest of the loop.
abbrev pub after_accept : Accept → (Worker → Worker) → Worker → Worker
after_accept (connection nfd) next w = next (add_batch nfd w)
after_accept timeout next w = next w
after_accept failure next w = w

-- The loop; at the end of the list `exitSignaled` is set. What is in the batch then stays there.
unfoldable pub worker : ℕ → List Turn → Worker → Worker
worker batch_accept_len [] w = w
worker batch_accept_len (turn ∷ turns) w =
    let flushed = flush batch_accept_len turn.ticked w in
    after_accept turn.accept (worker batch_accept_len turns) flushed

abbrev pub with_accept : Accept → List ℕ → List ℕ
with_accept (connection nfd) rest = nfd ∷ rest
with_accept timeout rest = rest
with_accept failure rest = []

-- The connections that are accepted: those up to the first error that is not temporary.
abbrev pub accepted_conns : List Turn → List ℕ
accepted_conns [] = []
accepted_conns (turn ∷ turns) = with_accept turn.accept (accepted_conns turns)
