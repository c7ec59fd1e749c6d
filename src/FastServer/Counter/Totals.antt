-- ===== src/FastServer/Counter/Totals.antt =====
-- The totals of `requestCounter`.
use wander.Base.{ℕ, ◌+◌, ◌<◌, ◌≡◌, List, [], ◌∷◌, ltb, arith, if_case}
use wander.FastServer.Counter.{
  Message, requests, accepted, closed, channel_ends, tick, Counts, count_message, request_counter,
}

-- What a message adds to the three totals and to the number of channels at their end.
abbrev pub amount : (Message → ℕ) → List Message → ℕ
amount f [] = 0
amount f (m ∷ ms) = f m + amount f ms

abbrev pub of_requests : Message → ℕ
of_requests (requests num) = num
of_requests _ = 0

abbrev pub of_accepted : Message → ℕ
of_accepted (accepted num) = num
of_accepted _ = 0

abbrev pub of_closed : Message → ℕ
of_closed (closed num) = num
of_closed _ = 0

abbrev pub of_ends : Message → ℕ
of_ends channel_ends = 1
of_ends _ = 0

pub record IsAdded (c : Counts) (ms : List Message) (c' : Counts) : Type 0 where
  pub requests : c'.finished_num ≡ c.finished_num + amount of_requests ms
  pub accepts : c'.accept_num ≡ c.accept_num + amount of_accepted ms
  pub closes : c'.closed_num ≡ c.closed_num + amount of_closed ms
  pub ends : c'.exit_count ≡ c.exit_count + amount of_ends ms

count_message-IsAdded : (m : Message) (c : Counts) → IsAdded c (m ∷ []) (count_message m c)
unfolding count_message
count_message-IsAdded (requests num) c = record {
  requests = omega arith;
  accepts = omega arith;
  closes = omega arith;
  ends = omega arith;
}
count_message-IsAdded (accepted num) c = record {
  requests = omega arith;
  accepts = omega arith;
  closes = omega arith;
  ends = omega arith;
}
count_message-IsAdded (closed num) c = record {
  requests = omega arith;
  accepts = omega arith;
  closes = omega arith;
  ends = omega arith;
}
count_message-IsAdded channel_ends c = record {
  requests = omega arith;
  accepts = omega arith;
  closes = omega arith;
  ends = omega arith;
}
count_message-IsAdded tick c = record {
  requests = omega arith;
  accepts = omega arith;
  closes = omega arith;
  ends = omega arith;
}

-- If at most two of the three channels come to their end, then in whatever order the channels and the
-- ticker are heard, `requestCounter` adds every number to the total of its channel and stays in
-- its loop.
pub request_counter-IsAdded :
    (ms : List Message) (c : Counts)
    → c.exit_count + amount of_ends ms < 3
    → IsAdded c ms (request_counter ms c)
unfolding request_counter
request_counter-IsAdded [] c h = record {
  requests = omega arith;
  accepts = omega arith;
  closes = omega arith;
  ends = omega arith;
}
request_counter-IsAdded (m ∷ ms) c h =
    if_case (IsAdded c (m ∷ ms)) (ltb c.exit_count 3)
      (λ _.
        let one = count_message-IsAdded m c in
        let r = request_counter-IsAdded ms (count_message m c) (omega (arith, h, one.ends)) in
        record {
          requests = omega (arith, one.requests, r.requests);
          accepts = omega (arith, one.accepts, r.accepts);
          closes = omega (arith, one.closes, r.closes);
          ends = omega (arith, one.ends, r.ends);
        })
      (λ over. absurd (ground (arith, over, h)))
