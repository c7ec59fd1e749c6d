-- ===== src/FastServer/Service/Laws.antt =====
-- The invariant of a connection: what is counted, what is written, and that a buffer to read into is
-- never full.
pub mod Reading
pub mod Loop
use wander.Base.{
  ℕ, zero, suc, ◌+◌, ◌-◌, ◌≤◌, ◌<◌, ◌≡◌, refl, ◌∙◌, sym, ap, Bool, true, false, List, [], ◌∷◌, ◌++◌,
  length, take, drop, ltb, leb, sum, sum-append, append_assoc, take_all, length-take, length-drop,
  arith, inl, inr, if_case, leb→le, append-nil,
}
use wander.Base.Bytes.{Bytes}
use wander.FastServer.State.{
  max_header_size, response, State, keepalive, send_body, write_closed, Round, Service, goto,
}
use wander.FastServer.Sending.{
  wrote, wrote_nothing, taken, send, begin_response, report_requests, request_done,
}
use wander.FastServer.Service.Invariant.{
  replies, IsReplied, IsCut, IsAnswered, AtBody, IsTallied, Sound, known_state,
}

take-take :
    {A : Type 0} (a b c : ℕ) (xs : List A) → c ≡ a + b → take a xs ++ take b (drop a xs) ≡ take c xs
take-take zero b c xs e = ap (λ n. take n xs) (omega (arith, e))
take-take (suc a) zero zero [] e = refl
take-take (suc a) (suc b) zero [] e = absurd (omega (arith, e))
take-take (suc a) zero (suc c) [] e = refl
take-take (suc a) (suc b) (suc c) [] e = refl
take-take (suc a) b zero (x ∷ xs) e = absurd (omega (arith, e))
take-take (suc a) b (suc c) (x ∷ xs) e = ap (λ ys. x ∷ ys) (take-take a b c xs (omega (arith, e)))

response_some : (b : Bool) → 0 < length (response b)
response_some true = omega arith
response_some false = omega arith

-- `n` more bytes of the response are written.
wrote-IsCut :
    (n : ℕ) (s : Service)
    → AtBody s
    → IsCut
        (s.wire ++ take n (drop s.sent s.outbuf))
        s.totalrequest
        (response s.is_keep_alive)
        (s.sent + n)
wrote-IsCut n s h = record {
  before = h.cut.before;
  total = h.cut.total;
  written =
      ap (λ w. w ++ take n (drop s.sent s.outbuf)) h.cut.written
      ∙ (append_assoc (replies h.cut.before) (take s.sent (response s.is_keep_alive))
            (take n (drop s.sent s.outbuf))
          ∙ ap (λ t. replies h.cut.before ++ t)
              (ap (λ o. take s.sent (response s.is_keep_alive) ++ take n (drop s.sent o)) h.out
                ∙ take-take s.sent n (s.sent + n) (response s.is_keep_alive) refl));
}

-- More than the whole of it is the whole of it.
whole-IsCut :
    (wire : Bytes) (total k : ℕ) (out : Bytes)
    → IsCut wire total out k
    → length out ≤ k
    → IsCut wire total out (length out)
whole-IsCut wire total k out h le = record {
  before = h.before;
  total = h.total;
  written =
      h.written
      ∙ ap (λ t. replies h.before ++ t)
          (take_all k out le ∙ sym (take_all (length out) out (omega arith)));
}

wrote-Sound :
    (fails : Bool) (n : ℕ) (s : Service)
    → IsTallied s
    → s.state ≡ send_body
    → AtBody s
    → Sound (wrote fails n s)
unfolding wrote
wrote-Sound fails n s t e h =
    if_case Sound fails
      (λ _. record {
        tallied = record { tally = t.tally; few = t.few };
        stands = (s.sent + n, cut);
      })
      (λ _.
        if_case Sound (leb (length s.outbuf) (s.sent + n))
          (λ all. record {
            tallied = record { tally = t.tally; few = t.few };
            stands = inr (
                whole-IsCut _ s.totalrequest (s.sent + n) (response s.is_keep_alive) cut
                  (omega (arith, leb→le (length s.outbuf) (s.sent + n) all, ap length h.out)));
          })
          (λ not_all.
            known_state _ send_body (record { tally = t.tally; few = t.few }) e
              (record { out = h.out; unsent = ground (arith, not_all); cut = cut })))
  where
    cut :
        IsCut
          (s.wire ++ take n (drop s.sent s.outbuf))
          s.totalrequest
          (response s.is_keep_alive)
          (s.sent + n)
    cut = wrote-IsCut n s h

wrote_nothing-Sound :
    (fails : Bool) (s : Service)
    → IsTallied s
    → s.state ≡ send_body
    → AtBody s
    → Sound (wrote_nothing fails s)
unfolding wrote_nothing
wrote_nothing-Sound fails s t e h =
    if_case Sound fails (λ _. closed)
      (λ _.
        if_case Sound (ltb s.emptyio 2)
          (λ _.
            known_state _ send_body (record { tally = t.tally; few = t.few }) e
              (record { out = h.out; unsent = h.unsent; cut = h.cut }))
          (λ _. closed))
  where
    closed : Sound (goto write_closed s)
    closed = record { tallied = record { tally = t.tally; few = t.few }; stands = (s.sent, h.cut) }

pub send-Sound :
    (round : Round) (s : Service)
    → IsTallied s
    → s.state ≡ send_body
    → AtBody s
    → Sound (send round s)
unfolding send
send-Sound round s t e h =
    if_case Sound (ltb 0 (taken round s))
      (λ _. wrote-Sound round.write_fails (taken round s) s t e h)
      (λ _. wrote_nothing-Sound round.write_fails s t e h)

begin_response-Sound :
    (round : Round) (s : Service) (before : ℕ)
    → IsTallied s
    → s.totalrequest ≡ suc before
    → s.wire ≡ replies before
    → Sound (begin_response round s)
unfolding begin_response
begin_response-Sound round s before t total w =
    send-Sound round _ (record { tally = t.tally; few = t.few }) refl
      (record {
        out = refl;
        unsent = response_some s.is_keep_alive;
        cut = record {
          before = before;
          total = total;
          written = w ∙ sym (append-nil (replies before));
        };
      })

report_requests-Tallied :
    (s : Service)
    → sum s.requests_ch + s.reqoutcount ≡ s.totalrequest
    → s.reqoutcount ≤ 1000
    → IsTallied (report_requests s)
unfolding report_requests
report_requests-Tallied s h le =
    if_case IsTallied (leb 1000 s.reqoutcount)
      (λ _. record {
        tally = omega (arith, h, sum-append s.requests_ch (s.reqoutcount ∷ []));
        few = omega arith;
      })
      (λ few. record { tally = h; few = ground (arith, few) })

-- The report changes neither of them.
report_requests-total : (s : Service) → (report_requests s).totalrequest ≡ s.totalrequest
unfolding report_requests
report_requests-total s =
    if_case (λ (r : Service). r.totalrequest ≡ s.totalrequest) (leb 1000 s.reqoutcount) (λ _. refl)
      (λ _. refl)

report_requests-wire : (s : Service) → (report_requests s).wire ≡ s.wire
unfolding report_requests
report_requests-wire s =
    if_case (λ (r : Service). r.wire ≡ s.wire) (leb 1000 s.reqoutcount) (λ _. refl) (λ _. refl)

-- A request that is found is counted once and answered.
pub request_done-Sound :
    (round : Round) (s : Service) → IsTallied s → IsReplied s → Sound (request_done round s)
unfolding request_done
request_done-Sound round s t w =
    begin_response-Sound round _ s.totalrequest
      (record { tally = tallied.tally; few = tallied.few })
      (report_requests-total counted ∙ omega arith) (report_requests-wire counted ∙ w)
  where
    counted : Service
    counted = record s { totalrequest = s.totalrequest + 1; reqoutcount = s.reqoutcount + 1 }

    tallied : IsTallied (report_requests counted)
    tallied = report_requests-Tallied counted (omega (arith, t.tally)) (omega (arith, t.few))
