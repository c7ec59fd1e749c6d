-- ===== src/FastServer/Service/Laws/Loop.antt =====
-- The invariant of a connection through the rounds of its loop.
use wander.Base.{
  ◌≡◌, refl, ◌∙◌, sym, ap, true, false, ◌||◌, List, [], ◌∷◌, ◌++◌, length, take, ◌==◌, arith, inl,
  inr, if_case,
}
use wander.FastServer.State.{
  response, State, keepalive, read_req_method, read_req_header, read_req_done, parse_req_header,
  read_req_body, parse_req_body, send_header, send_body, read_closed, write_closed,
  keepalive_closed, Round, Service, new_service,
}
use wander.FastServer.Receiving.{next_request}
use wander.FastServer.Service.{by_state, step, is_exit, service_loop}
use wander.FastServer.Service.Invariant.{replies, IsReplied, IsAnswered, ByState, IsTallied, Sound}
use wander.FastServer.Service.Laws.{send-Sound, request_done-Sound}
use wander.FastServer.Service.Laws.Reading.{at_method, at_header, read-Sound}

next_request-Sound :
    (round : Round) (s : Service) → IsTallied s → ByState keepalive s → Sound (next_request round s)
unfolding next_request
next_request-Sound round s t h =
    if_case Sound (s.totalrequest == 0 || s.is_keep_alive)
      (λ goes.
        read-Sound round _ (record { tally = t.tally; few = t.few })
          (at_method refl (record {
            replied = replied goes h;
            size = refl;
            unknown = refl;
            all_read = refl;
            few = omega arith;
          })))
      (λ ends. record {
        tallied = record { tally = t.tally; few = t.few };
        stands = answered ends h;
      })
  where
    replied : (s.totalrequest == 0 || s.is_keep_alive) ≡ true → ByState keepalive s → IsReplied s
    replied goes (inl (e, w)) = w
    replied goes (inr cut) =
        cut.written
        ∙ (ap (λ b. replies cut.before ++ take (length (response b)) (response b)) kept
            ∙ ap replies (sym cut.total))
      where
        kept : s.is_keep_alive ≡ true
        kept = ground (arith, goes, cut.total)

    answered :
        (s.totalrequest == 0 || s.is_keep_alive) ≡ false
        → ByState keepalive s
        → IsAnswered s × (s.is_keep_alive ≡ false)
    answered ends (inl (e, w)) = absurd (ground (arith, ends, e))
    answered ends (inr cut) = (cut, ground (arith, ends))

-- A round of the loop keeps the invariant.
step-Sound :
    (round : Round) (s : Service) → is_exit s.state ≡ false → Sound s → Sound (step round s)
unfolding step
step-Sound round s goes h = by_case s.state refl h.stands
  where
    by_case : (st : State) → s.state ≡ st → ByState st s → Sound (by_state st round s)
    by_case keepalive e r = next_request-Sound round s h.tallied r
    by_case read_req_method e r = read-Sound round s h.tallied (at_method e r)
    by_case read_req_header e r = read-Sound round s h.tallied (at_header e r)
    by_case read_req_done e r = request_done-Sound round s h.tallied r
    by_case parse_req_header e r = absurd r
    by_case read_req_body e r = absurd r
    by_case parse_req_body e r = absurd r
    by_case send_header e r = absurd r
    by_case send_body e r = send-Sound round s h.tallied e r
    by_case read_closed e r = h
    by_case write_closed e r = h
    by_case keepalive_closed e r = h

pub service_loop-Sound :
    (rounds : List Round) (s : Service) → Sound s → Sound (service_loop rounds s)
unfolding service_loop
service_loop-Sound [] s h = h
service_loop-Sound (r ∷ rs) s h =
    if_case Sound (is_exit s.state) (λ _. h)
      (λ goes. service_loop-Sound rs (step r s) (step-Sound r s goes h))

pub new_service-Sound : Sound new_service
new_service-Sound = record {
  tallied = record { tally = refl; few = omega arith };
  stands = inl (refl, refl);
}
