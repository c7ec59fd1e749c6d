-- ===== src/FastServer/Service/Invariant.antt =====
-- What holds of a connection between two rounds of the loop.
use mathlib.Core.Path.{subst}
use wander.Base.{
  ℕ, zero, suc, ◌+◌, ◌≤◌, ◌<◌, ◌≡◌, true, false, [], ◌++◌, length, take, sum, ◌⊎◌, sym,
}
use wander.Base.Bytes.{Bytes}
use wander.FastServer.Parse.{mini_header_size}
use wander.FastServer.State.{
  max_header_size, init_header_size, max_header_read_size, http_200_keepalive, response, State,
  keepalive, read_req_method, read_req_header, read_req_done, send_body, read_closed, write_closed,
  keepalive_closed, Service,
}

-- `n` whole responses that keep the connection.
abbrev pub replies : ℕ → Bytes
replies zero = []
replies (suc n) = replies n ++ http_200_keepalive

-- Every request has its response.
abbrev pub IsReplied : Service → Type 0
IsReplied s = s.wire ≡ replies s.totalrequest

-- Every request but the last has its response, and of the last one's there is the beginning.
pub record IsCut (wire : Bytes) (totalrequest : ℕ) (out : Bytes) (k : ℕ) : Type 0 where
  pub before : ℕ
  pub total : totalrequest ≡ suc before
  pub written : wire ≡ replies before ++ take k out

abbrev pub IsAnswered : Service → Type 0
IsAnswered s =
    IsCut s.wire s.totalrequest (response s.is_keep_alive) (length (response s.is_keep_alive))

pub record AtMethod (s : Service) : Type 0 where
  pub replied : IsReplied s
  pub size : s.size ≡ init_header_size
  pub unknown : s.method_ok ≡ false
  pub all_read : s.requestbytes ≡ length s.buf
  pub few : s.requestbytes < mini_header_size

pub record AtHeader (s : Service) : Type 0 where
  pub replied : IsReplied s
  pub size : s.size ≡ max_header_size
  pub known : s.method_ok ≡ true
  pub some_read : mini_header_size ≤ s.requestbytes
  pub room : length s.buf < max_header_size
  pub limited : s.requestbytes < max_header_read_size

pub record AtBody (s : Service) : Type 0 where
  pub out : s.outbuf ≡ response s.is_keep_alive
  pub unsent : s.sent < length s.outbuf
  pub cut : IsCut s.wire s.totalrequest (response s.is_keep_alive) s.sent

-- The states that the code never enters are left out.
abbrev pub ByState : State → Service → Type 0
ByState keepalive s = (s.totalrequest ≡ 0 × IsReplied s) ⊎ IsAnswered s
ByState read_req_method s = AtMethod s
ByState read_req_header s = AtHeader s
ByState read_req_done s = IsReplied s
ByState send_body s = AtBody s
ByState read_closed s = IsReplied s
ByState write_closed s = (k : ℕ) × IsCut s.wire s.totalrequest (response s.is_keep_alive) k
ByState keepalive_closed s = IsAnswered s × (s.is_keep_alive ≡ false)
ByState _ s = ⊥

-- The requests that were reported and those that are to be add up.
pub record IsTallied (s : Service) : Type 0 where
  pub tally : sum s.requests_ch + s.reqoutcount ≡ s.totalrequest
  pub few : s.reqoutcount < 1000

pub record Sound (s : Service) : Type 0 where
  pub tallied : IsTallied s
  pub stands : ByState s.state s

-- `Sound`, if the state is known by an equation.
pub known_state : (s : Service) (st : State) → IsTallied s → s.state ≡ st → ByState st s → Sound s
known_state s st t e h = record { tallied = t; stands = subst (λ x. ByState x s) (sym e) h }
