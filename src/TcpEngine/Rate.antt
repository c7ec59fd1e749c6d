-- ===== src/TcpEngine/Rate.antt =====
-- `qpsctl` of tcpengine/tcpengine.go: how a limit on requests per second becomes a batch and a delay.
use wander.Base.{
  ℕ, zero, suc, ◌+◌, ◌-◌, ◌*◌, ◌/◌, ◌≤◌, ◌<◌, ◌≡◌, refl, ltb, ◌==◌, if◌then◌else◌, Option, none,
  some,
}

abbrev pub second : ℕ
second = 1_000_000_000

abbrev pub millisecond : ℕ
millisecond = 1_000_000

pub record Rate : Type 0 where
  pub qpsdelay : ℕ
  pub split : ℕ
  pub batch : ℕ

-- The loop that doubles as the choice of the delay. `none`: the fuel ran out, or a division by a
-- `split` of zero, which panics.
unfoldable pub choose_rate : ℕ → ℕ → ℕ → Option Rate
choose_rate zero limit qpsdelay = none
choose_rate (suc fuel) limit qpsdelay =
    let split = second / qpsdelay in
    let rest = choose_rate fuel limit (qpsdelay + millisecond) in
    if split == 0
    then none
    else if ltb 0 (limit / split)
    then some (record { qpsdelay = qpsdelay; split = split; batch = limit / split })
    else rest

-- The delay starts at a millisecond; a thousand rounds take it to a second.
unfoldable pub qps_rate : ℕ → Option Rate
unfolding choose_rate
qps_rate limit = choose_rate 1000 limit millisecond

rate_test :
    (qps_rate 5000 ≡ some (record { qpsdelay = 1_000_000; split = 1000; batch = 5 }))
    × (qps_rate 3 ≡ some (record { qpsdelay = 251_000_000; split = 3; batch = 1 }))
unfolding qps_rate
rate_test = (refl, refl)

-- The last loop, at the earliest: what was sent into the channel when `ticks` ticks of the ticker have
-- been received, the first batch at once.
unfoldable pub sent_after : Rate → ℕ → ℕ
sent_after r zero = r.batch
sent_after r (suc ticks) = sent_after r ticks + r.batch

-- The requests of a second that begins with a batch: the ticker ticks at `qpsdelay`, twice
-- `qpsdelay`, …, and the ticks before the second is over count.
abbrev pub sent_in_second : Rate → ℕ
sent_in_second r = sent_after r ((second - 1) / r.qpsdelay)

-- What the loop ends with, and what it makes of a second.
pub record IsRate (limit : ℕ) (r : Rate) : Type 0 where
  pub split : r.split ≡ second / r.qpsdelay
  pub splits : 0 < r.split
  pub some_batch : 0 < r.batch
  pub low : r.batch * r.split ≤ limit
  pub high : limit < (r.batch + 1) * r.split
  pub delays : millisecond ≤ r.qpsdelay
  pub above : sent_in_second r ≤ limit + r.batch
  pub below : r.batch * r.split ≤ sent_in_second r

-- With a limit of one request a second, two are let pass.
one_too_many : (r : Rate) × (qps_rate 1 ≡ some r) × (sent_in_second r ≡ 2)
unfolding qps_rate sent_after
one_too_many = (record { qpsdelay = 501_000_000; split = 1; batch = 1 }, refl, refl)
