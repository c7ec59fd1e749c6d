-- ===== src/TcpEngine/Hosts/Locals/Limit.antt =====
-- The list that `addressParse` returns, and the limit that it leaves.
use wander.Base.{
  ℕ, ◌+◌, ◌-◌, ◌^◌, ◌≤◌, ◌<◌, ◌≡◌, ap, ◌∙◌, Bool, true, List, [], arith, ltb, ◌==◌, if◌then◌else◌,
  length, length-take, take, Bool-cases, inl, inr, ◌⊎◌,
}
use wander.Base.Bytes.{Bytes}
use wander.Base.Int.{ℤ, pos, ltb_ℤ, int64, ◌+ℤ◌, ◌-ℤ◌}
use wander.TcpEngine.Hosts.Locals.{Found, max_addr, reduced, host_loop, address_parse, usable}
use wander.TcpEngine.Hosts.Locals.Scan.{host_loop-first_of}

module _ (resolves : Bytes → Bool) where
  -- The bound on the number of addresses for a limit of `max`.
  abbrev pub max_addresses : ℕ → ℕ
  max_addresses max = if max == 0 then 2 ^ 63 - 1 else max + max

  max_addr_lem : (max : ℕ) → max < 2 ^ 62 → max_addr (pos max) ≡ pos (max_addresses max)
  unfolding int64 ◌+ℤ◌
  max_addr_lem max h = ground arith

  address_parse_lem :
      (hosts : List Bytes) (max : ℕ)
      → max < 2 ^ 62
      → address_parse resolves hosts (pos max) ≡ (
          let found = take (max_addresses max) (usable resolves hosts) in
          (found, reduced (pos max) (length found)))
  address_parse_lem hosts max h =
      unfold address_parse in
      ap (λ (st : Found). (st.0, reduced (pos max) (length (st.0))))
        (ap (λ m. host_loop resolves hosts m ([], 0)) (max_addr_lem max h)
          ∙ host_loop-first_of resolves hosts (max_addresses max) [] (ground arith))

  -- The list is made of the first `2 * max` addresses of the hosts, in the order of the hosts and,
  -- from 8535 on, of their ports, leaving out those that do not resolve; without a limit it has all
  -- of them, as far as an int64 counts.
  pub address_parse-take :
      (hosts : List Bytes) (max : ℕ)
      → max < 2 ^ 62
      → (address_parse resolves hosts (pos max)).0
        ≡ take (max_addresses max) (usable resolves hosts)
  address_parse-take hosts max h = ap (λ (r : List Bytes × ℤ). r.0) (address_parse_lem hosts max h)

  -- Where the new limit is right: it is the old one if the addresses are enough, and else no more
  -- than there are addresses.
  abbrev pub IsReduced : ℕ → ℕ → ℤ → Type 0
  IsReduced max count new =
      ((max ≤ count) × (new ≡ pos max)) ⊎ ((m : ℕ) × (new ≡ pos m) × (count < max) × (m ≤ count))

  reduced_lem :
      (max count : ℕ)
      → (max ≤ 10000) ⊎ (500 ≤ count)
      → IsReduced max count (reduced (pos max) count)
  unfolding ◌-ℤ◌
  reduced_lem max count h = elim (Bool-cases (ltb count max)) [
    | inr ge ↦ inl (ground arith, ground arith)
    | inl lt ↦ elim (Bool-cases (ltb 10000 max)) [
      | inl big ↦ inr (count - 500, ground arith, ground arith, omega arith)
      | inr small ↦ inr (count, ground arith, ground arith, omega arith)
    ]
  ]

  -- The limit on connections stays as it is if there are so many addresses, and is otherwise reduced
  -- to at most their number, provided that it was at most 10000 or 500 addresses resolve.
  pub address_parse-IsReduced :
      (hosts : List Bytes) (max : ℕ)
      → max < 2 ^ 62
      → (max ≤ 10000) ⊎ (500 ≤ length (usable resolves hosts))
      → let (found, new) = address_parse resolves hosts (pos max) in
        IsReduced max (length found) new
  address_parse-IsReduced hosts max h enough =
      rw (address_parse_lem hosts max h) (
        reduced_lem max _ (ground (arith, length-take (max_addresses max) (usable resolves hosts))))

  -- With a limit above 10000 and less than 500 addresses that resolve the new limit is negative, which the
  -- connectors take for no limit at all.
  pub address_parse_negative :
      (hosts : List Bytes) (max : ℕ)
      → max < 2 ^ 62
      → 10000 < max
      → length (usable resolves hosts) < 500
      → ltb_ℤ (address_parse resolves hosts (pos max)).1 (pos 0) ≡ true
  address_parse_negative hosts max h big few =
      rw (address_parse_lem hosts max h)
        (negative _ (ground (arith, length-take (max_addresses max) (usable resolves hosts))))
    where
      negative : (count : ℕ) → count < 500 → ltb_ℤ (reduced (pos max) count) (pos 0) ≡ true
      negative count lt = unfold ◌-ℤ◌ in ground arith
