-- ===== src/TcpEngine/Hosts/Locals.antt =====
-- `addressParse` of tcpengine/tcpengine.go: the local addresses of the connectors, and the limit on
-- connections that they allow.
pub mod Scan
pub mod Limit
use wander.Base.{
  ℕ, zero, suc, ◌+◌, ◌-◌, ◌^◌, ◌≤◌, ◌<◌, ◌≡◌, refl, sym, ap, ◌∙◌, Bool, true, false, List, [], ◌∷◌,
  ◌++◌, append_assoc, append-nil, Option, arith, ltb, ◌==◌, if◌then◌else◌, length, length-append,
  length-take, take, take_all, take-append_le, Bool-cases, inl, inr, ◌⊎◌,
}
use wander.Base.Bytes.{Bytes, codes}
use wander.Base.Int.{ℤ, pos, ltb_ℤ, eqb_ℤ, int64, ◌+ℤ◌, ◌-ℤ◌}
use wander.Base.Decimal.{itoa}
use wander.TcpEngine.Hosts.{resolve_host_list}

-- The host list, or its default.
unfoldable pub local_hosts : ℕ → Bytes → Option (List Bytes)
local_hosts fuel [] = resolve_host_list fuel (codes "0.0.0.0")
local_hosts fuel (c ∷ s) = resolve_host_list fuel (c ∷ s)

abbrev pub first_port : ℕ
first_port = 8535

-- From `first_port` to 65535.
abbrev pub port_count : ℕ
port_count = 57001

abbrev pub address : Bytes → ℕ → Bytes
address ip lport = ip ++ b':' ∷ itoa lport

-- `laddrcnt >= maxaddr`
abbrev pub is_full : ℤ → ℕ → Bool
is_full maxaddr cnt = if ltb_ℤ (pos cnt) maxaddr then false else true

-- `laddrList` and `laddrcnt`.
abbrev pub Found : Type 0
Found = List Bytes × ℕ

abbrev pub max_addr : ℤ → ℤ
max_addr max = if eqb_ℤ max (pos 0) then pos (2 ^ 63 - 1) else int64 (max +ℤ max)

-- The limit behind the loops.
abbrev pub reduced : ℤ → ℕ → ℤ
reduced max cnt =
    if ltb_ℤ (pos cnt) max
    then (if ltb_ℤ (pos 10000) max then pos cnt -ℤ pos 500 else pos cnt)
    else max

-- Whether `net.ResolveTCPAddr` takes an address is an argument.
module _ (resolves : Bytes → Bool) where
  -- The loop over `left` ports.
  unfoldable pub port_loop : ℕ → Bytes → ℕ → ℤ → Found → Found
  port_loop zero ip lport maxaddr (found, cnt) = (found, cnt)
  port_loop (suc left) ip lport maxaddr (found, cnt) =
      let laddr = address ip lport in
      let skipped = port_loop left ip (lport + 1) maxaddr (found, cnt) in
      let added : Found = (found ++ laddr ∷ [], cnt + 1) in
      let more = port_loop left ip (lport + 1) maxaddr added in
      if resolves laddr then if is_full maxaddr (cnt + 1) then added else more else skipped

  -- The loop over the hosts, in whichever order the map yields them.
  unfoldable pub host_loop : List Bytes → ℤ → Found → Found
  host_loop [] maxaddr st = st
  host_loop (ip ∷ ips) maxaddr st =
      let st' = port_loop port_count ip first_port maxaddr st in
      let more = host_loop ips maxaddr st' in if is_full maxaddr st'.1 then st' else more

  -- The list, and the new `maxConcurrent`.
  unfoldable pub address_parse : List Bytes → ℤ → List Bytes × ℤ
  unfolding host_loop ◌+ℤ◌ ◌-ℤ◌
  address_parse hosts max =
      let found = (host_loop hosts (max_addr max) ([], 0)).0 in (found, reduced max (length found))

  -- The addresses of the hosts that resolve.
  unfoldable pub usable_ports : ℕ → Bytes → ℕ → List Bytes
  usable_ports zero ip lport = []
  usable_ports (suc left) ip lport =
      let rest = usable_ports left ip (lport + 1) in
      if resolves (address ip lport) then address ip lport ∷ rest else rest

  unfoldable pub usable : List Bytes → List Bytes
  usable [] = []
  usable (ip ∷ ips) = usable_ports port_count ip first_port ++ usable ips
