-- ===== src/TcpEngine/Hosts/Locals/Scan.antt =====
-- What the loops of `addressParse` find.
use wander.Base.{
  ℕ, zero, suc, ◌+◌, ◌≤◌, ◌<◌, ◌≡◌, refl, sym, ap, ◌∙◌, Bool, true, false, List, [], ◌∷◌, ◌++◌,
  append_assoc, append-nil, arith, ltb, length, length-append, length-take, take, take_all,
  take-append_le, Bool-cases, inl, inr,
}
use wander.Base.Bytes.{Bytes}
use wander.Base.Int.{ℤ, pos}
use wander.TcpEngine.Hosts.Locals.{
  first_port, port_count, address, is_full, Found, port_loop, host_loop, usable_ports, usable,
}

module _ (resolves : Bytes → Bool) where
  -- The first `limit` of a list, with their number.
  abbrev pub first_of : ℕ → List Bytes → Found
  first_of limit xs = (take limit xs, length (take limit xs))

  module _ (left : ℕ) (ip : Bytes) (lport limit : ℕ) (found : List Bytes) (cnt : ℕ) where
    port_loop_skip :
        resolves (address ip lport) ≡ false
        → port_loop resolves (suc left) ip lport (pos limit) (found, cnt)
          ≡ port_loop resolves left ip (lport + 1) (pos limit) (found, cnt)
    unfolding port_loop
    port_loop_skip e = rw e refl

    port_loop_full :
        resolves (address ip lport) ≡ true
        → limit ≤ cnt + 1
        → port_loop resolves (suc left) ip lport (pos limit) (found, cnt)
          ≡ (found ++ address ip lport ∷ [], cnt + 1)
    unfolding port_loop
    port_loop_full e h = rw e (ground arith)

    port_loop_more :
        resolves (address ip lport) ≡ true
        → cnt + 1 < limit
        → port_loop resolves (suc left) ip lport (pos limit) (found, cnt)
          ≡ port_loop resolves left ip
              (lport + 1)
              (pos limit)
              (found ++ address ip lport ∷ [], cnt + 1)
    unfolding port_loop
    port_loop_more e h = rw e (ground arith)

  usable_ports_yes :
      (left : ℕ) (ip : Bytes) (lport : ℕ)
      → resolves (address ip lport) ≡ true
      → usable_ports resolves (suc left) ip lport
        ≡ address ip lport ∷ usable_ports resolves left ip (lport + 1)
  unfolding usable_ports
  usable_ports_yes left ip lport e = rw e refl

  usable_ports_no :
      (left : ℕ) (ip : Bytes) (lport : ℕ)
      → resolves (address ip lport) ≡ false
      → usable_ports resolves (suc left) ip lport ≡ usable_ports resolves left ip (lport + 1)
  unfolding usable_ports
  usable_ports_no left ip lport e = rw e refl

  -- A full list is all that is kept.
  first_of_full :
      (limit : ℕ) (found rest : List Bytes) (a : Bytes)
      → length found < limit
      → limit ≤ length found + 1
      → first_of limit (found ++ a ∷ rest) ≡ (found ++ a ∷ [], length found + 1)
  first_of_full limit found rest a h k =
      let longer = length-append found (a ∷ []) in
      ap (λ xs. (xs, length xs))
        (ap (take limit) (sym (append_assoc found (a ∷ []) rest))
          ∙ take-append_le limit (found ++ a ∷ []) rest (omega (arith, longer))
          ∙ take_all limit (found ++ a ∷ []) (omega (arith, longer)))
      ∙ ap (λ n. (found ++ a ∷ [], n)) longer

  port_loop-first_of :
      (left : ℕ) (ip : Bytes) (lport limit : ℕ) (found : List Bytes)
      → length found < limit
      → port_loop resolves left ip lport (pos limit) (found, length found)
        ≡ first_of limit (found ++ usable_ports resolves left ip lport)
  port_loop-first_of zero ip lport limit found h =
      unfold port_loop usable_ports in
      rw (append-nil found, take_all limit found (omega arith)) refl
  port_loop-first_of (suc left) ip lport limit found h =
      let a = address ip lport in
      let rest = usable_ports resolves left ip (lport + 1) in
      let longer = length-append found (a ∷ []) in
      elim (Bool-cases (resolves a)) [
        | inr e ↦
            port_loop_skip left ip lport limit found (length found) e
            ∙ port_loop-first_of left ip (lport + 1) limit found h
            ∙ ap (λ xs. first_of limit (found ++ xs)) (sym (usable_ports_no left ip lport e))
        | inl e ↦
            elim (Bool-cases (ltb (length found + 1) limit)) [
              | inl lt ↦
                  port_loop_more left ip lport limit found (length found) e (ground arith)
                  ∙ ap
                      (λ n. port_loop resolves left ip (lport + 1) (pos limit) (found ++ a ∷ [], n))
                      (sym longer)
                  ∙ port_loop-first_of left ip (lport + 1) limit (found ++ a ∷ [])
                      (ground (arith, longer))
                  ∙ ap (first_of limit) (append_assoc found (a ∷ []) rest)
              | inr ge ↦
                  port_loop_full left ip lport limit found (length found) e (ground arith)
                  ∙ sym (first_of_full limit found rest a h (ground arith))
            ]
            ∙ ap (λ xs. first_of limit (found ++ xs)) (sym (usable_ports_yes left ip lport e))
      ]

  module _ (ip : Bytes) (ips : List Bytes) (maxaddr : ℤ) (st st' : Found) where
    host_loop_stop :
        port_loop resolves port_count ip first_port maxaddr st ≡ st'
        → is_full maxaddr st'.1 ≡ true
        → host_loop resolves (ip ∷ ips) maxaddr st ≡ st'
    unfolding host_loop
    host_loop_stop e h = rw (e, h) refl

    host_loop_more :
        port_loop resolves port_count ip first_port maxaddr st ≡ st'
        → is_full maxaddr st'.1 ≡ false
        → host_loop resolves (ip ∷ ips) maxaddr st ≡ host_loop resolves ips maxaddr st'
    unfolding host_loop
    host_loop_more e h = rw (e, h) refl

  full_of_ge : (limit n : ℕ) → limit ≤ n → is_full (pos limit) n ≡ true
  full_of_ge limit n h = ground arith

  full_of_lt : (limit n : ℕ) → n < limit → is_full (pos limit) n ≡ false
  full_of_lt limit n h = ground arith

  first_of_all :
      (limit : ℕ) (xs : List Bytes) → length xs ≤ limit → first_of limit xs ≡ (xs, length xs)
  first_of_all limit xs h = ap (λ ys. (ys, length ys)) (take_all limit xs h)

  pub host_loop-first_of :
      (ips : List Bytes) (limit : ℕ) (found : List Bytes)
      → length found < limit
      → host_loop resolves ips (pos limit) (found, length found)
        ≡ first_of limit (found ++ usable resolves ips)
  host_loop-first_of [] limit found h =
      unfold host_loop usable in rw (append-nil found, take_all limit found (omega arith)) refl
  host_loop-first_of (ip ∷ ips) limit found h =
      let ports = usable_ports resolves port_count ip first_port in
      let here = found ++ ports in
      let scanned = port_loop-first_of port_count ip first_port limit found h in
      elim (Bool-cases (ltb (length here) limit)) [
        | inl lt ↦
            host_loop_more ip ips (pos limit) (found, length found) (here, length here)
              (scanned ∙ first_of_all limit here (ground arith))
              (full_of_lt limit (length here) (ground arith))
            ∙ host_loop-first_of ips limit here (ground arith)
        | inr ge ↦
            host_loop_stop ip ips (pos limit) (found, length found) (first_of limit here) scanned
              (full_of_ge limit (length (take limit here)) (ground (arith, length-take limit here)))
            ∙ ap (λ xs. (xs, length xs))
                (sym (take-append_le limit here (usable resolves ips) (ground arith)))
      ]
      ∙ ap (first_of limit) (append_assoc found ports (usable resolves ips))
      ∙ ap (λ xs. first_of limit (found ++ xs)) (sym (usable_cons ip ips))
    where
      usable_cons :
          (i : Bytes) (is : List Bytes)
          → usable resolves (i ∷ is)
            ≡ usable_ports resolves port_count i first_port ++ usable resolves is
      usable_cons i is = unfold usable in refl
