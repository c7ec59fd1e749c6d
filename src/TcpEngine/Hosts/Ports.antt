-- ===== src/TcpEngine/Hosts/Ports.antt =====
-- `ResolveHostPortList` of tcpengine/tcpengine.go.
use wander.Base.{
  ℕ, ◌≡◌, refl, ap, ◌∙◌, List, [], ◌∷◌, ◌++◌, map, append_assoc, Option, none, some, arith,
  All-append,
}
use wander.Base.Bytes.{Bytes, codes, Lacks}
use wander.Base.Int.{ℤ, pos}
use wander.Base.Decimal.{all_digits}
use wander.TcpEngine.Hosts.{last_cut, cut_scheme, lower_byte, atoi, entries, put, resolve_host_list}
use wander.TcpEngine.Hosts.Text.{
  last_cut-none, last_cut_at, cut_scheme-Lacks, IsLower, map-lower_byte,
}

-- A missing port is 80.
abbrev pub default_port : Bytes → Option (Bytes × Bytes) → Bytes
default_port val none = val ++ codes ":80"
default_port val (some (host, [])) = val ++ codes "80"
default_port val (some (host, c ∷ port)) = val

-- `iplist[val+tail] = val + tail` for each host.
unfoldable pub put_tailed : Bytes → List Bytes → List Bytes → List Bytes
put_tailed tail [] ks = ks
put_tailed tail (h ∷ hs) ks = put_tailed tail hs (put (h ++ tail) ks)

abbrev pub put_hosts : Bytes → Option (List Bytes) → List Bytes → Option (List Bytes)
put_hosts tail none ks = none
put_hosts tail (some hs) ks = some (put_tailed tail hs ks)

-- `if len(val) == 0 { val = "0.0.0.0" }`
abbrev pub any_host : Bytes → Bytes
any_host [] = codes "0.0.0.0"
any_host (c ∷ s) = c ∷ s

abbrev pub ported : ℕ → Bytes → Bytes → Option ℤ → List Bytes → Option (List Bytes)
ported fuel host port none ks = some ks
ported fuel host port (some n) ks =
    put_hosts (b':' ∷ port) (resolve_host_list fuel (any_host host)) ks

-- There is a ":" by now.
abbrev pub at_port : ℕ → Option (Bytes × Bytes) → List Bytes → Option (List Bytes)
at_port fuel none ks = some ks
at_port fuel (some (host, port)) ks = ported fuel host port (atoi port) ks

-- The body of the loop of `ResolveHostPortList`.
unfoldable pub resolve_port_entry : ℕ → Bytes → List Bytes → Option (List Bytes)
unfolding put_tailed
resolve_port_entry fuel entry ks =
    let val = cut_scheme (map lower_byte entry) in
    at_port fuel (last_cut b':' (default_port val (last_cut b':' val))) ks

unfoldable pub resolve_ports : ℕ → List Bytes → List Bytes → Option (List Bytes)
resolve_ports fuel [] ks = some ks
resolve_ports fuel (e ∷ es) ks = elim (resolve_port_entry fuel e ks) [
  | none ↦ none
  | some ks' ↦ resolve_ports fuel es ks'
]

unfoldable pub resolve_host_port_list : ℕ → Bytes → Option (List Bytes)
resolve_host_port_list fuel list = resolve_ports fuel (entries list) []

-- A text without capital letters and colons.
abbrev pub IsHost : Bytes → Type 0
IsHost host = IsLower host × Lacks b':' host

lower-append : (s t : Bytes) → IsLower s → IsLower t → map lower_byte (s ++ t) ≡ s ++ t
lower-append s t h k = map-lower_byte (s ++ t) (All-append (λ c. lower_byte c ≡ c) s t h k)

resolve_cut :
    (fuel : ℕ) (entry : Bytes) (ks : List Bytes)
    → map lower_byte entry ≡ entry
    → cut_scheme entry ≡ entry
    → resolve_port_entry fuel entry ks
      ≡ at_port fuel (last_cut b':' (default_port entry (last_cut b':' entry))) ks
unfolding resolve_port_entry
resolve_cut fuel entry ks h k =
    ap (λ v. at_port fuel (last_cut b':' (default_port v (last_cut b':' v))) ks)
      (ap cut_scheme h ∙ k)

-- A colon that no slash follows is no mark of a scheme.
cut_scheme_port :
    (host port : Bytes)
    → Lacks b':' host
    → Lacks b':' port
    → Lacks b'/' port
    → cut_scheme (host ++ b':' ∷ port) ≡ host ++ b':' ∷ port
unfolding cut_scheme
cut_scheme_port [] [] h k l = refl
cut_scheme_port [] (c ∷ []) h k l = ground (arith, cut_scheme-Lacks (c ∷ []) k)
cut_scheme_port [] (c ∷ d ∷ port) h k l = ground (arith, cut_scheme-Lacks (c ∷ d ∷ port) k)
cut_scheme_port (c ∷ host) port (hc, h) k l = ground (arith, cut_scheme_port host port h k l)

-- An entry `host:port` with a number as its port puts the hosts of `host` into the map, with the
-- port behind each; without a host it is the address of all interfaces.
pub resolve_port_entry_lem :
    (fuel : ℕ) (host port : Bytes) (n : ℤ) (ks : List Bytes)
    → IsHost host
    → IsHost port
    → Lacks b'/' port
    → atoi port ≡ some n
    → resolve_port_entry fuel (host ++ b':' ∷ port) ks
      ≡ put_hosts (b':' ∷ port) (resolve_host_list fuel (any_host host)) ks
resolve_port_entry_lem fuel host [] n ks h k slash e = absurd (unfold atoi in cc)
resolve_port_entry_lem fuel host (c ∷ port) n ks (lower, colon) (lower_port, no_colon) slash e =
    let cut = last_cut_at b':' host (c ∷ port) no_colon in
    resolve_cut fuel (host ++ b':' ∷ c ∷ port) ks
      (lower-append host (b':' ∷ c ∷ port) lower (refl, lower_port))
      (cut_scheme_port host (c ∷ port) colon no_colon slash)
    ∙ ap (λ x. at_port fuel (last_cut b':' (default_port (host ++ b':' ∷ c ∷ port) x)) ks) cut
    ∙ ap (λ x. at_port fuel x ks) cut
    ∙ ap (λ x. ported fuel host (c ∷ port) x ks) e

-- An entry without a port, or with an empty one, means port 80.
pub resolve_port_entry_default :
    (fuel : ℕ) (host : Bytes) (ks : List Bytes)
    → IsHost host
    → let on_80 = put_hosts (codes ":80") (resolve_host_list fuel (any_host host)) ks in
      (resolve_port_entry fuel host ks ≡ on_80)
      × (resolve_port_entry fuel (host ++ b':' ∷ []) ks ≡ on_80)
resolve_port_entry_default fuel host ks (lower, colon) = (
  resolve_cut fuel host ks (map-lower_byte host lower) (cut_scheme-Lacks host colon)
      ∙ ap (λ x. at_port fuel (last_cut b':' (default_port host x)) ks)
          (last_cut-none b':' host colon)
      ∙ on_80_of,
  resolve_cut fuel (host ++ b':' ∷ []) ks (lower-append host (b':' ∷ []) lower (refl, tt))
        (cut_scheme_port host [] colon tt tt)
      ∙ ap (λ x. at_port fuel (last_cut b':' (default_port (host ++ b':' ∷ []) x)) ks)
          (last_cut_at b':' host [] tt)
      ∙ ap (λ x. at_port fuel (last_cut b':' x) ks) (append_assoc host (b':' ∷ []) (codes "80"))
      ∙ on_80_of,
)
  where
    atoi_80 : atoi (codes "80") ≡ some (pos 80)
    atoi_80 = unfold atoi all_digits in refl

    on_80_of :
        at_port fuel (last_cut b':' (host ++ codes ":80")) ks
        ≡ put_hosts (codes ":80") (resolve_host_list fuel (any_host host)) ks
    on_80_of =
        ap (λ x. at_port fuel x ks) (last_cut_at b':' host (codes "80") ((cc), ((cc), tt)))
        ∙ ap (λ x. ported fuel host (codes "80") x ks) atoi_80
