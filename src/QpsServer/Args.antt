-- ===== src/QpsServer/Args.antt =====
-- `commandArgsParser`: the settings of the server. What `optargex.Parse` gives for the command line
-- is a list of options; that package is not part of this repository.
use Prim.Native.String.{String}
use text.Mathlib.Text.{◌==◌ as str_eq}
use wander.Base.{
  ℕ, ◌-◌, ◌≡◌, refl, Bool, false, ◌||◌, List, [], ◌∷◌, arith, ltb, ◌==◌, if◌then◌else◌, Option,
  none, some,
}
use wander.Base.Bytes.{Bytes, codes}
use wander.Base.Int.{ℤ, pos, negsuc, ◌≤ℤ◌, ltb_ℤ}
use wander.QpsServer.Listen.{net_listen_string_format}

-- The variables `srv_cfg_…`.
pub record Settings : Type 0 where
  pub listen : Bytes
  pub max_connections : ℤ
  pub use_cpu_num : ℤ
  pub net_timeout : ℤ
  pub net_keepalive_timeout : ℤ
  pub qps_interval : ℤ
  pub read_delay : ℤ
  pub write_delay : ℤ
  pub mode : Bytes
  pub show_help : Bool
  pub show_version : Bool
  pub debug_level : ℤ

unfoldable pub default_settings : Settings
default_settings = record {
  listen = codes "0.0.0.0:8080";
  max_connections = pos 10240;
  use_cpu_num = pos 0;
  net_timeout = pos 15;
  net_keepalive_timeout = pos 5;
  qps_interval = pos 5;
  read_delay = negsuc 0;
  write_delay = negsuc 0;
  mode = codes "keepalive";
  show_help = false;
  show_version = false;
  debug_level = pos 0;
}

-- An option, with what `opt.Bool()`, `opt.Int()` and `opt.String()` give.
pub record Opt : Type 0 where
  pub short_name : String
  pub name : String
  pub bool : Bool
  pub int : ℤ
  pub string : Bytes

-- The variable that an option sets.
pub data Field : Type 0 where
  version : Field
  help : Field
  listen : Field
  mode : Field
  connections : Field
  cpus : Field
  debug_level : Field
  timeout : Field
  keepalive : Field
  read_delay : Field
  write_delay : Field
  qps_interval : Field

abbrev find : String → List (String × Field) → Option Field
find key [] = none
find key ((k, f) ∷ rest) = if str_eq key k then some f else find key rest

-- The cases of the two switches.
abbrev pub short_names : List (String × Field)
short_names =
    ("v", version)
    ∷ ("h", help)
    ∷ ("l", listen)
    ∷ ("m", mode)
    ∷ ("c", connections)
    ∷ ("C", cpus)
    ∷ ("d", debug_level)
    ∷ ("t", timeout)
    ∷ ("k", keepalive)
    ∷ ("R", read_delay)
    ∷ ("W", write_delay)
    ∷ ("q", qps_interval)
    ∷ []

abbrev pub long_names : List (String × Field)
long_names =
    ("version", version)
    ∷ ("help", help)
    ∷ ("listen", listen)
    ∷ ("mode", mode)
    ∷ ("connections", connections)
    ∷ ("cpus", cpus)
    ∷ ("debug-level", debug_level)
    ∷ ("timeout", timeout)
    ∷ ("keepalive", keepalive)
    ∷ ("read-delay", read_delay)
    ∷ ("write-delay", write_delay)
    ∷ ("qps-interval", qps_interval)
    ∷ []

abbrev set_field : Option Field → Opt → Settings → Settings
set_field none o s = s
set_field (some version) o s = record s { show_version = o.bool }
set_field (some help) o s = record s { show_help = o.bool }
set_field (some listen) o s = record s { listen = o.string }
set_field (some mode) o s = record s { mode = o.string }
set_field (some connections) o s = record s { max_connections = o.int }
set_field (some cpus) o s = record s { use_cpu_num = o.int }
set_field (some debug_level) o s = record s { debug_level = o.int }
set_field (some timeout) o s = record s { net_timeout = o.int }
set_field (some keepalive) o s = record s { net_keepalive_timeout = o.int }
set_field (some read_delay) o s = record s { read_delay = o.int }
set_field (some write_delay) o s = record s { write_delay = o.int }
set_field (some qps_interval) o s = record s { qps_interval = o.int }

-- The body of the loop: both switches.
unfoldable pub apply_opt : Opt → Settings → Settings
apply_opt o s = set_field (find o.name long_names) o (set_field (find o.short_name short_names) o s)

unfoldable pub apply_opts : List Opt → Settings → Settings
apply_opts [] s = s
apply_opts (o ∷ opts) s = apply_opts opts (apply_opt o s)

abbrev at_least : ℕ → ℤ → ℤ
at_least n a = if ltb_ℤ a (pos n) then pos n else a

-- The checks behind the loop; `none` is an exit.
unfoldable pub check_settings : Settings → Option Settings
check_settings s =
    if ltb_ℤ s.max_connections (pos 1) || s.show_version || s.show_help
    then none
    else some (record s {
      debug_level = at_least 0 s.debug_level;
      net_keepalive_timeout = at_least 1 s.net_keepalive_timeout;
      net_timeout = at_least 1 s.net_timeout;
    })

-- The call of `runtime.GOMAXPROCS`, if there is one, on a machine with `num_cpu` processors.
unfoldable pub max_procs : ℕ → ℤ → Option ℤ
max_procs num_cpu asked =
    if ltb 1 num_cpu
    then some (
        if ltb_ℤ asked (pos 0) || num_cpu == 2
        then pos num_cpu
        else if ltb_ℤ asked (pos 2)
        then pos (num_cpu - 1)
        else if ltb_ℤ (pos num_cpu) asked
        then pos num_cpu
        else asked)
    else none

abbrev with_listen : Settings → Option Bytes → Option Settings
with_listen s none = none
with_listen s (some address) = some (record s { listen = address })

abbrev checked_listen : Option Settings → Option Settings
checked_listen none = none
checked_listen (some s) = with_listen s (net_listen_string_format s.listen)

-- `none` is an exit.
unfoldable pub command_args_parser : List Opt → Option Settings
command_args_parser opts = checked_listen (check_settings (apply_opts opts default_settings))

-- The settings with which the server starts are sound.
pub record IsSound (s : Settings) : Type 0 where
  pub debug : pos 0 ≤ℤ s.debug_level
  pub keepalive_limit : pos 1 ≤ℤ s.net_keepalive_timeout
  pub timeout_limit : pos 1 ≤ℤ s.net_timeout
  pub connection_limit : pos 1 ≤ℤ s.max_connections

check_settings-IsSound : (s t : Settings) → check_settings s ≡ some t → IsSound t
unfolding check_settings
check_settings-IsSound s t e = ground arith

with_listen-IsSound :
    (s t : Settings) (a : Option Bytes) → with_listen s a ≡ some t → IsSound s → IsSound t
with_listen-IsSound s t none e k = absurd (ground arith)
with_listen-IsSound s t (some a) e k = ground arith

checked_listen-IsSound :
    (o : Option Settings) (t : Settings)
    → ((s : Settings) → o ≡ some s → IsSound s)
    → checked_listen o ≡ some t
    → IsSound t
checked_listen-IsSound none t h e = absurd (ground arith)
checked_listen-IsSound (some s) t h e =
    with_listen-IsSound s t (net_listen_string_format s.listen) e (h s refl)

-- With any options, the program exits or goes on with a limit of connections and two time-outs of
-- at least 1 and a debug level of at least 0.
pub command_args_parser-IsSound :
    (opts : List Opt) (t : Settings) → command_args_parser opts ≡ some t → IsSound t
unfolding command_args_parser
command_args_parser-IsSound opts t e =
    checked_listen-IsSound (check_settings (apply_opts opts default_settings)) t
      (check_settings-IsSound (apply_opts opts default_settings)) e

-- On more than one processor the number of threads is set, to at least 1 and at most the number of
-- processors; and to the number that was asked for, if that is from 2 to the number of processors
-- and there are not just two.
pub max_procs_bounds :
    (num_cpu : ℕ) (asked p : ℤ)
    → max_procs num_cpu asked ≡ some p
    → (pos 1 ≤ℤ p)
      × (p ≤ℤ pos num_cpu)
      × ((num_cpu == 2) ≡ false → pos 2 ≤ℤ asked → asked ≤ℤ pos num_cpu → p ≡ asked)
unfolding max_procs
max_procs_bounds num_cpu asked p e = (ground arith, ground arith, λ h k l. ground arith)
