-- ===== src/TcpEngine/Options.antt =====
-- `NewCmdConfig` of tcpengine/tcpengine.go: the defaults of the options, and what is checked when
-- `flag.Parse` has read them. The two lists of signals are numbers.
use wander.Base.{
  ℕ, ◌≡◌, refl, Bool, true, false, ◌||◌, List, [], ◌∷◌, Option, none, some, if◌then◌else◌,
}
use wander.Base.Bytes.{Bytes, codes}
use wander.Base.Int.{ℤ, pos, negsuc, ltb_ℤ}

pub record CmdConfig : Type 0 where
  pub hostport : Bytes
  pub showhelp : Bool
  pub listen_mode : Bool
  pub mono_mode : Bool
  pub noworkload : Bool
  pub exitmax : Bool
  pub nomap : Bool
  pub twoway : Bool
  pub gctest : Bool
  pub cpus : ℤ
  pub qps_limit : ℤ
  pub duration : ℤ
  pub interval : ℤ
  pub max_concurrent : ℤ
  pub laddrlist : Bytes
  pub profile : Bool
  pub httpprofile : Bytes
  pub notifys : List ℕ
  pub exits : List ℕ

-- The options when none is given.
unfoldable pub default_config : List ℕ → List ℕ → CmdConfig
default_config notifys exits = record {
  hostport = codes "127.0.0.1:5180";
  showhelp = false;
  listen_mode = false;
  mono_mode = false;
  noworkload = false;
  exitmax = false;
  nomap = false;
  twoway = false;
  gctest = false;
  cpus = pos 0;
  qps_limit = pos 0;
  duration = pos 0;
  interval = pos 0;
  max_concurrent = pos 0;
  laddrlist = codes "127.0.0.10-180";
  profile = false;
  httpprofile = [];
  notifys = notifys;
  exits = exits;
}

abbrev is_empty : Bytes → Bool
is_empty [] = true
is_empty (c ∷ s) = false

-- A negative number is 0.
abbrev not_negative : ℤ → ℤ
not_negative a = if ltb_ℤ a (pos 0) then pos 0 else a

-- Behind `flag.Parse`; `none` is the exit with the list of the options.
unfoldable pub check_config : CmdConfig → Option CmdConfig
check_config conf =
    if is_empty conf.hostport || conf.showhelp
    then none
    else some (record conf {
      max_concurrent = not_negative conf.max_concurrent;
      qps_limit = not_negative conf.qps_limit;
    })

options_run :
    (check_config (default_config [] []) ≡ some (default_config [] []))
    × (check_config (record (default_config [] []) { max_concurrent = negsuc 4 })
        ≡ some (default_config [] []))
    × (check_config (record (default_config [] []) { hostport = [] }) ≡ none)
unfolding default_config check_config
options_run = (refl, refl, refl)
