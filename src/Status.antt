-- ===== src/Status.antt =====
-- `status` of src/panel/panel.py, with `service_state` and `active_exit_mode`.
pub mod Shown
pub mod Tests
use web_zapret.Base.{
  ℕ, Bool, true, false, not, ◌&&◌, List, [], ◌∷◌, map, all, leb, Option, none, some, Result, ok,
  ◌>>=◌, if◌then◌else◌,
}
use web_zapret.Text.{Text, codes}
use web_zapret.Text.Decimal.{read}
use web_zapret.Dict.{get_or}
use web_zapret.Value.{Value, null, str, list, nil, Dict, or_else}
use web_zapret.Deletion.{strategies_of, active_strategy}
use web_zapret.Registry.{find}
use web_zapret.Traffic.{Traffic, Source, get_traffic_stats}
use web_zapret.Devices.{Devices, Ports, connected_devices}
use web_zapret.PublicHost.{Cache, Call, Reply, is_empty, detect_public_host}
use web_zapret.ServerUri.{Server, ss_uri}

-- `SERVICES`
abbrev services : List Text
services =
    codes "ss-server"
    ∷ codes "sockd"
    ∷ codes "nfqws"
    ∷ codes "redsocks"
    ∷ codes "ss-local"
    ∷ codes "udprelay"
    ∷ []

-- What the panel reads for its status. A state file is its stripped text, none if it cannot be read.
pub record Machine : Type 0 where
  pub strategy_file : Option Text
  pub exit_mode_file : Option Text
  -- the catalog file's dictionary
  pub catalog : Dict
  -- the stripped text of a service's pid file, empty if it cannot be read
  pub pid_file : Text → Text
  -- `os.kill(pid, 0)` succeeds
  pub lives : ℕ → Bool
  pub tcp : Option Text
  pub tcp6 : Option Text
  pub ports : Ports
  pub counters : Source
  pub server : Server
  -- PUBLIC_HOST, the ticks of a second, and what `detect_public_host` meets
  pub public_host : Text
  pub unit : ℕ
  pub detection : Call

pub record ServiceState : Type 0 where
  pub name : Text
  pub is_running : Bool
  pub pid : Text

pub record Status : Type 0 where
  pub exit_mode : Text
  pub strategy_id : Text
  pub strategy_name : Value
  pub nfqws_opt : Value
  pub lua_init : Value
  pub services : List ServiceState
  pub devices : Devices
  pub traffic : Traffic
  pub host : Reply
  pub uri : Text

-- `state_get(key, default)`
state_or : Text → Option Text → Text
state_or default none = default
state_or default (some t) = t

-- `pid.isdigit()` of a pid that is not empty, in ASCII
are_digits : Text → Bool
are_digits s = not (is_empty s) && all (λ c. leb b'0' c && leb c b'9') s

-- `service_state(name)` of the text of the pid file
state_of : (ℕ → Bool) → Text → Text → ServiceState
unfolding are_digits read
state_of lives name pid =
    if are_digits pid
    then record { name = name; is_running = lives (read 0 pid); pid = pid }
    else record { name = name; is_running = false; pid = [] }

-- The first strategy with the id, or an empty dictionary.
entry_of : Option Dict → Dict
entry_of none = []
entry_of (some d) = d

-- `ss_uri(host) if host else ""`
uri_of : Server → Text → Text
uri_of server host = if is_empty host then [] else ss_uri server host

pub shown : Machine → Text → Dict → Reply → Traffic → Status
unfolding state_of state_or uri_of
shown m strat entry host traffic = record {
  exit_mode = state_or (codes "direct") m.exit_mode_file;
  strategy_id = strat;
  strategy_name = get_or (codes "name") (str strat) entry;
  nfqws_opt =
      or_else (get_or (codes "lua_opt") null entry) (get_or (codes "nfqws_opt") (str []) entry);
  lua_init = get_or (codes "lua_init") (list nil) entry;
  services = map (λ name. state_of m.lives name (m.pid_file name)) services;
  devices = connected_devices m.ports m.tcp m.tcp6;
  traffic = traffic;
  host = host;
  uri = uri_of m.server host.0;
}

-- `status()`, but for the time that the panel has run: the status, and the cache of the public address.
unfoldable pub status : Machine → Cache → Result (Status × Cache)
unfolding state_or entry_of shown
status m cache = do
  ds ← strategies_of m.catalog
  let strat = active_strategy (state_or (codes "standard") m.strategy_file) ds
  let (host, next) = detect_public_host m.public_host m.unit cache m.detection
  traffic ← get_traffic_stats m.counters
  ok (shown m strat (entry_of (find strat ds)) host traffic, next)
