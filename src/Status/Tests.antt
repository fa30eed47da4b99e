-- ===== src/Status/Tests.antt =====
-- The status of a panel with one strategy, whose counters can be read or not.
use web_zapret.Base.{◌≡◌, refl, [], ◌∷◌, none, some, ok, err, value_error, true}
use web_zapret.Text.{codes, text_methods}
use web_zapret.Dict.{lookup, get_or}
use web_zapret.Value.{str, list, dict, cons, nil, Dict, of_pairs, value_methods}
use web_zapret.Deletion.{strategies_of}
use web_zapret.Catalog.Stored.{dicts}
use web_zapret.Traffic.{get_traffic_stats}
use web_zapret.Traffic.Tests.{source}
use web_zapret.Devices.Tests.{ports, table}
use web_zapret.PublicHost.{no_cache}
use web_zapret.ServerUri.Tests.{server}
use web_zapret.Status.{Machine, status}
use web_zapret.Status.Shown.{IsAnswer, status-IsAnswer}

abbrev quic : Dict
quic = (codes "id", str (codes "quic")) ∷ (codes "nfqws_opt", str (codes "--filter-udp=443")) ∷ []

abbrev machine : Machine
machine = record {
  strategy_file = some (codes "quic");
  exit_mode_file = none;
  catalog = (codes "strategies", list (cons (dict (of_pairs quic)) nil)) ∷ [];
  pid_file = λ name. codes "17";
  lives = λ n. true;
  tcp = some table;
  tcp6 = none;
  ports = ports;
  counters = source;
  server = server;
  public_host = codes "gw.example.org";
  unit = 1;
  detection = record { now = 5; echoes = []; local_host = none };
}

catalog_test : strategies_of machine.catalog ≡ ok (quic ∷ [])
unfolding strategies_of dicts text_methods value_methods lookup get_or
catalog_test = refl

status-IsAnswer_example : IsAnswer machine (quic ∷ []) (status machine no_cache)
status-IsAnswer_example = status-IsAnswer machine no_cache (quic ∷ []) catalog_test

-- Nothing is counted, and the state files hold no number.
broken_test :
    status
      (record machine { counters = record source { listed_out = none; to_int = λ t. none } })
      no_cache
    ≡ err (value_error (codes "invalid literal for int()"))
unfolding status strategies_of dicts text_methods value_methods lookup get_or get_traffic_stats
broken_test = refl
