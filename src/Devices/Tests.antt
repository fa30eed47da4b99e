-- ===== src/Devices/Tests.antt =====
-- A table with two connections of one client, and one that is not established.
use web_zapret.Base.{
  ℕ, ◌≡◌, refl, List, [], ◌∷◌, ◌++◌, none, some, pos, ◌-◌, ◌*◌, ◌+◌, ltb, if◌then◌else◌, sort_onto,
}
use web_zapret.Text.{Text, codes, text_methods, has_char, before_text}
use web_zapret.Text.Decimal.{decimal}
use web_zapret.Logs.{splitlines, drop}
use web_zapret.Devices.{Ports, Sets, dec, distinct, connected_devices}
use web_zapret.Devices.Listed.{IsListing, connected_devices-IsListing}

-- `int(text, 16)` of upper-case digits
abbrev pub hex_from : ℕ → Text → ℕ
hex_from n [] = n
hex_from n (c ∷ s) = hex_from (16 * n + (if ltb c 58 then c - 48 else c - 55)) s

abbrev pub ports : Ports
ports = record { ss_port = pos 8388; socks_port = pos 1080; hex = λ t. some (pos (hex_from 0 t)) }

abbrev pub table : Text
table =
    codes "sl local rem st"
    ++ 10 ∷ codes "0: 00000000:20C4 0A01A8C0:D431 01"
    ++ 10 ∷ codes "1: 00000000:0438 0A01A8C0:D432 01"
    ++ 10 ∷ codes "2: 00000000:0438 0B01A8C0:D432 06"

devices_test : connected_devices ports (some table) none ≡ record {
  count = 1;
  per_service = (codes "sockd", 1) ∷ (codes "ss-server", 1) ∷ [];
  ips = codes "192.168.1.10" ∷ [];
}
unfolding connected_devices text_methods splitlines drop has_char sort_onto distinct decimal
    before_text dec
devices_test = refl

connected_devices-IsListing_example :
    (ips : List Text) × (s : Sets) × IsListing ports
      (some table)
      none
      (connected_devices ports (some table) none)
      ips
      s
connected_devices-IsListing_example = connected_devices-IsListing ports (some table) none
