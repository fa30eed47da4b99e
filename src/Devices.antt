-- ===== src/Devices.antt =====
-- `connected_devices` of src/panel/panel.py. The two tables of connections are texts, none if they cannot
-- be read.
pub mod Distinct
pub mod Visits
pub mod Listed
pub mod Tests
use web_zapret.Base.{
  ℕ, Bool, true, false, not, ◌&&◌, List, [], ◌∷◌, ◌++◌, map, length, take, Option, none, some, ltb,
  ◌/◌, ◌%◌, ◌^◌, ◌==◌, if◌then◌else◌, ℤ, pos, negsuc, sort_onto,
}
use web_zapret.Text.{Text, codes, same, one_of, has_char, words, join, before_text}
use web_zapret.Text.Decimal.{decimal}
use web_zapret.Logs.{splitlines, drop}

pub data Service : Type 0 where
  ss_server sockd : Service

-- The ports that are listened on, and `int(text, 16)`, none where it raises.
pub record Ports : Type 0 where
  pub ss_port : ℤ
  pub socks_port : ℤ
  pub hex : Text → Option ℤ

-- The values of `per_service`, which are sets.
pub record Sets : Type 0 where
  pub ss_server_set : List Text
  pub sockd_set : List Text

pub record Devices : Type 0 where
  pub count : ℕ
  pub per_service : List (Text × ℕ)
  pub ips : List Text

is_port : ℤ → ℤ → Bool
is_port (pos p) (pos n) = not (p == 0) && p == n
is_port (negsuc p) (negsuc n) = p == n
is_port _ _ = false

-- `s.add(x)`
unfoldable pub add_new : Text → List Text → List Text
add_new x s = if one_of x s then s else x ∷ s

-- the set of the elements
unfoldable pub distinct : List Text → List Text
unfolding add_new
distinct [] = []
distinct (x ∷ xs) = add_new x (distinct xs)

-- `s.rsplit(":", 1)[0]`
before_last : Text → Text
before_last [] = []
before_last (a ∷ s) =
    let rest = before_last s in
    if has_char b':' s then a ∷ rest else if a == b':' then [] else a ∷ s

-- `s.rsplit(":", 1)[1]`, none where there is no such part
after_last : Text → Option Text
after_last [] = none
after_last (a ∷ s) =
    let rest = after_last s in if has_char b':' s then rest else if a == b':' then some s else none

-- The text of a number's four bytes, the lowest one first.
dotted : ℕ → Text
dotted n = join (codes ".") (
    decimal (n % 256)
    ∷ decimal (n / 256 % 256)
    ∷ decimal (n / 65536 % 256)
    ∷ decimal (n / 16777216 % 256)
    ∷ [])

-- `x or "(?)"`
or_unknown : Text → Text
or_unknown [] = codes "(?)"
or_unknown (c ∷ s) = c ∷ s

-- `struct.pack("<I", n)` takes 32 bits
address_of : Text → Option ℤ → Text
unfolding dotted
address_of x none = x
address_of x (some (pos n)) = if ltb n (2 ^ 32) then dotted n else x
address_of x (some (negsuc n)) = x

-- `f.read().splitlines()[1:]`
pub rows_of : Option Text → List Text
unfolding splitlines drop
rows_of none = []
rows_of (some table) = drop 1 (splitlines table)

module _ (p : Ports) where
  -- `dec(x)`
  pub dec : Text → Text
  unfolding address_of or_unknown
  dec x = if length x == 8 then address_of x (p.hex x) else or_unknown x

  -- `port_svc.get(lport)`; of two services with one port the later one is kept
  service_at : ℤ → Option Service
  unfolding is_port
  service_at n =
      if is_port p.socks_port n
      then some sockd
      else if is_port p.ss_port n
      then some ss_server
      else none

  service_of : Option ℤ → Option Service
  unfolding service_at
  service_of none = none
  service_of (some n) = service_at n

  port_of : Option Text → Option ℤ
  port_of none = none
  port_of (some t) = p.hex t

  with_remote : Text → Option Service → Option (Service × Text)
  unfolding before_last
  with_remote remote none = none
  with_remote remote (some svc) = some (svc, before_last remote)

  -- What a row adds, by its columns: the state 01 is ESTABLISHED.
  pub connection : List Text → Option (Service × Text)
  unfolding service_of port_of with_remote after_last
  connection (slot ∷ local ∷ remote ∷ state ∷ rest) =
      if same state (codes "01")
      then with_remote remote (service_of (port_of (after_last local)))
      else none
  connection _ = none

  add_connection : Sets → Option (Service × Text) → Sets
  unfolding add_new
  add_connection s none = s
  add_connection s (some (ss_server, x)) = record s { ss_server_set = add_new x s.ss_server_set }
  add_connection s (some (sockd, x)) = record s { sockd_set = add_new x s.sockd_set }

  -- The loop over the rows.
  pub add_rows : Sets → List Text → Sets
  unfolding add_connection connection
  add_rows s [] = s
  add_rows s (row ∷ rows) = add_rows (add_connection s (connection (words row))) rows

  -- The counts of the services that have a port, in the order of their names.
  pub counts_of : Sets → List (Text × ℕ)
  counts_of s =
      (if is_port p.socks_port p.socks_port then (codes "sockd", length s.sockd_set) ∷ [] else [])
      ++ (if is_port p.ss_port p.ss_port && not (is_port p.socks_port p.ss_port)
          then (codes "ss-server", length s.ss_server_set) ∷ []
          else [])

  ips_of : Sets → List Text
  unfolding sort_onto distinct
  ips_of s = sort_onto before_text [] (distinct (map dec (s.ss_server_set ++ s.sockd_set)))

  pub report : Sets → Devices
  unfolding counts_of ips_of
  report s =
      let ips = ips_of s in
      record { count = length ips; per_service = counts_of s; ips = take 64 ips }

  -- `connected_devices()`, of the tables of TCP over IPv4 and over IPv6
  unfoldable pub connected_devices : Option Text → Option Text → Devices
  unfolding add_rows rows_of report
  connected_devices tcp tcp6 = report (
      add_rows (add_rows (record { ss_server_set = []; sockd_set = [] }) (rows_of tcp))
        (rows_of tcp6))
