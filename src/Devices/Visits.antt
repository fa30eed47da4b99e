-- ===== src/Devices/Visits.antt =====
-- What `connected_devices` counts for each of its services.
use web_zapret.Base.{◌≡◌, Bool, false, ◌||◌, List, [], ◌∷◌, any, Option, none, some, arith}
use web_zapret.Text.{Text, words}
use web_zapret.Devices.{
  Service, ss_server, sockd, Ports, Sets, connection, add_connection, add_rows,
}
use web_zapret.Devices.Distinct.{any-add_new, IsDistinct, add_new-IsDistinct}

abbrev pub set_of : Service → Sets → List Text
set_of ss_server s = s.ss_server_set
set_of sockd s = s.sockd_set

-- A connection to the service, whose address passes a test.
abbrev pub visits : Service → (Text → Bool) → Option (Service × Text) → Bool
visits svc g none = false
visits ss_server g (some (ss_server, x)) = g x
visits sockd g (some (sockd, x)) = g x
visits ss_server g (some (sockd, x)) = false
visits sockd g (some (ss_server, x)) = false

module _ (p : Ports) where
  any-add_connection :
      (svc : Service) (g : Text → Bool) (s : Sets) (c : Option (Service × Text))
      → any g (set_of svc (add_connection p s c)) ≡ (any g (set_of svc s) || visits svc g c)
  unfolding add_connection
  any-add_connection ss_server g s none = ground arith
  any-add_connection sockd g s none = ground arith
  any-add_connection ss_server g s (some (ss_server, x)) =
      ground (arith, any-add_new g x s.ss_server_set)
  any-add_connection ss_server g s (some (sockd, x)) = ground arith
  any-add_connection sockd g s (some (ss_server, x)) = ground arith
  any-add_connection sockd g s (some (sockd, x)) = ground (arith, any-add_new g x s.sockd_set)

  pub any-add_rows :
      (svc : Service) (g : Text → Bool) (s : Sets) (rows : List Text)
      → any g (set_of svc (add_rows p s rows))
        ≡ (any g (set_of svc s) || any (λ row. visits svc g (connection p (words row))) rows)
  unfolding add_rows
  any-add_rows svc g s [] = ground arith
  any-add_rows svc g s (row ∷ rows) =
      let c = connection p (words row) in
      ground (arith, any-add_rows svc g (add_connection p s c) rows, any-add_connection svc g s c)

  abbrev pub AreDistinct : Sets → Type 0
  AreDistinct s = IsDistinct s.ss_server_set × IsDistinct s.sockd_set

  add_connection-AreDistinct :
      (s : Sets) (c : Option (Service × Text)) → AreDistinct s → AreDistinct (add_connection p s c)
  unfolding add_connection
  add_connection-AreDistinct s none h = h
  add_connection-AreDistinct s (some (ss_server, x)) (h, k) =
      (add_new-IsDistinct x s.ss_server_set h, k)
  add_connection-AreDistinct s (some (sockd, x)) (h, k) = (h, add_new-IsDistinct x s.sockd_set k)

  pub add_rows-AreDistinct :
      (s : Sets) (rows : List Text) → AreDistinct s → AreDistinct (add_rows p s rows)
  unfolding add_rows
  add_rows-AreDistinct s [] h = h
  add_rows-AreDistinct s (row ∷ rows) h =
      add_rows-AreDistinct (add_connection p s (connection p (words row))) rows
        (add_connection-AreDistinct s (connection p (words row)) h)
