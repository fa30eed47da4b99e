-- ===== src/Devices/Listed.antt =====
-- Which addresses `connected_devices` lists.
use web_zapret.Base.{
  ◌≡◌, refl, ap, ◌∙◌, Bool, false, ◌||◌, List, [], ◌∷◌, ◌++◌, any, map, length, take, Option, none,
  some, arith, sort_onto,
}
use web_zapret.Text.{Text, same, words, one_of, before_text}
use web_zapret.Devices.{
  Service, ss_server, sockd, Ports, Sets, Devices, add_new, distinct, dec, connection,
  add_connection, add_rows, rows_of, counts_of, ips_of, report, connected_devices,
}
use web_zapret.Devices.Visits.{set_of, visits, any-add_rows, AreDistinct, add_rows-AreDistinct}
use web_zapret.Devices.Distinct.{any-add_new, any-sorted, IsAscending, sorted-IsAscending}

any-append : (g : Text → Bool) (xs ys : List Text) → any g (xs ++ ys) ≡ (any g xs || any g ys)
any-append g [] ys = refl
any-append g (x ∷ xs) ys = ground (arith, any-append g xs ys)

any-map :
    (g : Text → Bool) (f : Text → Text) (xs : List Text) → any g (map f xs) ≡ any (λ x. g (f x)) xs
any-map g f [] = refl
any-map g f (x ∷ xs) = ap (λ b. g (f x) || b) (any-map g f xs)

one_of-any : (t : Text) (xs : List Text) → one_of t xs ≡ any (λ x. same t x) xs
unfolding one_of
one_of-any t [] = refl
one_of-any t (x ∷ xs) = ap (λ b. same t x || b) (one_of-any t xs)

-- The address of a connection passes a test.
abbrev pub connects : (Text → Bool) → Option (Service × Text) → Bool
connects g none = false
connects g (some (svc, x)) = g x

module _ (p : Ports) where
  holds : (Text → Bool) → Sets → Bool
  holds g s = any g (s.ss_server_set ++ s.sockd_set)

  holds-add_connection :
      (g : Text → Bool) (s : Sets) (c : Option (Service × Text))
      → holds g (add_connection p s c) ≡ (holds g s || connects g c)
  unfolding holds add_connection
  holds-add_connection g s none = ground arith
  holds-add_connection g s (some (ss_server, x)) = ground (
    arith,
    any-append g s.ss_server_set s.sockd_set,
    any-append g (add_new x s.ss_server_set) s.sockd_set,
    any-add_new g x s.ss_server_set,
  )
  holds-add_connection g s (some (sockd, x)) = ground (
    arith,
    any-append g s.ss_server_set s.sockd_set,
    any-append g s.ss_server_set (add_new x s.sockd_set),
    any-add_new g x s.sockd_set,
  )

  holds-add_rows :
      (g : Text → Bool) (s : Sets) (rows : List Text)
      → holds g (add_rows p s rows)
        ≡ (holds g s || any (λ row. connects g (connection p (words row))) rows)
  unfolding add_rows
  holds-add_rows g s [] = ground arith
  holds-add_rows g s (row ∷ rows) =
      let c = connection p (words row) in
      ground (arith, holds-add_rows g (add_connection p s c) rows, holds-add_connection g s c)

  ips_of-holds : (t : Text) (s : Sets) → one_of t (ips_of p s) ≡ holds (λ x. same t (dec p x)) s
  unfolding ips_of holds
  ips_of-holds t s =
      let xs = s.ss_server_set ++ s.sockd_set in
      one_of-any t (sort_onto before_text [] (distinct (map (dec p) xs)))
      ∙ any-sorted (λ x. same t x) (map (dec p) xs)
      ∙ any-map (λ x. same t x) (dec p) xs

  ips_of-IsAscending : (s : Sets) → IsAscending (ips_of p s)
  unfolding ips_of
  ips_of-IsAscending s = sorted-IsAscending (map (dec p) (s.ss_server_set ++ s.sockd_set))

  -- A row of an established connection to one of the ports, from the address.
  abbrev pub is_from : Text → Text → Bool
  is_from t row = connects (λ x. same t (dec p x)) (connection p (words row))

  -- A row of an established connection to the service, from the address as the table has it.
  abbrev pub is_at : Service → Text → Text → Bool
  is_at svc x row = visits svc (λ y. same x y) (connection p (words row))

  -- The whole list of addresses behind a reply, and the sets that are counted.
  pub record IsListing (tcp tcp6 : Option Text) (r : Devices) (all_ips : List Text) (s : Sets)
      : Type 0 where
    pub ascending : IsAscending all_ips
    pub counted : r.count ≡ length all_ips
    pub shown : r.ips ≡ take 64 all_ips
    pub listed :
        (t : Text)
        → one_of t all_ips ≡ (any (is_from t) (rows_of tcp) || any (is_from t) (rows_of tcp6))
    pub apart : AreDistinct p s
    pub visitors :
        (svc : Service) (x : Text)
        → one_of x (set_of svc s)
          ≡ (any (is_at svc x) (rows_of tcp) || any (is_at svc x) (rows_of tcp6))
    pub numbers : r.per_service ≡ counts_of p s

  abbrev no_sets : Sets
  no_sets = record { ss_server_set = []; sockd_set = [] }

  no_visitors : (svc : Service) → set_of svc no_sets ≡ []
  no_visitors ss_server = refl
  no_visitors sockd = refl

  one_of-visitors :
      (svc : Service) (x : Text) (tcp tcp6 : List Text)
      → one_of x (set_of svc (add_rows p (add_rows p no_sets tcp) tcp6))
        ≡ (any (is_at svc x) tcp || any (is_at svc x) tcp6)
  one_of-visitors svc x tcp tcp6 =
      let g = λ (y : Text). same x y in
      one_of-any x (set_of svc (add_rows p (add_rows p no_sets tcp) tcp6))
      ∙ any-add_rows p svc g (add_rows p no_sets tcp) tcp6
      ∙ ap (λ b. b || any (is_at svc x) tcp6)
          (any-add_rows p svc g no_sets tcp
            ∙ ap (λ l. any g l || any (is_at svc x) tcp) (no_visitors svc))

  -- The addresses of the clients, whatever the two tables hold: a list that is strictly ascending, so that
  -- none occurs twice, and that has an address exactly if a row of one of the tables is an established
  -- connection from it to a port that is listened on; the reply gives its length and its first 64. For
  -- each service that has a port of its own, it gives the number of the different addresses, as the tables
  -- write them, from which a row is an established connection to that service.
  pub connected_devices-IsListing :
      (tcp tcp6 : Option Text)
      → (ips : List Text) × (s : Sets) × IsListing tcp tcp6 (connected_devices p tcp tcp6) ips s
  unfolding connected_devices report holds
  connected_devices-IsListing tcp tcp6 =
      let s = add_rows p (add_rows p no_sets (rows_of tcp)) (rows_of tcp6) in
      (
        ips_of p s,
        s,
        record {
          ascending = ips_of-IsAscending s;
          counted = refl;
          shown = refl;
          listed = λ t.
              let g = λ (x : Text). same t (dec p x) in
              ips_of-holds t s
              ∙ holds-add_rows g (add_rows p no_sets (rows_of tcp)) (rows_of tcp6)
              ∙ ap (λ b. b || any (is_from t) (rows_of tcp6))
                  (holds-add_rows g no_sets (rows_of tcp));
          apart =
              add_rows-AreDistinct p (add_rows p no_sets (rows_of tcp)) (rows_of tcp6)
                (add_rows-AreDistinct p no_sets (rows_of tcp) (tt, tt));
          visitors = λ svc x. one_of-visitors svc x (rows_of tcp) (rows_of tcp6);
          numbers = refl;
        },
      )
