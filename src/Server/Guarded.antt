-- ===== src/Server/Guarded.antt =====
-- Which requests lead to a call, and which raise an exception.
use web_zapret.Base.{
  ◌≡◌, ◌⊎◌, inl, inr, refl, sym, ok_inj, Bool, true, not, ◌&&◌, [], ◌∷◌, all, ltb, Option, none,
  some, Result, ok, ◌>>=◌, if◌then◌else◌, Ensures, ok-Ensures, >>=-Ensures, if_each, if_both, arith,
}
use web_zapret.Text.{Text, codes, same, one_of, starts_with, has_char, before, after}
use web_zapret.Text.Laws.{same_iff}
use web_zapret.Logs.{drop}
use web_zapret.Value.{Value, as_dict}
use web_zapret.Deletion.{has_id}
use web_zapret.Server.{
  Library, Panel, Request, Call, apply_strategy, apply_exit, save_settings, save_schedule,
  reset_settings, Answer, unauthorized, calls, compare_digest, route, credentials_match, authed,
  read_body, text_at, logs_call, get_routes, set_strategy, set_exit, test_call, with_engine,
  post_routes, do_get, do_post, Method, get_method, post_method, options_method, no_content, handle,
}

module _ (lib : Library) (p : Panel) where
  -- The request has the panel's credentials, if it asks for any.
  abbrev pub Knows : Request → Type 0
  Knows r =
      (p.user ≡ [])
      ⊎ ((t : Text) × (starts_with r.authorization (codes "Basic ") ≡ true)
          × (lib.decoded (drop 6 r.authorization) ≡ some t)
          × (before b':' t ≡ p.user)
          × (after b':' t ≡ p.password))

  -- What reaches the engine's script is a strategy of the catalog or one of the three modes.
  abbrev pub IsPermitted : Answer → Type 0
  IsPermitted (calls (apply_strategy sid)) = has_id sid p.catalog ≡ true
  IsPermitted (calls (apply_exit mode)) =
      one_of mode (codes "direct" ∷ codes "socks5" ∷ codes "ss" ∷ []) ≡ true
  IsPermitted _ = Unit

  abbrev pub IsGuarded : Request → Answer → Type 0
  IsGuarded r a = (a ≡ unauthorized) ⊎ (Knows r × IsPermitted a)

  compare_digest-same : (a b : Text) → Ensures (λ e. e ≡ true → a ≡ b) (compare_digest a b)
  unfolding compare_digest
  compare_digest-same a b =
      if_both (Ensures (λ e. e ≡ true → a ≡ b)) (all (λ c. ltb c 128) a && all (λ c. ltb c 128) b)
        (ok-Ensures _ (λ e. (same_iff a b).0 e)) (λ e h. cc)

  credentials_match-Knows :
      (r : Request) (o : Option Text)
      → starts_with r.authorization (codes "Basic ") ≡ true
      → lib.decoded (drop 6 r.authorization) ≡ o
      → Ensures (λ e. e ≡ true → Knows r) (credentials_match lib p o)
  unfolding credentials_match
  credentials_match-Knows r none basic e = ok-Ensures _ (λ h. cc)
  credentials_match-Knows r (some t) basic e =
      let P = λ (b : Bool). b ≡ true → Knows r in
      >>=-Ensures P (compare_digest (before b':' t) p.user) _ (λ known first.
        if_each (Ensures P) known
          (λ yes_user b second h. inr (
            t,
            basic,
            e,
            compare_digest-same (before b':' t) p.user known first yes_user,
            compare_digest-same (after b':' t) p.password b second h,
          ))
          (λ _. ok-Ensures P (λ h. cc)))

  authed-Knows : (r : Request) → Ensures (λ e. e ≡ true → Knows r) (authed lib p r)
  unfolding authed
  authed-Knows r =
      let P = λ (b : Bool). b ≡ true → Knows r in
      if_each (Ensures P) (same p.user [])
        (λ open_panel. ok-Ensures P (λ _. inl ((same_iff p.user []).0 open_panel)))
        (λ _.
          if_each (Ensures P) (not (starts_with r.authorization (codes "Basic ")))
            (λ _. ok-Ensures P (λ h. cc))
            (λ basic.
              credentials_match-Knows r (lib.decoded (drop 6 r.authorization)) (ground arith) refl))

  get_routes-IsPermitted :
      (r : Request) (path : Text) → Ensures IsPermitted (get_routes lib p r path)
  unfolding get_routes logs_call
  get_routes-IsPermitted r path =
      let P = IsPermitted in
      if_both (Ensures P) (one_of path (codes "/" ∷ codes "/index.html" ∷ [])) (ok-Ensures P tt) (
        if_both (Ensures P) (same path (codes "/api/status")) (ok-Ensures P tt) (
          if_both (Ensures P) (same path (codes "/api/strategies")) (ok-Ensures P tt) (
            if_both (Ensures P) (same path (codes "/api/testinfo")) (ok-Ensures P tt) (
              if_both (Ensures P) (same path (codes "/api/bcw")) (ok-Ensures P tt) (
                if_both (Ensures P) (same path (codes "/api/strategy")) (ok-Ensures P tt) (
                  if_both (Ensures P) (same path (codes "/api/exit")) (ok-Ensures P tt) (
                    if_both (Ensures P) (same path (codes "/api/traffic")) (ok-Ensures P tt) (
                      if_both (Ensures P) (same path (codes "/api/logs/export")) (ok-Ensures P tt) (
                        if_both (Ensures P) (same path (codes "/api/logs"))
                          (if_both (Ensures P) (not (has_char b'?' r.path)) (λ a h. cc)
                            (ok-Ensures P tt))
                          (ok-Ensures P tt))))))))))

  with_engine-IsPermitted :
      (c : Call) → IsPermitted (calls c) → Ensures IsPermitted (ok (with_engine lib p c))
  unfolding with_engine
  with_engine-IsPermitted c h = ok-Ensures IsPermitted (if_both IsPermitted p.has_engine h tt)

  set_strategy-IsPermitted : (body : Value) → Ensures IsPermitted (set_strategy lib p body)
  unfolding set_strategy
  set_strategy-IsPermitted body =
      >>=-Ensures IsPermitted (text_at lib p (codes "id") body) _ (λ sid _.
        ok-Ensures IsPermitted (if_each IsPermitted (has_id sid p.catalog) (λ e. e) (λ _. tt)))

  set_exit-IsPermitted : (body : Value) → Ensures IsPermitted (set_exit lib p body)
  unfolding set_exit
  set_exit-IsPermitted body =
      >>=-Ensures IsPermitted (text_at lib p (codes "mode") body) _ (λ mode _.
        ok-Ensures IsPermitted (
          if_each IsPermitted (one_of mode (codes "direct" ∷ codes "socks5" ∷ codes "ss" ∷ []))
            (λ e. e) (λ _. tt)))

  test_call-IsPermitted : (body : Value) → Ensures IsPermitted (test_call lib p body)
  unfolding test_call
  test_call-IsPermitted body = >>=-Ensures IsPermitted (as_dict body) _ (λ d _.
      >>=-Ensures IsPermitted (text_at lib p (codes "id") body) _
        (λ sid _. ok-Ensures IsPermitted tt))

  post_routes-IsPermitted :
      (body : Value) (path : Text) → Ensures IsPermitted (post_routes lib p body path)
  unfolding post_routes
  post_routes-IsPermitted body path =
      let P = IsPermitted in
      if_both (Ensures P) (same path (codes "/api/strategy")) (set_strategy-IsPermitted body) (
        if_both (Ensures P) (same path (codes "/api/strategy/import")) (ok-Ensures P tt) (
          if_both (Ensures P) (same path (codes "/api/strategy/test")) (test_call-IsPermitted body)
            (if_both (Ensures P) (same path (codes "/api/strategy/delete"))
              (>>=-Ensures P (text_at lib p (codes "id") body) _ (λ _ _. ok-Ensures P tt))
              (if_both (Ensures P) (same path (codes "/api/bcw/settings"))
                (with_engine-IsPermitted (save_settings body) tt)
                (if_both (Ensures P) (same path (codes "/api/bcw/reset"))
                  (with_engine-IsPermitted reset_settings tt)
                  (if_both (Ensures P) (same path (codes "/api/bcw/run"))
                    (>>=-Ensures P (as_dict body) _ (λ _ _. ok-Ensures P tt))
                    (if_both (Ensures P) (same path (codes "/api/bcw/cancel")) (ok-Ensures P tt) (
                      if_both (Ensures P) (same path (codes "/api/bcw/import")) (λ a h. cc)
                        (if_both (Ensures P) (same path (codes "/api/bcw/schedule"))
                          (with_engine-IsPermitted (save_schedule body) tt)
                          (if_both (Ensures P) (same path (codes "/api/exit"))
                            (set_exit-IsPermitted body) (ok-Ensures P tt)))))))))))

  guarded :
      (r : Request) (routes : Result Answer)
      → Ensures IsPermitted routes
      → Ensures
          (IsGuarded r)
          (authed lib p r >>= λ known. if known then routes else ok unauthorized)
  guarded r routes permitted =
      let P = IsGuarded r in
      >>=-Ensures P (authed lib p r) _ (λ known read.
        if_each (Ensures P) known
          (λ yes_known a found. inr (authed-Knows r known read yes_known, permitted a found))
          (λ _. ok-Ensures P (inl refl)))

  -- Every request that is answered with anything but 401 carries the panel's user and password, if the panel
  -- has a user, or it is an OPTIONS request, which is always answered with 204 and leads to no call; and what it passes to the engine's script is the id of a strategy in
  -- the catalog, or one of the modes direct, socks5 and ss.
  pub answer-IsGuarded :
      (m : Method) (r : Request) (a : Answer)
      → handle lib p m r ≡ ok a
      → ((m ≡ options_method) × (a ≡ no_content)) ⊎ IsGuarded r a
  unfolding handle do_get do_post
  answer-IsGuarded get_method r a h =
      inr (guarded r (get_routes lib p r (route r)) (get_routes-IsPermitted r (route r)) a h)
  answer-IsGuarded post_method r a h = inr (
      guarded r (post_routes lib p (read_body lib p r) (route r))
        (post_routes-IsPermitted (read_body lib p r) (route r)) a h)
  answer-IsGuarded options_method r a h = inl (refl, sym (ok_inj h))
