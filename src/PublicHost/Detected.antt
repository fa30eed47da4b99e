-- ===== src/PublicHost/Detected.antt =====
-- Where the replies of `detect_public_host` come from.
use web_zapret.Base.{
  ℕ, ◌+◌, ◌*◌, ◌<◌, ◌≡◌, ◌⊎◌, inl, inr, refl, sym, ap, subst, ◌≢◌, true, false, not, ◌&&◌, List, [],
  ◌∷◌, Option, none, some, ltb, if_each, arith, Bool-cases,
}
use web_zapret.Text.{Text, codes}
use web_zapret.PublicHost.{
  Cache, Call, Reply, is_address, first_echo, is_empty, local_reply, reply_of, detected, store,
  detect_public_host, no_cache, replies,
}

abbrev pub Has : {A : Type 0} → A → List A → Type 0
Has x [] = ⊥
Has x (y ∷ ys) = (x ≡ y) ⊎ Has x ys

-- What a call finds: the first echo that is an address, or else the local address, or nothing.
pub data IsFound (c : Call) (r : Reply) : Type 0 where
  echoed :
      (t : Text) → Has (some t) c.echoes → is_address t ≡ true → r ≡ (t, codes "auto") → IsFound c r
  is_local :
      (h : Text)
      → first_echo c.echoes ≡ none
      → c.local_host ≡ some h
      → h ≢ []
      → r ≡ (h, codes "local")
      → IsFound c r
  nothing : r ≡ ([], []) → IsFound c r

first_echo-Has :
    (es : List (Option Text)) (t : Text)
    → first_echo es ≡ some t
    → Has (some t) es × (is_address t ≡ true)
unfolding first_echo
first_echo-Has [] t h = cc
first_echo-Has (none ∷ es) t h = let (has, address) = first_echo-Has es t h in (inr has, address)
first_echo-Has (some u ∷ es) t h = elim (Bool-cases (is_address u)) [
  | inl good ↦
      let e : u ≡ t = ground arith in
      (inl (ap (λ x. some x) (sym e)), subst (λ x. is_address x ≡ true) e good)
  | inr bad ↦ let (has, address) = first_echo-Has es t (rw bad at h) in (inr has, address)
]

-- Found with nothing, or with a host that is not empty.
detected-IsFound : (c : Call) → IsFound c (detected c)
unfolding detected reply_of local_reply
detected-IsFound c = go (first_echo c.echoes) c.local_host refl refl
  where
    go : (o l : Option Text) → first_echo c.echoes ≡ o → c.local_host ≡ l → IsFound c (reply_of o l)
    go (some t) l e k =
        let (has, address) = first_echo-Has c.echoes t e in echoed t has address refl
    go none none e k = nothing refl
    go none (some []) e k = nothing refl
    go none (some (x ∷ h)) e k = is_local (x ∷ h) e k (λ q. cc q) refl

module _ (env : Text) (unit : ℕ) where
  -- The reply is the configured host, or what a call found that was made less than 600 seconds earlier.
  abbrev pub IsRecent : List Call → ℕ → Reply → Type 0
  IsRecent past now r =
      ((env ≢ []) × (r ≡ (env, codes "env")))
      ⊎ ((env ≡ []) × ((k : Call) × Has k past × IsFound k r × (now < k.now + 600 * unit)))

  abbrev pub AreRecent : List Call → List Call → List Reply → Type 0
  AreRecent past [] [] = Unit
  AreRecent past (c ∷ cs) (r ∷ rs) = IsRecent (c ∷ past) c.now r × AreRecent (c ∷ past) cs rs
  AreRecent past _ _ = ⊥

  -- The cache is empty, or holds what an earlier call found.
  abbrev IsKept : List Call → Cache → Type 0
  IsKept past cache =
      (cache.host ≡ [])
      ⊎ ((k : Call) × Has k past × IsFound k (cache.host, cache.source) × (cache.ts ≡ k.now))

  IsKept-later :
      (past : List Call) (c : Call) (cache : Cache) → IsKept past cache → IsKept (c ∷ past) cache
  IsKept-later past c cache (inl empty) = inl empty
  IsKept-later past c cache (inr (k, has, found, at)) = inr (k, inr has, found, at)

  store-IsKept :
      (past : List Call) (c : Call) (cache : Cache) (r : Reply)
      → IsKept past cache
      → IsFound c r
      → IsKept (c ∷ past) (store cache c r)
  unfolding store
  store-IsKept past c cache r kept found =
      if_each (IsKept (c ∷ past)) (is_empty r.0) (λ _. IsKept-later past c cache kept)
        (λ _. inr (c, inl refl, found, refl))

  empty-eq : (s : Text) → is_empty s ≡ true → s ≡ []
  unfolding is_empty
  empty-eq [] h = refl
  empty-eq (c ∷ s) h = cc

  filled : (s : Text) → is_empty s ≡ false → s ≢ []
  unfolding is_empty
  filled [] h e = cc
  filled (c ∷ s) h e = cc

  abbrev IsStep : List Call → Call → Reply × Cache → Type 0
  IsStep past c (r, next) = IsRecent (c ∷ past) c.now r × IsKept (c ∷ past) next

  cached-IsStep :
      (past : List Call) (c : Call) (cache : Cache)
      → env ≡ []
      → is_empty cache.host ≡ false
      → c.now < cache.ts + 600 * unit
      → IsKept past cache
      → IsStep past c ((cache.host, cache.source), cache)
  cached-IsStep past c cache free full recent (inl empty) = absurd (filled cache.host full empty)
  cached-IsStep past c cache free full recent (inr (k, has, found, at)) =
      (inr (free, (k, inr has, found, omega arith)), inr (k, inr has, found, at))

  module _ (positive : 0 < unit) where
    detect-IsStep :
        (past : List Call) (c : Call) (cache : Cache)
        → IsKept past cache
        → IsStep past c (detect_public_host env unit cache c)
    unfolding detect_public_host
    detect-IsStep past c cache kept =
        if_each (IsStep past c) (not (is_empty env))
          (λ given. (inl (filled env (ground arith), refl), IsKept-later past c cache kept))
          (λ free.
            let empty = empty-eq env (ground arith) in
            if_each (IsStep past c) (not (is_empty cache.host) && ltb c.now (cache.ts + 600 * unit))
              (λ hit. cached-IsStep past c cache empty (ground arith) (ground arith) kept)
              (λ _. (
                inr (empty, (c, inl refl, detected-IsFound c, omega arith)),
                store-IsKept past c cache (detected c) kept (detected-IsFound c),
              )))

    replies-AreRecent :
        (past cs : List Call) (cache : Cache)
        → IsKept past cache
        → AreRecent past cs (replies env unit cache cs)
    unfolding replies
    replies-AreRecent past [] cache kept = tt
    replies-AreRecent past (c ∷ cs) cache kept =
        let (recent, next) = detect-IsStep past c cache kept in
        (recent, replies-AreRecent (c ∷ past) cs (detect_public_host env unit cache c).1 next)

    -- The public address, over whatever calls follow each other, at whatever times and with whatever
    -- answers, if a second has at least one tick: each reply is the configured host if there is one, and
    -- otherwise what this call or an earlier one found less than 600 seconds before: an answer of an echo
    -- service that is an IPv4 address in digits, as `auto`; or, where no service gave one, the local address,
    -- as `local`; or nothing.
    pub detect_public_host-AreRecent :
        (cs : List Call) → AreRecent [] cs (replies env unit no_cache cs)
    detect_public_host-AreRecent cs = replies-AreRecent [] cs no_cache (inl refl)
