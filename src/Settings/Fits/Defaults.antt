-- ===== src/Settings/Fits/Defaults.antt =====
-- Settings that fit the specifications of src/blockcheck.py: the defaults do, and a stored value that
-- fits leaves them so.
use web_zapret.Base.{
  ◌≡◌, refl, sym, subst, Bool, true, false, not, ◌&&◌, List, [], ◌∷◌, ◌++◌, all, All, if_each,
  arith,
}
use web_zapret.Text.{Text, codes, same, one_of, upper}
use web_zapret.Text.Laws.{same_iff}
use web_zapret.Dict.{lookup, get_or, insert, get_or-insert, get_or-head, get_or-tail}
use web_zapret.Value.{Value, null, Dict}
use web_zapret.Settings.{Numbers, Spec, settings_spec, zero_float, env_of, env_value, env_defaults}
use web_zapret.Settings.Fits.{Fits, IsSpec, env_of-Fits}

-- No two specifications have the same key.
abbrev distinct_keys : List Spec → Bool
distinct_keys [] = true
distinct_keys (s ∷ specs) = all (λ (t : Spec). not (same s.key t.key)) specs && distinct_keys specs

-- The settings have a fitting value for each specification.
abbrev pub FitAll : Dict → List Spec → Type 0
FitAll out specs = All (λ (s : Spec). Fits s.kind (get_or s.key null out)) specs

FitAll-ahead :
    (k : Text) (v : Value) (out : Dict) (specs : List Spec)
    → all (λ (t : Spec). not (same k t.key)) specs ≡ true
    → FitAll out specs
    → FitAll ((k, v) ∷ out) specs
FitAll-ahead k v out [] h fits = tt
FitAll-ahead k v out (s ∷ specs) h (fit, fits) =
    let other : same k s.key ≡ false = ground arith in
    (
      subst (Fits s.kind) (sym (get_or-tail k s.key null v out other)) fit,
      FitAll-ahead k v out specs (ground arith) fits,
    )

pub env_defaults-FitAll :
    (rt : Numbers) (environ : List (Text × Text)) (prefix : Text) (specs : List Spec)
    → All IsSpec specs
    → distinct_keys specs ≡ true
    → FitAll (env_defaults rt environ specs prefix) specs
unfolding env_defaults env_value
env_defaults-FitAll rt environ prefix [] h d = tt
env_defaults-FitAll rt environ prefix (s ∷ specs) (h, hs) d =
    let v = env_of rt s (lookup (prefix ++ upper s.key) environ) in
    let rest = env_defaults rt environ specs prefix in
    (
      subst (Fits s.kind) (sym (get_or-head s.key null v rest)) (env_of-Fits rt s _ h),
      FitAll-ahead s.key v rest specs (ground arith)
          (env_defaults-FitAll rt environ prefix specs hs (ground arith)),
    )

-- A specification has the kind of every other one with its key.
abbrev pub IsKeyed : List Spec → Spec → Type 0
IsKeyed specs s = All (λ (t : Spec). same s.key t.key ≡ true → t.kind ≡ s.kind) specs

IsKeyed-head :
    (s : Spec) (ts : List Spec)
    → all (λ (t : Spec). not (same s.key t.key)) ts ≡ true
    → IsKeyed ts s
IsKeyed-head s [] h = tt
IsKeyed-head s (t ∷ ts) h = (λ e. absurd (ground arith), IsKeyed-head s ts (ground arith))

IsKeyed-tail :
    (s : Spec) (rest ts : List Spec)
    → all (λ (t : Spec). not (same s.key t.key)) ts ≡ true
    → All (λ t. IsKeyed rest t) ts
    → All (λ t. IsKeyed (s ∷ rest) t) ts
IsKeyed-tail s rest [] h keyed = tt
IsKeyed-tail s rest (t ∷ ts) h (k, keyed) = (
  (λ e. absurd (ground (arith, same_iff s.key t.key, same_iff t.key s.key)), k),
  IsKeyed-tail s rest ts (ground arith) keyed,
)

pub distinct_keys-IsKeyed :
    (specs : List Spec) → distinct_keys specs ≡ true → All (λ s. IsKeyed specs s) specs
distinct_keys-IsKeyed [] h = tt
distinct_keys-IsKeyed (s ∷ specs) h = (
  (λ _. refl, IsKeyed-head s specs (ground arith)),
  IsKeyed-tail s specs specs (ground arith) (distinct_keys-IsKeyed specs (ground arith)),
)

-- A fitting value is stored.
pub insert-FitAll :
    (s : Spec) (v : Value) (out : Dict) (specs : List Spec)
    → IsKeyed specs s
    → Fits s.kind v
    → FitAll out specs
    → FitAll (insert s.key v out) specs
insert-FitAll s v out [] keyed fit fits = tt
insert-FitAll s v out (t ∷ specs) (same_kind, keyed) fit (old, fits) = (
  subst (Fits t.kind) (sym (get_or-insert s.key t.key null v out)) (
      if_each (Fits t.kind) (same s.key t.key) (λ e. subst (λ k. Fits k v) (sym (same_kind e)) fit)
        (λ _. old)),
  insert-FitAll s v out specs keyed fit fits,
)

pub settings_spec-IsSpec : All IsSpec settings_spec
unfolding one_of
settings_spec-IsSpec = (
  (tt, (true, refl)),
  (
    (tt, ((codes "/opt/webzapret/bin/blockcheckw"), refl)),
    (
      (tt, (codes "corpus", refl, refl)),
      (
        (tt, ([], refl)),
        (
          (tt, (codes "youtube.com" ∷ [], refl)),
          (
            (tt, (codes "tls12" ∷ codes "tls13" ∷ [], refl)),
            (
              (tt, (codes "auto", refl, refl)),
              (
                (omega arith, (64, refl, omega arith, omega arith)),
                (
                  (omega arith, (1024, refl, omega arith, omega arith)),
                  (
                    (omega arith, (200, refl, omega arith, omega arith)),
                    (
                      (tt, ([], refl)),
                      (
                        (tt, ([], refl)),
                        (
                          (omega arith, (0, refl, omega arith, omega arith)),
                          (
                            (omega arith, (5, refl, omega arith, omega arith)),
                            (
                              (omega arith, (3, refl, omega arith, omega arith)),
                              (
                                (omega arith, (3, refl, omega arith, omega arith)),
                                (
                                  (omega arith, (3, refl, omega arith, omega arith)),
                                  (
                                    (omega arith, (1000, refl, omega arith, omega arith)),
                                    (
                                      (tt, ((codes "/"), refl)),
                                      (
                                        (tt, ((codes "/robots.txt"), refl)),
                                        (
                                          (tt, ([], refl)),
                                          (
                                            (tt, (zero_float, refl)),
                                            (
                                              (tt, (true, refl)),
                                              (
                                                (omega arith, (5, refl, omega arith, omega arith)),
                                                (
                                                  (tt, ((codes "bcw"), refl)),
                                                  (
                                                    (tt, (false, refl)),
                                                    (
                                                      (tt, (false, refl)),
                                                      (
                                                        (
                                                          omega arith,
                                                          (3600, refl, omega arith, omega arith),
                                                        ),
                                                        (
                                                          (
                                                            omega arith,
                                                            (400, refl, omega arith, omega arith),
                                                          ),
                                                          (
                                                            (tt, (true, refl)),
                                                            (
                                                            (
                                                            omega arith,
                                                            (65536, refl, omega arith, omega arith),
                                                            ),
                                                            (
                                                            (
                                                            omega arith,
                                                            (
                                                            131072,
                                                            refl,
                                                            omega arith,
                                                            omega arith,
                                                            ),
                                                            ),
                                                            tt,
                                                            ),
                                                            ),
                                                          ),
                                                        ),
                                                      ),
                                                    ),
                                                  ),
                                                ),
                                              ),
                                            ),
                                          ),
                                        ),
                                      ),
                                    ),
                                  ),
                                ),
                              ),
                            ),
                          ),
                        ),
                      ),
                    ),
                  ),
                ),
              ),
            ),
          ),
        ),
      ),
    ),
  ),
)

pub settings_spec-IsKeyed : All (λ s. IsKeyed settings_spec s) settings_spec
unfolding same
settings_spec-IsKeyed = distinct_keys-IsKeyed settings_spec refl

-- The defaults of the environment fit, whatever the environment holds.
pub env_defaults-fit :
    (rt : Numbers) (environ : List (Text × Text)) (prefix : Text)
    → FitAll (env_defaults rt environ settings_spec prefix) settings_spec
unfolding same
env_defaults-fit rt environ prefix =
    env_defaults-FitAll rt environ prefix settings_spec settings_spec-IsSpec refl
