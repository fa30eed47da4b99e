-- ===== src/Settings/Normalize/Rules.antt =====
-- The cross-field rules of `normalize` on settings that it returns with no errors.
use web_zapret.Base.{
  Bool, true, false, not, ◌&&◌, List, [], ◌∷◌, ◌++◌, map, keep, All, All-keep, All-imp, keep_sound,
  ◌≡◌, ◌≢◌, refl, ap, ◌∙◌, subst, ok, >>=-eq-ok, ok_inj, if_each, if_both, Bool-cases, pos, arith,
  inl, inr, not-true, Ensures, >>=-Ensures,
}
use web_zapret.Text.{Text, codes, same, one_of, starts_with}
use web_zapret.Dict.{insert, get_or-insert}
use web_zapret.Value.{
  texts_of, Value, null, str, list, nil, dict, end, pairs, elems, or_else, int, Dict, truthy,
  as_list, py_str,
}
use web_zapret.Settings.{Numbers, settings_spec, protocols, texts_value, as_csv}
use web_zapret.Settings.Normalize.{
  Outcome, Warning, bad_domain, value_at, report, is_empty, fromkeys, is_domain, is_word, is_queue,
  fix_queue, greater, is_absolute, rule_errors, clean, cross_rules, merge_values, normalize,
  settings_of, without_values, settings_in, load_settings,
}

-- Each text once.
abbrev pub IsDistinct : List Text → Type 0
IsDistinct [] = Unit
IsDistinct (x ∷ xs) = All (λ y. same x y ≡ false) xs × IsDistinct xs

IsDistinct-keep : (p : Text → Bool) (xs : List Text) → IsDistinct xs → IsDistinct (keep p xs)
IsDistinct-keep p [] h = tt
IsDistinct-keep p (x ∷ xs) (new, h) = elim (Bool-cases (p x)) [
  | inl e ↦ rw e (All-keep (λ y. same x y ≡ false) p xs new, IsDistinct-keep p xs h)
  | inr e ↦ rw e (IsDistinct-keep p xs h)
]

fromkeys-IsDistinct : (xs : List Text) → IsDistinct (fromkeys xs)
unfolding fromkeys
fromkeys-IsDistinct [] = tt
fromkeys-IsDistinct (x ∷ xs) = (
  All-imp (λ y e. not-true (same x y) e) (keep (λ y. not (same x y)) (fromkeys xs))
      (keep_sound (λ y. not (same x y)) (fromkeys xs)),
  IsDistinct-keep (λ y. not (same x y)) (fromkeys xs) (fromkeys-IsDistinct xs),
)

-- What the program calls a contradiction does not hold of the settings.
pub record IsConsistent (rt : Numbers) (out : Dict) : Type 0 where
  pub known_protocols :
      (ps : List Text) × (value_at (codes "protocols") (list nil) out ≡ texts_value ps)
      × (ps ≢ [])
      × All (λ p. one_of p protocols ≡ true) ps
      × IsDistinct ps
  pub valid_domains :
      (ds : List Text) × (value_at (codes "domains") (list nil) out ≡ texts_value ds)
      × (ds ≢ [])
      × All (λ d. is_domain d ≡ true) ds
      × IsDistinct ds
  pub has_grid_file :
      (is_word (value_at (codes "grid") null out) (codes "file")
        && not (truthy (value_at (codes "grid_file") null out)))
      ≡ false
  pub one_gateway :
      (truthy (value_at (codes "via") null out)
        && truthy (value_at (codes "reference_via") null out))
      ≡ false
  pub probe_path : is_absolute rt (codes "probe_path") out ≡ true
  pub identity_path : is_absolute rt (codes "identity_path") out ≡ true
  pub workers_fit :
      greater rt
        (value_at (codes "workers") null out)
        (value_at (codes "profiles_per_instance") null out)
      ≡ ok false
  pub queue : is_queue (value_at (codes "queue") null out) ≡ true

append-empty : {A : Type 0} (xs ys : List A) → (xs ++ ys) ≡ [] → (xs ≡ []) × (ys ≡ [])
append-empty [] ys h = (refl, h)
append-empty (x ∷ xs) ys h = cc

report-empty : {A : Type 0} (b : Bool) (x : A) → report b x ≡ [] → b ≡ false
report-empty true x h = cc
report-empty false x h = refl

not-false : (b : Bool) → not b ≡ false → b ≡ true
not-false b h = ground arith

keep-empty :
    {A : Type 0} (p : A → Bool) (xs : List A)
    → keep (λ x. not (p x)) xs ≡ []
    → All (λ x. p x ≡ true) xs
keep-empty p [] h = tt
keep-empty p (x ∷ xs) h = elim (Bool-cases (p x)) [
  | inl e ↦ (e, keep-empty p xs (rw e at h))
  | inr e ↦ cc (rw e at h)
]

map-empty : {A B : Type 0} (f : A → B) (xs : List A) → map f xs ≡ [] → xs ≡ []
map-empty f [] h = refl
map-empty f (x ∷ xs) h = cc

filled : {A : Type 0} (xs : List A) → is_empty xs ≡ false → xs ≢ []
filled [] h = cc
filled (x ∷ xs) h = cc

-- The rules that no error was reported for.
record Rules (rt : Numbers) (out : Dict) (ps ds : List Text) (crowded : Bool) : Type 0 where
  has_protocol : is_empty ps ≡ false
  domains : All (λ d. is_domain d ≡ true) ds
  has_domain : is_empty ds ≡ false
  grid :
      (is_word (value_at (codes "grid") null out) (codes "file")
        && not (truthy (value_at (codes "grid_file") null out)))
      ≡ false
  gateway :
      (truthy (value_at (codes "via") null out)
        && truthy (value_at (codes "reference_via") null out))
      ≡ false
  probe : is_absolute rt (codes "probe_path") out ≡ true
  identity : is_absolute rt (codes "identity_path") out ≡ true
  fits : crowded ≡ false

rule_errors-Rules :
    (rt : Numbers) (out : Dict) (ps ds : List Text) (crowded : Bool)
    → rule_errors rt out ps ds crowded ≡ []
    → Rules rt out ps ds crowded
unfolding rule_errors
rule_errors-Rules rt out ps ds crowded h =
    let (e₁, h₁) = append-empty _ _ h in
    let (e₂, h₂) = append-empty _ _ h₁ in
    let (e₃, h₃) = append-empty _ _ h₂ in
    let (e₄, h₄) = append-empty _ _ h₃ in
    let (e₅, h₅) = append-empty _ _ h₄ in
    let (e₆, h₆) = append-empty _ _ h₅ in
    let (e₇, e₈) = append-empty _ _ h₆ in
    record {
      has_protocol = report-empty _ _ e₁;
      domains = keep-empty (λ d. is_domain d) ds (map-empty (λ d. bad_domain d) _ e₂);
      has_domain = report-empty _ _ e₃;
      grid = report-empty _ _ e₄;
      gateway = report-empty _ _ e₅;
      probe = not-false _ (report-empty _ _ e₆);
      identity = not-false _ (report-empty _ _ e₇);
      fits = report-empty _ _ e₈;
    }

at-fix_queue :
    (k : Text) (v : Value) (out : Dict)
    → same (codes "queue") k ≡ false
    → value_at k v (fix_queue out) ≡ value_at k v out
unfolding fix_queue
at-fix_queue k v out other =
    if_both (λ d. value_at k v d ≡ value_at k v out) (is_queue (value_at (codes "queue") null out))
      refl (get_or-insert (codes "queue") k v (int (pos 200)) out ∙ rw other refl)

fix_queue-is_queue : (out : Dict) → is_queue (value_at (codes "queue") null (fix_queue out)) ≡ true
unfolding fix_queue is_queue same
fix_queue-is_queue out =
    if_each (λ d. is_queue (value_at (codes "queue") null d) ≡ true)
      (is_queue (value_at (codes "queue") null out)) (λ e. e)
      (λ _.
        ap is_queue (get_or-insert (codes "queue") (codes "queue") null (int (pos 200)) out) ∙ refl)

clean-protocols :
    (out : Dict) (ps ds : List Text)
    → value_at (codes "protocols") (list nil) (clean out ps ds) ≡ texts_value ps
unfolding clean same
clean-protocols out ps ds =
    get_or-insert (codes "domains") (codes "protocols") (list nil) (texts_value ds)
      (insert (codes "protocols") (texts_value ps) out)
    ∙ get_or-insert (codes "protocols") (codes "protocols") (list nil) (texts_value ps) out

clean-domains :
    (out : Dict) (ps ds : List Text)
    → value_at (codes "domains") (list nil) (clean out ps ds) ≡ texts_value ds
unfolding clean same
clean-domains out ps ds =
    get_or-insert (codes "domains") (codes "domains") (list nil) (texts_value ds)
      (insert (codes "protocols") (texts_value ps) out)

Rules-IsConsistent :
    (rt : Numbers) (out : Dict) (given ds : List Text) (crowded : Bool)
    → let ps = keep (λ p. one_of p protocols) (fromkeys given) in
      let cleaned = clean out ps (fromkeys ds) in
      greater rt
          (value_at (codes "workers") null cleaned)
          (value_at (codes "profiles_per_instance") null cleaned)
        ≡ ok crowded
      → Rules rt cleaned ps (fromkeys ds) crowded
      → IsConsistent rt (fix_queue cleaned)
unfolding is_absolute same
Rules-IsConsistent rt out given ds crowded compared r =
    let ps = keep (λ p. one_of p protocols) (fromkeys given) in
    let cleaned = clean out ps (fromkeys ds) in
    let at =
      λ (k : Text) (v : Value) (e : same (codes "queue") k ≡ false). at-fix_queue k v cleaned e in
    record {
      known_protocols = (
        ps,
        at (codes "protocols") (list nil) refl ∙ clean-protocols out ps (fromkeys ds),
        filled ps r.has_protocol,
        keep_sound (λ p. one_of p protocols) (fromkeys given),
        IsDistinct-keep (λ p. one_of p protocols) (fromkeys given) (fromkeys-IsDistinct given),
      );
      valid_domains = (
        fromkeys ds,
        at (codes "domains") (list nil) refl ∙ clean-domains out ps (fromkeys ds),
        filled (fromkeys ds) r.has_domain,
        r.domains,
        fromkeys-IsDistinct ds,
      );
      has_grid_file = rw (at (codes "grid") null refl, at (codes "grid_file") null refl) r.grid;
      one_gateway = rw (at (codes "via") null refl, at (codes "reference_via") null refl) r.gateway;
      probe_path =
          ap (λ v. starts_with (py_str rt.repr v) (codes "/"))
            (at (codes "probe_path") (str []) refl)
          ∙ r.probe;
      identity_path =
          ap (λ v. starts_with (py_str rt.repr v) (codes "/"))
            (at (codes "identity_path") (str []) refl)
          ∙ r.identity;
      workers_fit =
          rw (at (codes "workers") null refl, at (codes "profiles_per_instance") null refl)
            (compared ∙ ap (λ b. ok b) r.fits);
      queue = fix_queue-is_queue cleaned;
    }

cross_rules-IsConsistent :
    (rt : Numbers) (out : Dict) (warnings : List Warning) (r : Outcome)
    → cross_rules rt out warnings ≡ ok r
    → r.errors ≡ []
    → IsConsistent rt r.settings
unfolding cross_rules
cross_rules-IsConsistent rt out warnings r h none_left =
    let (vs, _, h₁) = >>=-eq-ok (as_list (value_at (codes "protocols") (list nil) out)) _ h in
    let (given, _, h₂) = >>=-eq-ok (texts_of vs) _ h₁ in
    let ps = keep (λ p. one_of p protocols) (fromkeys given) in
    let ds = as_csv rt (value_at (codes "domains") (list nil) out) in
    let cleaned = clean out ps (fromkeys ds) in
    let (crowded, compared, h₃) =
      >>=-eq-ok
        (greater rt (value_at (codes "workers") null cleaned)
          (value_at (codes "profiles_per_instance") null cleaned))
        _ h₂ in
    let errors = ap (λ (o : Outcome). o.errors) (ok_inj h₃) in
    subst (λ (o : Outcome). IsConsistent rt o.settings) (ok_inj h₃)
      (Rules-IsConsistent rt out given ds crowded compared
        (rule_errors-Rules rt cleaned ps (fromkeys ds) crowded (errors ∙ none_left)))

-- Settings that `normalize` returns with no errors, whatever was given and whatever the defaults are, keep
-- the cross-field rules: at least one protocol, all known, each once; at least one domain, all of the
-- allowed characters and at most 253 long, each once; a corpus file where the grid is a file; not both
-- gateways; two absolute paths; no more workers than profiles; and the fixed queue.
pub normalize-IsConsistent :
    (rt : Numbers) (values base : Dict) (r : Outcome)
    → normalize rt values base ≡ ok r
    → r.errors ≡ []
    → IsConsistent rt r.settings
unfolding normalize
normalize-IsConsistent rt values base r h none_left =
    cross_rules-IsConsistent rt (merge_values rt values settings_spec base).0 _ r h none_left

without_values-IsConsistent :
    (rt : Numbers) (base : Dict) (has_key : Bool) (ts : List Text)
    → Ensures
        (λ (r : Outcome). r.errors ≡ [] → IsConsistent rt r.settings)
        (without_values rt base has_key ts)
unfolding without_values
without_values-IsConsistent rt base has_key ts =
    let P = λ (r : Outcome). r.errors ≡ [] → IsConsistent rt r.settings in
    if_both (Ensures P) has_key (λ r h. cc) (λ r h. cross_rules-IsConsistent rt base _ r h)

-- The same of any value that a file holds.
pub load_settings-IsConsistent :
    (rt : Numbers) (environ : List (Text × Text)) (stored : Value) (r : Outcome)
    → load_settings rt environ stored ≡ ok r
    → r.errors ≡ []
    → IsConsistent rt r.settings
unfolding load_settings settings_in settings_of
load_settings-IsConsistent rt environ stored r h none_left =
    go (or_else stored (dict end)) r h none_left
  where
    go :
        (v : Value)
        → Ensures
            (λ (r : Outcome). r.errors ≡ [] → IsConsistent rt r.settings)
            (settings_in rt environ v)
    go (dict fs) = λ r h clear. normalize-IsConsistent rt (pairs fs) _ r h clear
    go (str t) = without_values-IsConsistent rt _ _ (map (λ c. c ∷ []) t)
    go (list vs) =
        >>=-Ensures (λ (r : Outcome). r.errors ≡ [] → IsConsistent rt r.settings)
          (texts_of (elems vs)) _ (λ ts _. without_values-IsConsistent rt _ _ ts)
    go v = λ r h clear. cc
