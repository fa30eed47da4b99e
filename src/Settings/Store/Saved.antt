-- ===== src/Settings/Store/Saved.antt =====
-- What a save of the settings leaves behind, and the rules of a schedule.
use web_zapret.Base.{
  ℕ, ◌≤◌, ◌≡◌, ◌≢◌, refl, sym, ap, ◌∙◌, subst, Bool, true, false, not, ◌&&◌, ◌||◌, List, [], ◌∷◌,
  ok, >>=-eq-ok, ◌++◌, map, none, some, ◌⊎◌, inl, inr, Bool-cases, if◌then◌else◌, ok_inj, All,
  All-keep, if_each, ℤ, pos, negsuc, arith,
}
use web_zapret.Text.{Text, codes, same, one_of}
use web_zapret.Text.Laws.{same_iff}
use web_zapret.Dict.{insert, lookup, get_or-insert, lookup-insert, lookup-insert_self}
use web_zapret.Value.{Value, null, int, str, list, nil, Dict, as_list, or_else, py_str}
use web_zapret.Schedule.{valid_hhmm, all_days}
use web_zapret.Settings.{Numbers, Spec, settings_spec, texts_value}
use web_zapret.Settings.Normalize.{
  Outcome, value_at, fromkeys, is_empty, report, is_word, merge_values, settings_of,
}
use web_zapret.Settings.Store.{
  schedule_spec, days_in, or_every_day, bound_interval, at_time_of_day, update, conclude, time_text,
  int_of, schedule_rules, normalize_schedule, save_settings,
}

-- The keys of the settings.
abbrev setting_keys : List Text
setting_keys = map (λ (s : Spec). s.key) settings_spec

-- A file with the submitted values: the last value submitted for each setting, and what was there for
-- all other keys.
pub record IsUpdated (values persisted updated : Dict) : Type 0 where
  pub submitted :
      (k : Text) (v : Value) (front back : Dict)
      → values ≡ front ++ (k, v) ∷ back
      → lookup k back ≡ none
      → one_of k setting_keys ≡ true
      → lookup k updated ≡ some v
  pub unknown : (k : Text) → one_of k setting_keys ≡ false → lookup k updated ≡ lookup k persisted
  pub missing : (k : Text) → lookup k values ≡ none → lookup k updated ≡ lookup k persisted

-- A save of the settings, of which the flag says that the write succeeds.
abbrev pub IsSaved :
    Numbers → List (Text × Text) → Bool → Dict → Dict → Dict × Outcome × Bool → Type 0
IsSaved rt environ writes persisted values (file, merged, done) =
    (updated : Dict) × IsUpdated values persisted updated
    × (settings_of rt environ updated ≡ ok merged)
    × (((merged.errors ≡ []) × (writes ≡ true) × (done ≡ true) × (file ≡ updated))
        ⊎ (((merged.errors ≢ []) ⊎ (writes ≡ false)) × (done ≡ false) × (file ≡ persisted)))

module _ (specs : List Spec) where
  abbrev known_key : Text → Bool
  known_key k = one_of k (map (λ (s : Spec). s.key) specs)

  update-unknown :
      (k : Text) (values persisted : Dict)
      → known_key k ≡ false
      → lookup k (update specs values persisted) ≡ lookup k persisted
  unfolding update
  update-unknown k [] persisted h = refl
  update-unknown k ((j, v) ∷ values) persisted h =
      let next = if known_key j then insert j v persisted else persisted in
      update-unknown k values next h
      ∙ ground (
        arith,
        lookup-insert j k v persisted,
        same_iff j k,
        λ (e : j ≡ k). ap (λ t. known_key t) e,
      )

  update-missing :
      (k : Text) (values persisted : Dict)
      → lookup k values ≡ none
      → lookup k (update specs values persisted) ≡ lookup k persisted
  unfolding update lookup
  update-missing k [] persisted h = refl
  update-missing k ((j, v) ∷ values) persisted h = elim (Bool-cases (same j k)) [
    | inl e ↦ cc
    | inr e ↦
        let next = if known_key j then insert j v persisted else persisted in
        update-missing k values next (ground arith) ∙ ground (arith, lookup-insert j k v persisted)
  ]

  update-submitted :
      (k : Text) (v : Value) (front back persisted : Dict)
      → lookup k back ≡ none
      → known_key k ≡ true
      → lookup k (update specs (front ++ (k, v) ∷ back) persisted) ≡ some v
  unfolding update
  update-submitted k v [] back persisted last h =
      subst
        (λ b. lookup k (update specs back (if b then insert k v persisted else persisted)) ≡ some v)
        (sym h)
        (update-missing k back (insert k v persisted) last ∙ lookup-insert_self k v persisted)
  update-submitted k v ((j, w) ∷ front) back persisted last h =
      update-submitted k v front back (if known_key j then insert j w persisted else persisted) last
        h

update-IsUpdated :
    (values persisted : Dict) → IsUpdated values persisted (update settings_spec values persisted)
update-IsUpdated values persisted = record {
  submitted = λ k v front back e last h.
      subst (λ vs. lookup k (update settings_spec vs persisted) ≡ some v) (sym e)
        (update-submitted settings_spec k v front back persisted last h);
  unknown = λ k h. update-unknown settings_spec k values persisted h;
  missing = λ k h. update-missing settings_spec k values persisted h;
}

some_error : {A : Type 0} (xs : List A) → not (is_empty xs) ≡ true → xs ≢ []
some_error [] h = cc
some_error (x ∷ xs) h = λ e. cc

no_error : {A : Type 0} (xs : List A) → not (is_empty xs) ≡ false → xs ≡ []
no_error [] h = refl
no_error (x ∷ xs) h = cc

conclude-IsSaved :
    (rt : Numbers) (environ : List (Text × Text)) (writes : Bool) (persisted values updated : Dict)
    (merged : Outcome)
    → IsUpdated values persisted updated
    → settings_of rt environ updated ≡ ok merged
    → IsSaved rt environ writes persisted values (conclude writes persisted updated merged)
unfolding conclude
conclude-IsSaved rt environ writes persisted values updated merged kept loaded =
    let P = IsSaved rt environ writes persisted values in
    if_each P (not (is_empty merged.errors))
      (λ bad. (updated, kept, loaded, inr (inl (some_error merged.errors bad), refl, refl)))
      (λ clear.
        if_each P writes
          (λ written.
            (updated, kept, loaded, inl (no_error merged.errors clear, written, refl, refl)))
          (λ lost. (updated, kept, loaded, inr (inr lost, refl, refl))))

-- A save of submitted values into a file that holds an object, or is missing or broken, where it raises no
-- exception: its outcome is what is loaded from the object with these values, in which each setting has the
-- last value submitted for it and all other keys have what the file had. The save reports success exactly
-- if there is no error and the write succeeds, and leaves this object in the file; otherwise it leaves the
-- file as it was.
pub save_settings-IsSaved :
    (rt : Numbers) (environ : List (Text × Text)) (writes : Bool) (persisted values : Dict)
    (result : Dict × Outcome × Bool)
    → save_settings rt environ writes persisted values ≡ ok result
    → IsSaved rt environ writes persisted values result
unfolding save_settings
save_settings-IsSaved rt environ writes persisted values result h =
    let updated = update settings_spec values persisted in
    let (merged, loaded, h') = >>=-eq-ok (settings_of rt environ updated) _ h in
    subst (IsSaved rt environ writes persisted values) (ok_inj h') (
      conclude-IsSaved rt environ writes persisted values updated merged
        (update-IsUpdated values persisted) loaded)

-- A schedule that can be kept.
pub record IsKept (rt : Numbers) (out : Dict) : Type 0 where
  pub interval :
      (n : ℕ) × (value_at (codes "interval_min") null out ≡ int (pos n)) × (5 ≤ n) × (n ≤ 10080)
  pub chosen :
      (ds : List Text) × (value_at (codes "days") null out ≡ texts_value ds)
      × (ds ≢ [])
      × All (λ d. one_of d all_days ≡ true) ds
  pub time : at_time_of_day out ≡ true → valid_hhmm (time_text rt out) ≡ true

pub bound_interval-bounds : (n : ℤ) → (5 ≤ bound_interval n) × (bound_interval n ≤ 10080)
unfolding bound_interval
bound_interval-bounds (pos n) = (omega arith, omega arith)
bound_interval-bounds (negsuc n) = (omega arith, omega arith)

days_in-known : (vs : List Value) → All (λ d. one_of d all_days ≡ true) (days_in vs)
unfolding days_in
days_in-known [] = tt
days_in-known (str s ∷ vs) =
    if_each (All (λ d. one_of d all_days ≡ true)) (one_of s all_days) (λ e. (e, days_in-known vs))
      (λ _. days_in-known vs)
days_in-known (_ ∷ vs) = days_in-known vs

fromkeys-All : (P : Text → Type 0) (xs : List Text) → All P xs → All P (fromkeys xs)
unfolding fromkeys
fromkeys-All P [] h = tt
fromkeys-All P (x ∷ xs) (p, h) =
    (p, All-keep P (λ y. not (same x y)) (fromkeys xs) (fromkeys-All P xs h))

or_every_day-known :
    (ds : List Text)
    → All (λ d. one_of d all_days ≡ true) ds
    → (or_every_day ds ≢ []) × All (λ d. one_of d all_days ≡ true) (or_every_day ds)
unfolding or_every_day one_of same
or_every_day-known [] h = (cc, (refl, (refl, (refl, (refl, (refl, (refl, (refl, tt))))))))
or_every_day-known (d ∷ ds) h = (cc, h)

-- Storing the bounded interval changes nothing else that is read.
stored_interval :
    (k : Text) (u : Value) (n : ℕ) (out : Dict)
    → same (codes "interval_min") k ≡ false
    → value_at k u (insert (codes "interval_min") (int (pos n)) out) ≡ value_at k u out
stored_interval k u n out other =
    get_or-insert (codes "interval_min") k u (int (pos n)) out ∙ rw other refl

no_report : {A : Type 0} (b : Bool) (x : A) → report b x ≡ [] → b ≡ false
no_report true x h = cc
no_report false x h = refl

at_time_of_day-stored :
    (n : ℕ) (out : Dict)
    → at_time_of_day (insert (codes "interval_min") (int (pos n)) out) ≡ at_time_of_day out
unfolding at_time_of_day same
at_time_of_day-stored n out =
    ap (λ v. is_word v (codes "daily") || is_word v (codes "weekly"))
      (stored_interval (codes "mode") null n out refl)

time_text-stored :
    (rt : Numbers) (n : ℕ) (out : Dict)
    → time_text rt (insert (codes "interval_min") (int (pos n)) out) ≡ time_text rt out
unfolding time_text same
time_text-stored rt n out =
    ap (λ v. py_str rt.repr (or_else v (str []))) (stored_interval (codes "at") null n out refl)

holds_then : (a b : Bool) → (a && not b) ≡ false → a ≡ true → b ≡ true
holds_then a b h e = ground arith

settled :
    (rt : Numbers) (out : Dict) (n : ℤ) (ds : List Text)
    → All (λ d. one_of d all_days ≡ true) ds
    → let cleaned = insert (codes "days") (texts_value (or_every_day ds)) out in
      (at_time_of_day cleaned && not (valid_hhmm (time_text rt cleaned))) ≡ false
      → IsKept rt (insert (codes "interval_min") (int (pos (bound_interval n))) cleaned)
unfolding same
settled rt out n ds known valid =
    let cleaned = insert (codes "days") (texts_value (or_every_day ds)) out in
    let m = bound_interval n in
    let (above, below) = bound_interval-bounds n in
    let (filled, all_known) = or_every_day-known ds known in
    record {
      interval = (
        m,
        get_or-insert (codes "interval_min") (codes "interval_min") null (int (pos m)) cleaned,
        above,
        below,
      );
      chosen = (
        or_every_day ds,
        stored_interval (codes "days") null m cleaned refl
            ∙ get_or-insert (codes "days") (codes "days") null (texts_value (or_every_day ds)) out,
        filled,
        all_known,
      );
      time = λ timed.
          ap valid_hhmm (time_text-stored rt m cleaned)
          ∙ holds_then _ _ valid (sym (at_time_of_day-stored m cleaned) ∙ timed);
    }

-- A schedule that `normalize_schedule` returns with no errors has an interval between 5 minutes and a
-- week and at least one day, all of them days of the week; and in the modes `daily` and `weekly` its time
-- is a valid one.
pub normalize_schedule-IsKept :
    (rt : Numbers) (values base : Dict) (r : Outcome)
    → normalize_schedule rt values base ≡ ok r
    → r.errors ≡ []
    → IsKept rt r.settings
unfolding normalize_schedule schedule_rules
normalize_schedule-IsKept rt values base r h clear =
    let out = (merge_values rt values schedule_spec base).0 in
    let (vs, _, h₁) = >>=-eq-ok (as_list (value_at (codes "days") (list nil) out)) _ h in
    let ds = fromkeys (days_in vs) in
    let cleaned = insert (codes "days") (texts_value (or_every_day ds)) out in
    let (n, _, h₂) =
      >>=-eq-ok (int_of rt (value_at (codes "interval_min") (int (pos 360)) cleaned)) _ h₁ in
    let errors = ap (λ (o : Outcome). o.errors) (ok_inj h₂) in
    subst (λ (o : Outcome). IsKept rt o.settings) (ok_inj h₂)
      (settled rt out n ds
        (fromkeys-All (λ d. one_of d all_days ≡ true) (days_in vs) (days_in-known vs))
        (no_report _ _ (errors ∙ clear)))
