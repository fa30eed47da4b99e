-- ===== src/Upload/Stored.antt =====
-- The loop of `import_strategy_from_json`: what it stores.
use web_zapret.Base.{
  ℕ, suc, ◌<◌, ◌≡◌, refl, sym, ap, ◌∙◌, subst, Bool, true, false, ◌&&◌, List, [], ◌∷◌, ◌++◌, keep,
  keep-append, keep-keep, append_assoc, ok, >>=-eq-ok, ok_inj, Ensures, ok-Ensures, >>=-Ensures,
  All, if_each, Bool-cases, inl, inr, pos, arith,
}
use web_zapret.Text.{Text, codes, same, strip}
use web_zapret.Text.Laws.{same_iff}
use web_zapret.Text.Shlex.{shlex_split}
use web_zapret.Dict.{lookup, get_or}
use web_zapret.Value.{Value, null, int, str, Dict, truthy, py_int}
use web_zapret.Catalog.Fresh.{candidate-injective}
use web_zapret.Deletion.{stays, is_text}
use web_zapret.Upload.{Host, nth_id, args_of, new_strategy, import_from}

-- An entry stays if it has none of the ids.
abbrev pub stays_all : List Text → Dict → Bool
stays_all [] d = true
stays_all (i ∷ is) d = stays i d && stays_all is d

-- The ids of the rows from a position on.
abbrev pub ids_from : Text → ℕ → List Dict → List Text
ids_from base n [] = []
ids_from base n (s ∷ rest) = nth_id base n ∷ ids_from base (suc n) rest

-- Pairwise different.
abbrev pub Distinct : List Text → Type 0
Distinct [] = Unit
Distinct (t ∷ ts) = All (λ u. same t u ≡ false) ts × Distinct ts

nth_id-ne : (base : Text) (m n : ℕ) → m < n → same (nth_id base m) (nth_id base n) ≡ false
unfolding nth_id
nth_id-ne base m n h = elim (Bool-cases (same (nth_id base m) (nth_id base n))) [
  | inl e ↦
      let equal = (same_iff (nth_id base m) (nth_id base n)).0 e in
      absurd (omega (arith, candidate-injective base (suc m) (suc n) equal))
  | inr e ↦ e
]

later_ids :
    (base : Text) (m n : ℕ) (rows : List Dict)
    → m < n
    → All (λ i. same (nth_id base m) i ≡ false) (ids_from base n rows)
later_ids base m n [] h = tt
later_ids base m n (s ∷ rest) h =
    (nth_id-ne base m n h, later_ids base m (suc n) rest (omega arith))

pub ids_from-Distinct : (base : Text) (n : ℕ) (rows : List Dict) → Distinct (ids_from base n rows)
ids_from-Distinct base n [] = tt
ids_from-Distinct base n (s ∷ rest) =
    (later_ids base n (suc n) rest (omega arith), ids_from-Distinct base (suc n) rest)

-- A strategy as it is stored: its id, the arguments of the upload, and that they are not blank and split.
pub record IsStored (id : Text) (s entry : Dict) : Type 0 where
  pub has_id : get_or (codes "id") null entry ≡ str id
  pub args : Text
  pub given : get_or (codes "args") (str []) s ≡ str args
  pub stored : get_or (codes "nfqws_opt") null entry ≡ str args
  pub not_blank : truthy (str (strip args)) ≡ true
  pub splits : (ts : List Text) × (shlex_split args ≡ ok ts)

abbrev pub AreStored : Text → ℕ → List Dict → List Dict → Type 0
AreStored base n [] [] = Unit
AreStored base n (s ∷ rows) (e ∷ es) = IsStored (nth_id base n) s e × AreStored base (suc n) rows es
AreStored base n _ _ = ⊥

args_of-str : (v : Value) → Ensures (λ t. (v ≡ str t) × (truthy (str (strip t)) ≡ true)) (args_of v)
unfolding args_of
args_of-str (str s) =
    let P = λ (t : Text). (str s ≡ str t) × (truthy (str (strip t)) ≡ true) in
    if_each (Ensures P) (truthy (str (strip s))) (λ e. ok-Ensures P (refl, e)) (λ _ t h. cc)
args_of-str v = λ t h. cc

stored_stays :
    (ids : List Text) (id : Text) (entry : Dict)
    → get_or (codes "id") null entry ≡ str id
    → All (λ i. same id i ≡ false) ids
    → stays_all ids entry ≡ true
unfolding stays is_text
stored_stays [] id entry h ne = refl
stored_stays (i ∷ is) id entry h (e, ne) = rw (h, e) (stored_stays is id entry h ne)

module _ (h : Host) where
  new_strategy-IsStored :
      (domain id : Text) (s : Dict) → Ensures (IsStored id s) (new_strategy h domain id s)
  unfolding new_strategy get_or lookup same
  new_strategy-IsStored domain id s entry made =
      let given = get_or (codes "args") (str []) s in
      let (args, read, h₁) = >>=-eq-ok (args_of given) _ made in
      let (tokens, split, h₂) = >>=-eq-ok (shlex_split args) _ h₁ in
      let (_, _, h₃) =
        >>=-eq-ok (h.rate_text (get_or (codes "success_rate") (int (pos 0)) s)) _ h₂ in
      let (_, _, h₄) =
        >>=-eq-ok (py_int h.runtime (get_or (codes "median_latency_ms") (int (pos 0)) s)) _ h₃ in
      let (same_args, filled) = args_of-str given args read in
      subst (IsStored id s) (ok_inj h₄) (record {
        has_id = refl;
        args = args;
        given = same_args;
        stored = refl;
        not_blank = filled;
        splits = (tokens, split);
      })

  keep-everything : (old : List Dict) → keep (stays_all []) old ++ [] ≡ old
  keep-everything [] = refl
  keep-everything (d ∷ old) = ap (λ l. d ∷ l) (keep-everything old)

  -- what the loop leaves
  abbrev pub IsLoop : Text → ℕ → List Dict → List Dict → List Dict × List Dict → Type 0
  IsLoop base n old rows (left, entries) =
      (left ≡ keep (stays_all (ids_from base n rows)) old ++ entries)
      × AreStored base n rows entries

  loop-next :
      (base : Text) (n : ℕ) (old rows : List Dict) (entry : Dict) (entries : List Dict)
      → stays_all (ids_from base (suc n) rows) entry ≡ true
      → keep
            (stays_all (ids_from base (suc n) rows))
            (keep (stays (nth_id base n)) old ++ entry ∷ [])
          ++ entries
        ≡ keep (λ d. stays (nth_id base n) d && stays_all (ids_from base (suc n) rows) d) old
          ++ entry ∷ entries
  loop-next base n old rows entry entries own =
      let later = stays_all (ids_from base (suc n) rows) in
      ap (λ l. l ++ entries) (keep-append later (keep (stays (nth_id base n)) old) (entry ∷ []))
      ∙ ap (λ l. (l ++ keep later (entry ∷ [])) ++ entries)
          (keep-keep later (stays (nth_id base n)) old)
      ∙ rw own
          (append_assoc (keep (λ d. stays (nth_id base n) d && later d) old) (entry ∷ []) entries)

  pub import_from-IsLoop :
      (domain base : Text) (n : ℕ) (old rows : List Dict)
      → Ensures (IsLoop base n old rows) (import_from h domain base n old rows)
  unfolding import_from
  import_from-IsLoop domain base n old [] =
      ok-Ensures (IsLoop base n old []) (sym (keep-everything old), tt)
  import_from-IsLoop domain base n old (s ∷ rest) =
      let P = IsLoop base n old (s ∷ rest) in
      >>=-Ensures P (new_strategy h domain (nth_id base n) s) _ (λ entry made.
        let i = new_strategy-IsStored domain (nth_id base n) s entry made in
        let own =
          stored_stays (ids_from base (suc n) rest) (nth_id base n) entry i.has_id
            (later_ids base n (suc n) rest (omega arith)) in
        let next = keep (stays (nth_id base n)) old ++ entry ∷ [] in
        >>=-Ensures P (import_from h domain base (suc n) next rest) _ (λ done ran.
          let (left, stored) = import_from-IsLoop domain base (suc n) next rest done ran in
          ok-Ensures P (left ∙ loop-next base n old rest entry done.1 own, (i, stored))))
