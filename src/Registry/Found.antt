-- ===== src/Registry/Found.antt =====
-- What is found in a list behind each of the two operations.
use web_zapret.Base.{
  ◌≡◌, refl, ap, ◌∙◌, true, false, List, [], ◌∷◌, ◌++◌, map, keep, Option, none, some,
  if◌then◌else◌, All, if_each, Bool-cases, inl, inr, arith,
}
use web_zapret.Text.{Text, codes, same, one_of}
use web_zapret.Text.Laws.{same_iff}
use web_zapret.Dict.{get_or}
use web_zapret.Value.{null, str, Dict, Runtime, py_str}
use web_zapret.Catalog.Stored.{other_id}
use web_zapret.Deletion.{is_text, stays}
use web_zapret.Registry.{find, HasText, over}

-- The test of an id that is a text.
pub is_text-same :
    (t s : Text) (d : Dict)
    → get_or (codes "id") null d ≡ str s
    → is_text t (get_or (codes "id") null d) ≡ same s t
unfolding is_text
is_text-same t s d e = ap (is_text t) e

-- Only the strategies with the deleted id are gone.
pub find-stays :
    (t sid : Text) (ds : List Dict)
    → All HasText ds
    → find t (keep (stays sid) ds) ≡ (if same t sid then none else find t ds)
unfolding find stays
find-stays t sid [] h = ground arith
find-stays t sid (d ∷ ds) ((s, e), h) = ground (
  arith,
  find-stays t sid ds h,
  is_text-same t s d e,
  is_text-same sid s d e,
  same_iff s sid,
  same_iff s t,
  same_iff t sid,
)

pub find-append : (t : Text) (xs ys : List Dict) → find t (xs ++ ys) ≡ over (find t xs) (find t ys)
unfolding find
find-append t [] ys = refl
find-append t (d ∷ xs) ys = ground (arith, find-append t xs ys)

module _ (rt : Runtime) where
  abbrev pub id_text : Dict → Text
  id_text d = py_str rt.repr (get_or (codes "id") null d)

  id_text-eq : (s : Text) (d : Dict) → get_or (codes "id") null d ≡ str s → id_text d ≡ s
  unfolding py_str
  id_text-eq s d e = ap (py_str rt.repr) e

  -- Only the strategies with one of the ids are gone.
  pub find-other :
      (t : Text) (ids : List Text) (ds : List Dict)
      → All HasText ds
      → find t (keep (other_id rt ids) ds) ≡ (if one_of t ids then none else find t ds)
  unfolding find other_id
  find-other t ids [] h = ground arith
  find-other t ids (d ∷ ds) ((s, e), h) = ground (
    arith,
    find-other t ids ds h,
    is_text-same t s d e,
    id_text-eq s d e,
    same_iff s t,
    λ (p : s ≡ t). ap (λ u. one_of u ids) p,
    ap (λ u. one_of u ids) (id_text-eq s d e),
  )

  find-unknown :
      (t : Text) (es : List Dict)
      → All HasText es
      → one_of t (map id_text es) ≡ false
      → find t es ≡ none
  unfolding find one_of
  find-unknown t [] h new = refl
  find-unknown t (d ∷ es) ((s, e), h) new = ground (
    arith,
    find-unknown t es h,
    is_text-same t s d e,
    ap (λ u. same t u) (id_text-eq s d e),
    same_iff s t,
    same_iff t s,
  )

  find-known :
      (t : Text) (es : List Dict)
      → All HasText es
      → one_of t (map id_text es) ≡ true
      → (d : Dict) × (find t es ≡ some d)
  unfolding find one_of
  find-known t [] h old = cc
  find-known t (d ∷ es) ((s, e), h) old =
      if_each (λ o. (x : Dict) × (o ≡ some x)) (is_text t (get_or (codes "id") null d))
        (λ _. (d, refl))
        (λ other. find-known t es h (
          ground (
            arith,
            is_text-same t s d e,
            ap (λ u. same t u) (id_text-eq s d e),
            same_iff s t,
            same_iff t s,
          )))

  -- The new strategies are found first.
  pub find-merged :
      (t : Text) (old es : List Dict)
      → All HasText old
      → All HasText es
      → find t (keep (other_id rt (map id_text es)) old ++ es) ≡ over (find t es) (find t old)
  find-merged t old es h k =
      find-append t (keep (other_id rt (map id_text es)) old) es
      ∙ elim (Bool-cases (one_of t (map id_text es))) [
        | inl known ↦
            let (d, e) = find-known t es k known in
            rw (find-other t (map id_text es) old h, known, e) refl
        | inr new ↦
            rw (find-other t (map id_text es) old h, new, find-unknown t es k new)
              (over-none (find t old))
      ]
    where
      over-none : (o : Option Dict) → over o none ≡ o
      over-none none = refl
      over-none (some d) = refl
