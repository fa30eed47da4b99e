-- ===== src/Dict.antt =====
-- Python dictionaries with text keys, in the order of insertion.
use web_zapret.Base.{
  List, [], ◌∷◌, ◌≡◌, refl, sym, ap, Option, none, some, if◌then◌else◌, arith, false,
}
use web_zapret.Text.{Text, same}
use web_zapret.Text.Laws.{same_iff, same_refl}

module _ {ℓ} {V : Type ℓ} where
  -- `d.get(k)`
  unfoldable pub lookup : Text → List (Text × V) → Option V
  lookup k [] = none
  lookup k ((j, v) ∷ d) = if same j k then some v else lookup k d

  -- `d.get(k, default)`
  unfoldable pub get_or : Text → V → List (Text × V) → V
  unfolding lookup
  get_or k v d = elim (lookup k d) [ none ↦ v | some w ↦ w ]

  -- `d[k] = v`: a key keeps its place
  unfoldable pub insert : Text → V → List (Text × V) → List (Text × V)
  insert k v [] = (k, v) ∷ []
  insert k v ((j, w) ∷ d) = if same j k then (j, v) ∷ d else (j, w) ∷ insert k v d

  -- `d.pop(k, None)`, which leaves the rest
  unfoldable pub remove : Text → List (Text × V) → List (Text × V)
  remove k [] = []
  remove k ((j, w) ∷ d) = let rest = remove k d in if same j k then rest else (j, w) ∷ rest

  pub lookup-insert :
      (k j : Text) (v : V) (d : List (Text × V))
      → lookup j (insert k v d) ≡ (if same k j then some v else lookup j d)
  unfolding lookup insert
  lookup-insert k j v [] = refl
  lookup-insert k j v ((i, w) ∷ d) =
      ground (arith, same_iff k j, same_iff i k, same_iff i j, lookup-insert k j v d)

  pub lookup-remove :
      (k j : Text) (d : List (Text × V))
      → lookup j (remove k d) ≡ (if same k j then none else lookup j d)
  unfolding lookup remove
  lookup-remove k j [] = ground arith
  lookup-remove k j ((i, w) ∷ d) =
      ground (arith, same_iff k j, same_iff i k, same_iff i j, lookup-remove k j d)

  pub lookup-insert_self :
      (k : Text) (v : V) (d : List (Text × V)) → lookup k (insert k v d) ≡ some v
  lookup-insert_self k v d = simp (lookup-insert, same_refl)

  pub get_or-insert :
      (k j : Text) (u v : V) (d : List (Text × V))
      → get_or j u (insert k v d) ≡ (if same k j then v else get_or j u d)
  unfolding get_or
  get_or-insert k j u v d = ground (arith, lookup-insert k j v d)

  -- A pair at the head is found first.
  pub get_or-head : (k : Text) (u v : V) (d : List (Text × V)) → get_or k u ((k, v) ∷ d) ≡ v
  unfolding get_or lookup
  get_or-head k u v d = ground (arith, same_refl k)

  pub get_or-tail :
      (k j : Text) (u v : V) (d : List (Text × V))
      → same k j ≡ false
      → get_or j u ((k, v) ∷ d) ≡ get_or j u d
  unfolding get_or lookup
  get_or-tail k j u v d other = ground arith

  -- A key that is found is found whatever the default is.
  pub get_or-found :
      (k : Text) (u w v : V) (d : List (Text × V)) → get_or k w d ≡ v → ¬ (v ≡ w) → get_or k u d ≡ v
  unfolding get_or
  get_or-found k u w v d h found = go (lookup k d) h
    where
      go :
          (o : Option V)
          → elim o [ none ↦ w | some x ↦ x ] ≡ v
          → elim o [ none ↦ u | some x ↦ x ] ≡ v
      go none e = absurd (found (sym e))
      go (some x) e = e

  pub get_or-lookup :
      (k : Text) (w v : V) (d : List (Text × V))
      → get_or k w d ≡ v
      → ¬ (v ≡ w)
      → lookup k d ≡ some v
  unfolding get_or
  get_or-lookup k w v d h found = go (lookup k d) h
    where
      go : (o : Option V) → elim o [ none ↦ w | some x ↦ x ] ≡ v → o ≡ some v
      go none e = absurd (found (sym e))
      go (some x) e = ap (λ y. some y) e
